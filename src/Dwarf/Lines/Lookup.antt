-- ===== src/Dwarf/Lines/Lookup.antt =====
-- Which row a lookup by address finds.
use mach_olib.Common.{
  ℕ, ◌+◌, ◌-◌, ◌%◌, ◌^◌, ◌<◌, ◌≡◌, ap, ◌∙◌, arith, ltb, if◌then◌else◌, Option, none, some, List,
  get_elem?, length, IsSorted, lower_bound, lower_bound_unique, get-lt, sorted_le,
}
use mach_olib.Dwarf.Lines.{Row, bad_row_idx, lookup_address}

abbrev address_of : Row → ℕ
address_of r = r.address

-- The index that the code makes of a position and of the row there.
abbrev row_for : ℕ → List Row → ℕ → Option Row → ℕ
row_for address rows pos o = elim o [
  | none ↦ bad_row_idx
  | some row ↦
      if ltb address row.address
      then (if ltb 0 (pos % 2 ^ 32) then pos % 2 ^ 32 - 1 else bad_row_idx)
      else pos % 2 ^ 32
]

-- In a table of fewer than 2 ^ 32 rows, sorted by address, the lookup of an address that some row has
-- gives the first of the rows that have it.
pub lookup_address_exact :
    (rows : List Row) (i : ℕ) (x : Row)
    → length rows < 2 ^ 32
    → IsSorted address_of rows
    → get_elem? rows i ≡ some x
    → ((j : ℕ) (z : Row) → get_elem? rows j ≡ some z → j < i → z.address < x.address)
    → lookup_address x.address rows ≡ i
unfolding lookup_address
lookup_address_exact rows i x small s e first =
    let found : lower_bound address_of x.address rows ≡ i =
      lower_bound_unique address_of x.address rows i x e (omega arith) first in
    ap (λ pos. row_for x.address rows pos (get_elem? rows pos)) found
    ∙ ap (row_for x.address rows i) e
    ∙ at_row i (length rows) x.address (get-lt rows i x e) small
  where
    at_row :
        (i n a : ℕ)
        → i < n
        → n < 2 ^ 32
        → (if ltb a a
            then (if ltb 0 (i % 2 ^ 32) then i % 2 ^ 32 - 1 else bad_row_idx)
            else i % 2 ^ 32)
          ≡ i
    at_row i n a h k = ground arith

-- In a table of fewer than 2 ^ 32 rows, sorted by address, the lookup of an address between those of
-- two neighbouring rows gives the earlier of the two.
pub lookup_address_between :
    (rows : List Row) (i address : ℕ) (x y : Row)
    → length rows < 2 ^ 32
    → IsSorted address_of rows
    → get_elem? rows i ≡ some x
    → get_elem? rows (i + 1) ≡ some y
    → x.address < address
    → address < y.address
    → lookup_address address rows ≡ i
unfolding lookup_address
lookup_address_between rows i address x y small s e f above below =
    let found : lower_bound address_of address rows ≡ i + 1 =
      lower_bound_unique address_of address rows (i + 1) y f (omega arith)
        (λ j z g h. omega (arith, sorted_le address_of rows j i z x s g e (omega arith))) in
    ap (λ pos. row_for address rows pos (get_elem? rows pos)) found
    ∙ ap (row_for address rows (i + 1)) f
    ∙ before_row i (length rows) address y.address (get-lt rows (i + 1) y f) small below
  where
    before_row :
        (i n a b : ℕ)
        → i + 1 < n
        → n < 2 ^ 32
        → a < b
        → (if ltb a b
            then (if ltb 0 ((i + 1) % 2 ^ 32) then (i + 1) % 2 ^ 32 - 1 else bad_row_idx)
            else (i + 1) % 2 ^ 32)
          ≡ i
    before_row i n a b h k l = ground arith
