-- ===== src/Macho/Symbols/Lookup.antt =====
-- What a lookup by address finds in a sorted symbol table, and what an insertion does to one.
use mach_olib.Common.{
  ℕ, ◌+◌, ◌-◌, ◌%◌, ◌^◌, ◌≤◌, ◌<◌, ◌≡◌, refl, ap, ◌∙◌, arith, ◌==◌, true, not, ◌&&◌, Bool-cases,
  inl, inr, some, List, length, get_elem?, IsSorted, upper_bound, partition_point-le,
  upper_bound_below, upper_bound_at, ltb, ltb→lt, ltb→le, ◌⊎◌, subst, sorted_le, get-lt, get-some,
}
use mach_olib.Macho.Symbols.{Symbol, invalid_symbol_idx, symbol_idx_first_at_range}

abbrev address_of : Symbol → ℕ
address_of s = s.address

-- The symbol at `i` begins at or before the address, and the one behind it begins behind the address.
pub record Covers (symbols : List Symbol) (address i : ℕ) : Type 0 where
  pub here : Symbol
  pub behind : Symbol
  pub here_at : get_elem? symbols i ≡ some here
  pub behind_at : get_elem? symbols (i + 1) ≡ some behind
  pub starts : here.address ≤ address
  pub ends : address < behind.address

upper_bound-Covers :
    (symbols : List Symbol) (address i : ℕ)
    → IsSorted address_of symbols
    → Covers symbols address i
    → upper_bound address_of address symbols ≡ i + 1
upper_bound-Covers symbols address i s c =
    let it : ℕ = upper_bound address_of address symbols in
    elim (Bool-cases (ltb it (i + 1))) [
      | inl early ↦
          let (z, e) =
            get-some symbols it
              (omega (arith, ltb→lt it (i + 1) early, get-lt symbols i c.here c.here_at)) in
          absurd (
            omega (
              arith,
              upper_bound_at address_of address symbols z e,
              sorted_le address_of symbols it i z c.here s e c.here_at
                  (omega (arith, ltb→lt it (i + 1) early)),
              c.starts,
            ))
      | inr t ↦ elim (Bool-cases (ltb (i + 1) it)) [
        | inl late ↦ absurd (
            omega (
              arith,
              upper_bound_below address_of address symbols (i + 1) c.behind c.behind_at
                  (ltb→lt (i + 1) it late),
              c.ends,
            ))
        | inr u ↦ omega (arith, ltb→le it (i + 1) t, ltb→le (i + 1) it u)
      ]
    ]

-- In a sorted table of fewer than 2 ^ 32 symbols, the lookup of an address gives the index of the
-- symbol that covers it: the one that begins at or before the address while the next begins behind it.
pub lookup-Covers :
    (symbols : List Symbol) (address i : ℕ)
    → length symbols < 2 ^ 32
    → IsSorted address_of symbols
    → Covers symbols address i
    → symbol_idx_first_at_range address symbols ≡ i
unfolding symbol_idx_first_at_range
lookup-Covers symbols address i small s c =
    let inside = get-lt symbols (i + 1) c.behind c.behind_at in
    rw (upper_bound-Covers symbols address i s c) (ground arith)

inner : (it n : ℕ) → it ≤ n → (not (it == n) && not (it == 0)) ≡ true → (0 < it) × (it < n)
inner it n h e = ground arith

before_bound-Covers :
    (symbols : List Symbol) (address : ℕ)
    → let it = upper_bound address_of address symbols in
      length symbols < 2 ^ 32
      → 0 < it
      → it < length symbols
      → Covers symbols address ((it - 1) % 2 ^ 32)
before_bound-Covers symbols address small pos inside =
    let it : ℕ = upper_bound address_of address symbols in
    let (y, e) = get-some symbols it inside in
    let (x, f) = get-some symbols (it - 1) (omega arith) in
    subst (Covers symbols address) (same it small pos inside) (record {
      here = x;
      behind = y;
      here_at = f;
      behind_at = ap (get_elem? symbols) (omega arith) ∙ e;
      starts = upper_bound_below address_of address symbols (it - 1) x f (omega arith);
      ends = upper_bound_at address_of address symbols y e;
    })
  where
    same :
        (it : ℕ)
        → length symbols < 2 ^ 32
        → 0 < it
        → it < length symbols
        → it - 1 ≡ (it - 1) % 2 ^ 32
    same it h p q = omega arith

-- In a sorted table of fewer than 2 ^ 32 symbols, the lookup of an address either gives the value for
-- "no symbol" or the index of a symbol that covers the address.
pub lookup_found :
    (symbols : List Symbol) (address : ℕ)
    → length symbols < 2 ^ 32
    → IsSorted address_of symbols
    → (symbol_idx_first_at_range address symbols ≡ invalid_symbol_idx)
      ⊎ Covers symbols address (symbol_idx_first_at_range address symbols)
unfolding symbol_idx_first_at_range
lookup_found symbols address small _ =
    let it : ℕ = upper_bound address_of address symbols in
    elim (Bool-cases (not (it == length symbols) && not (it == 0))) [
      | inr e ↦ rw e (inl refl)
      | inl e ↦
          let b = inner it (length symbols) (partition_point-le _ symbols) e in
          rw e (inr (before_bound-Covers symbols address small b.0 b.1))
    ]
