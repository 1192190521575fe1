-- ===== src/Dwarf/Aranges/Lookup.antt =====
-- Which ranges a lookup finds.
use mach_olib.Common.{
  Bool, ℕ, ◌+◌, ◌-◌, ◌≤◌, ◌<◌, ◌≡◌, ◌≢◌, refl, sym, ap, ◌∙◌, arith, ◌==◌, if◌then◌else◌, Bool-cases,
  inl, inr, Option, none, some, List, get_elem?, length, IsSorted, lower_bound, get-lt, get-some,
  some-injective, none-some, subst, lower_bound_unique, sorted_le, true, false,
}
use mach_olib.Dwarf.Aranges.{Range, contains, range_at, get_ranges_by}

abbrev end_of : Range → ℕ
end_of r = r.end

-- The ranges of the table do not overlap: each begins where those with a smaller index have ended.
abbrev pub Disjoint : List Range → Type 0
Disjoint ranges =
    (i j : ℕ) (x y : Range)
    → get_elem? ranges i ≡ some x
    → get_elem? ranges j ≡ some y
    → i < j
    → x.end ≤ y.begin

pub record Contains (r : Range) (address : ℕ) : Type 0 where
  pub from : r.begin ≤ address
  pub below : address < r.end

contains-inside : (r : Range) (address : ℕ) → Contains r address → contains r address ≡ true
unfolding contains
contains-inside r address c = ground (arith, c.from, c.below)

contains_sound : (r : Range) (address : ℕ) → contains r address ≡ true → Contains r address
unfolding contains
contains_sound r address e = record { from = ground arith; below = ground arith }

range_at-Contains :
    (ranges : List Range) (it address : ℕ) (r : Range)
    → range_at ranges it address ≡ some r
    → Contains r address
unfolding range_at
range_at-Contains ranges it address r e = go (get_elem? ranges it) e
  where
    go :
        (o : Option Range)
        → elim o [ none ↦ none | some x ↦ if contains x address then some x else none ] ≡ some r
        → Contains r address
    go none e = absurd (none-some e)
    go (some x) e = elim (Bool-cases (contains x address)) [
      | inl t ↦
          subst (λ y. Contains y address)
            (some-injective (ap (λ b. if b then some x else none) (sym t) ∙ e))
            (contains_sound x address t)
      | inr t ↦ absurd (none-some (ap (λ b. if b then some x else none) (sym t) ∙ e))
    ]

range_at_outside :
    (ranges : List Range) (it address : ℕ) (x : Range)
    → get_elem? ranges it ≡ some x
    → ¬ (Contains x address)
    → range_at ranges it address ≡ none
unfolding range_at
range_at_outside ranges it address x e outside = elim (Bool-cases (contains x address)) [
  | inl t ↦ absurd (outside (contains_sound x address t))
  | inr t ↦
      ap (λ o. elim o [ none ↦ none | some r ↦ if contains r address then some r else none ]) e
      ∙ ap (λ b. if b then some x else none) t
]

-- In a table sorted by the ends of its ranges, which do not overlap, the lookup of an address that
-- lies in a range, and at which no range ends, finds that range.
pub get_ranges_by-Contains :
    (ranges : List Range) (i address : ℕ) (r : Range)
    → IsSorted end_of ranges
    → Disjoint ranges
    → get_elem? ranges i ≡ some r
    → Contains r address
    → ((j : ℕ) (x : Range) → get_elem? ranges j ≡ some x → x.end ≢ address)
    → get_ranges_by ranges address ≡ some r
unfolding get_ranges_by range_at
get_ranges_by-Contains ranges i address r s d e c no_end =
    let found : lower_bound end_of address ranges ≡ i =
      lower_bound_unique end_of address ranges i r e (omega (arith, c.below))
        (λ j z f h. omega (arith, d j i z r f e h, c.from, no_end j z f)) in
    let inside : (i == length ranges) ≡ false = differ i (length ranges) (get-lt ranges i r e) in
    rw (found, inside, e, contains-inside r address c) refl
  where
    differ : (a b : ℕ) → a < b → (a == b) ≡ false
    differ a b h = ground arith

-- A range that a lookup gives contains the address, in any table.
pub get_ranges_by_sound :
    (ranges : List Range) (address : ℕ) (r : Range)
    → get_ranges_by ranges address ≡ some r
    → Contains r address
unfolding get_ranges_by
get_ranges_by_sound ranges address r e =
    let it : ℕ = lower_bound end_of address ranges in
    by_place (it == length ranges) (range_at ranges it address) e
      (range_at-Contains ranges it address r)
  where
    by_place :
        (b : Bool) (o : Option Range)
        → (if b then none else elim o [
          | some x ↦ some x
          | none ↦
              range_at ranges
                (if lower_bound end_of address ranges == 0
                  then lower_bound end_of address ranges
                  else lower_bound end_of address ranges - 1)
                address
        ])
          ≡ some r
        → (o ≡ some r → Contains r address)
        → Contains r address
    by_place true o e here = absurd (none-some e)
    by_place false none e here = range_at-Contains ranges _ address r e
    by_place false (some x) e here = here e

-- In a table sorted by the ends of its ranges, which do not overlap, the lookup of the first address
-- of a range finds nothing, if the range before it is not empty and ends there.
pub get_ranges_by_boundary :
    (ranges : List Range) (i : ℕ) (x y : Range)
    → IsSorted end_of ranges
    → Disjoint ranges
    → get_elem? ranges i ≡ some x
    → get_elem? ranges (i + 1) ≡ some y
    → x.begin < x.end
    → x.end ≡ y.begin
    → get_ranges_by ranges y.begin ≡ none
unfolding get_ranges_by
get_ranges_by_boundary ranges i x y s d e f full meet =
    let it : ℕ = lower_bound end_of y.begin ranges in
    let found : it ≡ i =
      lower_bound_unique end_of y.begin ranges i x e (omega arith)
        (λ j z g h. omega (arith, d j i z x g e h)) in
    let none_to : (k : ℕ) → k ≤ i → range_at ranges k y.begin ≡ none = (λ k h.
      let (z, g) = get-some ranges k (omega (arith, get-lt ranges i x e)) in
      range_at_outside ranges k y.begin z g
        (λ c. omega (arith, c.below, sorted_le end_of ranges k i z x s g e h))) in
    elim (Bool-cases (it == length ranges)) [
      | inl t ↦ rw t refl
      | inr t ↦ rw (t, none_to it (omega arith)) (none_to _ (before it i found))
    ]
  where
    before : (it i : ℕ) → it ≡ i → (if it == 0 then it else it - 1) ≤ i
    before it i e = ground arith
