-- ===== src/Dwarf/Ranges/Lookup.antt =====
-- Which addresses a range list contains, and which list a lookup by offset finds.
use mach_olib.Common.{
  ℕ, zero, suc, ◌+◌, ◌%◌, ◌^◌, ◌≤◌, ◌<◌, ◌≡◌, refl, sym, ap, ◌∙◌, arith, ◌==◌, ==_iff,
  if◌then◌else◌, true, false, false≢true, Bool-cases, inl, inr, Option, none, some, none-some,
  some-injective, List, [], ◌∷◌, get_elem?, IsSorted, lower_bound, lower_bound_unique,
}
use mach_olib.Dwarf.Ranges.{Entry, entry_contains, RangeSet, any_contains, get_range_by}

-- The address lies between the ends of the entry, both moved by the base address in 64 bits.
pub record Within (base address : ℕ) (e : Entry) : Type 0 where
  pub from : (base + e.start_address) % 2 ^ 64 ≤ address
  pub below : address < (base + e.end_address) % 2 ^ 64

Within-entry_contains :
    (base address : ℕ) (e : Entry) → Within base address e → entry_contains base address e ≡ true
unfolding entry_contains
Within-entry_contains base address e w = ground (arith, w.from, w.below)

entry-Within :
    (base address : ℕ) (e : Entry) → entry_contains base address e ≡ true → Within base address e
unfolding entry_contains
entry-Within base address e h = record { from = ground arith; below = ground arith }

-- Some entry of the list contains the address.
pub record Somewhere (base address : ℕ) (es : List Entry) : Type 0 where
  pub index : ℕ
  pub entry : Entry
  pub there : get_elem? es index ≡ some entry
  pub within : Within base address entry

-- `containsAddress` says so of a list exactly where one of its entries contains the address.
pub any_contains-Somewhere :
    (base address : ℕ) (es : List Entry)
    → (any_contains base address es ≡ true → Somewhere base address es)
      × (Somewhere base address es → any_contains base address es ≡ true)
unfolding any_contains
any_contains-Somewhere base address [] =
    ((λ h. absurd (false≢true h)), (λ w. absurd (none-some w.there)))
any_contains-Somewhere base address (e ∷ es) =
    let rest = any_contains-Somewhere base address es in
    elim (Bool-cases (entry_contains base address e)) [
      | inl t ↦ rw t (
        (λ h. record {
          index = 0;
          entry = e;
          there = refl;
          within = entry-Within base address e t;
        }),
        (λ w. refl),
      )
      | inr t ↦ rw t (
        (λ h.
            let w = rest.0 h in
            record { index = suc w.index; entry = w.entry; there = w.there; within = w.within }),
        (λ w. rest.1 (behind w.index w t)),
      )
    ]
  where
    behind :
        (i : ℕ) (w : Somewhere base address (e ∷ es))
        → entry_contains base address e ≡ false
        → Somewhere base address es
    behind i w t = go w.index w.there
      where
        go : (i : ℕ) → get_elem? (e ∷ es) i ≡ some w.entry → Somewhere base address es
        go zero f = absurd (
            false≢true (
              sym t
              ∙ ap (entry_contains base address) (some-injective f)
              ∙ Within-entry_contains base address w.entry w.within))
        go (suc i) f = record { index = i; entry = w.entry; there = f; within = w.within }

abbrev offset_of : RangeSet → ℕ
offset_of s = s.offset

-- In a table sorted by offset, the lookup of the offset of a set finds the first set with that offset.
pub get_range_by_first :
    (table : List RangeSet) (i : ℕ) (set : RangeSet)
    → IsSorted offset_of table
    → get_elem? table i ≡ some set
    → ((j : ℕ) (z : RangeSet) → get_elem? table j ≡ some z → j < i → z.offset < set.offset)
    → get_range_by set.offset table ≡ some set
unfolding get_range_by
get_range_by_first table i set s e first =
    let found : lower_bound offset_of set.offset table ≡ i =
      lower_bound_unique offset_of set.offset table i set e (omega arith) first in
    ap (λ k. chosen set.offset (get_elem? table k)) found
    ∙ ap (chosen set.offset) e
    ∙ ap (λ b. if b then some set else none) ((==_iff set.offset set.offset).1 refl)
  where
    chosen : ℕ → Option RangeSet → Option RangeSet
    chosen offset o = elim o [ none ↦ none | some z ↦ if z.offset == offset then some z else none ]
