-- ===== src/Dwarf/Aranges/Sets/Alignment.antt =====
-- Where the tuples of a set of address ranges begin.
use mach_olib.Common.{
  ℕ, zero, suc, ◌+◌, ◌*◌, ◌≤◌, ◌<◌, ◌≡◌, ◌∙◌, arith, ltb, ltb→lt, ltb→le, Bool-cases, inl, inr,
}
use mach_olib.Dwarf.Aranges.Sets.{first_tuple}

-- A multiple of the size of a tuple, from the offset on, that is the first not below the header's size.
pub record IsAligned (header_size tuple_size offset result : ℕ) : Type 0 where
  pub tuples : ℕ
  pub multiple : result ≡ offset + tuples * tuple_size
  pub behind : header_size ≤ result
  pub first : result < header_size + tuple_size

later-IsAligned :
    (fuel header_size tuple_size offset : ℕ)
    → 0 < tuple_size
    → offset < header_size + tuple_size
    → header_size ≤ offset + fuel
    → IsAligned header_size tuple_size offset (first_tuple fuel header_size tuple_size offset)
unfolding first_tuple
later-IsAligned zero header_size tuple_size offset pos near enough = record {
  tuples = 0;
  multiple = omega arith;
  behind = omega arith;
  first = near;
}
later-IsAligned (suc fuel) header_size tuple_size offset pos near enough =
    elim (Bool-cases (ltb offset header_size)) [
      | inl t ↦
          let low = ltb→lt offset header_size t in
          let a =
            later-IsAligned fuel header_size tuple_size (offset + tuple_size) pos (omega arith)
              (omega arith) in
          rw t (record {
            tuples = suc a.tuples;
            multiple = a.multiple ∙ step offset tuple_size a.tuples;
            behind = a.behind;
            first = a.first;
          })
      | inr t ↦ rw t (record {
        tuples = 0;
        multiple = omega arith;
        behind = ltb→le offset header_size t;
        first = near;
      })
    ]
  where
    step : (o t n : ℕ) → (o + t) + n * t ≡ o + suc n * t
    step o t n = omega arith

-- The loop that looks for the first tuple of a set ends, with fuel for as many rounds as the header has
-- bytes, and gives the first multiple of a tuple's size, which is not 0, that is not below the header's.
pub first_tuple-IsAligned :
    (header_size tuple_size : ℕ)
    → 0 < tuple_size
    → IsAligned header_size tuple_size 0 (first_tuple header_size header_size tuple_size 0)
first_tuple-IsAligned header_size tuple_size pos =
    later-IsAligned header_size header_size tuple_size 0 pos (omega arith) (omega arith)
