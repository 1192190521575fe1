-- ===== src/Io/Dynamic/File.antt =====
-- Writes and reads of a growing stream, as those of a file.
use mach_olib.Common.{
  ℕ, ◌+◌, ◌^◌, ◌≤◌, ◌<◌, ◌≡◌, refl, sym, ap, ◌∙◌, arith, ltb, ltb→lt, ltb→le, Bool-cases, inl, inr,
  List, [], ◌∷◌, length, take,
}
use mach_olib.Io.Platform.{Platform}
use mach_olib.Io.Memory.{copy_in}
use mach_olib.Io.Memory.Laws.{length-copy_in}
use mach_olib.Io.Memory.Writing.{copy_nothing, some_bytes}
use mach_olib.Io.Dynamic.{Dynamic, end_of, grow, put, write_dynamic}
use mach_olib.Io.Dynamic.Laws.{
  IsValid, HasRoom, contents, overwrite, grow_lem, contents_past_end, contents_within,
}

module _ (p : Platform) where
  -- A block that is there is copied into.
  put-copy_in :
      (block : List ℕ) (at : ℕ) (src : List ℕ)
      → 0 < length block
      → put p block at src ≡ copy_in block at src
  unfolding put
  put-copy_in [] at src h = absurd (omega arith)
  put-copy_in (b ∷ block) at src h = refl

  past_end :
      (src : List ℕ) (s : Dynamic)
      → IsValid s
      → s.memory.position + length src < 2 ^ 63
      → HasRoom p s (s.memory.position + length src)
      → s.memory.size < s.memory.position + length src
      → let end = s.memory.position + length src in
        let g = (grow p s end).memory in
        (take end (put p g.buffer s.memory.position src)
          ≡ overwrite (contents s) s.memory.position src)
        × (length (put p g.buffer s.memory.position src) ≡ (grow p s end).reserved)
        × (end ≤ (grow p s end).reserved)
        × ((grow p s end).reserved < 2 ^ 64)
  past_end src s v small room beyond =
      let at : ℕ = s.memory.position in
      let end : ℕ = at + length src in
      let (valid, wide, same, size) = grow_lem p s end v small room in
      let block : List ℕ = (grow p s end).memory.buffer in
      rw (put-copy_in block at src (omega arith)) (
        contents_past_end block s.memory.size at src v.bound (omega arith) (omega arith)
            ∙ ap (λ n. overwrite (take n block) at src) (sym size)
            ∙ ap (λ l. overwrite l at src) same,
        length-copy_in block at src (omega arith) ∙ valid.sized,
        wide,
        valid.small,
      )

  -- As long as the end of the bytes is below 2^63 and `realloc` gives a block where it is called,
  -- `stream_dmemory::write` never writes short: the bytes go over those of the stream at the position
  -- and on past its end, the stream grows as needed and stays valid, and the position goes behind
  -- them.
  pub contents-write_dynamic :
      (src : List ℕ) (s : Dynamic)
      → IsValid s
      → s.memory.position + length src < 2 ^ 63
      → HasRoom p s (s.memory.position + length src)
      → let (n, s') = write_dynamic p src s in
        (n ≡ length src)
        × IsValid s'
        × (contents s' ≡ overwrite (contents s) s.memory.position src)
        × (s'.memory.position ≡ s.memory.position + length src)
  unfolding write_dynamic
  contents-write_dynamic [] s v small room =
      (refl, v, sym (copy_nothing (contents s) s.memory.position), omega arith)
  contents-write_dynamic (x ∷ xs) s v small room =
      let src : List ℕ = x ∷ xs in
      let at : ℕ = s.memory.position in
      let end : end_of s.memory src ≡ at + length src = omega arith in
      elim (Bool-cases (ltb s.memory.size (at + length src))) [
        | inl e ↦
            let (holds, sized, wide, below) =
              past_end src s v small room (ltb→lt s.memory.size _ e) in
            rw (some_bytes (length xs), end, e)
              (
                refl,
                record { sized = sized; fits = wide; bound = omega arith; small = below },
                holds,
                refl,
              )
        | inr e ↦
            let inside : at + length src ≤ s.memory.size = ltb→le s.memory.size _ e in
            rw (some_bytes (length xs), end, e)
              (
                refl,
                record {
                  sized = length-copy_in s.memory.buffer at src (omega arith) ∙ v.sized;
                  fits = v.fits;
                  bound = inside;
                  small = v.small;
                },
                contents_within s.memory.buffer s.memory.size at src inside (omega arith),
                refl,
              )
      ]
