-- ===== src/Io/Dynamic/Laws.antt =====
-- A growing stream refines a file: bytes, a position, and a write that goes over the bytes at the
-- position and on past the end.
use mach_olib.Common.{
  ℕ, ◌+◌, ◌-◌, ◌*◌, ◌%◌, ◌^◌, ◌≤◌, ◌<◌, ◌≡◌, refl, sym, ap, ◌∙◌, arith, ltb, ltb→lt, ltb→le,
  Bool-cases, inl, inr, some, List, ◌++◌, length, take, drop, take-take, length-take, take-append,
  take-append_more, drop-take, drop-length,
}
use mathlib.Core.List.{append-nil}
use mach_olib.Io.Platform.{Platform}
use mach_olib.Io.Memory.{copy_in}
use mach_olib.Io.Dynamic.{Dynamic, grow}

pub record IsValid (s : Dynamic) : Type 0 where
  pub sized : length s.memory.buffer ≡ s.reserved
  pub fits : s.memory.size ≤ s.reserved
  pub bound : s.memory.position ≤ s.memory.size
  pub small : s.reserved < 2 ^ 64

-- The bytes of the stream, without what is reserved behind them.
abbrev pub contents : Dynamic → List ℕ
contents s = take s.memory.size s.memory.buffer

-- Bytes written over others from `at` on, which may go past their end.
abbrev pub overwrite : List ℕ → ℕ → List ℕ → List ℕ
overwrite old at src = take at old ++ (src ++ drop (at + length src) old)

pub length-contents : (s : Dynamic) → IsValid s → length (contents s) ≡ s.memory.size
length-contents s v = omega (arith, length-take s.memory.size s.memory.buffer)

module _ (p : Platform) where
  -- Where the block is too small for a write up to `end`, there is memory for the one that the code asks
  -- for.
  abbrev pub HasRoom : Dynamic → ℕ → Type 0
  HasRoom s end =
      s.reserved < end
      → (block : List ℕ) × (p.realloc s.memory.buffer (end * 2 % 2 ^ 64) ≡ some block)

  -- Growing keeps the bytes of the stream, and makes room for the write.
  pub grow_lem :
      (s : Dynamic) (end : ℕ)
      → IsValid s
      → end < 2 ^ 63
      → HasRoom s end
      → IsValid (grow p s end)
        × (end ≤ (grow p s end).reserved)
        × (contents (grow p s end) ≡ contents s)
        × ((grow p s end).memory.size ≡ s.memory.size)
  unfolding grow
  grow_lem s end v h room =
      let wider : end * 2 % 2 ^ 64 ≡ end * 2 = omega arith in
      elim (Bool-cases (ltb s.reserved end)) [
        | inl e ↦
            let (block, given) = room (ltb→lt s.reserved end e) in
            rw (e, given)
              (
                record {
                  sized = p.length-realloc s.memory.buffer (end * 2 % 2 ^ 64) block given;
                  fits = omega (arith, ltb→lt s.reserved end e);
                  bound = v.bound;
                  small = omega arith;
                },
                omega arith,
                p.take-realloc s.memory.buffer (end * 2 % 2 ^ 64) block s.memory.size given
                    (omega arith) (omega (arith, ltb→lt s.reserved end e)),
                refl,
              )
        | inr e ↦ rw e (v, ltb→le s.reserved end e, refl, refl)
      ]

  pub position-grow : (s : Dynamic) (end : ℕ) → (grow p s end).memory.position ≡ s.memory.position
  unfolding grow
  position-grow s end = ground arith

-- A block in which `src` was put at `at`, seen up to its new end or up to its old one.
pub contents_past_end :
    (block : List ℕ) (size at : ℕ) (src : List ℕ)
    → at ≤ size
    → size ≤ at + length src
    → at + length src ≤ length block
    → take (at + length src) (copy_in block at src) ≡ overwrite (take size block) at src
contents_past_end block size at src low high fits =
    let front : List ℕ = take at block in
    let e : length front ≡ at = omega (arith, length-take at block) in
    let n : ℕ = at + length src in
    let left : n - length front ≡ length src = omega arith in
    take-append_more n front (src ++ drop n block) (omega arith)
    ∙ ap (λ k. front ++ take k (src ++ drop n block)) left
    ∙ ap (λ l. front ++ l) (take-append src (drop n block) (length src) refl)
    ∙ sym (
        ap (λ l. l ++ (src ++ drop n (take size block))) (take-take at size block low)
        ∙ ap (λ l. front ++ (src ++ l))
            (drop-length n (take size block) (omega (arith, length-take size block)))
        ∙ ap (λ l. front ++ l) (append-nil src))

pub contents_within :
    (block : List ℕ) (size at : ℕ) (src : List ℕ)
    → at + length src ≤ size
    → size ≤ length block
    → take size (copy_in block at src) ≡ overwrite (take size block) at src
contents_within block size at src inside fits =
    let front : List ℕ = take at block in
    let e : length front ≡ at = omega (arith, length-take at block) in
    let n : ℕ = at + length src in
    let left : size - length front - length src ≡ size - n = omega arith in
    take-append_more size front (src ++ drop n block) (omega arith)
    ∙ ap (λ l. front ++ l) (take-append_more (size - length front) src (drop n block) (omega arith))
    ∙ ap (λ k. front ++ (src ++ take k (drop n block))) left
    ∙ sym (
        ap (λ l. l ++ (src ++ drop n (take size block))) (take-take at size block (omega arith))
        ∙ ap (λ l. front ++ (src ++ l)) (drop-take n size block))
