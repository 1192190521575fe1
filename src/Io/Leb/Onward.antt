-- ===== src/Io/Leb/Onward.antt =====
-- `read_uleb128` and `read_sleb128` on a readable stream that holds any bytes.
use mach_olib.Common.{
  ℕ, zero, suc, ◌+◌, bit_and, bit_or, ◌==◌, ltb, if◌then◌else◌, Bool-cases, inl, inr, ◌<◌, ◌≡◌,
  refl, ap, arith, List, [], ◌∷◌, length,
}
use mach_olib.Io.Platform.{Platform}
use mach_olib.Io.Stream.{Device, Stream, w8, size, position, t_read}
use mach_olib.Io.Stream.Laws.{IsReader, rest, IsOpen, size-rest}
use mach_olib.Io.Stream.Bytes.{t_read-Reads, no_more}
use mach_olib.Io.Stream.Onward.{
  IsOnward, refl-IsOnward, trans-IsOnward, t_read-IsOnward, size-onward,
}
use mach_olib.Io.Leb.Loop.{next, after, step}
use mach_olib.Io.Leb.{Locals, leb_loop, group, read_uleb128, read_sleb128}

module _ (p : Platform) {S : Type 0} (d : Device S) (r : IsReader d) where
  leb_loop-IsOnward :
      (fuel : ℕ) (l : Locals) (s : Stream S)
      → IsOpen d r s
      → IsOnward d r s (leb_loop p d fuel l s).1
  unfolding leb_loop
  leb_loop-IsOnward zero l s v = refl-IsOnward d r s v
  leb_loop-IsOnward (suc fuel) l s v =
      let one = t_read-IsOnward d r w8 l.byte s v in
      let b : ℕ = (t_read d w8 l.byte s).0.1 in
      let n : ℕ = (t_read d w8 l.byte s).0.0 in
      let l' : Locals = record {
        chk = if ltb 0 n then l.chk + 1 else l.chk;
        shift = l.shift + 7;
        byte = b;
        out = bit_or l.out (group p b l.shift);
      } in
      let again =
        trans-IsOnward d r one
          (leb_loop-IsOnward fuel l' (t_read d w8 l.byte s).1 one.open_still) in
      elim (Bool-cases (ltb (position d s) (size d s))) [
        | inl e ↦ elim (Bool-cases (bit_and b 0x80 == 0)) [
          | inl e' ↦ rw (e, e') one
          | inr e' ↦ rw (e, e') again
        ]
        | inr e ↦ rw e (refl-IsOnward d r s v)
      ]

  pub read_uleb128-IsOnward : (s : Stream S) → IsOpen d r s → IsOnward d r s (read_uleb128 p d s).1
  unfolding read_uleb128
  read_uleb128-IsOnward s v =
      leb_loop-IsOnward (size d s) (record { chk = 0; shift = 0; byte = 0; out = 0 }) s v

  pub read_sleb128-IsOnward : (s : Stream S) → IsOpen d r s → IsOnward d r s (read_sleb128 p d s).1
  unfolding read_sleb128
  read_sleb128-IsOnward s v =
      leb_loop-IsOnward (size d s) (record { chk = 0; shift = 0; byte = 0; out = 0 }) s v

  -- Where a byte is left it takes one at least.
  pub read_uleb128_moves :
      (s : Stream S) (b : ℕ) (back : List ℕ)
      → IsOpen d r s
      → rest d r s ≡ b ∷ back
      → position d s < position d (read_uleb128 p d s).1
  unfolding read_uleb128
  read_uleb128_moves s b back v e = by_size (size d s) refl
    where
      start : Locals
      start = record { chk = 0; shift = 0; byte = 0; out = 0 }

      by_size : (n : ℕ) → size d s ≡ n → position d s < position d (leb_loop p d n start s).1
      by_size zero h = absurd (omega (arith, size-rest d r s v, ap length e))
      by_size (suc n) h =
          let one = t_read-Reads d r 0 b back s v e in
          let moved : position d s < position d (after p d r start s) = omega (
            arith,
            size-rest d r s v,
            size-rest d r (after p d r start s) one.open_still,
            size-onward d r v (t_read-IsOnward d r w8 0 s v),
            ap length e,
            ap length one.behind,
          ) in
          let later = leb_loop-IsOnward n (next p start b) (after p d r start s) one.open_still in
          rw (step p d r n start s b back v e) (elim (Bool-cases (bit_and b 0x80 == 0)) [
            | inl e' ↦ rw e' moved
            | inr e' ↦ rw e' (omega (arith, moved, later.forward))
          ])

  -- Where none is left it takes nothing, and gives 0.
  pub read_uleb128_end :
      (s : Stream S) → IsOpen d r s → rest d r s ≡ [] → read_uleb128 p d s ≡ ((0, 0), s)
  unfolding read_uleb128
  read_uleb128_end s v e =
      ap (λ (out : Locals × Stream S). ((out.0.chk, out.0.out), out.1)) (by_size (size d s))
    where
      start : Locals
      start = record { chk = 0; shift = 0; byte = 0; out = 0 }

      by_size : (n : ℕ) → leb_loop p d n start s ≡ (start, s)
      by_size zero = unfold leb_loop in refl
      by_size (suc n) = unfold leb_loop in rw (no_more d r s v e)
