-- ===== src/Io/Leb/Signed.antt =====
-- `read_sleb128` on a readable stream.
use mach_olib.Common.{
  ℕ, zero, suc, ◌+◌, ◌-◌, ◌*◌, ◌/◌, ◌^◌, ◌<◌, ◌≡◌, ◌∙◌, arith, bit_and, bit_or, bit_or-shift,
  sign_bit, ◌==◌, ltb, lt→ltb, not, ◌&&◌, if◌then◌else◌, true, Bool-cases, inl, inr, List, ◌++◌,
}
use mach_olib.Io.Platform.{Platform}
use mach_olib.Io.Stream.{Device, Stream, size}
use mach_olib.Io.Stream.Laws.{IsReader, rest, IsOpen}
use mach_olib.Io.Leb.{Locals, sign_bits, leb_loop, read_sleb128}
use mach_olib.Io.Leb.Groups.{leb_bytes, top_group}
use mach_olib.Io.Leb.Loop.{leb_loop-IsDecoded}
use mach_olib.Io.Leb.Unsigned.{enough}

-- The 64 bits of the integer that `k + 1` groups stand for in two's complement.
abbrev pub extended : ℕ → ℕ → ℕ
extended k v = if ltb v (64 * 128 ^ k) then v else v + (2 ^ 64 - 128 * 128 ^ k)

sign_of :
    (k v : ℕ)
    → k < 4
    → v < 128 ^ suc k
    → not (bit_and (top_group k v) 0x40 == 0) ≡ not (ltb v (64 * 128 ^ k))
unfolding top_group
sign_of zero v hk hv = ground (arith, sign_bit v)
sign_of (suc zero) v hk hv = ground (arith, sign_bit (v / 128))
sign_of (suc (suc zero)) v hk hv = ground (arith, sign_bit (v / 128 / 128))
sign_of (suc (suc (suc zero))) v hk hv = ground (arith, sign_bit (v / 128 / 128 / 128))
sign_of (suc (suc (suc (suc k)))) v hk hv = absurd (omega arith)

fill_sign :
    (p : Platform) (k v : ℕ)
    → k < 4
    → v < 128 ^ suc k
    → bit_or v (sign_bits p ((k + 1) * 7)) ≡ v + (2 ^ 64 - 128 * 128 ^ k)
unfolding sign_bits
fill_sign p zero v hk hv = bit_or-shift 7 v (2 ^ 57 - 1) hv
fill_sign p (suc zero) v hk hv = bit_or-shift 14 v (2 ^ 50 - 1) hv
fill_sign p (suc (suc zero)) v hk hv = bit_or-shift 21 v (2 ^ 43 - 1) hv
fill_sign p (suc (suc (suc zero))) v hk hv = bit_or-shift 28 v (2 ^ 36 - 1) hv
fill_sign p (suc (suc (suc (suc k)))) v hk hv = absurd (omega arith)

below : (k v : ℕ) → k < 4 → v < 128 ^ suc k → v < 2 ^ 28
below zero v hk hv = omega arith
below (suc zero) v hk hv = omega arith
below (suc (suc zero)) v hk hv = omega arith
below (suc (suc (suc zero))) v hk hv = omega arith
below (suc (suc (suc (suc k)))) v hk hv = absurd (omega arith)

-- What the function stores after its loop.
finish : Platform → ℕ → ℕ → ℕ → ℕ
finish p shift byte out =
    if ltb shift 64 && not (bit_and byte 0x40 == 0) then bit_or out (sign_bits p shift) else out

finish-extended :
    (p : Platform) (k v : ℕ)
    → k < 4
    → v < 128 ^ suc k
    → finish p ((k + 1) * 7) (top_group k v) v ≡ extended k v
unfolding finish
finish-extended p k v hk hv =
    let room : ltb ((k + 1) * 7) 64 ≡ true = lt→ltb ((k + 1) * 7) 64 (omega arith) in
    elim (Bool-cases (ltb v (64 * 128 ^ k))) [
      | inl e ↦ rw (room, sign_of k v hk hv, e)
      | inr e ↦ rw (room, sign_of k v hk hv, e) (fill_sign p k v hk hv)
    ]

module _ (p : Platform) {S : Type 0} (d : Device S) (r : IsReader d) where
  -- `read_sleb128` on an integer in one to four groups of seven bits: it reads these groups and no
  -- more, returns how many bytes it read, and stores the integer that the groups stand for in two's
  -- complement, extended to 64 bits.
  pub read_sleb128-value :
      (k v : ℕ) (s : Stream S) (back : List ℕ)
      → k < 4
      → v < 128 ^ suc k
      → IsOpen d r s
      → rest d r s ≡ leb_bytes k v ++ back
      → let ((chk, out), s') = read_sleb128 p d s in
        (chk ≡ k + 1)
        × (out ≡ extended k v)
        × (rest d r s' ≡ back)
        × (s'.encoding ≡ s.encoding)
        × IsOpen d r s'
  unfolding read_sleb128 finish
  read_sleb128-value k v s back hk hv open_s e =
      let start : Locals = record { chk = 0; shift = 0; byte = 0; out = 0 } in
      let i =
        leb_loop-IsDecoded p d r k (size d s) 0 v start s back (enough p d r k v s back open_s e)
          (omega arith) (omega arith) hv (omega arith) open_s e in
      let value : (leb_loop p d (size d s) start s).0.out ≡ v =
        omega (arith, i.value, below k v hk hv) in
      let width : (leb_loop p d (size d s) start s).0.shift ≡ (k + 1) * 7 =
        omega (arith, i.width) in
      (
        omega (arith, i.count),
        (λ j. finish p (width j) (i.top j) (value j)) ∙ finish-extended p k v hk hv,
        i.behind,
        i.order,
        i.open_still,
      )
