-- ===== src/Io/Leb/Unsigned.antt =====
-- `read_uleb128` on a readable stream.
use mach_olib.Common.{
  ℕ, zero, suc, ◌+◌, ◌%◌, ◌^◌, ◌<◌, ◌≡◌, refl, sym, ap, ◌∙◌, arith, bit_and, ◌==◌, if◌then◌else◌,
  List, [], ◌∷◌, ◌++◌, length, length-append,
}
use mach_olib.Io.Platform.{Platform}
use mach_olib.Io.Stream.{Device, Stream, size}
use mach_olib.Io.Stream.Laws.{IsReader, rest, IsOpen, size-rest}
use mach_olib.Io.Stream.Bytes.{t_read-Reads, no_more}
use mach_olib.Io.Leb.{Locals, leb_loop, read_uleb128}
use mach_olib.Io.Leb.Groups.{leb_bytes, length-leb_bytes}
use mach_olib.Io.Leb.Loop.{leb_loop-IsDecoded, step, next, after}

module _ (p : Platform) {S : Type 0} (d : Device S) (r : IsReader d) where
  pub enough :
      (k v : ℕ) (s : Stream S) (back : List ℕ)
      → IsOpen d r s
      → rest d r s ≡ leb_bytes k v ++ back
      → k < size d s
  enough k v s back open_s e = omega (
    arith,
    size-rest d r s open_s,
    ap length e,
    length-append (leb_bytes k v) back,
    length-leb_bytes k v,
  )

  -- `read_uleb128` on a number in one to five groups of seven bits: it reads these groups and no more,
  -- returns how many bytes it read, and stores the number modulo 2^32. So a number below 2^32 comes
  -- out as it is, also with superfluous groups, and a larger one does not, though the result has 64
  -- bits.
  pub read_uleb128-value :
      (k v : ℕ) (s : Stream S) (back : List ℕ)
      → k < 5
      → v < 128 ^ suc k
      → IsOpen d r s
      → rest d r s ≡ leb_bytes k v ++ back
      → let ((chk, out), s') = read_uleb128 p d s in
        (chk ≡ k + 1)
        × (out ≡ v % 2 ^ 32)
        × (rest d r s' ≡ back)
        × (s'.encoding ≡ s.encoding)
        × IsOpen d r s'
  unfolding read_uleb128
  read_uleb128-value k v s back hk hv open_s e =
      let start : Locals = record { chk = 0; shift = 0; byte = 0; out = 0 } in
      let i =
        leb_loop-IsDecoded p d r k (size d s) 0 v start s back (enough k v s back open_s e)
          (omega arith) (omega arith) hv (omega arith) open_s e in
      (omega (arith, i.count), i.value ∙ omega arith, i.behind, i.order, i.open_still)

  stopped :
      (fuel : ℕ) (l : Locals) (s : Stream S)
      → IsOpen d r s
      → rest d r s ≡ []
      → leb_loop p d (suc fuel) l s ≡ leb_loop p d zero l s
  unfolding leb_loop
  stopped fuel l s open_s e = rw (no_more d r s open_s e)

  -- Fuel for one round per byte that is left is enough: with any more the loop does the same, so it
  -- ends by its own test, whatever the bytes are.
  pub leb_loop_ends :
      (bytes : List ℕ) (extra : ℕ) (l : Locals) (s : Stream S)
      → IsOpen d r s
      → rest d r s ≡ bytes
      → leb_loop p d (length bytes + extra) l s ≡ leb_loop p d (length bytes) l s
  leb_loop_ends [] zero l s open_s e =
      let none_left : 0 + 0 ≡ 0 = refl in ap (λ f. leb_loop p d f l s) none_left
  leb_loop_ends [] (suc extra) l s open_s e =
      let fuel : 0 + suc extra ≡ suc extra = omega arith in
      ap (λ f. leb_loop p d f l s) fuel ∙ stopped extra l s open_s e
  leb_loop_ends (b ∷ bytes) extra l s open_s e =
      let fuel : suc (length bytes) + extra ≡ suc (length bytes + extra) = omega arith in
      let one = t_read-Reads d r l.byte b bytes s open_s e in
      ap (λ f. leb_loop p d f l s) fuel
      ∙ step p d r (length bytes + extra) l s b bytes open_s e
      ∙ ap (λ t. if bit_and b 0x80 == 0 then (next p l b, after p d r l s) else t)
          (leb_loop_ends bytes extra (next p l b) (after p d r l s) one.open_still one.behind)
      ∙ sym (step p d r (length bytes) l s b bytes open_s e)
