-- ===== src/Io/Leb/Loop.antt =====
-- The loop of `read_uleb128` and `read_sleb128` on a readable stream.
use mach_olib.Common.{
  ℕ, zero, suc, ◌+◌, ◌*◌, ◌/◌, ◌%◌, ◌^◌, ◌<◌, ◌≡◌, refl, ap, ◌∙◌, arith, bit_and, bit_or, top_bit,
  ◌==◌, if◌then◌else◌, true, false, List, ◌∷◌, ◌++◌,
}
use native.Mathlib.Nat.{pow-suc}
use mach_olib.Io.Platform.{Platform}
use mach_olib.Io.Stream.{Device, Stream, w8, t_read}
use mach_olib.Io.Stream.Laws.{IsReader, rest, IsOpen}
use mach_olib.Io.Stream.Bytes.{t_read-Reads, more}
use mach_olib.Io.Leb.{Locals, group, leb_loop}
use mach_olib.Io.Leb.Groups.{leb_bytes, top_group, join_group, join_inner, split_group}

-- The locals after a round that reads `b`.
pub next : Platform → Locals → ℕ → Locals
next p l b = record {
  chk = l.chk + 1;
  shift = l.shift + 7;
  byte = b;
  out = bit_or l.out (group p b l.shift);
}

module _ (p : Platform) {S : Type 0} (d : Device S) (r : IsReader d) where
  -- After the loop: `k + 1` groups were read and joined at place `j` and above, in 32 bits.
  pub record IsDecoded (k j v : ℕ) (back : List ℕ) (l : Locals) (s : Stream S)
      (out : Locals × Stream S) : Type 0 where
    pub count : out.0.chk ≡ l.chk + (k + 1)
    pub width : out.0.shift ≡ (j + k + 1) * 7
    pub top : out.0.byte ≡ top_group k v
    pub value : out.0.out ≡ (l.out + v * 2 ^ (j * 7)) % 2 ^ 32
    pub behind : rest d r out.1 ≡ back
    pub order : out.1.encoding ≡ s.encoding
    pub open_still : IsOpen d r out.1

  -- The state after one byte.
  abbrev pub after : Locals → Stream S → Stream S
  after l s = (t_read d w8 l.byte s).1

  pub step :
      (fuel : ℕ) (l : Locals) (s : Stream S) (b : ℕ) (back : List ℕ)
      → IsOpen d r s
      → rest d r s ≡ b ∷ back
      → leb_loop p d (suc fuel) l s ≡ (
          if bit_and b 0x80 == 0
          then (next p l b, after l s)
          else leb_loop p d fuel (next p l b) (after l s))
  unfolding leb_loop next
  step fuel l s b back v e =
      let one = t_read-Reads d r l.byte b back s v e in
      rw (one.count, one.byte, more d r s b back v e)

  last_step :
      (fuel j v : ℕ) (l : Locals) (s : Stream S) (back : List ℕ)
      → l.shift ≡ j * 7
      → j < 5
      → v < 128
      → l.out < 2 ^ (j * 7)
      → IsOpen d r s
      → rest d r s ≡ v ∷ back
      → IsDecoded zero j v back l s (leb_loop p d (suc fuel) l s)
  unfolding next top_group
  last_step fuel j v l s back hs hj hv ho open_s e =
      let one = t_read-Reads d r l.byte v back s open_s e in
      let low : (bit_and v 0x80 == 0) ≡ true = ground (arith, top_bit v) in
      rw (step fuel l s v back open_s e, low)
        (record {
          count = omega arith;
          width = omega arith;
          top = refl;
          value =
              ap (λ k. bit_or l.out (group p v k)) hs
              ∙ join_group p j v l.out hj (omega arith) ho
              ∙ ap (λ g. (l.out + g * 2 ^ (j * 7)) % 2 ^ 32) (small v hv);
          behind = one.behind;
          order = one.order;
          open_still = one.open_still;
        })
    where
      small : (v : ℕ) → v < 128 → v % 128 ≡ v
      small v h = omega arith

  inner_step :
      (fuel k j v : ℕ) (l : Locals) (s : Stream S) (back : List ℕ)
      → l.shift ≡ j * 7
      → j + suc k < 5
      → l.out < 2 ^ (j * 7)
      → IsOpen d r s
      → rest d r s ≡ (v % 128 + 128) ∷ (leb_bytes k (v / 128) ++ back)
      → ((l' : Locals) (s' : Stream S)
          → l'.shift ≡ (j + 1) * 7
          → l'.out < 2 ^ ((j + 1) * 7)
          → IsOpen d r s'
          → rest d r s' ≡ leb_bytes k (v / 128) ++ back
          → IsDecoded k (j + 1) (v / 128) back l' s' (leb_loop p d fuel l' s'))
      → IsDecoded (suc k) j v back l s (leb_loop p d (suc fuel) l s)
  unfolding next top_group
  inner_step fuel k j v l s back hs hj ho open_s e ih =
      let b : ℕ = v % 128 + 128 in
      let one = t_read-Reads d r l.byte b (leb_bytes k (v / 128) ++ back) s open_s e in
      let high : (bit_and b 0x80 == 0) ≡ false = ground (arith, top_bit b) in
      let (joined, below) = join_inner p j v l.out (omega arith) ho in
      let out : bit_or l.out (group p b l.shift) ≡ l.out + v % 128 * 2 ^ (j * 7) =
        ap (λ t. bit_or l.out (group p b t)) hs ∙ joined in
      let rec =
        ih (next p l b) (after l s) (omega arith) (omega (arith, out, below)) one.open_still
          one.behind in
      rw (step fuel l s b (leb_bytes k (v / 128) ++ back) open_s e, high)
        (record {
          count = omega (arith, rec.count);
          width = omega (arith, rec.width);
          top = rec.top;
          value = rec.value ∙ ap (λ (t : ℕ). t % 2 ^ 32) (omega (arith, out, split_group v j));
          behind = rec.behind;
          order = rec.order ∙ one.order;
          open_still = rec.open_still;
        })

  -- The loop reads the groups of `v` and joins them to what it has, where they fit five groups.
  pub leb_loop-IsDecoded :
      (k fuel j v : ℕ) (l : Locals) (s : Stream S) (back : List ℕ)
      → k < fuel
      → l.shift ≡ j * 7
      → j + k < 5
      → v < 128 ^ suc k
      → l.out < 2 ^ (j * 7)
      → IsOpen d r s
      → rest d r s ≡ leb_bytes k v ++ back
      → IsDecoded k j v back l s (leb_loop p d fuel l s)
  unfolding leb_bytes
  leb_loop-IsDecoded k zero j v l s back hf hs hj hv ho open_s e = absurd (omega arith)
  leb_loop-IsDecoded zero (suc fuel) j v l s back hf hs hj hv ho open_s e =
      last_step fuel j v l s back hs (omega arith) (omega arith) ho open_s e
  leb_loop-IsDecoded (suc k) (suc fuel) j v l s back hf hs hj hv ho open_s e =
      inner_step fuel k j v l s back hs hj ho open_s e (λ l' s' hs' ho' open_s' e'.
        leb_loop-IsDecoded k fuel (j + 1) (v / 128) l' s' back (omega arith) hs' (omega arith)
          (omega (arith, pow-suc 128 (suc k))) ho' open_s' e')
