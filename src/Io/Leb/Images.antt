-- ===== src/Io/Leb/Images.antt =====
-- Numbers below 2^32 in as few groups of seven bits as they need, and `read_uleb128` where they stand.
use mach_olib.Common.{
  ℕ, suc, ◌^◌, ◌<◌, ◌≡◌, arith, ltb, if◌then◌else◌, true, Bool-cases, inl, inr, lt→ltb, ltb→lt,
  List, ◌++◌, length,
}
use mach_olib.Io.Platform.{Platform}
use mach_olib.Io.Stream.{Device, Stream, size, position}
use mach_olib.Io.Stream.Laws.{IsReader, rest, IsOpen, size-rest}
use mach_olib.Io.Leb.{read_uleb128}
use mach_olib.Io.Leb.Groups.{leb_bytes, length-leb_bytes}
use mach_olib.Io.Leb.Unsigned.{read_uleb128-value}

-- The number of groups that a number below 2^32 needs, less one.
abbrev more_groups : ℕ → ℕ
more_groups v =
    if ltb v (2 ^ 7)
    then 0
    else if ltb v (2 ^ 14)
    then 1
    else if ltb v (2 ^ 21)
    then 2
    else if ltb v (2 ^ 28)
    then 3
    else 4

-- A number in as few groups of seven bits as it needs.
unfoldable pub uleb_image : ℕ → List ℕ
uleb_image v = leb_bytes (more_groups v) v

fits_groups : (v : ℕ) → v < 2 ^ 32 → (more_groups v < 5) × (v < 128 ^ suc (more_groups v))
fits_groups v h = elim (Bool-cases (ltb v (2 ^ 7))) [
  | inl a ↦ rw a (omega arith, omega (arith, ltb→lt v (2 ^ 7) a))
  | inr a ↦ elim (Bool-cases (ltb v (2 ^ 14))) [
    | inl b ↦ rw (a, b) (omega arith, omega (arith, ltb→lt v (2 ^ 14) b))
    | inr b ↦ elim (Bool-cases (ltb v (2 ^ 21))) [
      | inl e ↦ rw (a, b, e) (omega arith, omega (arith, ltb→lt v (2 ^ 21) e))
      | inr e ↦ elim (Bool-cases (ltb v (2 ^ 28))) [
        | inl f ↦ rw (a, b, e, f) (omega arith, omega (arith, ltb→lt v (2 ^ 28) f))
        | inr f ↦ rw (a, b, e, f) (omega arith, omega arith)
      ]
    ]
  ]
]

pub uleb_image-nonempty : (v : ℕ) → 0 < length (uleb_image v)
unfolding uleb_image
uleb_image-nonempty v = omega (arith, length-leb_bytes (more_groups v) v)

module _ (p : Platform) {S : Type 0} (d : Device S) (r : IsReader d) where
  -- A `read_uleb128` that found a number: its value, and the stream behind it.
  pub record GetsUleb (v : ℕ) (back : List ℕ) (s : Stream S) (out : (ℕ × ℕ) × Stream S)
      : Type 0 where
    pub some_read : ltb 0 out.0.0 ≡ true
    pub value : out.0.1 ≡ v
    pub behind : rest d r out.1 ≡ back
    pub order : out.1.encoding ≡ s.encoding
    pub open_still : IsOpen d r out.1

  pub read_uleb128-uleb_image :
      (v : ℕ) (back : List ℕ) (s : Stream S)
      → v < 2 ^ 32
      → IsOpen d r s
      → rest d r s ≡ uleb_image v ++ back
      → GetsUleb v back s (read_uleb128 p d s)
  unfolding uleb_image
  read_uleb128-uleb_image v back s h open_s e =
      let (few, fits) = fits_groups v h in
      let (chk, out, behind, order, still) =
        read_uleb128-value p d r (more_groups v) v s back few fits open_s e in
      record {
        some_read = lt→ltb 0 (read_uleb128 p d s).0.0 (omega (arith, chk));
        value = omega (arith, out);
        behind = behind;
        order = order;
        open_still = still;
      }

  -- Where bytes are left the stream does not stand at its end.
  pub not_at_end :
      (s : Stream S) → IsOpen d r s → 0 < length (rest d r s) → ltb (position d s) (size d s) ≡ true
  not_at_end s v h = lt→ltb (position d s) (size d s) (omega (arith, size-rest d r s v))
