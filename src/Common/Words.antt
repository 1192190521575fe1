-- ===== src/Common/Words.antt =====
-- The bitwise operations of the code as arithmetic: `or` of disjoint bits is a sum, and a mask of
-- low bits is a remainder.
use Prim.Native.Nat.{
  ℕ, zero, suc, ◌+◌, ◌-◌, ◌*◌, ◌/◌, ◌%◌, ◌^◌, ◌≤◌, ◌<◌, max, bit_and, bit_or, digits,
  bit_or-bitwise,
}
use mathlib.Core.Path.{◌≡◌, refl, sym, ap, ◌∙◌}
use mathlib.Core.Bool.{Bool, true, ◌&&◌}
use native.Mathlib.Nat.{pow-suc}
use native.Mathlib.Omega.{arith}
use mathlib.Core.Logic.{inl, inr}
use mach_olib.Common.Tests.{◌==◌, ==_iff, Bool-cases}

abbrev or_digits : ℕ → ℕ → ℕ → ℕ
or_digits n a b = digits (λ c. c) max n a b

-- One unit of fuel above a number that is not below the first argument changes nothing.
or_digits_more : (fuel x y : ℕ) → x ≤ fuel → or_digits (suc fuel) x y ≡ or_digits fuel x y
or_digits_more zero zero y small = refl
or_digits_more (suc fuel) zero y small = refl
or_digits_more zero (suc x) y small = absurd (omega arith)
or_digits_more (suc fuel) (suc x) y small =
    let half : ℕ = suc x / 2 in
    ap (λ (t : ℕ). t * 2 + max (suc x % 2) (y % 2)) (or_digits_more fuel half (y / 2) (omega arith))

or_digits_plenty : (extra x y : ℕ) → or_digits (extra + x) x y ≡ or_digits x x y
or_digits_plenty zero x y = let e : 0 + x ≡ x = omega arith in ap (λ k. or_digits k x y) e
or_digits_plenty (suc extra) x y =
    let e : suc extra + x ≡ suc (extra + x) = omega arith in
    ap (λ k. or_digits k x y) e
    ∙ or_digits_more (extra + x) x y (omega arith)
    ∙ or_digits_plenty extra x y

pub zero-bit_or : (b : ℕ) → bit_or 0 b ≡ b
zero-bit_or b = bit_or-bitwise 0 b

-- The lowest bits are joined, and the rest.
pub bit_or_step : (a b : ℕ) → bit_or a b ≡ bit_or (a / 2) (b / 2) * 2 + max (a % 2) (b % 2)
bit_or_step zero b = omega (arith, zero-bit_or b, zero-bit_or (b / 2))
bit_or_step (suc a) b =
    let half : ℕ = suc a / 2 in
    let enough : a ≡ (a - half) + half = omega arith in
    bit_or-bitwise (suc a) b
    ∙ ap (λ (t : ℕ). t * 2 + max (suc a % 2) (b % 2))
        (ap (λ k. or_digits k half (b / 2)) enough
          ∙ or_digits_plenty (a - half) half (b / 2)
          ∙ sym (bit_or-bitwise half (b / 2)))

half_shift : (b k : ℕ) → (b * 2 ^ suc k) / 2 ≡ b * 2 ^ k
half_shift b k = omega (arith, ap (λ (t : ℕ). b * t) (pow-suc 2 k))

low_shift : (b k : ℕ) → (b * 2 ^ suc k) % 2 ≡ 0
low_shift b k = omega (arith, ap (λ (t : ℕ). b * t) (pow-suc 2 k))

-- `a | (b << k)` is a sum where `a` has at most `k` bits.
pub bit_or-shift : (k a b : ℕ) → a < 2 ^ k → bit_or a (b * 2 ^ k) ≡ a + b * 2 ^ k
bit_or-shift zero zero b h = omega (arith, zero-bit_or (b * 2 ^ 0))
bit_or-shift zero (suc a) b h = absurd (omega arith)
bit_or-shift (suc k) a b h = omega (
  arith,
  bit_or_step a (b * 2 ^ suc k),
  half_shift b k,
  low_shift b k,
  ap (λ t. bit_or (a / 2) t) (half_shift b k),
  bit_or-shift k (a / 2) b (omega (arith, pow-suc 2 k)),
  pow-suc 2 k,
)

-- A test on all the numbers under a bound, by evaluation, and what it says of each of them.
unfoldable pub holds_below : (ℕ → Bool) → ℕ → Bool
holds_below test zero = true
holds_below test (suc bound) = holds_below test bound && test bound

pub holds_below_at :
    (test : ℕ → Bool) (bound : ℕ)
    → holds_below test bound ≡ true
    → (v : ℕ) → v < bound
    → test v ≡ true
unfolding holds_below
holds_below_at test zero all v small = absurd (omega arith)
holds_below_at test (suc bound) all v small = elim (Bool-cases (v == bound)) [
  | inl last ↦ ap test ((==_iff v bound).0 last) ∙ ground (arith, all)
  | inr before ↦ holds_below_at test bound (ground (arith, all)) v (ground (arith, before, small))
]

low_bits_table : holds_below (λ b. bit_and b 0x7f == b % 128) 256 ≡ true
unfolding holds_below
low_bits_table = refl

pub low_bits : (b : ℕ) → b < 256 → bit_and b 0x7f ≡ b % 128
low_bits b h = (==_iff _ _).0 (holds_below_at _ 256 low_bits_table b h)

top_bit_table : holds_below (λ b. bit_and b 0x80 == b / 128 * 128) 256 ≡ true
unfolding holds_below
top_bit_table = refl

pub top_bit : (b : ℕ) → b < 256 → bit_and b 0x80 ≡ b / 128 * 128
top_bit b h = (==_iff _ _).0 (holds_below_at _ 256 top_bit_table b h)

nibble_table : holds_below (λ b. bit_and b 0xf == b % 16) 256 ≡ true
unfolding holds_below
nibble_table = refl

pub nibble : (b : ℕ) → b < 256 → bit_and b 0xf ≡ b % 16
nibble b h = (==_iff _ _).0 (holds_below_at _ 256 nibble_table b h)

sign_bit_table : holds_below (λ b. bit_and b 0x40 == b / 64 % 2 * 64) 256 ≡ true
unfolding holds_below
sign_bit_table = refl

pub sign_bit : (b : ℕ) → b < 256 → bit_and b 0x40 ≡ b / 64 % 2 * 64
sign_bit b h = (==_iff _ _).0 (holds_below_at _ 256 sign_bit_table b h)
