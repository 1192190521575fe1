-- ===== src/Io/Leb/Groups.antt =====
-- Numbers in groups of seven bits, and the loop that reads them.
use mach_olib.Common.{
  ℕ, zero, suc, ◌+◌, ◌*◌, ◌/◌, ◌%◌, ◌^◌, ◌≤◌, ◌<◌, ◌≡◌, refl, ap, ◌∙◌, arith, bit_and, bit_or,
  bit_or-shift, low_bits, List, [], ◌∷◌, length,
}
use native.Mathlib.Nat.{div-add-mod}
use native.Mathlib.Numerals.{towards_suc}
use mach_olib.Io.Platform.{Platform}
use mach_olib.Io.Leb.{group}

-- `v` in `k + 1` groups, lowest first, each but the last with the top bit set.
unfoldable pub leb_bytes : ℕ → ℕ → List ℕ
leb_bytes zero v = v ∷ []
leb_bytes (suc k) v = (v % 128 + 128) ∷ leb_bytes k (v / 128)

pub length-leb_bytes : (k v : ℕ) → length (leb_bytes k v) ≡ suc k
unfolding leb_bytes
length-leb_bytes zero v = refl
length-leb_bytes (suc k) v = ap suc (length-leb_bytes k (v / 128))

pub pow_seven : (j : ℕ) → 2 ^ ((j + 1) * 7) ≡ 128 * 2 ^ (j * 7)
pow_seven j = ap (λ (e : ℕ). 2 ^ e) (step j) ∙ seven (j * 7)
  where
    step : (j : ℕ) → (j + 1) * 7 ≡ j * 7 + 7
    step j = omega arith

    seven : (s : ℕ) → 2 ^ (s + 7) ≡ 128 * 2 ^ s
    seven s = simp towards_suc (omega arith)

-- Joining the group of a byte at its place, for the five places that 32 bits have.
pub join_group :
    (p : Platform) (j b out : ℕ)
    → j < 5
    → b < 256
    → out < 2 ^ (j * 7)
    → bit_or out (group p b (j * 7)) ≡ (out + b % 128 * 2 ^ (j * 7)) % 2 ^ 32
unfolding group
join_group p zero b out hj hb ho =
    let place : bit_and b 0x7f * 2 ^ 0 % 2 ^ 32 ≡ b % 128 % 2 ^ 32 * 2 ^ 0 =
      omega (arith, low_bits b hb) in
    ap (bit_or out) place ∙ bit_or-shift 0 out (b % 128 % 2 ^ 32) ho ∙ omega arith
join_group p (suc zero) b out hj hb ho =
    let place : bit_and b 0x7f * 2 ^ 7 % 2 ^ 32 ≡ b % 128 % 2 ^ 25 * 2 ^ 7 =
      omega (arith, low_bits b hb) in
    ap (bit_or out) place ∙ bit_or-shift 7 out (b % 128 % 2 ^ 25) ho ∙ omega arith
join_group p (suc (suc zero)) b out hj hb ho =
    let place : bit_and b 0x7f * 2 ^ 14 % 2 ^ 32 ≡ b % 128 % 2 ^ 18 * 2 ^ 14 =
      omega (arith, low_bits b hb) in
    ap (bit_or out) place ∙ bit_or-shift 14 out (b % 128 % 2 ^ 18) ho ∙ omega arith
join_group p (suc (suc (suc zero))) b out hj hb ho =
    let place : bit_and b 0x7f * 2 ^ 21 % 2 ^ 32 ≡ b % 128 % 2 ^ 11 * 2 ^ 21 =
      omega (arith, low_bits b hb) in
    ap (bit_or out) place ∙ bit_or-shift 21 out (b % 128 % 2 ^ 11) ho ∙ omega arith
join_group p (suc (suc (suc (suc zero)))) b out hj hb ho =
    let place : bit_and b 0x7f * 2 ^ 28 % 2 ^ 32 ≡ b % 128 % 2 ^ 4 * 2 ^ 28 =
      omega (arith, low_bits b hb) in
    ap (bit_or out) place ∙ bit_or-shift 28 out (b % 128 % 2 ^ 4) ho ∙ omega arith
join_group p (suc (suc (suc (suc (suc j))))) b out hj hb ho = absurd (omega arith)

joined-lt : (q out g : ℕ) → out < q → g < 128 → out + g * q < 128 * q
joined-lt q out g h k = grind arith

pow_small : (j : ℕ) → j < 4 → 2 ^ (j * 7) ≤ 2 ^ 21
pow_small zero h = omega arith
pow_small (suc zero) h = omega arith
pow_small (suc (suc zero)) h = omega arith
pow_small (suc (suc (suc zero))) h = omega arith
pow_small (suc (suc (suc (suc j)))) h = absurd (omega arith)

-- An inner group does not reach the end of the 32 bits.
pub join_inner :
    (p : Platform) (j v out : ℕ)
    → j < 4
    → out < 2 ^ (j * 7)
    → (bit_or out (group p (v % 128 + 128) (j * 7)) ≡ out + v % 128 * 2 ^ (j * 7))
      × (out + v % 128 * 2 ^ (j * 7) < 2 ^ ((j + 1) * 7))
join_inner p j v out hj ho =
    let below : out + v % 128 * 2 ^ (j * 7) < 128 * 2 ^ (j * 7) =
      joined-lt (2 ^ (j * 7)) out (v % 128) ho (omega arith) in
    let low : (v % 128 + 128) % 128 ≡ v % 128 = omega arith in
    (
      join_group p j (v % 128 + 128) out (omega arith) (omega arith) ho
          ∙ ap (λ g. (out + g * 2 ^ (j * 7)) % 2 ^ 32) low
          ∙ omega (arith, below, pow_small j hj),
      omega (arith, below, pow_seven j),
    )

-- The lowest group and the rest, each at its place.
pub split_group : (v j : ℕ) → v * 2 ^ (j * 7) ≡ v % 128 * 2 ^ (j * 7) + v / 128 * 2 ^ ((j + 1) * 7)
split_group v j = omega (
  arith,
  ap (λ (t : ℕ). t * 2 ^ (j * 7)) (div-add-mod v 128),
  ap (λ (t : ℕ). v / 128 * t) (pow_seven j),
)

-- The last group of `v`, with the bits above it.
unfoldable pub top_group : ℕ → ℕ → ℕ
top_group zero v = v
top_group (suc k) v = top_group k (v / 128)
