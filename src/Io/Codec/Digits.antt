-- ===== src/Io/Codec/Digits.antt =====
-- The positional notation of numbers in base 256, which the codecs of io/ implement.
use mach_olib.Common.{
  ℕ, zero, suc, ◌+◌, ◌*◌, ◌/◌, ◌%◌, ◌^◌, ◌<◌, ◌≡◌, refl, ap, ◌∙◌, arith, List, [], ◌∷◌, ◌++◌,
  length, length-append, All, append-All,
}
use mathlib.Core.List.{reverse, reverse-append}
use native.Mathlib.Nat.{div-div-eq-div-mul}
use native.Mathlib.Numerals.{towards_suc}

abbrev pub IsByte : ℕ → Type 0
IsByte b = b < 256

-- The digits of `v` in base 256, lowest first, and the number that digits stand for.
unfoldable pub le_bytes : ℕ → ℕ → List ℕ
le_bytes zero v = []
le_bytes (suc n) v = v % 256 ∷ le_bytes n (v / 256)

unfoldable pub le_value : List ℕ → ℕ
le_value [] = 0
le_value (b ∷ bs) = b + 256 * le_value bs

pub length-le_bytes : (n v : ℕ) → length (le_bytes n v) ≡ n
unfolding le_bytes
length-le_bytes zero v = refl
length-le_bytes (suc n) v = ap suc (length-le_bytes n (v / 256))

pub le_bytes-IsByte : (n v : ℕ) → All IsByte (le_bytes n v)
unfolding le_bytes
le_bytes-IsByte zero v = tt
le_bytes-IsByte (suc n) v = (omega arith, le_bytes-IsByte n (v / 256))

pub pow_eight : (i : ℕ) → 2 ^ ((i + 1) * 8) ≡ 256 * 2 ^ (i * 8)
pow_eight i = ap (λ (e : ℕ). 2 ^ e) (step i) ∙ eight (i * 8)
  where
    step : (i : ℕ) → (i + 1) * 8 ≡ i * 8 + 8
    step i = omega arith

    eight : (s : ℕ) → 2 ^ (s + 8) ≡ 256 * 2 ^ s
    eight s = simp towards_suc (omega arith)

pub next_byte : (v i : ℕ) → v / 2 ^ (i * 8) / 256 ≡ v / 2 ^ ((i + 1) * 8)
next_byte v i =
    div-div-eq-div-mul v (2 ^ (i * 8)) 256 ∙ ap (λ (t : ℕ). v / t) (omega (arith, pow_eight i))

pub length-append_one : (pre : List ℕ) (x : ℕ) → length (pre ++ (x ∷ [])) ≡ length pre + 1
length-append_one pre x = omega (arith, length-append pre (x ∷ []))

-- A list that is not empty, by its last element.
pub data Snoc : List ℕ → Type 0 where
  snoc : (pre : List ℕ) (x : ℕ) → Snoc (pre ++ (x ∷ []))

pub last : (x : ℕ) (xs : List ℕ) → Snoc (x ∷ xs)
last x [] = snoc [] x
last x (y ∷ ys) = go (last y ys)
  where
    go : {zs : List ℕ} → Snoc zs → Snoc (x ∷ zs)
    go (snoc pre z) = snoc (x ∷ pre) z

pub le_value-lt : (bs : List ℕ) → All IsByte bs → le_value bs < 2 ^ (length bs * 8)
unfolding le_value
le_value-lt [] h = omega arith
le_value-lt (b ∷ bs) h =
    omega
      (arith, le_value-lt bs h.1, pow_eight (length bs), ap (λ (e : ℕ). 2 ^ (e * 8)) (one_more bs))
  where
    one_more : (bs : List ℕ) → suc (length bs) ≡ length bs + 1
    one_more bs = omega arith

pub le_value-le_bytes : (n v : ℕ) → v < 2 ^ (n * 8) → le_value (le_bytes n v) ≡ v
unfolding le_value le_bytes
le_value-le_bytes zero v h = omega arith
le_value-le_bytes (suc n) v h =
    let e : suc n ≡ n + 1 = omega arith in
    let p : 2 ^ (suc n * 8) ≡ 256 * 2 ^ (n * 8) = ap (λ (t : ℕ). 2 ^ (t * 8)) e ∙ pow_eight n in
    omega (arith, le_value-le_bytes n (v / 256) (omega arith))

pub le_bytes-le_value : (bs : List ℕ) → All IsByte bs → le_bytes (length bs) (le_value bs) ≡ bs
unfolding le_value le_bytes
le_bytes-le_value [] h = refl
le_bytes-le_value (b ∷ bs) h =
    let low : (b + 256 * le_value bs) % 256 ≡ b = omega arith in
    let high : (b + 256 * le_value bs) / 256 ≡ le_value bs = omega arith in
    rw (low, high) (ap (λ t. b ∷ t) (le_bytes-le_value bs h.1))

pub reverse-IsByte : (bs : List ℕ) → All IsByte bs → All IsByte (reverse bs)
reverse-IsByte [] h = tt
reverse-IsByte (b ∷ bs) h =
    rw (reverse-append (b ∷ []) bs)
      (append-All IsByte (reverse bs) (b ∷ []) (reverse-IsByte bs h.1) (h.0, tt))

pub length-reverse : (bs : List ℕ) → length (reverse bs) ≡ length bs
length-reverse [] = refl
length-reverse (b ∷ bs) =
    ap length (reverse-append (b ∷ []) bs)
    ∙ omega (arith, length-append_one (reverse bs) b, length-reverse bs)
