-- ===== src/Io/Codec/Decode.antt =====
-- The loops of `decode` against the value of the digits.
use mach_olib.Common.{
  ℕ, zero, suc, ◌+◌, ◌-◌, ◌*◌, ◌^◌, ◌<◌, ◌≡◌, refl, sym, ap, ◌∙◌, arith, bit_or, bit_or-shift, List,
  [], ◌∷◌, ◌++◌, get_or, length, All, All-append,
}
use mathlib.Core.List.{append-nil, append_assoc, reverse, reverse-append}
use mach_olib.Io.Codec.Digits.{IsByte, le_value, pow_eight, length-append_one, Snoc, snoc, last}
use mach_olib.Io.Codec.{le_join, be_join, le_decode, be_decode}

get_or-append :
    (pre : List ℕ) (x : ℕ) (post : List ℕ) → get_or (pre ++ (x ∷ post)) (length pre) 0 ≡ x
get_or-append [] x post = refl
get_or-append (p ∷ pre) x post = get_or-append pre x post

-- Shifting a digit in behind `i` digits adds it at its place.
join_digit :
    (i b tmp : ℕ) → tmp < 2 ^ (i * 8) → bit_or tmp (b * 2 ^ (i * 8)) ≡ tmp + b * 2 ^ (i * 8)
join_digit i b tmp h = bit_or-shift (i * 8) tmp b h

join_bound :
    (i b tmp : ℕ) → IsByte b → tmp < 2 ^ (i * 8) → tmp + b * 2 ^ (i * 8) < 2 ^ ((i + 1) * 8)
join_bound i b tmp hb ht = grind (arith, pow_eight i)

le_join-append :
    (n k i tmp : ℕ) (pre post : List ℕ)
    → length pre ≡ i
    → length post ≡ k
    → All IsByte post
    → tmp < 2 ^ (i * 8)
    → le_join n (pre ++ post) k i tmp ≡ tmp + le_value post * 2 ^ (i * 8)
unfolding le_join le_value
le_join-append n zero i tmp pre [] hi hk hb ht = omega arith
le_join-append n zero i tmp pre (x ∷ post) hi hk hb ht = absurd (omega arith)
le_join-append n (suc k) i tmp pre [] hi hk hb ht = absurd (omega arith)
le_join-append n (suc k) i tmp pre (x ∷ post) hi hk hb ht =
    let sum : ℕ = tmp + x * 2 ^ (i * 8) in
    ap (le_join n (pre ++ (x ∷ post)) k (i + 1)) (
      ap (λ j. bit_or tmp (get_or (pre ++ (x ∷ post)) j 0 * 2 ^ (i * 8))) (sym hi)
      ∙ ap (λ b. bit_or tmp (b * 2 ^ (i * 8))) (get_or-append pre x post)
      ∙ join_digit i x tmp ht)
    ∙ ap (λ l. le_join n l k (i + 1) sum) (sym (append_assoc pre (x ∷ []) post))
    ∙ le_join-append n k (i + 1) sum (pre ++ (x ∷ [])) post (omega (arith, length-append_one pre x))
        (omega arith) hb.1 (join_bound i x tmp hb.0 ht)
    ∙ omega (arith, ap (λ (t : ℕ). le_value post * t) (pow_eight i))

be_join-snoc :
    (n k i tmp : ℕ) (zs : List ℕ) (z : ℕ) (post : List ℕ)
    → length zs ≡ k
    → n ≡ i + suc k
    → tmp < 2 ^ (i * 8)
    → be_join n ((zs ++ (z ∷ [])) ++ post) (suc k) i tmp
      ≡ be_join n (zs ++ (z ∷ post)) k (i + 1) (tmp + z * 2 ^ (i * 8))
unfolding be_join
be_join-snoc n k i tmp zs z post hk hn ht =
    let place : n - 1 - i ≡ length zs = omega arith in
    ap (λ l. be_join n l (suc k) i tmp) (append_assoc zs (z ∷ []) post)
    ∙ ap (be_join n (zs ++ (z ∷ post)) k (i + 1)) (
        ap (λ j. bit_or tmp (get_or (zs ++ (z ∷ post)) j 0 * 2 ^ (i * 8))) place
        ∙ ap (λ b. bit_or tmp (b * 2 ^ (i * 8))) (get_or-append zs z post)
        ∙ join_digit i z tmp ht)

le_value-reverse :
    (zs : List ℕ) (z : ℕ) → le_value (reverse (zs ++ (z ∷ []))) ≡ z + 256 * le_value (reverse zs)
unfolding le_value
le_value-reverse zs z = ap le_value (reverse-append zs (z ∷ []))

be_join-append :
    (n k i tmp : ℕ) (pre post : List ℕ)
    → length pre ≡ k
    → n ≡ i + k
    → All IsByte pre
    → tmp < 2 ^ (i * 8)
    → be_join n (pre ++ post) k i tmp ≡ tmp + le_value (reverse pre) * 2 ^ (i * 8)
be_join-append n zero i tmp [] post hk hn hb ht = unfold be_join le_value in omega arith
be_join-append n zero i tmp (x ∷ pre) post hk hn hb ht = absurd (omega arith)
be_join-append n (suc k) i tmp [] post hk hn hb ht = absurd (omega arith)
be_join-append n (suc k) i tmp (x ∷ pre) post hk hn hb ht =
    go (last x pre) hk hb (be_join-append n k (i + 1))
  where
    Below : Type 0
    Below =
        (tmp : ℕ) (pre post : List ℕ)
        → length pre ≡ k
        → n ≡ (i + 1) + k
        → All IsByte pre
        → tmp < 2 ^ ((i + 1) * 8)
        → be_join n (pre ++ post) k (i + 1) tmp ≡ tmp + le_value (reverse pre) * 2 ^ ((i + 1) * 8)

    go :
        {zs : List ℕ}
        → Snoc zs
        → length zs ≡ suc k
        → All IsByte zs
        → Below
        → be_join n (zs ++ post) (suc k) i tmp ≡ tmp + le_value (reverse zs) * 2 ^ (i * 8)
    go (snoc zs z) h bytes ih =
        let shorter : length zs ≡ k = omega (arith, length-append_one zs z) in
        let (front, back) = All-append IsByte zs (z ∷ []) bytes in
        be_join-snoc n k i tmp zs z post shorter hn ht
        ∙ ih (tmp + z * 2 ^ (i * 8)) zs (z ∷ post) shorter (omega arith) front
            (join_bound i z tmp back.0 ht)
        ∙ omega (
          arith,
          ap (λ (t : ℕ). le_value (reverse zs) * t) (pow_eight i),
          ap (λ (t : ℕ). t * 2 ^ (i * 8)) (le_value-reverse zs z),
        )

-- `lecodec::decode` reads the union as digits, lowest first.
pub le_decode-value :
    (n : ℕ) (buffer : List ℕ)
    → length buffer ≡ n
    → All IsByte buffer
    → le_decode n buffer ≡ le_value buffer
unfolding le_decode
le_decode-value n buffer hn hb =
    le_join-append n n 0 0 [] buffer refl hn hb (omega arith) ∙ omega arith

-- `becodec::decode` reads it as digits, highest first.
pub be_decode-value :
    (n : ℕ) (buffer : List ℕ)
    → length buffer ≡ n
    → All IsByte buffer
    → be_decode n buffer ≡ le_value (reverse buffer)
unfolding be_decode
be_decode-value n buffer hn hb =
    ap (λ l. be_join n l n 0 0) (sym (append-nil buffer))
    ∙ be_join-append n n 0 0 buffer [] hn (omega arith) hb (omega arith)
    ∙ omega arith
