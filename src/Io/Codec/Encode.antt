-- ===== src/Io/Codec/Encode.antt =====
-- The loops of `encode` against the digits of the value.
use mach_olib.Common.{
  ℕ, zero, suc, ◌+◌, ◌-◌, ◌*◌, ◌/◌, ◌%◌, ◌^◌, ◌≡◌, refl, sym, ap, ◌∙◌, arith, List, [], ◌∷◌, ◌++◌,
  set, replicate, length, length-replicate,
}
use mathlib.Core.List.{append-nil, append_assoc, reverse, reverse-append}
use mach_olib.Io.Codec.Digits.{le_bytes, next_byte, length-append_one, Snoc, snoc, last}
use mach_olib.Io.Codec.{le_fill, be_fill, le_encode, be_encode}

set-append :
    (pre : List ℕ) (x : ℕ) (post : List ℕ) (y : ℕ)
    → set (pre ++ (x ∷ post)) (length pre) y ≡ pre ++ (y ∷ post)
set-append [] x post y = refl
set-append (p ∷ pre) x post y = ap (λ t. p ∷ t) (set-append pre x post y)

-- The loop writes the digits over the rest of the union, whatever that held.
le_fill-append :
    (n v k i : ℕ) (pre post : List ℕ)
    → length pre ≡ i
    → length post ≡ k
    → le_fill n v k i (pre ++ post) ≡ pre ++ le_bytes k (v / 2 ^ (i * 8))
unfolding le_fill le_bytes
le_fill-append n v zero i pre [] hi hk = refl
le_fill-append n v zero i pre (x ∷ post) hi hk = absurd (omega arith)
le_fill-append n v (suc k) i pre [] hi hk = absurd (omega arith)
le_fill-append n v (suc k) i pre (x ∷ post) hi hk =
    let byte : ℕ = v / 2 ^ (i * 8) % 256 in
    ap (le_fill n v k (i + 1)) (
      ap (λ j. set (pre ++ (x ∷ post)) j byte) (sym hi)
      ∙ set-append pre x post byte
      ∙ sym (append_assoc pre (byte ∷ []) post))
    ∙ le_fill-append n v k (i + 1) (pre ++ (byte ∷ [])) post
        (omega (arith, length-append_one pre byte)) (omega arith)
    ∙ append_assoc pre (byte ∷ []) (le_bytes k (v / 2 ^ ((i + 1) * 8)))
    ∙ ap (λ t. pre ++ (byte ∷ le_bytes k t)) (sym (next_byte v i))

le_bytes-suc : (k w : ℕ) → le_bytes (suc k) w ≡ w % 256 ∷ le_bytes k (w / 256)
unfolding le_bytes
le_bytes-suc k w = refl

be_fill-snoc :
    (n v k i : ℕ) (pre : List ℕ) (x : ℕ) (post : List ℕ)
    → length pre ≡ k
    → n ≡ i + suc k
    → be_fill n v (suc k) i ((pre ++ (x ∷ [])) ++ post)
      ≡ be_fill n v k (i + 1) (pre ++ ((v / 2 ^ (i * 8) % 256) ∷ post))
unfolding be_fill
be_fill-snoc n v k i pre x post hk hn =
    let byte : ℕ = v / 2 ^ (i * 8) % 256 in
    let place : n - 1 - i ≡ length pre = omega arith in
    ap (be_fill n v k (i + 1)) (
      ap (λ l. set l (n - 1 - i) byte) (append_assoc pre (x ∷ []) post)
      ∙ ap (λ j. set (pre ++ (x ∷ post)) j byte) place
      ∙ set-append pre x post byte)

be_fill-append :
    (n v k i : ℕ) (pre post : List ℕ)
    → length pre ≡ k
    → n ≡ i + k
    → be_fill n v k i (pre ++ post) ≡ reverse (le_bytes k (v / 2 ^ (i * 8))) ++ post
be_fill-append n v zero i [] post hk hn = unfold be_fill le_bytes in refl
be_fill-append n v zero i (x ∷ pre) post hk hn = absurd (omega arith)
be_fill-append n v (suc k) i [] post hk hn = absurd (omega arith)
be_fill-append n v (suc k) i (x ∷ pre) post hk hn =
    go (last x pre) hk (be_fill-append n v k (i + 1))
  where
    byte : ℕ
    byte = v / 2 ^ (i * 8) % 256

    Below : Type 0
    Below =
        (pre post : List ℕ)
        → length pre ≡ k
        → n ≡ (i + 1) + k
        → be_fill n v k (i + 1) (pre ++ post) ≡ reverse (le_bytes k (v / 2 ^ ((i + 1) * 8))) ++ post

    tail : List ℕ
    tail = le_bytes k (v / 2 ^ ((i + 1) * 8))

    go :
        {zs : List ℕ}
        → Snoc zs
        → length zs ≡ suc k
        → Below
        → be_fill n v (suc k) i (zs ++ post) ≡ reverse (le_bytes (suc k) (v / 2 ^ (i * 8))) ++ post
    go (snoc zs z) h ih =
        be_fill-snoc n v k i zs z post (omega (arith, length-append_one zs z)) hn
        ∙ ih zs (byte ∷ post) (omega (arith, length-append_one zs z)) (omega arith)
        ∙ sym (append_assoc (reverse tail) (byte ∷ []) post)
        ∙ ap (λ l. l ++ post) (sym (reverse-append (byte ∷ []) tail))
        ∙ ap (λ t. reverse (byte ∷ le_bytes k t) ++ post) (sym (next_byte v i))
        ∙ ap (λ l. reverse l ++ post) (sym (le_bytes-suc k (v / 2 ^ (i * 8))))

shift_zero : (v : ℕ) → v / 2 ^ (0 * 8) ≡ v
shift_zero v = omega arith

-- `lecodec::encode` leaves the digits of the value, lowest first.
pub le_encode-bytes : (n v : ℕ) → le_encode n v ≡ le_bytes n v
unfolding le_encode
le_encode-bytes n v =
    le_fill-append n v n 0 [] (replicate n 0) refl (length-replicate n 0)
    ∙ ap (le_bytes n) (shift_zero v)

-- `becodec::encode` leaves them highest first.
pub be_encode-bytes : (n v : ℕ) → be_encode n v ≡ reverse (le_bytes n v)
unfolding be_encode
be_encode-bytes n v =
    ap (be_fill n v n 0) (sym (append-nil (replicate n 0)))
    ∙ be_fill-append n v n 0 (replicate n 0) [] (length-replicate n 0) (omega arith)
    ∙ append-nil (reverse (le_bytes n (v / 2 ^ (0 * 8))))
    ∙ ap (λ t. reverse (le_bytes n t)) (shift_zero v)
