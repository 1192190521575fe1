-- ===== src/Common/Search.antt =====
-- The searches of `<algorithm>` that the code makes in sorted vectors, as the index of the element
-- they find: that of the end, if there is none. A vector that is not sorted has no specified result.
use Prim.Native.Nat.{ℕ, zero, suc, ◌≤◌, ◌<◌}
use mathlib.Core.Path.{◌≡◌, refl, sym, ap, ◌∙◌, subst}
use mathlib.Core.Logic.{inl, inr}
use mathlib.Core.Bool.{Bool, true, false, not, false≢true}
use mathlib.Core.Option.{Option, none, some}
use mathlib.Core.List.{List, [], ◌∷◌}
use native.Mathlib.Omega.{arith}
use mach_olib.Common.Tests.{ltb, if◌then◌else◌, Bool-cases, ltb→lt, ltb→le}
use mach_olib.Common.Lists.{length, get_elem?, All}

module _ {ℓ} {A : Type ℓ} where
  is_some : Option A → Bool
  is_some none = false
  is_some (some a) = true

  pub none-some : {a : A} → none ≡ some a → ⊥
  unfolding is_some
  none-some e = false≢true (ap is_some e)

  pub some-injective : {a b : A} → some a ≡ some b → a ≡ b
  some-injective {a = a} e = ap (λ o. elim o [ none ↦ a | some c ↦ c ]) e

  -- How many elements stand before the first for which the test fails.
  unfoldable pub partition_point : (A → Bool) → List A → ℕ
  partition_point p [] = 0
  partition_point p (x ∷ xs) = let behind = partition_point p xs in if p x then suc behind else 0

  pub get-lt : (xs : List A) (i : ℕ) (x : A) → get_elem? xs i ≡ some x → i < length xs
  get-lt [] i x e = absurd (none-some e)
  get-lt (y ∷ xs) zero x e = omega arith
  get-lt (y ∷ xs) (suc i) x e = omega (arith, get-lt xs i x e)

  pub get-some : (xs : List A) (i : ℕ) → i < length xs → (x : A) × get_elem? xs i ≡ some x
  get-some [] i h = absurd (omega arith)
  get-some (y ∷ xs) zero h = (y, refl)
  get-some (y ∷ xs) (suc i) h = get-some xs i (omega arith)

  pub get-none : (xs : List A) (i : ℕ) → length xs ≤ i → get_elem? xs i ≡ none
  get-none [] i h = refl
  get-none (y ∷ xs) zero h = absurd (omega arith)
  get-none (y ∷ xs) (suc i) h = get-none xs i (omega arith)

  pub All-get_elem? {κ} :
      (P : A → Type κ) (xs : List A) (i : ℕ) (x : A) → All P xs → get_elem? xs i ≡ some x → P x
  All-get_elem? P [] i x a e = absurd (none-some e)
  All-get_elem? P (y ∷ xs) zero x a e = subst P (some-injective e) a.0
  All-get_elem? P (y ∷ xs) (suc i) x a e = All-get_elem? P xs i x a.1 e

  pub partition_point-le : (p : A → Bool) (xs : List A) → partition_point p xs ≤ length xs
  unfolding partition_point
  partition_point-le p [] = omega arith
  partition_point-le p (x ∷ xs) = ground (arith, partition_point-le p xs)

  -- The elements before the point pass the test, and the one at it does not.
  pub partition_point_before :
      (p : A → Bool) (xs : List A) (i : ℕ) (x : A)
      → get_elem? xs i ≡ some x
      → i < partition_point p xs
      → p x ≡ true
  unfolding partition_point
  partition_point_before p [] i x e h = absurd (none-some e)
  partition_point_before p (y ∷ ys) i x e h =
      go (p y) refl i e h (λ j f. partition_point_before p ys j x f)
    where
      go :
          (b : Bool)
          → p y ≡ b
          → (i : ℕ) → get_elem? (y ∷ ys) i ≡ some x
          → (i < (if b then suc (partition_point p ys) else 0))
          → ((j : ℕ) → get_elem? ys j ≡ some x → j < partition_point p ys → p x ≡ true)
          → p x ≡ true
      go false t i e h ih = absurd (omega arith)
      go true t zero e h ih = ap p (sym (some-injective e)) ∙ t
      go true t (suc i) e h ih = ih i e (omega arith)

  pub partition_point_at :
      (p : A → Bool) (xs : List A) (x : A)
      → get_elem? xs (partition_point p xs) ≡ some x
      → p x ≡ false
  unfolding partition_point
  partition_point_at p [] x e = absurd (none-some e)
  partition_point_at p (y ∷ ys) x e = go (p y) refl e (λ f. partition_point_at p ys x f)
    where
      go :
          (b : Bool)
          → p y ≡ b
          → get_elem? (y ∷ ys) (if b then suc (partition_point p ys) else 0) ≡ some x
          → (get_elem? ys (partition_point p ys) ≡ some x → p x ≡ false)
          → p x ≡ false
      go false t e ih = ap p (sym (some-injective e)) ∙ t
      go true t e ih = ih e

module _ {ℓ} {A : Type ℓ} (key : A → ℕ) where
  -- `std::lower_bound`: the first element whose key is not below `k`.
  abbrev pub lower_bound : ℕ → List A → ℕ
  lower_bound k xs = partition_point (λ x. ltb (key x) k) xs

  -- `std::upper_bound`: the first element whose key is above `k`.
  abbrev pub upper_bound : ℕ → List A → ℕ
  upper_bound k xs = partition_point (λ x. not (ltb k (key x))) xs

  abbrev pub IsSorted : List A → Type 0
  IsSorted [] = Unit {_}
  IsSorted (x ∷ xs) = All (λ y. key x ≤ key y) xs × IsSorted xs

  pub sorted_le :
      (xs : List A) (i j : ℕ) (x y : A)
      → IsSorted xs
      → get_elem? xs i ≡ some x
      → get_elem? xs j ≡ some y
      → i ≤ j
      → key x ≤ key y
  sorted_le [] i j x y s e f h = absurd (none-some e)
  sorted_le (z ∷ zs) zero zero x y s e f h =
      omega (arith, ap key (some-injective e), ap key (some-injective f))
  sorted_le (z ∷ zs) zero (suc j) x y s e f h =
      omega (arith, ap key (some-injective e), All-get_elem? (λ y. key z ≤ key y) zs j y s.0 f)
  sorted_le (z ∷ zs) (suc i) zero x y s e f h = absurd (omega arith)
  sorted_le (z ∷ zs) (suc i) (suc j) x y s e f h = sorted_le zs i j x y s.1 e f (omega arith)

  pub lower_bound_below :
      (k : ℕ) (xs : List A) (i : ℕ) (x : A)
      → get_elem? xs i ≡ some x
      → i < lower_bound k xs
      → key x < k
  lower_bound_below k xs i x e h =
      ltb→lt (key x) k (partition_point_before (λ x. ltb (key x) k) xs i x e h)

  pub lower_bound_at :
      (k : ℕ) (xs : List A) (x : A) → get_elem? xs (lower_bound k xs) ≡ some x → k ≤ key x
  lower_bound_at k xs x e = ltb→le (key x) k (partition_point_at (λ x. ltb (key x) k) xs x e)

  pub upper_bound_below :
      (k : ℕ) (xs : List A) (i : ℕ) (x : A)
      → get_elem? xs i ≡ some x
      → i < upper_bound k xs
      → key x ≤ k
  upper_bound_below k xs i x e h = elim (Bool-cases (ltb k (key x))) [
    | inl t ↦
        absurd (
          false≢true
            (ap not (sym t) ∙ partition_point_before (λ x. not (ltb k (key x))) xs i x e h))
    | inr t ↦ ltb→le k (key x) t
  ]

  pub upper_bound_at :
      (k : ℕ) (xs : List A) (x : A) → get_elem? xs (upper_bound k xs) ≡ some x → k < key x
  upper_bound_at k xs x e = elim (Bool-cases (ltb k (key x))) [
    | inl t ↦ ltb→lt k (key x) t
    | inr t ↦
        absurd (false≢true (sym (partition_point_at (λ x. not (ltb k (key x))) xs x e) ∙ ap not t))
  ]

  -- The lower bound is the only index with what stands there not below `k`, and all before it below.
  pub lower_bound_unique :
      (k : ℕ) (xs : List A) (i : ℕ) (x : A)
      → get_elem? xs i ≡ some x
      → k ≤ key x
      → ((j : ℕ) (z : A) → get_elem? xs j ≡ some z → j < i → key z < k)
      → lower_bound k xs ≡ i
  lower_bound_unique k xs i x e h below =
      let it : ℕ = lower_bound k xs in
      elim (Bool-cases (ltb i it)) [
        | inl late ↦ absurd (omega (arith, h, lower_bound_below k xs i x e (ltb→lt i it late)))
        | inr t ↦ elim (Bool-cases (ltb it i)) [
          | inl early ↦
              let (z, f) = get-some xs it (omega (arith, get-lt xs i x e, ltb→lt it i early)) in
              absurd (omega (arith, lower_bound_at k xs z f, below it z f (ltb→lt it i early)))
          | inr u ↦ omega (arith, ltb→le i it t, ltb→le it i u)
        ]
      ]
