-- ===== src/Prelude/Slices.antt =====
-- Laws of take, drop and set: how parts of an array make up a sequence.
use Prim.Native.Nat.{ℕ, zero, suc, ◌+◌, ◌-◌, ◌<◌, ◌≤◌}
use mathlib.Core.Path.{◌≡◌, refl, ap}
use mathlib.Core.Logic.{◌⊎◌, inl, inr}
use mathlib.Core.List.{List, [], ◌∷◌, ◌++◌}
use mathlib.Core.Option.{some}
use native.Mathlib.Omega.{arith}
use dmacftu.Prelude.Lists.{length, get_elem?, set, take, drop}

module _ {ℓ} {A : Type ℓ} where
  pub take-all : (n : ℕ) (xs : List A) → length xs ≤ n → take n xs ≡ xs
  take-all zero [] h = refl
  take-all zero (x ∷ xs) h = absurd (omega arith)
  take-all (suc n) [] h = refl
  take-all (suc n) (x ∷ xs) h = ap (λ ys. x ∷ ys) (take-all n xs (omega arith))

  pub drop-all : (n : ℕ) (xs : List A) → length xs ≤ n → drop n xs ≡ []
  drop-all zero [] h = refl
  drop-all zero (x ∷ xs) h = absurd (omega arith)
  drop-all (suc n) [] h = refl
  drop-all (suc n) (x ∷ xs) h = drop-all n xs (omega arith)

  pub take-nil : (n : ℕ) → take {A = A} n [] ≡ []
  take-nil zero = refl
  take-nil (suc n) = refl

  pub drop-nil : (n : ℕ) → drop {A = A} n [] ≡ []
  drop-nil zero = refl
  drop-nil (suc n) = refl

  pub take-append :
      (n : ℕ) (xs ys : List A) → take n (xs ++ ys) ≡ take n xs ++ take (n - length xs) ys
  take-append n [] ys = let e : n ≡ n - 0 = omega arith in ground (arith, e, take-nil n)
  take-append zero (x ∷ xs) ys = let e : 0 - suc (length xs) ≡ 0 = omega arith in rw e
  take-append (suc n) (x ∷ xs) ys =
      let e : suc n - suc (length xs) ≡ n - length xs = omega arith in rw (e, take-append n xs ys)

  pub drop-append :
      (n : ℕ) (xs ys : List A) → drop n (xs ++ ys) ≡ drop n xs ++ drop (n - length xs) ys
  drop-append n [] ys = let e : n ≡ n - 0 = omega arith in ground (arith, e, drop-nil n)
  drop-append zero (x ∷ xs) ys = let e : 0 - suc (length xs) ≡ 0 = omega arith in rw e
  drop-append (suc n) (x ∷ xs) ys =
      let e : suc n - suc (length xs) ≡ n - length xs = omega arith in rw (e, drop-append n xs ys)

  pub drop-drop : (m n : ℕ) (xs : List A) → drop m (drop n xs) ≡ drop (n + m) xs
  drop-drop m zero xs = let e : 0 + m ≡ m = omega arith in rw e
  drop-drop m (suc n) [] = let e : suc n + m ≡ suc (n + m) = omega arith in rw (e, drop-nil m)
  drop-drop m (suc n) (x ∷ xs) =
      let e : suc n + m ≡ suc (n + m) = omega arith in rw (e, drop-drop m n xs)

  -- The first n elements of the first k.
  pub take-take : (n k : ℕ) (xs : List A) → n ≤ k → take n (take k xs) ≡ take n xs
  take-take zero k xs h = refl
  take-take (suc n) zero xs h = absurd (omega arith)
  take-take (suc n) (suc k) [] h = refl
  take-take (suc n) (suc k) (x ∷ xs) h = rw (take-take n k xs (omega arith))

  pub drop-take : (n k : ℕ) (xs : List A) → drop n (take k xs) ≡ take (k - n) (drop n xs)
  drop-take zero k xs = let e : k - 0 ≡ k = omega arith in rw e
  drop-take (suc n) zero xs = let e : 0 - suc n ≡ 0 = omega arith in rw e
  drop-take (suc n) (suc k) [] = rw (take-nil (suc k - suc n))
  drop-take (suc n) (suc k) (x ∷ xs) =
      let e : suc k - suc n ≡ k - n = omega arith in rw (e, drop-take n k xs)

  -- A write at the end of a prefix extends it by the value written.
  pub take-set_end :
      (n : ℕ) (xs : List A) (v : A)
      → n < length xs
      → take (suc n) (set xs n v) ≡ take n xs ++ v ∷ []
  take-set_end n [] v h = absurd (omega arith)
  take-set_end zero (x ∷ xs) v h = refl
  take-set_end (suc n) (x ∷ xs) v h = rw (take-set_end n xs v (omega arith))

  -- A write before the part that is dropped is not seen in what remains.
  pub drop-set_before : (n i : ℕ) (xs : List A) (v : A) → i < n → drop n (set xs i v) ≡ drop n xs
  drop-set_before zero i xs v h = absurd (omega arith)
  drop-set_before (suc n) i [] v h = refl
  drop-set_before (suc n) zero (x ∷ xs) v h = refl
  drop-set_before (suc n) (suc i) (x ∷ xs) v h = drop-set_before n i xs v (omega arith)

  -- A write at or after the part that is dropped moves down with it.
  pub drop-set_after :
      (n i : ℕ) (xs : List A) (v : A) → n ≤ i → drop n (set xs i v) ≡ set (drop n xs) (i - n) v
  drop-set_after zero i xs v h = let e : i - 0 ≡ i = omega arith in rw e
  drop-set_after (suc n) i [] v h = refl
  drop-set_after (suc n) zero (x ∷ xs) v h = absurd (omega arith)
  drop-set_after (suc n) (suc i) (x ∷ xs) v h =
      let e : suc i - suc n ≡ i - n = omega arith in rw (e, drop-set_after n i xs v (omega arith))

  -- The element at an index heads what is dropped up to there.
  pub drop-get_elem? :
      (i : ℕ) (xs : List A) {v : A} → get_elem? xs i ≡ some v → drop i xs ≡ v ∷ drop (suc i) xs
  drop-get_elem? zero [] h = ground arith
  drop-get_elem? zero (x ∷ xs) h = ground arith
  drop-get_elem? (suc i) [] h = ground arith
  drop-get_elem? (suc i) (x ∷ xs) h = drop-get_elem? i xs h

  pub get_elem?-of_lt : (i : ℕ) (xs : List A) → i < length xs → (v : A) × (get_elem? xs i ≡ some v)
  get_elem?-of_lt i [] h = absurd (omega arith)
  get_elem?-of_lt zero (x ∷ xs) h = (x, refl)
  get_elem?-of_lt (suc i) (x ∷ xs) h = get_elem?-of_lt i xs (omega arith)

  pub List-cases : (xs : List A) → (xs ≡ []) ⊎ ((x : A) × (ys : List A) × (xs ≡ x ∷ ys))
  List-cases [] = inl refl
  List-cases (x ∷ xs) = inr (x, xs, refl)
