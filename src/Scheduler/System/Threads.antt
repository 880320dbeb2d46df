-- ===== src/Scheduler/System/Threads.antt =====
-- Weights summed over a list, and what the update of one entry does to them.
use native.Mathlib.Decide.{dec_lt}
use tensor_sched.Prelude.{
  ℕ, zero, suc, ◌+◌, ◌≤◌, ◌<◌, List, [], ◌∷◌, ◌++◌, some, ◌≡◌, ◌≢◌, refl, ap, arith, get_elem?, set,
  ◌⊎◌, inl, inr,
}

module _ {ℓ} {A : Type ℓ} where
  abbrev pub sum_of : (A → ℕ) → List A → ℕ
  sum_of w [] = 0
  sum_of w (x ∷ xs) = w x + sum_of w xs

  pub sum_of-append : (w : A → ℕ) (xs ys : List A) → sum_of w (xs ++ ys) ≡ sum_of w xs + sum_of w ys
  sum_of-append w [] ys = omega arith
  sum_of-append w (x ∷ xs) ys = omega (arith, sum_of-append w xs ys)

  pub sum_of-set :
      (w : A → ℕ) (xs : List A) (i : ℕ) (x y : A)
      → get_elem? xs i ≡ some x
      → sum_of w (set xs i y) + w x ≡ sum_of w xs + w y
  sum_of-set w [] i x y e = cc
  sum_of-set w (z ∷ xs) zero x y e = let same : w z ≡ w x = cc in omega (arith, same)
  sum_of-set w (z ∷ xs) (suc i) x y e = omega (arith, sum_of-set w xs i x y e)

  pub sum_of-member :
      (w : A → ℕ) (xs : List A) (i : ℕ) (x : A) → get_elem? xs i ≡ some x → w x ≤ sum_of w xs
  sum_of-member w [] i x e = cc
  sum_of-member w (z ∷ xs) zero x e = let same : w z ≡ w x = cc in omega (arith, same)
  sum_of-member w (z ∷ xs) (suc i) x e = omega (arith, sum_of-member w xs i x e)

  pub sum_of-le : (v w : A → ℕ) (xs : List A) → ((x : A) → v x ≤ w x) → sum_of v xs ≤ sum_of w xs
  sum_of-le v w [] le = omega arith
  sum_of-le v w (x ∷ xs) le = omega (arith, le x, sum_of-le v w xs le)

  pub sum_of-lt :
      (v w : A → ℕ) (xs : List A) (i : ℕ) (x : A)
      → ((y : A) → v y ≤ w y)
      → get_elem? xs i ≡ some x
      → v x < w x
      → sum_of v xs < sum_of w xs
  sum_of-lt v w [] i x le e lt = cc
  sum_of-lt v w (z ∷ xs) zero x le e lt =
      let same : z ≡ x = cc in rw same (omega (arith, sum_of-le v w xs le))
  sum_of-lt v w (z ∷ xs) (suc i) x le e lt = omega (arith, le z, sum_of-lt v w xs i x le e lt)

  pub sum_of-two :
      (w : A → ℕ) (xs : List A) (i j : ℕ) (x y : A)
      → i ≢ j
      → get_elem? xs i ≡ some x
      → get_elem? xs j ≡ some y
      → w x + w y ≤ sum_of w xs
  sum_of-two w [] i j x y ne e e' = cc
  sum_of-two w (z ∷ xs) zero zero x y ne e e' = absurd (ne refl)
  sum_of-two w (z ∷ xs) zero (suc j) x y ne e e' =
      let same : w z ≡ w x = cc in omega (arith, same, sum_of-member w xs j y e')
  sum_of-two w (z ∷ xs) (suc i) zero x y ne e e' =
      let same : w z ≡ w y = cc in omega (arith, same, sum_of-member w xs i x e)
  sum_of-two w (z ∷ xs) (suc i) (suc j) x y ne e e' =
      omega (arith, sum_of-two w xs i j x y (λ eq. ne (ap suc eq)) e e')

  pub sum_of-positive :
      (w : A → ℕ) (xs : List A)
      → 0 < sum_of w xs
      → (i : ℕ) × (x : A) × (get_elem? xs i ≡ some x) × (0 < w x)
  sum_of-positive w [] lt = absurd (omega arith)
  sum_of-positive w (z ∷ xs) lt = elim (dec_lt 0 (w z)) [
    | yes here ↦ (0, z, refl, here)
    | no not_here ↦
        let (i, x, e, found) = sum_of-positive w xs (omega arith) in (suc i, x, e, found)
  ]

  pub sum_of-zero :
      (w : A → ℕ) (xs : List A)
      → ((i : ℕ) (x : A) → get_elem? xs i ≡ some x → w x ≡ 0)
      → sum_of w xs ≡ 0
  sum_of-zero w [] z = refl
  sum_of-zero w (x ∷ xs) z = omega (arith, z 0 x refl, sum_of-zero w xs (λ i y e. z (suc i) y e))

  -- An entry after an update is the new one, or an old one elsewhere.
  pub get_elem?-set :
      (xs : List A) (i j : ℕ) (x y : A)
      → get_elem? (set xs i x) j ≡ some y
      → ((i ≡ j) × (y ≡ x)) ⊎ ((i ≢ j) × (get_elem? xs j ≡ some y))
  get_elem?-set [] i j x y e = cc
  get_elem?-set (z ∷ xs) zero zero x y e = inl (refl, cc)
  get_elem?-set (z ∷ xs) zero (suc j) x y e = inr (λ eq. omega (arith, eq), e)
  get_elem?-set (z ∷ xs) (suc i) zero x y e = inr (λ eq. omega (arith, eq), e)
  get_elem?-set (z ∷ xs) (suc i) (suc j) x y e = elim (get_elem?-set xs i j x y e) [
    | inl (same, eq) ↦ inl (ap suc same, eq)
    | inr (ne, eq) ↦ inr (λ s. ne (omega (arith, s)), eq)
  ]

  pub get_elem?-snoc :
      (xs : List A) (j : ℕ) (x y : A)
      → get_elem? (xs ++ (x ∷ [])) j ≡ some y
      → (y ≡ x) ⊎ (get_elem? xs j ≡ some y)
  get_elem?-snoc [] zero x y e = inl cc
  get_elem?-snoc [] (suc j) x y e = cc
  get_elem?-snoc (z ∷ xs) zero x y e = inr e
  get_elem?-snoc (z ∷ xs) (suc j) x y e = get_elem?-snoc xs j x y e
