-- ===== src/Double.antt =====
-- What the code does with a `double`: it converts an `int` or a span of the steady clock, divides,
-- multiplies, adds and compares. The operations are a parameter; the laws are those of rounding that
-- IEEE 754 gives for the small numbers that occur here.
use tensor_sched.Prelude.{ℕ, suc, Bool, true, false, ◌≡◌, ℤ, pos, ◌≤◌, ◌≤ℤ◌}

pub record Double {ℓ} (W : Type ℓ) : Type ℓ where
  pub of_int : ℤ → W
  pub seconds : (from until : ℕ) → W  -- `duration<double>(until - from).count()`
  pub add : W → W → W
  pub mul : W → W → W
  pub div : W → W → W
  pub le : W → W → Bool
  pub gt : W → W → Bool

abbrev pub nought {ℓ} : {W : Type ℓ} ⦃d : Double W⦄ → W
nought ⦃d⦄ = d.of_int (pos 0)

abbrev pub hundred {ℓ} : {W : Type ℓ} ⦃d : Double W⦄ → W
hundred ⦃d⦄ = d.of_int (pos 100)

infix 50 ◌⊑◌
abbrev pub ◌⊑◌ {ℓ} : {W : Type ℓ} ⦃d : Double W⦄ → W → W → Type 0
◌⊑◌ ⦃d⦄ x y = d.le x y ≡ true

pub record IsRounded {ℓ} (W : Type ℓ) ⦃d : Double W⦄ : Type ℓ where
  pub of_int_mono : (a b : ℤ) → a ≤ℤ b → d.of_int a ⊑ d.of_int b
  pub gt_irrefl : (a : ℤ) → d.gt (d.of_int a) (d.of_int a) ≡ false
  -- A number that is not less than a positive `int`, nor greater, is it.
  pub antisym :
      (x : W) (n : ℕ)
      → d.of_int (pos (suc n)) ⊑ x
      → d.gt x (d.of_int (pos (suc n))) ≡ false
      → x ≡ d.of_int (pos (suc n))
  pub div_nonneg : (a b : ℕ) → nought ⊑ d.div (d.of_int (pos a)) (d.of_int (pos (suc b)))
  pub div_ge :
      (a b : ℕ) → suc b ≤ a → d.of_int (pos 1) ⊑ d.div (d.of_int (pos a)) (d.of_int (pos (suc b)))
  pub mul_nonneg : (x : W) (n : ℕ) → nought ⊑ x → nought ⊑ d.mul x (d.of_int (pos (suc n)))
  pub mul_ge :
      (x : W) (n : ℕ)
      → d.of_int (pos 1) ⊑ x
      → d.of_int (pos (suc n)) ⊑ d.mul x (d.of_int (pos (suc n)))
