-- ===== src/Prelude/Balance.antt =====
-- What is made and given back: resources of a type `R`, and how often each is out in a state of `W`.
use Prim.Native.Nat.{ℕ, ◌+◌, ◌<◌}
use mathlib.Core.Path.{◌≡◌, ap}
use mathlib.Core.Bool.{Bool}
use mathlib.Core.Option.{Option, none, some}
use native.Mathlib.Omega.{arith}
use tensor_sched.Prelude.Tests.{if◌then◌else◌}

module _ {R : Type 0} (same : R → R → Bool) where
  -- How often `r` is the resource that a call gave, if it gave one.
  abbrev pub given : Option R → R → ℕ
  given none r = 0
  given (some made) r = if same made r then 1 else 0

  module _ {W : Type 0} (out : W → R → ℕ) where
    -- A call that made `made` in `w` left `v`; one that gave back `gone` in `w` left `v`.
    abbrev pub Makes : Option R → W → W → Type 0
    Makes made w v = (r : R) → out v r ≡ given made r + out w r

    abbrev pub Returns : R → W → W → Type 0
    Returns gone w v = 0 < out w gone → (r : R) → given (some gone) r + out v r ≡ out w r

    -- `w` has out what `u` has, and what `extra` counts.
    abbrev pub Over : W → (R → ℕ) → W → Type 0
    Over u extra w = (r : R) → out w r ≡ extra r + out u r

    abbrev pub Even : W → W → Type 0
    Even u v = (r : R) → out v r ≡ out u r

    pub made-Over :
        (made : R) (o : Option R) (u w v : W) (extra : R → ℕ)
        → o ≡ some made
        → Makes o w v
        → Over u extra w
        → Over u (λ r. given (some made) r + extra r) v
    made-Over made o u w v extra e m h r = omega (arith, m r, h r, ap (λ x. given x r) e)

    pub missing-Over :
        (o : Option R) (u w v : W) (extra : R → ℕ)
        → o ≡ none
        → Makes o w v
        → Over u extra w
        → Over u extra v
    missing-Over o u w v extra e m h r = omega (arith, m r, h r, ap (λ x. given x r) e)

    pub returned-Over :
        (gone : R) (u w v : W) (extra : R → ℕ)
        → given (some gone) gone ≡ 1
        → Returns gone w v
        → Over u (λ r. given (some gone) r + extra r) w
        → Over u extra v
    returned-Over gone u w v extra self gives h r =
        omega (arith, h r, gives (omega (arith, h gone, self)) r)
