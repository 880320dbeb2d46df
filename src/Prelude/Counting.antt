-- ===== src/Prelude/Counting.antt =====
-- How often a number stands in a list: lists of pointers are compared as multisets by it.
use Prim.Native.Nat.{ℕ, ◌+◌, ◌≤◌}
use mathlib.Core.Path.{◌≡◌}
use mathlib.Core.List.{List, [], ◌∷◌, ◌++◌}
use native.Mathlib.Omega.{arith}
use tensor_sched.Prelude.Tests.{◌==◌, if◌then◌else◌}

abbrev pub count : ℕ → List ℕ → ℕ
count p [] = 0
count p (q ∷ rest) = (if q == p then 1 else 0) + count p rest

pub count-append :
    (p : ℕ) (front back : List ℕ) → count p (front ++ back) ≡ count p front + count p back
count-append p [] back = omega arith
count-append p (q ∷ rest) back = let shorter = count-append p rest back in omega (arith, shorter)

-- No pointer twice.
abbrev pub IsDistinct : List ℕ → Type 0
IsDistinct ps = (p : ℕ) → count p ps ≤ 1
