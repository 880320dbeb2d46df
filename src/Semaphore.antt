-- ===== src/Semaphore.antt =====
-- The counting semaphore that resource_manager.h uses through `sem_init`, `sem_wait` and `sem_post`
-- (POSIX, or semaphore_win.h on Windows). The program does not implement it, so it is a parameter:
-- operations, the value that POSIX speaks of, and what POSIX says of them.
use tensor_sched.Prelude.{ℕ, zero, suc, ◌<◌, ◌≡◌, refl, Option, none, some, arith}

pub record Semaphore : Type 1 where
  pub State : Type 0
  pub init : ℕ → State
  pub wait : State → Option State  -- `none` where the caller blocks
  pub post : State → State
  pub value : State → ℕ
  pub value-init : (n : ℕ) → value (init n) ≡ n
  pub wait_blocks : (s : State) → value s ≡ 0 → wait s ≡ none
  pub wait_passes :
      (s : State) → 0 < value s → (t : State) × (wait s ≡ some t) × (value s ≡ suc (value t))
  pub value-post : (s : State) → value (post s) ≡ suc (value s)

-- A semaphore that is its value, for the examples.
abbrev pub count_down : ℕ → Option ℕ
count_down zero = none
count_down (suc n) = some n

pub count_down_blocks : (n : ℕ) → n ≡ 0 → count_down n ≡ none
count_down_blocks zero e = refl
count_down_blocks (suc n) e = absurd (omega arith)

pub count_down_passes : (n : ℕ) → 0 < n → (m : ℕ) × (count_down n ≡ some m) × (n ≡ suc m)
count_down_passes zero lt = absurd (omega arith)
count_down_passes (suc n) lt = (n, refl, refl)

abbrev pub counter : Semaphore
counter = record {
  State = ℕ;
  init = λ n. n;
  wait = count_down;
  post = λ n. suc n;
  value = λ n. n;
  value-init = λ n. refl;
  wait_blocks = count_down_blocks;
  wait_passes = count_down_passes;
  value-post = λ n. refl;
}
