-- ===== src/Examples/Win.antt =====
-- semaphore_win.h over objects that are a count and a maximum.
use tensor_sched.Prelude.{
  ℕ, zero, suc, ◌+◌, ◌≤◌, ◌<◌, Bool, true, false, Option, none, some, ◌≡◌, refl, arith, leb,
  if◌then◌else◌, Bool-cases, inl, inr,
}
use tensor_sched.SemaphoreWin.{Win32, IsCounter, sem_init-run_calls}

abbrev take_one : ℕ × ℕ → Option (Bool × (ℕ × ℕ))
take_one (zero, m) = none
take_one (suc n, m) = some (true, (n, m))

abbrev create : ℕ → ℕ → Option (ℕ × ℕ)
create n m = if leb n m then some (n, m) else none

abbrev add : ℕ → ℕ × ℕ → Bool × (ℕ × ℕ)
add k (n, m) = if leb (n + k) m then (true, (n + k, m)) else (false, (n, m))

create_lem : (n m : ℕ) (h : ℕ × ℕ) → create n m ≡ some h → (h.0 ≡ n) × (h.1 ≡ m)
create_lem n m h e = elim (Bool-cases (leb n m)) [
  | inl fits ↦ let same : some (n, m) ≡ some h = rw fits at e in (cc, cc)
  | inr over ↦ absurd (let bad : none ≡ some h = rw over at e in cc)
]

take_one_blocks : (h : ℕ × ℕ) → h.0 ≡ 0 → take_one h ≡ none
take_one_blocks (zero, m) e = refl
take_one_blocks (suc n, m) e = absurd (omega (arith, e))

take_one_passes :
    (h : ℕ × ℕ)
    → 0 < h.0
    → (k : ℕ × ℕ) × (take_one h ≡ some (true, k)) × (h.0 ≡ suc k.0) × (k.1 ≡ h.1)
take_one_passes (zero, m) lt = absurd (omega (arith, lt))
take_one_passes (suc n, m) lt = ((n, m), refl, refl, refl)

add_fits :
    (k : ℕ) (h : ℕ × ℕ)
    → h.0 + k ≤ h.1
    → ((add k h).0 ≡ true) × ((add k h).1.0 ≡ h.0 + k) × ((add k h).1.1 ≡ h.1)
add_fits k (n, m) le =
    let fits : leb (n + k) m ≡ true = ground (arith, le) in rw fits (refl, refl, refl)

add_refused : (k : ℕ) (h : ℕ × ℕ) → h.1 < h.0 + k → add k h ≡ (false, h)
add_refused k (n, m) lt = let over : leb (n + k) m ≡ false = ground (arith, lt) in rw over refl

abbrev counted : Win32
counted = record {
  Handle = ℕ × ℕ;
  create_semaphore = create;
  wait_for_single_object = take_one;
  release_semaphore = add;
  close_handle = λ h. true;
  count_of = λ h. h.0;
  maximum_of = λ h. h.1;
  created = create_lem;
  wait_blocks = take_one_blocks;
  wait_passes = take_one_passes;
  release_adds = add_fits;
  release_refused = add_refused;
}

sem_init-run_calls_example : IsCounter counted 4
sem_init-run_calls_example = sem_init-run_calls counted 4
