-- ===== src/Scheduler/System/Seats.antt =====
-- The entries of `active_jobs_`: counting those in use, under a write of one of them.
use tensor_sched.Prelude.{
  ℕ, zero, suc, ◌+◌, ◌<◌, true, List, [], ◌∷◌, Option, none, some, ◌≡◌, refl, arith, ◌==◌,
  if◌then◌else◌, get_or, set, length,
}
use tensor_sched.Scheduler.Worker.{is_null}
use tensor_sched.Scheduler.Dispatch.Preempt.{is_active}
use tensor_sched.Scheduler.System.Invariant.{occupied, occurs}

pub is_null→none : (o : Option ℕ) → is_null o ≡ true → o ≡ none
is_null→none none e = refl
is_null→none (some q) e = cc

-- An empty entry is filled.
pub occupied-set-some :
    (slots : List (Option ℕ)) (k q : ℕ)
    → k < length slots
    → get_or slots k none ≡ none
    → (occupied (set slots k (some q)) ≡ suc (occupied slots))
      × ((p : ℕ) → occurs p (set slots k (some q)) ≡ (if q == p then 1 else 0) + occurs p slots)
occupied-set-some [] k q lt e = absurd (omega arith)
occupied-set-some (none ∷ slots) zero q lt e = (omega arith, λ p. refl)
occupied-set-some (some r ∷ slots) zero q lt e = cc
occupied-set-some (none ∷ slots) (suc k) q lt e = occupied-set-some slots k q (omega arith) e
occupied-set-some (some r ∷ slots) (suc k) q lt e =
    let (all, each) = occupied-set-some slots k q (omega arith) e in
    (omega (arith, all), λ p. omega (arith, each p))

-- The entry of `q` is emptied.
pub occupied-set-none :
    (slots : List (Option ℕ)) (k q : ℕ)
    → get_or slots k none ≡ some q
    → (suc (occupied (set slots k none)) ≡ occupied slots)
      × ((p : ℕ) → occurs p slots ≡ (if q == p then 1 else 0) + occurs p (set slots k none))
occupied-set-none [] k q e = cc
occupied-set-none (none ∷ slots) zero q e = cc
occupied-set-none (some r ∷ slots) zero q e =
    let same : r ≡ q = cc in rw same (omega arith, λ p. refl)
occupied-set-none (none ∷ slots) (suc k) q e = occupied-set-none slots k q e
occupied-set-none (some r ∷ slots) (suc k) q e =
    let (all, each) = occupied-set-none slots k q e in
    (omega (arith, all), λ p. omega (arith, each p))

pub vacancy :
    (slots : List (Option ℕ))
    → occupied slots < length slots
    → (k : ℕ) × (k < length slots) × (get_or slots k none ≡ none)
vacancy [] lt = absurd (omega arith)
vacancy (none ∷ slots) lt = (0, omega arith, refl)
vacancy (some r ∷ slots) lt =
    let (k, in_range, e) = vacancy slots (omega arith) in (suc k, omega arith, e)

pub entry-occurs :
    (slots : List (Option ℕ)) (k q : ℕ) → get_or slots k none ≡ some q → 0 < occurs q slots
entry-occurs [] k q e = cc
entry-occurs (none ∷ slots) zero q e = cc
entry-occurs (some r ∷ slots) zero q e = let same : r ≡ q = cc in rw same (ground arith)
entry-occurs (none ∷ slots) (suc k) q e = entry-occurs slots k q e
entry-occurs (some r ∷ slots) (suc k) q e = omega (arith, entry-occurs slots k q e)

pub is_active-occurs :
    (p : ℕ) (slots : List (Option ℕ)) → is_active p slots ≡ true → 0 < occurs p slots
is_active-occurs p [] e = cc
is_active-occurs p (none ∷ slots) e = is_active-occurs p slots e
is_active-occurs p (some q ∷ slots) e = ground (arith, e, is_active-occurs p slots)
