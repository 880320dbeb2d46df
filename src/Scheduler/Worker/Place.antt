-- ===== src/Scheduler/Worker/Place.antt =====
-- The search of `workerFunc` for an empty entry of `active_jobs_`.
use tensor_sched.Prelude.{
  ℕ, zero, suc, ◌+◌, ◌-◌, ◌%◌, ◌<◌, true, List, Option, none, some, ◌≡◌, refl, sym, arith, get_or,
  Bool-cases, inl, inr, ℤ, length, ◌≢◌, get_or-set_self, get_or-set_ne,
}
use tensor_sched.ResourceManager.{max_concurrent}
use tensor_sched.Scheduler.{Scheduler}
use tensor_sched.Scheduler.Worker.{is_null, choose_slot, start_slot, place}

abbrev pub IsNull : List (Option ℕ) → ℕ → Type 0
IsNull active k = is_null (get_or active k none) ≡ true

choose_slot-IsNull :
    (active : List (Option ℕ)) (slot i rounds d : ℕ)
    → d < rounds
    → IsNull active ((slot + (i + d)) % max_concurrent)
    → IsNull active (choose_slot active slot i rounds)
      × (choose_slot active slot i rounds < max_concurrent)
unfolding choose_slot
choose_slot-IsNull active slot i zero d lt e = absurd (omega arith)
choose_slot-IsNull active slot i (suc rounds) zero lt e =
    let at : (slot + (i + 0)) % max_concurrent ≡ (slot + i) % max_concurrent = omega arith in
    let here : IsNull active ((slot + i) % max_concurrent) = rw at at e in
    rw here (here, omega arith)
choose_slot-IsNull active slot i (suc rounds) (suc d) lt e =
    elim (Bool-cases (is_null (get_or active ((slot + i) % max_concurrent) none))) [
      | inl here ↦ rw here (here, omega arith)
      | inr not_here ↦
          let at : (slot + (i + suc d)) % max_concurrent ≡ (slot + (i + 1 + d)) % max_concurrent =
            omega arith in
          rw not_here (choose_slot-IsNull active slot (i + 1) rounds d (omega arith) (rw at at e))
    ]

-- Where some entry of the four is empty, the worker takes an empty one for its job and overwrites nobody else's:
-- every other entry, and all but the entries, stays as it was.
pub place_takes_empty :
    {S : Type 0} (job k : ℕ) (slot : ℤ) (s : Scheduler S)
    → length s.active_jobs ≡ max_concurrent
    → k < max_concurrent
    → IsNull s.active_jobs k
    → let (chosen, s') = place job slot s in
      (chosen < max_concurrent)
      × IsNull s.active_jobs chosen
      × (get_or s'.active_jobs chosen none ≡ some job)
      × ((i : ℕ) → i ≢ chosen → get_or s'.active_jobs i none ≡ get_or s.active_jobs i none)
      × (s' ≡ record s { active_jobs = s'.active_jobs })
unfolding place
place_takes_empty job k slot s len lt e = (
  found.1,
  found.0,
  get_or-set_self s.active_jobs chosen (some job) none (omega (arith, len, found.1)),
  λ i ne. get_or-set_ne s.active_jobs (some job) none (λ eq. ne (sym eq)),
  refl,
)
  where
    from : ℕ
    from = start_slot slot s.resources

    chosen : ℕ
    chosen = choose_slot s.active_jobs from 0 max_concurrent

    reaches : (from + (0 + (k + 4 - from % 4) % 4)) % max_concurrent ≡ k
    reaches = omega arith

    found : IsNull s.active_jobs chosen × (chosen < max_concurrent)
    found =
        choose_slot-IsNull s.active_jobs from 0 max_concurrent ((k + 4 - from % 4) % 4)
          (omega arith) (rw reaches e)
