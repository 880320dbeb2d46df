-- ===== src/Scheduler/System/Progress.antt =====
-- The threads that the dispatcher has created can all be run to their end: no state that the threads
-- reach is a deadlock.
use tensor_sched.Prelude.{
  ℕ, zero, suc, ◌+◌, ◌-◌, ◌≤◌, ◌<◌, false, List, [], ◌∷◌, some, ◌≡◌, refl, ap, ◌∙◌, arith,
  get_elem?, pos,
}
use native.Mathlib.Decide.{dec_lt}
use tensor_sched.Job.{Store}
use tensor_sched.ResourceManager.{max_concurrent}
use tensor_sched.ResourceManager.Ledger.{Grant}
use tensor_sched.Semaphore.{Semaphore}
use tensor_sched.Scheduler.Records.{LogEvent}
use tensor_sched.Scheduler.System.{
  Pc, done, Thread, Phase, ticking, checking, popping, is_locked, System, Step, submit, halt,
  close_log, age, next_round, look, looked, idle, spawn, work, Reach, here, later,
}
use tensor_sched.Scheduler.System.Threads.{sum_of, sum_of-member, sum_of-positive, sum_of-zero}
use tensor_sched.Scheduler.System.Invariant.{
  permit, seat, is_seated, is_alive, holds, sits, grants, grant_at, IsFit, occupied, Inv,
}
use tensor_sched.Scheduler.System.Safety.{Reach-Inv}
use tensor_sched.Scheduler.System.Running.{alive, Steps, stop, then_on, worker_ends}

-- The slots that `checkPreemptions` has looked at.
abbrev pub looked_at : Phase → ℕ
looked_at (checking k) = k
looked_at _ = 0

permit_alive : (p : Pc) → permit p ≤ is_alive p
permit_alive done = omega arith
permit_alive _ = omega arith

ended_done : (p : Pc) → is_alive p ≡ 0 → p ≡ done
ended_done done e = refl
ended_done _ e = cc

pub living : (p : Pc) → 0 < is_alive p → is_alive p ≡ 1
living done lt = absurd (omega (arith, lt))
living _ lt = refl

grants-done :
    (needs : ℕ → Grant) (ts : List Thread)
    → ((i : ℕ) (t : Thread) → get_elem? ts i ≡ some t → t.pc ≡ done)
    → grants needs ts ≡ []
grants-done needs [] d = refl
grants-done needs (t ∷ ts) d =
    let last : grant_at needs t.job t.pc ≡ [] = rw (d 0 t refl) refl in
    rw last (grants-done needs ts (λ i u e. d (suc i) u e))

module _ (sem : Semaphore) (needs : ℕ → Grant) (text : ℕ → LogEvent → List ℕ) where
  open sem use {State, value}

  Step-looked_at :
      {m n : System State}
      → Step sem text m n
      → looked_at m.phase ≤ max_concurrent
      → looked_at n.phase ≤ max_concurrent
  Step-looked_at (submit now job out finished) le = le
  Step-looked_at halt le = le
  Step-looked_at (close_log now off) le = le
  Step-looked_at (age now clock on) le = le
  Step-looked_at (next_round e on) le = omega arith
  Step-looked_at (look now k e lt) le = omega (arith, lt)
  Step-looked_at (looked e) le = omega arith
  Step-looked_at (idle e none_found) le = omega arith
  Step-looked_at (spawn job slot e found) le = omega arith
  Step-looked_at (work i now t e mv) le = le

  Reach-looked_at :
      {h : Store} {m : System State} → Reach sem text h m → looked_at m.phase ≤ max_concurrent
  Reach-looked_at here = omega arith
  Reach-looked_at (later r st) = Step-looked_at st (Reach-looked_at r)

  Reach-Steps :
      {h : Store} {m n : System State}
      → Reach sem text h m
      → Steps sem text m n
      → Reach sem text h n
  Reach-Steps r stop = r
  Reach-Steps r (then_on st run) = Reach-Steps (later r st) run

  Steps_trans :
      {m n o : System State} → Steps sem text m n → Steps sem text n o → Steps sem text m o
  Steps_trans stop run = run
  Steps_trans (then_on st first) run = then_on st (Steps_trans first run)

  -- The dispatcher gives `active_mutex_` back, the workers standing still.
  abbrev Unlocks : System State → Type 0
  Unlocks m =
      (n : System State) × Steps sem text m n
      × (n.threads ≡ m.threads)
      × (is_locked n.phase ≡ false)

  Unlocks-from :
      (d k : ℕ) (m : System State) → m.phase ≡ checking k → d + k ≡ max_concurrent → Unlocks m
  Unlocks-from zero k m e eq =
      let all : k ≡ max_concurrent = omega (arith, eq) in
      (record m { phase = popping }, then_on (looked (e ∙ ap checking all)) stop, refl, refl)
  Unlocks-from (suc d) k m e eq =
      let (n, run, same, free) = Unlocks-from d (suc k) _ refl (omega (arith, eq)) in
      (n, then_on (look 0 k e (omega (arith, eq))) run, same, free)

  phase-Unlocks :
      (m : System State) → (p : Phase) → m.phase ≡ p → looked_at p ≤ max_concurrent → Unlocks m
  phase-Unlocks m ticking e le = (m, stop, refl, rw e refl)
  phase-Unlocks m (checking k) e le =
      let d = max_concurrent - k in Unlocks-from d k m e (omega (arith, le))
  phase-Unlocks m popping e le = (m, stop, refl, rw e refl)

  module _ {h : Store} (fit : (p : ℕ) → IsFit needs p (h p)) where
    -- Where some worker has not ended, one has not ended that holds a permit or finds one.
    able :
        (m : System State)
        → Reach sem text h m
        → 0 < sum_of alive m.threads
        → (i : ℕ) × (t : Thread) × (get_elem? m.threads i ≡ some t)
          × (is_alive t.pc ≡ 1)
          × (0 < value m.sched.resources.slots + permit t.pc)
    able m r lt = elim (dec_lt 0 (value m.sched.resources.slots)) [
      | yes open_slot ↦
          let (i, t, e, up) = sum_of-positive alive m.threads lt in
          (i, t, e, living t.pc up, omega (arith, open_slot))
      | no no_slot ↦
          let v : Inv sem needs m.sched m.threads = Reach-Inv sem needs text fit r in
          let (i, t, e, up) = sum_of-positive holds m.threads (omega (arith, no_slot, v.permits)) in
          (i, t, e, living t.pc (omega (arith, up, permit_alive t.pc)), omega (arith, up))
    ]

    runs_out :
        (fuel : ℕ) (m : System State)
        → Reach sem text h m
        → is_locked m.phase ≡ false
        → sum_of alive m.threads ≡ fuel
        → (n : System State) × Steps sem text m n × (sum_of alive n.threads ≡ 0)
    runs_out zero m r free e = (m, stop, e)
    runs_out (suc fuel) m r free e =
        let (i, t, at, up, lt) = able m r (omega (arith, e)) in
        let (n, run, one_less, free') =
          worker_ends sem text m.phase m.cycle free 0 i t.job t.pc m.sched up lt m.threads at in
        let (o, rest, none_left) =
          runs_out fuel n (Reach-Steps r run) free' (omega (arith, e, one_less)) in
        (o, Steps_trans run rest, none_left)

    all_done :
        (ts : List Thread)
        → sum_of alive ts ≡ 0
        → (i : ℕ) (t : Thread) → get_elem? ts i ≡ some t
        → t.pc ≡ done
    all_done ts z i t e = ended_done t.pc (omega (arith, z, sum_of-member alive ts i t e))

    -- Over jobs that ask for no less than nothing and start on a level in range, no state that the
    -- threads reach together is a deadlock: steps lead on from it to a state in
    -- which every worker has ended. There all four permits are back, the sums of the manager are
    -- zero, and all entries of `active_jobs_` are empty.
    pub workers_can_end :
        {m : System State}
        → Reach sem text h m
        → (n : System State) × Steps sem text m n
          × ((i : ℕ) (t : Thread) → get_elem? n.threads i ≡ some t → t.pc ≡ done)
          × (value n.sched.resources.slots ≡ max_concurrent)
          × (n.sched.resources.used_cpu ≡ pos 0)
          × (n.sched.resources.used_memory ≡ pos 0)
          × (n.sched.resources.active_jobs ≡ pos 0)
          × (occupied n.sched.active_jobs ≡ 0)
    workers_can_end {m} r =
        let (m', first, _, free) = phase-Unlocks m m.phase refl (Reach-looked_at r) in
        let (n, rest, none_left) = runs_out _ m' (Reach-Steps r first) free refl in
        let v : Inv sem needs n.sched n.threads =
          Reach-Inv sem needs text fit (Reach-Steps (Reach-Steps r first) rest) in
        let d = all_done n.threads none_left in
        let books = v.funds in
        let no_grants = grants-done needs n.threads d in
        (
          n,
          Steps_trans first rest,
          d,
          omega (arith, v.permits, sum_of-zero holds n.threads (λ i t e. ap permit (d i t e))),
          rw no_grants at books.cpu_book,
          rw no_grants at books.mem_book,
          rw no_grants at books.active_book,
          omega (
            arith,
            v.seated.entries,
            sum_of-zero sits n.threads (λ i t e. ap (λ p. is_seated (seat p)) (d i t e)),
          ),
        )
