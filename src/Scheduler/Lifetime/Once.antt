-- ===== src/Scheduler/Lifetime/Once.antt =====
-- Starting, stopping and destroying a scheduler do their work once.
use mathlib.Core.List.{append-nil}
use tensor_sched.Prelude.Balance
use tensor_sched.Prelude.{
  ℕ, ◌+◌, true, false, [], ◌++◌, some, List, Bool-cases, inl, inr, ◌≡◌, refl, ap, ◌∙◌, arith, ◌==◌,
}
use tensor_sched.Scheduler
use tensor_sched.Scheduler.{Scheduler, add_log}
use tensor_sched.Scheduler.Records.{LogEvent}
use tensor_sched.Scheduler.Lifetime.{Pthreads, Service, join_field, start, stop, destroy}

running_after :
    {S : Type 0} (text : ℕ → LogEvent → List ℕ) (now : ℕ) (s : Scheduler S)
    → (Scheduler.start text now s).running ≡ true
unfolding Scheduler.start add_log
running_after text now s = elim (Bool-cases s.running) [
  | inl e ↦ rw (e, Scheduler.start) refl
  | inr e ↦ rw (e, Scheduler.start) refl
]

two_joined :
    {W : Type 0} (threads : Pthreads W) (a b : ℕ) (u w : W)
    → Balance.Over ◌==◌ threads.joinable u
        (λ r. Balance.given ◌==◌ (some a) r + (Balance.given ◌==◌ (some b) r + 0))
        w
    → Balance.Even ◌==◌ threads.joinable u (threads.pthread_join b (threads.pthread_join a w))
two_joined threads a b u w o r = omega (
  arith,
  Balance.returned-Over ◌==◌ threads.joinable b u (threads.pthread_join a w) _ (λ r. 0)
      (ground arith) (threads.join_returns b (threads.pthread_join a w))
      (Balance.returned-Over ◌==◌ threads.joinable a u w _ (λ r. Balance.given ◌==◌ (some b) r + 0)
        (ground arith) (threads.join_returns a w) o)
      r,
)

module _ {S W : Type 0} (threads : Pthreads W) (text : ℕ → LogEvent → List ℕ) where
  open threads use {joinable, pthread_create, pthread_join}

  start_running :
      (now : ℕ) (s : Service S W) → s.sched.running ≡ true → start threads text now s ≡ s
  unfolding start
  start_running now s e = rw e refl

  stop_idle : (now : ℕ) (s : Service S W) → s.sched.running ≡ false → stop threads text now s ≡ s
  unfolding stop
  stop_idle now s e = rw e refl

  abbrev stopped : (now : ℕ) → Service S W → Service S W
  stopped now s = record s {
    sched = add_log text now LogEvent.stopped 5 (record s.sched { running = false });
    system = join_field threads s.aging_thread (join_field threads s.dispatcher_thread s.system);
  }

  stop_runs :
      (now : ℕ) (s : Service S W) → s.sched.running ≡ true → stop threads text now s ≡ stopped now s
  unfolding stop
  stop_runs now s e = rw e refl

  abbrev started : (now a b : ℕ) → Service S W → Service S W
  started now a b s = record s {
    sched = Scheduler.start text now s.sched;
    dispatcher_thread = some a;
    aging_thread = some b;
    system = (pthread_create (pthread_create s.system).1).1;
  }

  start_runs :
      (now a b : ℕ) (s : Service S W)
      → s.sched.running ≡ false
      → (pthread_create s.system).0 ≡ some a
      → (pthread_create (pthread_create s.system).1).0 ≡ some b
      → start threads text now s ≡ started now a b s
  unfolding start
  start_runs now a b s e made_a made_b = rw (e, made_a, made_b) refl

  stopped-Even :
      (now a b : ℕ) (s : Service S W) (t : Scheduler S)
      → (pthread_create s.system).0 ≡ some a
      → (pthread_create (pthread_create s.system).1).0 ≡ some b
      → Balance.Even ◌==◌ joinable s.system
          (stopped now (record (started now a b s) { sched = t })).system
  stopped-Even now a b s t made_a made_b =
      two_joined threads a b s.system (pthread_create w₁).1 (λ r. omega (
        arith,
        threads.create_makes s.system r,
        threads.create_makes w₁ r,
        ap (λ o. Balance.given ◌==◌ o r) made_a,
        ap (λ o. Balance.given ◌==◌ o r) made_b,
      ))
    where
      w₁ : W
      w₁ = (pthread_create s.system).1

  stopped_idle : (now : ℕ) (s : Service S W) → (stopped now s).sched.running ≡ false
  unfolding add_log
  stopped_idle now s = refl

  stopped_jobs : (now : ℕ) (s : Service S W) → (stopped now s).sched.all_jobs ≡ s.sched.all_jobs
  unfolding add_log
  stopped_jobs now s = refl

  -- What stopping and destroying a running scheduler does.
  abbrev Ends : ℕ → Service S W → Type 0
  Ends now x =
      let v = stop threads text now x in
      let d = destroy threads text now x in
      (v.system ≡ (stopped now x).system)
      × (v.sched.running ≡ false)
      × (stop threads text now v ≡ v)
      × (d.system ≡ v.system)
      × (d.freed ≡ x.freed ++ x.sched.all_jobs)
      × ((destroy threads text now d).freed ≡ d.freed)
      × ((destroy threads text now d).system ≡ d.system)

  destroy_idle :
      (now : ℕ) (s : Service S W)
      → s.sched.running ≡ false
      → s.sched.all_jobs ≡ []
      → ((destroy threads text now s).freed ≡ s.freed)
        × ((destroy threads text now s).system ≡ s.system)
  unfolding destroy
  destroy_idle now s idle unlisted = (
    ap (λ v. v.freed ++ v.sched.all_jobs) (stop_idle now s idle)
        ∙ ap (λ js. s.freed ++ js) unlisted
        ∙ append-nil s.freed,
    ap (λ v. v.system) (stop_idle now s idle),
  )

  runs-Ends : (now : ℕ) (x : Service S W) → x.sched.running ≡ true → Ends now x
  unfolding destroy add_log
  runs-Ends now x runs = (
    ap (λ v. v.system) same,
    idle,
    stop_idle now (stop threads text now x) idle,
    refl,
    ap (λ v. v.freed ++ v.sched.all_jobs) same,
    (destroy_idle now (destroy threads text now x) idle refl).0,
    (destroy_idle now (destroy threads text now x) idle refl).1,
  )
    where
      same : stop threads text now x ≡ stopped now x
      same = stop_runs now x runs

      idle : (stop threads text now x).sched.running ≡ false
      idle = ap (λ v. v.sched.running) same

  -- A scheduler that does not run, and whose two threads can be created, runs once it is started;
  -- starting it again changes nothing. However it has come to look in between, when it is stopped the
  -- two threads have been joined and no other, and it does not run; stopping it again changes nothing.
  -- The destructor stops it too, deletes the jobs that are listed, each as often as it is listed, and
  -- leaves none to delete again.
  pub lifetime_lem :
      (now a b : ℕ) (s : Service S W)
      → s.sched.running ≡ false
      → (pthread_create s.system).0 ≡ some a
      → (pthread_create (pthread_create s.system).1).0 ≡ some b
      → let u = start threads text now s in
        (u.sched.running ≡ true)
        × (start threads text now u ≡ u)
        × ((t : Scheduler S)
            → t.running ≡ true
            → let v = stop threads text now (record u { sched = t }) in
              let d = destroy threads text now (record u { sched = t }) in
              Balance.Even ◌==◌ joinable s.system v.system
              × (v.sched.running ≡ false)
              × (stop threads text now v ≡ v)
              × (d.system ≡ v.system)
              × (d.freed ≡ s.freed ++ t.all_jobs)
              × ((destroy threads text now d).freed ≡ d.freed)
              × ((destroy threads text now d).system ≡ d.system))
  lifetime_lem now a b s idle made_a made_b = rw (start_runs now a b s idle made_a made_b) (
    running_after text now s.sched,
    start_running now (started now a b s) (running_after text now s.sched),
    λ t runs.
        let (joined, idle', again, same, freed, freed_once, joined_once) =
          runs-Ends now (record (started now a b s) { sched = t }) runs in
        (
          λ r. ap (λ w. joinable w r) joined ∙ stopped-Even now a b s t made_a made_b r,
          idle',
          again,
          same,
          freed,
          freed_once,
          joined_once,
        ),
  )
