-- ===== src/Examples/Lifetime.antt =====
-- A scheduler over threads that are counted.
use tensor_sched.Prelude.Balance
use tensor_sched.Prelude.{
  ℕ, suc, ◌+◌, ◌-◌, true, List, [], ◌∷◌, some, none, ◌≡◌, refl, ap, arith, ◌==◌, if◌then◌else◌,
  Bool-cases, inl, inr, ==→eq,
}
use tensor_sched.Semaphore.{counter}
use tensor_sched.Scheduler.{Scheduler, new_scheduler}
use tensor_sched.Scheduler.Lifetime.{Pthreads, Service, start, destroy}
use tensor_sched.Scheduler.Lifetime.Once.{lifetime_lem}
use tensor_sched.Scheduler.Records.{LogEvent}
use tensor_sched.Examples.Data.{jobs}

record World : Type 0 where
  next : ℕ
  joinable : ℕ → ℕ

abbrev join : ℕ → World → World
join t w = record w { joinable = λ r. w.joinable r - (if t == r then 1 else 0) }

join-Returns : (t : ℕ) (w : World) → Balance.Returns ◌==◌ (λ w. w.joinable) t w (join t w)
join-Returns t w m r = elim (Bool-cases (t == r)) [
  | inl e ↦ rw e (omega (arith, ap w.joinable (==→eq t r e)))
  | inr e ↦ rw e (omega arith)
]

abbrev counted : Pthreads World
counted = record {
  joinable = λ w. w.joinable;
  pthread_create = λ w. (
    some w.next,
    record { next = suc w.next; joinable = λ r. (if w.next == r then 1 else 0) + w.joinable r },
  );
  pthread_join = join;
  create_makes = λ w r. refl;
  join_returns = join-Returns;
}

abbrev silent : ℕ → LogEvent → List ℕ
silent now e = []

abbrev fresh : Service ℕ World
fresh = record {
  sched = new_scheduler counter jobs;
  dispatcher_thread = none;
  aging_thread = none;
  system = record { next = 0; joinable = λ r. 0 };
  freed = [];
}

-- Two jobs have been listed when it is destroyed.
abbrev at_work : Scheduler ℕ
at_work = record (new_scheduler counter jobs) { running = true; all_jobs = 1 ∷ 2 ∷ [] }

lifetime_lem_example :
    (destroy counted silent 5 (record (start counted silent 5 fresh) { sched = at_work })).freed
    ≡ 1 ∷ 2 ∷ []
unfolding new_scheduler
lifetime_lem_example = ((lifetime_lem counted silent 5 0 1 fresh refl refl refl).2 at_work refl).4
