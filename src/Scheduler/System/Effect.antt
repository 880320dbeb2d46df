-- ===== src/Scheduler/System/Effect.antt =====
-- What a step of a worker may do to the shared state, in one form for all steps.
use tensor_sched.Prelude.{
  ℕ, ◌+◌, ◌≤◌, ◌<◌, List, ◌++◌, none, some, ◌≡◌, ◌≢◌, ap, ◌∙◌, arith, ◌==◌, if◌then◌else◌, get_or,
  count, length,
}
use tensor_sched.Job.{Job, Store}
use tensor_sched.MlfqJobQueue.{MlfqJobQueue, pointers}
use tensor_sched.MlfqJobQueue.Invariant.{IsValid, AreLevels-AgreesOn}
use tensor_sched.ResourceManager.{ResourceManager, max_concurrent}
use tensor_sched.ResourceManager.Ledger.{Grant, Funds}
use tensor_sched.Semaphore.{Semaphore}
use tensor_sched.Scheduler.{Scheduler}
use tensor_sched.Scheduler.System.{Pc}
use tensor_sched.Scheduler.System.Invariant.{
  permit, is_granted, seat, is_seated, is_alive, occupied, occurs, grant_at, IsFit, HasEntry,
}
use tensor_sched.Scheduler.System.Quiet.{SameFunds, SameNeeds, Quiet}

pub SameFunds-Funds :
    {S : Type 0} (r r' : ResourceManager S) (gs : List Grant)
    → SameFunds r r'
    → Funds r gs
    → Funds r' gs
SameFunds-Funds r r' gs e f = record {
  cpu_book = e.cpu_eq ∙ f.cpu_book;
  mem_book = e.memory_eq ∙ f.mem_book;
  active_book = e.active_eq ∙ f.active_book;
  cpu_bound = f.cpu_bound;
  mem_bound = f.mem_bound;
}

-- A store in which the jobs keep needs, level and rank, and the queued ones are untouched.
pub SameNeeds-IsValid :
    (h k : Store) (qs : MlfqJobQueue)
    → ((p : ℕ) → SameNeeds (h p) (k p))
    → ((p : ℕ) → 0 < count p (pointers qs) → k p ≡ h p)
    → IsValid h qs
    → IsValid k qs
SameNeeds-IsValid h k qs same agree v = record {
  three = v.three;
  levels =
      AreLevels-AgreesOn h k 0 qs (λ p. ((same p).priority_eq, (same p).submit_eq)) agree v.levels;
  distinct = v.distinct;
}

module _ (sem : Semaphore) (needs : ℕ → Grant) (job : ℕ) where
  open sem use {State, value}

  -- The step takes the worker from `p` to `p'` and the scheduler from `s` to `s'`: what the worker
  -- gains, the shared state has given up.
  pub record Effect (p p' : Pc) (s s' : Scheduler State) : Type 0 where
    pub fits : (q : ℕ) → IsFit needs q (s'.store q)
    pub valid : IsValid s'.store s'.queue
    pub queued :
        (q : ℕ)
        → count q (pointers s'.queue) + (if job == q then is_alive p' else 0)
          ≤ count q (pointers s.queue) + (if job == q then is_alive p else 0)
    pub permits : value s'.resources.slots + permit p' ≡ value s.resources.slots + permit p
    pub funds :
        (front back : List Grant)
        → Funds s.resources (front ++ (grant_at needs job p ++ back))
        → Funds s'.resources (front ++ (grant_at needs job p' ++ back))
    pub four : length s'.active_jobs ≡ length s.active_jobs
    pub entries :
        occupied s'.active_jobs + is_seated (seat p) ≡ occupied s.active_jobs + is_seated (seat p')
    pub entries_of :
        (q : ℕ)
        → occurs q s'.active_jobs + (if job == q then is_seated (seat p) else 0)
          ≡ occurs q s.active_jobs + (if job == q then is_seated (seat p') else 0)
    pub mine : HasEntry s'.active_jobs job (seat p')
    pub theirs :
        (q k : ℕ)
        → q ≢ job
        → get_or s.active_jobs k none ≡ some q
        → get_or s'.active_jobs k none ≡ some q

  -- What the worker may rely on.
  pub record Relies (p : Pc) (s : Scheduler State) : Type 0 where
    pub fits : (q : ℕ) → IsFit needs q (s.store q)
    pub valid : IsValid s.store s.queue
    pub unqueued : count job (pointers s.queue) ≡ 0
    pub entry : HasEntry s.active_jobs job (seat p)
    pub four : length s.active_jobs ≡ max_concurrent
    pub room : permit p ≡ 1 → is_seated (seat p) ≡ 0 → occupied s.active_jobs < max_concurrent

  -- The step leaves the worker with what it has, and may only lay down its job.
  pub record Keeps (p p' : Pc) : Type 0 where
    pub permit_eq : permit p' ≡ permit p
    pub granted_eq : is_granted p' ≡ is_granted p
    pub seat_eq : seat p' ≡ seat p
    pub alive_le : is_alive p' ≤ is_alive p

  IsFit-SameNeeds : (q : ℕ) (j j' : Job) → SameNeeds j j' → IsFit needs q j → IsFit needs q j'
  IsFit-SameNeeds q j j' e f = record {
    cpu_eq = e.cpu_eq ∙ f.cpu_eq;
    memory_eq = e.memory_eq ∙ f.memory_eq;
    level_lt = rw e.level_eq f.level_lt;
  }

  pub Quiet-Effect :
      (p p' : Pc) (s s' : Scheduler State)
      → Keeps p p'
      → Quiet job s s'
      → Relies p s
      → Effect p p' s s'
  Quiet-Effect p p' s s' k e r = record {
    fits = λ q. IsFit-SameNeeds q (s.store q) (s'.store q) (e.needs_eq q) (r.fits q);
    valid = rw e.queue_eq (
        SameNeeds-IsValid s.store s'.store s.queue e.needs_eq
          (λ q m. e.others q (λ eq. absurd (ground (arith, r.unqueued, m, eq)))) r.valid);
    queued = λ q. rw e.queue_eq (ground (arith, k.alive_le));
    permits = rw (e.funds_eq.slots_eq, k.permit_eq);
    funds =
        λ front back f. rw k.granted_eq (SameFunds-Funds s.resources s'.resources _ e.funds_eq f);
    four = ap length e.active_eq;
    entries = rw (e.active_eq, k.seat_eq);
    entries_of = λ q. rw (e.active_eq, k.seat_eq);
    mine = rw (e.active_eq, k.seat_eq) r.entry;
    theirs = λ q l ne g. rw e.active_eq g;
  }
