-- ===== src/Scheduler/System/Dispatching.antt =====
-- The steps of the dispatcher that preempt a job and hand one out keep the invariant.
use tensor_sched.Prelude.{
  ℕ, ◌≤◌, ◌<◌, true, List, [], ◌∷◌, ◌++◌, Option, none, some, ◌≡◌, refl, sym, ap, ◌∙◌, arith,
  get_or, count, inl, inr, ℤ, Bool-cases,
}
use tensor_sched.MlfqJobQueue
use tensor_sched.MlfqJobQueue.{MlfqJobQueue, pointers}
use tensor_sched.MlfqJobQueue.Invariant.{IsValid}
use tensor_sched.MlfqJobQueue.Popping.{try_pop_best_first}
use tensor_sched.ResourceManager.Ledger.{Grant}
use tensor_sched.Semaphore.{Semaphore}
use tensor_sched.Scheduler.{Scheduler, add_log}
use tensor_sched.Scheduler.Records.{LogEvent}
use tensor_sched.Scheduler.Dispatch.{check_slot, request_preemption, pop_job}
use tensor_sched.Scheduler.Dispatch.Preempt.{is_active, check_slot-store, check_slot-queue}
use tensor_sched.Scheduler.Dispatch.Cycle.{
  IsApart, yielded-IsValid, Hands, pop_job-hand_out, hand_out-Hands,
}
use tensor_sched.Scheduler.System.{entering, Thread}
use tensor_sched.Scheduler.System.Threads.{sum_of-le, sum_of-append, get_elem?-snoc}
use tensor_sched.Scheduler.System.Invariant.{
  holds, sits, sits_for, owns, occurs, grants, Seated, Inv,
}
use tensor_sched.Scheduler.System.Seats.{entry-occurs, is_active-occurs}
use tensor_sched.Scheduler.System.Keeps.{seated_alive}
use tensor_sched.Scheduler.System.Others.{Behind-Inv, IsFit-costs}

sits_for-le-owns : (p : ℕ) (t : Thread) → sits_for p t ≤ owns p t
sits_for-le-owns p t = ground (arith, seated_alive t.pc)

slot_occurs :
    (active : List (Option ℕ)) (k p : ℕ) (o : Option ℕ)
    → get_or active k none ≡ o
    → is_active p (o ∷ []) ≡ true
    → 0 < occurs p active
slot_occurs active k p none e a = cc
slot_occurs active k p (some q) e a =
    let same : q ≡ p = ground (arith, a) in entry-occurs active k p (rw same at e)

grants-snoc :
    (needs : ℕ → Grant) (ts : List Thread) (job : ℕ) (slot : ℤ)
    → grants needs (ts ++ (record { job = job; pc = entering slot } ∷ [])) ≡ grants needs ts
grants-snoc needs [] job slot = refl
grants-snoc needs (t ∷ ts) job slot = rw (grants-snoc needs ts job slot)

module _ (sem : Semaphore) (needs : ℕ → Grant) (s : Scheduler sem.State) (ts : List Thread)
    (v : Inv sem needs s ts) where
  open sem use {State}

  -- A queued job stands in no entry.
  queued_apart : (p : ℕ) → 0 < count p (pointers s.queue) → occurs p s.active_jobs ≡ 0
  queued_apart p m = omega (
    arith,
    v.owned p,
    v.seated.entries_of p,
    sum_of-le (sits_for p) (owns p) ts (sits_for-le-owns p),
  )

  pub Inv-IsApart : IsApart s.active_jobs s.queue
  Inv-IsApart p m = elim (Bool-cases (is_active p s.active_jobs)) [
    | inl a ↦ absurd (omega (arith, queued_apart p m, is_active-occurs p s.active_jobs a))
    | inr a ↦ a
  ]

  slot-IsApart : (k : ℕ) → IsApart (get_or s.active_jobs k none ∷ []) s.queue
  slot-IsApart k p m = elim (Bool-cases (is_active p (get_or s.active_jobs k none ∷ []))) [
    | inl a ↦ absurd (omega (arith, queued_apart p m, slot_occurs s.active_jobs k p _ refl a))
    | inr a ↦ a
  ]

  module _ (text : ℕ → LogEvent → List ℕ) where
    check_slot-rest :
        (now : ℕ) (slot : Option ℕ)
        → ((check_slot text now slot s).resources ≡ s.resources)
          × ((check_slot text now slot s).active_jobs ≡ s.active_jobs)
    unfolding check_slot request_preemption add_log
    check_slot-rest now none = (refl, refl)
    check_slot-rest now (some job) = ground arith

    pub look-Inv :
        (now k : ℕ) → Inv sem needs (check_slot text now (get_or s.active_jobs k none) s) ts
    look-Inv now k =
        let slot = get_or s.active_jobs k none in
        let (resources_eq, active_eq) = check_slot-rest now slot in
        Behind-Inv sem needs s (check_slot text now slot s) ts v (record {
          fits = λ p. rw (check_slot-store text now slot s p) (
              IsFit-costs sem needs p (s.store p) _ (ground arith) (ground arith)
                (ground (arith, (v.fits p).level_lt)) (v.fits p));
          valid = rw (check_slot-queue text now slot s) (
              yielded-IsValid s.store _ (slot ∷ []) s.queue (slot-IsApart k)
                (check_slot-store text now slot s) v.valid);
          owned = rw (check_slot-queue text now slot s) v.owned;
          resources_eq = resources_eq;
          active_eq = active_eq;
        })

  pub popped :
      Hands s (pop_job s) × ((pop_job s).1 ≡ record s { queue = (MlfqJobQueue.try_pop s.queue).1 })
  popped =
      let (pops, _) = try_pop_best_first s.store s.queue v.valid in
      rw (pop_job-hand_out s) (
        hand_out-Hands s s (MlfqJobQueue.try_pop s.queue).0 (MlfqJobQueue.try_pop s.queue).1 pops
          Inv-IsApart)

  popped-IsValid : IsValid s.store (MlfqJobQueue.try_pop s.queue).1
  popped-IsValid = (try_pop_best_first s.store s.queue v.valid).1

  -- The queue that is left.
  abbrev pub rest : MlfqJobQueue
  rest = (MlfqJobQueue.try_pop s.queue).1

  pub idle-count : (pop_job s).0 ≡ none → pointers rest ≡ []
  idle-count e = elim popped.0 [
    | inl (_, _, none_left) ↦ ap (λ t. pointers t.queue) (sym popped.1) ∙ none_left
    | inr (job, handed, _, _) ↦ absurd (cc (e, handed))
  ]

  pub idle_empty : (pop_job s).0 ≡ none → pointers s.queue ≡ []
  idle_empty e = elim popped.0 [
    | inl (none_queued, _, _) ↦ none_queued
    | inr (job, handed, _, _) ↦ absurd (cc (e, handed))
  ]

  pub spawn-count :
      (job : ℕ) (slot : ℤ)
      → (pop_job s).0 ≡ some (job, slot)
      → pointers s.queue ≡ job ∷ pointers rest
  spawn-count job slot e = elim popped.0 [
    | inl (_, handed, _) ↦ absurd (cc (e, handed))
    | inr (best, handed, k, _) ↦
        let same : best ≡ job = cc (e, handed) in
        k.exactly ∙ ap (λ t. best ∷ pointers t.queue) popped.1 ∙ ap (λ j. j ∷ pointers rest) same
  ]

  pub idle-Inv : (pop_job s).0 ≡ none → Inv sem needs (pop_job s).1 ts
  idle-Inv e = rw popped.1 (
      Behind-Inv sem needs s (record s { queue = rest }) ts v
        (record {
          fits = v.fits;
          valid = popped-IsValid;
          owned = λ p. omega (arith, v.owned p, ap (count p) (idle-count e));
          resources_eq = refl;
          active_eq = refl;
        }))

  spawned-Seated :
      (job : ℕ) (slot : ℤ)
      → Seated s.active_jobs (ts ++ (record { job = job; pc = entering slot } ∷ []))
  spawned-Seated job slot = record {
    four = v.seated.four;
    entries = omega (arith, v.seated.entries, sum_of-append sits ts (t ∷ []));
    entries_of = λ p. ground (arith, v.seated.entries_of p, sum_of-append (sits_for p) ts (t ∷ []));
    each = λ j u e. elim (get_elem?-snoc ts j t u e) [
      | inl new ↦ rw new tt
      | inr old ↦ v.seated.each j u old
    ];
  }
    where
      t : Thread
      t = record { job = job; pc = entering slot }

  pub spawn-Inv :
      (job : ℕ) (slot : ℤ)
      → (pop_job s).0 ≡ some (job, slot)
      → Inv sem needs (pop_job s).1 (ts ++ (record { job = job; pc = entering slot } ∷ []))
  spawn-Inv job slot e = rw popped.1 (record {
    fits = v.fits;
    valid = popped-IsValid;
    owned = λ p. ground (
      arith,
      v.owned p,
      ap (count p) (spawn-count job slot e),
      sum_of-append (owns p) ts (t ∷ []),
    );
    permits = omega (arith, v.permits, sum_of-append holds ts (t ∷ []));
    funds = rw (grants-snoc needs ts job slot) v.funds;
    seated = spawned-Seated job slot;
  })
    where
      t : Thread
      t = record { job = job; pc = entering slot }
