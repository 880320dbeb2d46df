-- ===== src/Scheduler/Dispatch/Preempt.antt =====
-- Which jobs a pass of `checkPreemptions` preempts.
use tensor_sched.Prelude.{
  ℕ, suc, Bool, false, List, [], ◌∷◌, Option, none, some, ◌≡◌, refl, ap, ◌∙◌, arith, ◌==◌, ◌&&◌,
  ◌||◌, if◌then◌else◌, inl, inr, Bool-cases,
}
use tensor_sched.Job.{JobStatus, Store, update, priority_value}
use tensor_sched.MlfqJobQueue
use tensor_sched.MlfqJobQueue.{MlfqJobQueue}
use tensor_sched.MlfqJobQueue.Candidate.{has_better-priorities}
use tensor_sched.Scheduler.{Scheduler, add_log}
use tensor_sched.Scheduler.Records.{LogEvent}
use tensor_sched.Scheduler.Dispatch.{
  is_running, preempt, request_preemption, check_slot, check_slots, check_preemptions,
}

-- The job stands in one of the slots.
abbrev pub is_active : ℕ → List (Option ℕ) → Bool
is_active p [] = false
is_active p (none ∷ slots) = is_active p slots
is_active p (some q ∷ slots) = (q == p) || is_active p slots

-- It runs, and a queued job should run instead.
abbrev pub should_yield : Store → MlfqJobQueue → ℕ → Bool
should_yield h q p =
    is_running (h p).status
    && MlfqJobQueue.has_better_candidate h q (h p).mlfq_level (priority_value (h p).priority)

-- The store after the slots have been checked.
abbrev pub yielded : Store → MlfqJobQueue → List (Option ℕ) → Store
yielded h q slots p =
    if is_active p slots && should_yield h q p
    then record (h p) {
      status = JobStatus.preempted;
      preemption_count = suc (h p).preemption_count;
    }
    else h p

yielded_step :
    (h k : Store) (q : MlfqJobQueue) (slot : Option ℕ) (slots : List (Option ℕ)) (p : ℕ)
    → k p ≡ yielded h q (slot ∷ []) p
    → MlfqJobQueue.has_better_candidate k q (h p).mlfq_level (priority_value (h p).priority)
      ≡ MlfqJobQueue.has_better_candidate h q (h p).mlfq_level (priority_value (h p).priority)
    → yielded k q slots p ≡ yielded h q (slot ∷ slots) p
yielded_step h k q none slots p e same = rw (e, same)
yielded_step h k q (some j) slots p e same = elim (Bool-cases ((j == p) && should_yield h q p)) [
  | inl now_yields ↦
      let e' : k p ≡ preempt (h p) = ground (arith, e, now_yields) in
      rw e' (ground (arith, now_yields))
  | inr stays ↦
      let e' : k p ≡ h p = ground (arith, e, stays) in rw (e', same) (ground (arith, stays))
]

module _ {S : Type 0} (text : ℕ → LogEvent → List ℕ) where
  refused :
      (now target : ℕ) (s : Scheduler S)
      → is_running (s.store target).status ≡ false
      → request_preemption text now (some target) s ≡ (false, s)
  unfolding request_preemption
  refused now target s e = rw e

  -- A preemption is granted exactly when the job runs. Then the job is marked preempted and counted
  -- once, and no other job changes; otherwise the scheduler is left as it was. So of two requests
  -- for one job, with no step of its worker between them, the second is refused.
  pub request_preemption_once :
      (now later target : ℕ) (s : Scheduler S)
      → let (won, s') = request_preemption text now (some target) s in
        (won ≡ is_running (s.store target).status)
        × ((p : ℕ)
            → s'.store p ≡ (
                if (target == p) && is_running (s.store target).status
                then preempt (s.store p)
                else s.store p))
        × (s'.stats.total_preemptions
            ≡ (if won then suc s.stats.total_preemptions else s.stats.total_preemptions))
        × (won ≡ false → s' ≡ s)
        × (request_preemption text later (some target) s' ≡ (false, s'))
  unfolding request_preemption add_log update
  request_preemption_once now later target s =
      elim (Bool-cases (is_running (s.store target).status)) [
        | inl e ↦
            rw e (
              refl,
              λ p. ground arith,
              refl,
              λ f. absurd (cc),
              refused later target _ (ground arith),
            )
        | inr e ↦ rw e (refl, λ p. ground arith, refl, λ f. refl, rw (e, request_preemption))
      ]

  pub check_slot-store :
      (now : ℕ) (slot : Option ℕ) (s : Scheduler S) (p : ℕ)
      → (check_slot text now slot s).store p ≡ yielded s.store s.queue (slot ∷ []) p
  unfolding check_slot request_preemption add_log update
  check_slot-store now none s p = refl
  check_slot-store now (some j) s p = ground arith

  pub check_slot-queue :
      (now : ℕ) (slot : Option ℕ) (s : Scheduler S) → (check_slot text now slot s).queue ≡ s.queue
  unfolding check_slot request_preemption add_log
  check_slot-queue now none s = refl
  check_slot-queue now (some j) s = ground arith

  check_slot-priority :
      (now : ℕ) (slot : Option ℕ) (s : Scheduler S) (p : ℕ)
      → ((check_slot text now slot s).store p).priority ≡ (s.store p).priority
  check_slot-priority now slot s p = ground (arith, check_slot-store now slot s p)

  check_slots-queue :
      (now : ℕ) (slots : List (Option ℕ)) (s : Scheduler S)
      → (check_slots text now slots s).queue ≡ s.queue
  unfolding check_slots
  check_slots-queue now [] s = refl
  check_slots-queue now (slot ∷ slots) s =
      check_slots-queue now slots (check_slot text now slot s) ∙ check_slot-queue now slot s

  check_slots-store :
      (now : ℕ) (slots : List (Option ℕ)) (s : Scheduler S) (p : ℕ)
      → (check_slots text now slots s).store p ≡ yielded s.store s.queue slots p
  unfolding check_slots
  check_slots-store now [] s p = refl
  check_slots-store now (slot ∷ slots) s p =
      check_slots-store now slots (check_slot text now slot s) p
      ∙ ap (λ q. yielded (check_slot text now slot s).store q slots p) (check_slot-queue now slot s)
      ∙ yielded_step s.store (check_slot text now slot s).store s.queue slot slots p
          (check_slot-store now slot s p)
          (has_better-priorities s.store (check_slot text now slot s).store s.queue _ _
            (λ x. check_slot-priority now slot s x))

  -- A pass of the dispatcher over the worker slots preempts exactly the jobs that stand in a slot,
  -- run, and have a better candidate among the queued jobs: each is marked preempted, with one
  -- preemption more. The queue and every other job stay as they are.
  pub check_preemptions_lem :
      (now : ℕ) (s : Scheduler S)
      → ((check_preemptions text now s).queue ≡ s.queue)
        × ((p : ℕ)
            → (check_preemptions text now s).store p ≡ yielded s.store s.queue s.active_jobs p)
  unfolding check_preemptions
  check_preemptions_lem now s =
      (check_slots-queue now s.active_jobs s, check_slots-store now s.active_jobs s)
