-- ===== src/Scheduler/Dispatch/Cycle.antt =====
-- A whole round of the dispatcher.
use tensor_sched.Prelude.{
  ℕ, ◌%◌, ◌<◌, true, false, List, [], Option, none, some, ◌≡◌, refl, ap, ap₂, ◌∙◌, arith, ◌==◌,
  count, ◌⊎◌, inl, inr, Bool-cases, ℤ,
}
use mathlib.Core.Path.{fun_ext}
use tensor_sched.Job.{Store}
use tensor_sched.SingleLevelQueue.Tick.{wait}
use tensor_sched.MlfqJobQueue
use tensor_sched.MlfqJobQueue.{MlfqJobQueue, pointers}
use tensor_sched.MlfqJobQueue.Invariant.{IsValid, AreLevels-AgreesOn}
use tensor_sched.MlfqJobQueue.Popping.{Pops, Takes, try_pop_best_first}
use tensor_sched.MlfqJobQueue.Views.{tick_waiting-IsValid, tick_waiting_lem}
use tensor_sched.ResourceManager.{get_free_worker_slot}
use tensor_sched.Scheduler.{Scheduler}
use tensor_sched.Scheduler.Records.{LogEvent}
use tensor_sched.Scheduler.Dispatch.{tick, check_preemptions, pop_job, dispatch}
use tensor_sched.Scheduler.Dispatch.Preempt.{is_active, yielded, check_preemptions_lem}

-- No job is queued and in a slot at once.
abbrev pub IsApart : List (Option ℕ) → MlfqJobQueue → Type 0
IsApart slots qs = (p : ℕ) → 0 < count p (pointers qs) → is_active p slots ≡ false

pub yielded-IsValid :
    (h k : Store) (slots : List (Option ℕ)) (qs : MlfqJobQueue)
    → IsApart slots qs
    → ((p : ℕ) → k p ≡ yielded h qs slots p)
    → IsValid h qs
    → IsValid k qs
yielded-IsValid h k slots qs apart e v = record {
  three = v.three;
  levels =
      AreLevels-AgreesOn h k 0 qs (λ p. ground (arith, e p)) (λ p m. ground (arith, e p, apart p m))
        v.levels;
  distinct = v.distinct;
}

module _ {S : Type 0} where
  pub tick-rest :
      (cycle : ℕ) (s : Scheduler S)
      → ((tick cycle s).queue ≡ s.queue)
        × ((tick cycle s).active_jobs ≡ s.active_jobs)
        × ((tick cycle s).resources ≡ s.resources)
  unfolding tick
  tick-rest cycle s = elim (Bool-cases (cycle % 4 == 0)) [
    | inl e ↦ rw e (refl, refl, refl)
    | inr e ↦ rw e (refl, refl, refl)
  ]

  -- On every fourth cycle each queued job is one tick older, and on the others nothing changes.
  pub tick-wait :
      (cycle : ℕ) (s : Scheduler S)
      → cycle % 4 ≡ 0
      → (tick cycle s).store ≡ (λ p. wait (s.store p) (count p (pointers s.queue)))
  unfolding tick
  tick-wait cycle s e =
      let due : (cycle % 4 == 0) ≡ true = ground arith in
      rw due (fun_ext (λ p. tick_waiting_lem s.store s.queue p))

  pub tick-idle : (cycle : ℕ) (s : Scheduler S) → 0 < cycle % 4 → (tick cycle s).store ≡ s.store
  unfolding tick
  tick-idle cycle s lt = let not_due : (cycle % 4 == 0) ≡ false = ground arith in rw not_due refl

  pub tick-IsValid :
      (cycle : ℕ) (s : Scheduler S) → IsValid s.store s.queue → IsValid (tick cycle s).store s.queue
  unfolding tick
  tick-IsValid cycle s v = elim (Bool-cases (cycle % 4 == 0)) [
    | inl e ↦ rw e (tick_waiting-IsValid s.store s.queue v)
    | inr e ↦ rw e v
  ]

  -- What a round hands to a new worker: nothing from an empty queue, else the best job, by the store
  -- that the round leaves, with the slot number that is free then.
  abbrev pub Hands : Scheduler S → Option (ℕ × ℤ) × Scheduler S → Type 0
  Hands s (handed, s') =
      ((pointers s.queue ≡ []) × (handed ≡ none) × (pointers s'.queue ≡ []))
      ⊎ ((job : ℕ) × (handed ≡ some (job, get_free_worker_slot s'.resources))
          × Takes s'.store 0 s.queue job (some job, s'.queue)
          × (is_active job s.active_jobs ≡ false))

  -- The end of `pop_job`, on what was popped.
  abbrev pub hand_out : Scheduler S → Option ℕ × MlfqJobQueue → Option (ℕ × ℤ) × Scheduler S
  hand_out t (none, q) = (none, record t { queue = q })
  hand_out t (some job, q) = (some (job, get_free_worker_slot t.resources), record t { queue = q })

  outcome :
      (t : Scheduler S) (found : Option ℕ) (q : MlfqJobQueue)
      → elim found [
        | none ↦ (none, record t { queue = q })
        | some job ↦ (some (job, get_free_worker_slot t.resources), record t { queue = q })
      ]
        ≡ hand_out t (found, q)
  outcome t none q = refl
  outcome t (some job) q = refl

  pub pop_job-hand_out : (t : Scheduler S) → pop_job t ≡ hand_out t (MlfqJobQueue.try_pop t.queue)
  unfolding pop_job
  pop_job-hand_out t = outcome t (MlfqJobQueue.try_pop t.queue).0 (MlfqJobQueue.try_pop t.queue).1

  pub hand_out-Hands :
      (s t : Scheduler S) (found : Option ℕ) (q : MlfqJobQueue)
      → Pops t.store 0 s.queue (found, q)
      → IsApart s.active_jobs s.queue
      → Hands s (hand_out t (found, q)) × ((hand_out t (found, q)).1 ≡ record t { queue = q })
  hand_out-Hands s t none q pops apart = elim pops [
    | inl (none_queued, _, none_left, _, _) ↦ (inl (none_queued, refl, none_left), refl)
    | inr (job, k) ↦ let e : none ≡ some job = k.found in absurd (cc e)
  ]
  hand_out-Hands s t (some job) q pops apart = elim pops [
    | inl (_, e, _, _, _) ↦ absurd (cc e)
    | inr (best, k) ↦
        let e : some job ≡ some best = k.found in
        let same : job ≡ best = cc e in
        let k' : Takes t.store 0 s.queue job (some job, q) = rw same (rw same at k) in
        (inr (job, refl, k', apart job (ground (arith, ap (count job) k'.exactly))), refl)
  ]

  -- From valid levels that hold no job of a slot, a round of the dispatcher first makes each queued
  -- job one tick older, if its cycle is a multiple of four, and else leaves the jobs as they are. It
  -- then preempts the running jobs in the slots that should then yield, and takes the best queued job
  -- for a new worker, unless none is queued. That job is in no slot, and the levels stay valid.
  pub dispatch_lem :
      (text : ℕ → LogEvent → List ℕ) (now cycle : ℕ) (s : Scheduler S)
      → IsValid s.store s.queue
      → IsApart s.active_jobs s.queue
      → let (handed, s') = dispatch text now cycle s in
        Hands s (handed, s')
        × IsValid s'.store s'.queue
        × (cycle % 4 ≡ 0
            → (p : ℕ)
            → s'.store p
              ≡ yielded
                  (λ a. wait (s.store a) (count a (pointers s.queue)))
                  s.queue
                  s.active_jobs
                  p)
        × (0 < cycle % 4 → (p : ℕ) → s'.store p ≡ yielded s.store s.queue s.active_jobs p)
  unfolding dispatch
  dispatch_lem text now cycle s v apart =
      rw (pop_job-hand_out checked, same_queue)
        (
          handed.0,
          rw handed.1 popped.1,
          λ e p. rw handed.1 (checked_store p ∙ yields (tick-wait cycle s e) p),
          λ lt p. rw handed.1 (checked_store p ∙ yields (tick-idle cycle s lt) p),
        )
    where
      yields :
          {h : Store}
          → (tick cycle s).store ≡ h
          → (p : ℕ)
          → yielded (tick cycle s).store s.queue s.active_jobs p ≡ yielded h s.queue s.active_jobs p
      yields e p = ap (λ k. yielded k s.queue s.active_jobs p) e

      checked : Scheduler S
      checked = check_preemptions text now (tick cycle s)

      same_queue : checked.queue ≡ s.queue
      same_queue = (check_preemptions_lem text now (tick cycle s)).0 ∙ (tick-rest cycle s).0

      checked_store :
          (p : ℕ) → checked.store p ≡ yielded (tick cycle s).store s.queue s.active_jobs p
      checked_store p =
          (check_preemptions_lem text now (tick cycle s)).1 p
          ∙ ap₂ (λ q slots. yielded (tick cycle s).store q slots p) (tick-rest cycle s).0
              (tick-rest cycle s).1

      popped :
          Pops checked.store 0 s.queue (MlfqJobQueue.try_pop s.queue)
          × IsValid checked.store (MlfqJobQueue.try_pop s.queue).1
      popped = try_pop_best_first checked.store s.queue (
          yielded-IsValid (tick cycle s).store checked.store s.active_jobs s.queue apart
            checked_store (tick-IsValid cycle s v))

      handed :
          Hands s (hand_out checked (MlfqJobQueue.try_pop s.queue))
          × ((hand_out checked (MlfqJobQueue.try_pop s.queue)).1
              ≡ record checked { queue = (MlfqJobQueue.try_pop s.queue).1 })
      handed =
          hand_out-Hands s checked (MlfqJobQueue.try_pop s.queue).0 (MlfqJobQueue.try_pop s.queue).1
            popped.0 apart
