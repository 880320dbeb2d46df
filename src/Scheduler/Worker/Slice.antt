-- ===== src/Scheduler/Worker/Slice.antt =====
-- A slice of a worker that no other thread interrupts.
use Prim.Native.Nat.{min}
use native.Mathlib.Decide.{dec_lt}
use tensor_sched.Prelude.{
  ℕ, zero, suc, ◌+◌, ◌-◌, ◌≤◌, ◌<◌, Bool, true, false, List, Option, none, some, ◌≡◌, ◌≢◌, refl, ap,
  ◌∙◌, arith, if◌then◌else◌, ltb, ◌⊎◌, inl, inr, pos, ltb_ℤ, leb,
}
use tensor_sched.Job.{Job, JobStatus, slice_quantum, quantum_expired, priority_value, update}
use tensor_sched.Scheduler.{Scheduler, add_log, add_gantt}
use tensor_sched.Scheduler.Records.{LogEvent}
use tensor_sched.Scheduler.Worker.{again, over, broken, round, slice, tick_job}

-- The job after `n` ticks.
abbrev pub ran : ℕ → Job → Job
ran n j = record j {
  elapsed_ticks = n + j.elapsed_ticks;
  ticks_this_slice = n + j.ticks_this_slice;
}

-- After its slice: preempted if it still has work to do.
abbrev pub sliced : ℕ → ℕ → Job → Job
sliced n burst j = record (ran n j) {
  status = if ltb (n + j.elapsed_ticks) burst then JobStatus.preempted else j.status;
}

module _ {S : Type 0} (text : ℕ → LogEvent → List ℕ) (now job slot : ℕ) where
  -- The slice ends, having run `n` ticks of the burst `burst`, with `was_preempted` as the job has
  -- work left or not, and only the job's own fields changed.
  abbrev pub Ends : ℕ → ℕ → Scheduler S → Option (Bool × Scheduler S) → Type 0
  Ends n burst s none = ⊥
  Ends n burst s (some (was_preempted, s')) =
      (was_preempted ≡ ltb (n + (s.store job).elapsed_ticks) burst)
      × (s'.store job ≡ sliced n burst (s.store job))
      × ((p : ℕ) → p ≢ job → s'.store p ≡ s.store p)
      × (s'.queue ≡ s.queue)
      × (s'.resources ≡ s.resources)
      × (s'.active_jobs ≡ s.active_jobs)

  -- The job runs, with `burst` to do, and its quantum or its burst is `n` ticks away.
  pub record IsDue (n burst : ℕ) (s : Scheduler S) : Type 0 where
    pub burst_eq : (s.store job).burst_time ≡ pos burst
    pub on : s.running ≡ true
    pub status_eq : (s.store job).status ≡ JobStatus.running
    pub in_burst : n + (s.store job).elapsed_ticks ≤ burst
    pub in_quantum : n + (s.store job).ticks_this_slice ≤ slice_quantum (s.store job)
    pub tight :
        (n + (s.store job).elapsed_ticks ≡ burst)
        ⊎ (n + (s.store job).ticks_this_slice ≡ slice_quantum (s.store job))

  round_over :
      (burst : ℕ) (s : Scheduler S)
      → IsDue 0 burst s
      → (s.store job).elapsed_ticks ≡ burst
      → round text now job slot s ≡ (over, s)
  unfolding round
  round_over burst s d e =
      let stop : ltb_ℤ (pos (s.store job).elapsed_ticks) (s.store job).burst_time ≡ false =
        ground (arith, d.burst_eq, e) in
      rw stop

  expire : Scheduler S → Scheduler S
  expire s =
      add_log text now
        (LogEvent.quantum_used (record (s.store job) { status = JobStatus.preempted })) 0
        (record s {
          store = update s.store job (record (s.store job) { status = JobStatus.preempted });
        })

  round_quantum :
      (burst : ℕ) (s : Scheduler S)
      → IsDue 0 burst s
      → (s.store job).elapsed_ticks < burst
      → (s.store job).ticks_this_slice ≡ slice_quantum (s.store job)
      → round text now job slot s ≡ (broken, expire s)
  unfolding round quantum_expired expire
  round_quantum burst s d lt e =
      let go : ltb_ℤ (pos (s.store job).elapsed_ticks) (s.store job).burst_time ≡ true =
        ground (arith, d.burst_eq, lt) in
      let used : leb (slice_quantum (s.store job)) (s.store job).ticks_this_slice ≡ true =
        ground (arith, e) in
      rw (go, d.on, d.status_eq, used)

  one_tick : Scheduler S → Scheduler S
  one_tick s =
      add_gantt (s.store job).id slot (s.store job).mlfq_level
        (priority_value (s.store job).priority) false (s.store job).name
        (record s { store = update s.store job (tick_job (s.store job)) })

  round_again :
      (n burst : ℕ) (s : Scheduler S)
      → IsDue (suc n) burst s
      → round text now job slot s ≡ (again, one_tick s)
  unfolding round quantum_expired one_tick
  round_again n burst s d =
      let go : ltb_ℤ (pos (s.store job).elapsed_ticks) (s.store job).burst_time ≡ true =
        ground (arith, d.burst_eq, d.in_burst) in
      let left : leb (slice_quantum (s.store job)) (s.store job).ticks_this_slice ≡ false =
        ground (arith, d.in_quantum) in
      rw (go, d.on, d.status_eq, left)

  slice_again :
      (fuel : ℕ) (s s' : Scheduler S)
      → round text now job slot s ≡ (again, s')
      → slice text (suc fuel) now job slot s ≡ slice text fuel now job slot s'
  unfolding slice
  slice_again fuel s s' e =
      rw (ap (λ r. r.0) e, slice) (ap (λ r. slice text fuel now job slot r.1) e)

  slice_over :
      (fuel : ℕ) (s s' : Scheduler S)
      → round text now job slot s ≡ (over, s')
      → slice text (suc fuel) now job slot s ≡ some (false, s')
  unfolding slice
  slice_over fuel s s' e = rw (ap (λ r. r.0) e, slice) (ap (λ r. some (false, r.1)) e)

  slice_broken :
      (fuel : ℕ) (s s' : Scheduler S)
      → round text now job slot s ≡ (broken, s')
      → slice text (suc fuel) now job slot s ≡ some (true, s')
  unfolding slice
  slice_broken fuel s s' e = rw (ap (λ r. r.0) e, slice) (ap (λ r. some (true, r.1)) e)

  expire-Ends :
      (burst : ℕ) (s : Scheduler S)
      → (s.store job).elapsed_ticks < burst
      → Ends 0 burst s (some (true, expire s))
  unfolding expire add_log update
  expire-Ends burst s lt =
      (ground arith, ground arith, λ p ne. ground (arith, ne), refl, refl, refl)

  over-Ends :
      (burst : ℕ) (s : Scheduler S)
      → burst ≤ (s.store job).elapsed_ticks
      → Ends 0 burst s (some (false, s))
  over-Ends burst s ge = (ground arith, ground arith, λ p ne. refl, refl, refl, refl)

  slice_last :
      (fuel burst : ℕ) (s : Scheduler S)
      → IsDue 0 burst s
      → Ends 0 burst s (slice text (suc fuel) now job slot s)
  slice_last fuel burst s d = elim (dec_lt (s.store job).elapsed_ticks burst) [
    | yes lt ↦
        rw (slice_broken fuel s _ (round_quantum burst s d lt (ground (arith, d.tight, lt))))
          (expire-Ends burst s lt)
    | no ge ↦
        rw (slice_over fuel s _ (round_over burst s d (omega (arith, d.in_burst))))
          (over-Ends burst s (omega arith))
  ]

  one_tick-store : (s : Scheduler S) → (one_tick s).store job ≡ tick_job (s.store job)
  unfolding one_tick add_gantt update
  one_tick-store s = ground arith

  one_tick-others : (s : Scheduler S) (p : ℕ) → p ≢ job → (one_tick s).store p ≡ s.store p
  unfolding one_tick add_gantt update
  one_tick-others s p ne = ground (arith, ne)

  one_tick-rest :
      (s : Scheduler S)
      → ((one_tick s).queue ≡ s.queue)
        × ((one_tick s).resources ≡ s.resources)
        × ((one_tick s).active_jobs ≡ s.active_jobs)
        × ((one_tick s).running ≡ s.running)
  unfolding one_tick add_gantt
  one_tick-rest s = (refl, refl, refl, refl)

  one_tick-IsDue :
      (n burst : ℕ) (s : Scheduler S) → IsDue (suc n) burst s → IsDue n burst (one_tick s)
  one_tick-IsDue n burst s d = record {
    burst_eq = rw (one_tick-store s) d.burst_eq;
    on = (one_tick-rest s).3 ∙ d.on;
    status_eq = rw (one_tick-store s) d.status_eq;
    in_burst = rw (one_tick-store s) (omega (arith, d.in_burst));
    in_quantum = rw (one_tick-store s) (omega (arith, d.in_quantum));
    tight =
        rw (one_tick-store s)
          (elim d.tight [ inl e ↦ inl (omega arith) | inr e ↦ inr (omega arith) ]);
  }

  one_tick-Ends :
      (n burst : ℕ) (s : Scheduler S) (r : Option (Bool × Scheduler S))
      → Ends n burst (one_tick s) r
      → Ends (suc n) burst s r
  one_tick-Ends n burst s none e = e
  one_tick-Ends n burst s (some (b, s')) e = (
    e.0 ∙ ap (λ k. ltb k burst) (rw (one_tick-store s) (omega arith)),
    e.1 ∙ ap (sliced n burst) (one_tick-store s) ∙ sliced_suc,
    λ p ne. e.2 p ne ∙ one_tick-others s p ne,
    e.3 ∙ (one_tick-rest s).0,
    e.4 ∙ (one_tick-rest s).1,
    e.5 ∙ (one_tick-rest s).2,
  )
    where
      sliced_suc : sliced n burst (tick_job (s.store job)) ≡ sliced (suc n) burst (s.store job)
      sliced_suc = ground arith

  slice-Ends :
      (n fuel burst : ℕ) (s : Scheduler S)
      → n < fuel
      → IsDue n burst s
      → Ends n burst s (slice text fuel now job slot s)
  slice-Ends n zero burst s lt d = absurd (omega arith)
  slice-Ends zero (suc fuel) burst s lt d = slice_last fuel burst s d
  slice-Ends (suc n) (suc fuel) burst s lt d = rw (slice_again fuel s _ (round_again n burst s d)) (
      one_tick-Ends n burst s _
        (slice-Ends n fuel burst (one_tick s) (omega arith) (one_tick-IsDue n burst s d)))

  -- A running job that no other thread interrupts, with `burst` ticks to do in all and within its
  -- quantum, runs to the end of its burst or of its quantum, whichever is nearer: so many rounds
  -- always end the loop. It is left as running if its burst is done, else as preempted with
  -- `was_preempted` set; no other job, no queue, resource or slot changes.
  pub slice_runs :
      (n fuel burst : ℕ) (s : Scheduler S)
      → (s.store job).burst_time ≡ pos burst
      → s.running ≡ true
      → (s.store job).status ≡ JobStatus.running
      → (s.store job).elapsed_ticks ≤ burst
      → (s.store job).ticks_this_slice ≤ slice_quantum (s.store job)
      → n
        ≡ min
            (burst - (s.store job).elapsed_ticks)
            (slice_quantum (s.store job) - (s.store job).ticks_this_slice)
      → n < fuel
      → Ends n burst s (slice text fuel now job slot s)
  slice_runs n fuel burst s b on st le le' eq lt = slice-Ends n fuel burst s lt (record {
    burst_eq = b;
    on = on;
    status_eq = st;
    in_burst = omega arith;
    in_quantum = omega arith;
    tight = omega arith;
  })
