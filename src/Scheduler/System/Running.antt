-- ===== src/Scheduler/System/Running.antt =====
-- A worker that need not wait can be run to its end, the other threads standing still.
use tensor_sched.Prelude.{
  ℕ, zero, suc, ◌+◌, ◌-◌, ◌≤◌, ◌<◌, Bool, true, false, List, [], ◌∷◌, some, ◌≡◌, refl, ap, arith,
  get_elem?, set, ◌⊎◌, inl, inr, Bool-cases, ℤ, pos_part,
}
use tensor_sched.Job.{update}
use tensor_sched.Semaphore.{Semaphore}
use tensor_sched.Scheduler.{Scheduler, add_log, add_gantt}
use tensor_sched.Scheduler.Records.{LogEvent}
use tensor_sched.Scheduler.Worker.{Round, round, start}
use tensor_sched.Scheduler.System.{
  Pc, entering, waiting, reserving, refusing, failing, choosing, placing, starting, looping,
  vacating, freeing, releasing, posting, ending, done, Thread, Phase, is_locked, System,
  reserve_for, Move, enter, pass, accept, refuse, give_up, report, choose, take, begin, go_on,
  run_out, cut, leave, clear, give_back, free_up, close, Step, work,
}
use tensor_sched.Scheduler.System.Threads.{sum_of, sum_of-set}
use tensor_sched.Scheduler.System.Invariant.{permit, is_alive}
use tensor_sched.Scheduler.System.Quiet.{announce-Quiet}

abbrev pub alive : Thread → ℕ
alive t = is_alive t.pc

Round-cases : (r : Round) → (r ≡ Round.again) ⊎ (r ≡ Round.over) ⊎ (r ≡ Round.broken)
Round-cases Round.again = inl refl
Round-cases Round.over = inr (inl refl)
Round-cases Round.broken = inr (inr refl)

get_elem?-set_self :
    {A : Type 0} (xs : List A) (i : ℕ) (x y : A)
    → get_elem? xs i ≡ some x
    → get_elem? (set xs i y) i ≡ some y
get_elem?-set_self [] i x y e = cc
get_elem?-set_self (z ∷ xs) zero x y e = refl
get_elem?-set_self (z ∷ xs) (suc i) x y e = get_elem?-set_self xs i x y e

module _ (sem : Semaphore) (text : ℕ → LogEvent → List ℕ) where
  open sem use {State, value, wait_passes}

  -- Some steps, one after the other.
  pub data Steps : System State → System State → Type 0 where
    stop : {m : System State} → Steps m m
    then_on : {m n o : System State} → Step sem text m n → Steps n o → Steps m o

  -- The ticks left of the job's burst.
  abbrev left : ℕ → Scheduler State → ℕ
  left job s = pos_part (s.store job).burst_time - (s.store job).elapsed_ticks

  again-left :
      (now job k : ℕ) (s : Scheduler State)
      → (round text now job k s).0 ≡ Round.again
      → suc (left job (round text now job k s).1) ≡ left job s
  unfolding round add_log add_gantt update
  again-left now job k s e = ground (arith, e)

  -- The dispatcher does not hold `active_mutex_`; thread `i` works for `job`.
  module _ (phase : Phase) (cycle : ℕ) (unlocked : is_locked phase ≡ false) (now i job : ℕ) where
    abbrev at : Pc → Thread
    at p = record { job = job; pc = p }

    -- One more worker is at its end.
    abbrev pub Ends : Scheduler State → List Thread → Type 0
    Ends s ts =
        (n : System State) × Steps
          (record { sched = s; threads = ts; phase = phase; cycle = cycle }) n
        × (suc (sum_of alive n.threads) ≡ sum_of alive ts)
        × (is_locked n.phase ≡ false)

    abbrev CanEnd : Pc → Scheduler State → Type 0
    CanEnd p s = (ts : List Thread) → get_elem? ts i ≡ some (at p) → Ends s ts

    last :
        {p : Pc} {s s' : Scheduler State}
        → Move sem text false now job s p done s'
        → is_alive p ≡ 1
        → CanEnd p s
    last {p} {s} {s'} mv living ts e = (
      record { sched = s'; threads = set ts i (at done); phase = phase; cycle = cycle },
      then_on (work i now (at p) e (rw unlocked mv)) stop,
      omega (arith, sum_of-set alive ts i (at p) (at done) e, living),
      unlocked,
    )

    advance :
        {p q : Pc} {s s' : Scheduler State}
        → Move sem text false now job s p q s'
        → is_alive p ≡ is_alive q
        → CanEnd q s'
        → CanEnd p s
    advance {p} {q} {s} {s'} mv living next ts e =
        let (n, run, one_less, free) =
          next (set ts i (at q)) (get_elem?-set_self ts i (at p) (at q) e) in
        (
          n,
          then_on (work i now (at p) e (rw unlocked mv)) run,
          omega (arith, one_less, sum_of-set alive ts i (at p) (at q) e, living),
          free,
        )

    from_releasing : (b : Bool) (s : Scheduler State) → CanEnd (releasing b) s
    from_releasing b s = advance give_back refl (advance free_up refl (last close refl))

    from_vacating : (k : ℕ) (b : Bool) (s : Scheduler State) → CanEnd (vacating k b) s
    from_vacating k b s = advance (leave refl) refl (advance clear refl (from_releasing b _))

    from_looping : (fuel k : ℕ) (s : Scheduler State) → left job s ≤ fuel → CanEnd (looping k) s
    from_looping zero k s le = elim (Round-cases (round text now job k s).0) [
      | inl more ↦ absurd (omega (arith, again-left now job k s more, le))
      | inr (inl over) ↦ advance (run_out over) refl (from_vacating k false _)
      | inr (inr broken) ↦ advance (cut broken) refl (from_vacating k true _)
    ]
    from_looping (suc fuel) k s le = elim (Round-cases (round text now job k s).0) [
      | inl more ↦
          advance (go_on more) refl
            (from_looping fuel k _ (omega (arith, again-left now job k s more, le)))
      | inr (inl over) ↦ advance (run_out over) refl (from_vacating k false _)
      | inr (inr broken) ↦ advance (cut broken) refl (from_vacating k true _)
    ]

    from_starting : (k : ℕ) (s : Scheduler State) → CanEnd (starting k) s
    from_starting k s =
        let s' = start text now job k s in
        advance begin refl (from_looping (left job s') k s' (omega arith))

    from_placing : (k : ℕ) (s : Scheduler State) → CanEnd (placing k) s
    from_placing k s = advance (take refl) refl (from_starting _ _)

    from_refusing : (s : Scheduler State) → CanEnd refusing s
    from_refusing s = advance give_up refl (last report refl)

    from_reserving : (slot : ℤ) (s : Scheduler State) → CanEnd (reserving slot) s
    from_reserving slot s = elim (Bool-cases (reserve_for job s).0) [
      | inl yes_e ↦ advance (accept yes_e) refl (advance choose refl (from_placing _ _))
      | inr no_e ↦ advance (refuse no_e) refl (from_refusing _)
    ]

    from_waiting :
        (slot : ℤ) (s : Scheduler State) → 0 < value s.resources.slots → CanEnd (waiting slot) s
    from_waiting slot s lt =
        let (t, passed, _) = wait_passes s.resources.slots lt in
        advance (pass passed) refl (from_reserving slot _)

    from_entering :
        (slot : ℤ) (s : Scheduler State) → 0 < value s.resources.slots → CanEnd (entering slot) s
    from_entering slot s lt = advance enter refl (
        from_waiting slot _
          (omega (arith, lt, ap value (announce-Quiet text now job s).funds_eq.slots_eq)))

    -- A worker that has not ended, and holds a permit or finds one, can be run to its end.
    pub worker_ends :
        (p : Pc) (s : Scheduler State)
        → is_alive p ≡ 1
        → 0 < value s.resources.slots + permit p
        → CanEnd p s
    worker_ends (entering slot) s living lt = from_entering slot s (omega (arith, lt))
    worker_ends (waiting slot) s living lt = from_waiting slot s (omega (arith, lt))
    worker_ends (reserving slot) s living lt = from_reserving slot s
    worker_ends refusing s living lt = from_refusing s
    worker_ends failing s living lt = last report refl
    worker_ends (choosing slot) s living lt = advance choose refl (from_placing _ s)
    worker_ends (placing k) s living lt = from_placing k s
    worker_ends (starting k) s living lt = from_starting k s
    worker_ends (looping k) s living lt = from_looping (left job s) k s (omega arith)
    worker_ends (vacating k b) s living lt = from_vacating k b s
    worker_ends (freeing k b) s living lt = advance clear refl (from_releasing b _)
    worker_ends (releasing b) s living lt = from_releasing b s
    worker_ends (posting b) s living lt = advance free_up refl (last close refl)
    worker_ends (ending b) s living lt = last close refl
    worker_ends done s living lt = absurd (omega (arith, living))
