-- ===== src/Examples/Locks.antt =====
-- Threads that take turns at the levels.
use tensor_sched.Prelude.{ℕ, ◌+◌, List, zero, suc, true, [], ◌∷◌, refl, arith}
use tensor_sched.Job.{update}
use tensor_sched.SingleLevelQueue
use tensor_sched.MlfqJobQueue.{run_aging, init, push_at, push_new, requeue_preempted}
use tensor_sched.MlfqJobQueue.Interleaved.Sound.{IsSound}
use tensor_sched.MlfqJobQueue.Interleaved.{
  State, Step, Run, start, pop_at, tick_at, drain_at, found_in, without,
}
use tensor_sched.MlfqJobQueue.Interleaved.Safety.{Run-IsSound}
use tensor_sched.MlfqJobQueue.Interleaved.Runs.{calls-Does}
use tensor_sched.MlfqJobQueue.Interleaved.Acts.{Act, Does, promote_each}
use tensor_sched.Examples.Data.{jobs}

-- Job 3 is submitted.
abbrev in_queue : State
in_queue = record (start jobs) {
  store = (push_new 5 jobs 3 (start jobs).levels).0;
  levels = (push_new 5 jobs 3 (start jobs).levels).1;
  submitted = 3 ∷ [];
}

-- It is popped, and requeued on level 1.
abbrev in_hand : State
in_hand = record in_queue {
  levels = (pop_at 0 in_queue.levels).1;
  held = found_in (pop_at 0 in_queue.levels).0 in_queue.held;
}

abbrev back : State
back = record in_hand {
  store = (requeue_preempted 6 in_hand.store 3 true in_hand.levels).0;
  levels = (requeue_preempted 6 in_hand.store 3 true in_hand.levels).1;
  held = without 3 in_hand.held;
}

-- Level 1 is ticked `n` times.
abbrev ticked : ℕ → State
ticked zero = back
ticked (suc n) = record (ticked n) { store = tick_at (ticked n).store 1 (ticked n).levels }

-- The aging thread drains level 1.
abbrev drained : State
drained = record (ticked 15) {
  levels = (drain_at (ticked 15).store 1 (ticked 15).levels).1;
  aged = (drain_at (ticked 15).store 1 (ticked 15).levels).0;
  lvl = 1;
}

-- Before it promotes job 3, job 1 is submitted.
abbrev between : State
between = record drained {
  store = (push_new 7 drained.store 1 drained.levels).0;
  levels = (push_new 7 drained.store 1 drained.levels).1;
  submitted = 1 ∷ 3 ∷ [];
}

Run-back : Run (start jobs) back
unfolding pop_at init push_new push_at SingleLevelQueue.init SingleLevelQueue.try_pop
    SingleLevelQueue.push SingleLevelQueue.insert
Run-back =
    Run.later (Run.later (Run.later Run.here (Step.submit 5 3 refl)) (Step.pop 0 (omega arith)))
      (Step.requeue 6 3 true (omega arith))

Run-ticked : (n : ℕ) → Run (start jobs) (ticked n)
Run-ticked zero = Run-back
Run-ticked (suc n) = Run.later (Run-ticked n) (Step.tick 1 (omega arith))

Run-between : Run (start jobs) between
Run-between =
    Run.later (Run.later (Run-ticked 15) (Step.drain 0 refl (omega arith))) (Step.submit 7 1 refl)

Run-IsSound_example : IsSound between
Run-IsSound_example = Run-IsSound jobs between Run-between

-- On level 1, job 3 has waited long enough to be promoted.
calls-Does_example :
    let (h, qs, n) = run_aging (λ job. 7) (ticked 15).store (ticked 15).levels in
    (first : List ℕ) × (second : List ℕ) × Does
      (ticked 15)
      (Act.drain 0
        ∷ promote_each (λ job. 7) first (Act.drain 1 ∷ promote_each (λ job. 7) second []))
      (record (ticked 15) {
        store = h;
        levels = qs;
        lvl = 2;
        aged = [];
        promoted = (ticked 15).promoted + n;
      })
unfolding pop_at init push_new push_at requeue_preempted SingleLevelQueue.init SingleLevelQueue.push
    SingleLevelQueue.insert update
calls-Does_example = (calls-Does (ticked 15) refl).2 refl (λ job. 7)
