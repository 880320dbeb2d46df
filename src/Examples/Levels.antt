-- ===== src/Examples/Levels.antt =====
-- The queues of job_queue.h, and the ring buffers, on the small workload.
use mathlib.Core.Logic.{◌↔◌}
use tensor_sched.Prelude.{ℕ, All, true, List, [], ◌∷◌, ◌≡◌, refl, pos, arith, inl}
use tensor_sched.Job.{Store, update}
use tensor_sched.SingleLevelQueue
use tensor_sched.SingleLevelQueue.{SingleLevelQueue, IsCounted}
use tensor_sched.SingleLevelQueue.Rank.{Parts, IsRanked, IsBefore, push-IsRanked, push-try_pop}
use tensor_sched.MlfqJobQueue
use tensor_sched.MlfqJobQueue.{MlfqJobQueue}
use tensor_sched.MlfqJobQueue.Invariant.{IsValid, init-IsValid}
use tensor_sched.MlfqJobQueue.Pushing.{Enters, requeue_preempted-Enters}
use tensor_sched.MlfqJobQueue.Popping.{Pops, try_pop_best_first}
use tensor_sched.MlfqJobQueue.Ageing.Starvation.{period, no_starvation}
use tensor_sched.MlfqJobQueue.Ageing.Pass.{run_aging-Ages}
use tensor_sched.MlfqJobQueue.Candidate.{has_better_candidate_iff}
use tensor_sched.MlfqJobQueue.Views.{views_lem}
use tensor_sched.Ring
use tensor_sched.Ring.History.{add_all, snapshot-add_all}
use tensor_sched.Examples.Data.{
  jobs, one, two, one-IsValid, two-IsValid, after_ticks, after_ticks-IsValid,
}

abbrev high_only : SingleLevelQueue
high_only = record { nodes = 2 ∷ []; size_ = pos 1 }

abbrev both : SingleLevelQueue
both = record { nodes = 1 ∷ 2 ∷ []; size_ = pos 2 }

push-IsRanked_example :
    Parts jobs 1 (2 ∷ []) (SingleLevelQueue.push jobs 1 high_only).nodes
    × IsRanked jobs (SingleLevelQueue.push jobs 1 high_only).nodes
    × IsCounted (SingleLevelQueue.push jobs 1 high_only)
push-IsRanked_example = push-IsRanked jobs 1 high_only (tt, tt) refl

-- Job 1 is critical and job 2 high.
push-try_pop_example :
    (SingleLevelQueue.push jobs 1 high_only ≡ both) ↔ All (IsBefore jobs 1) (2 ∷ [])
unfolding SingleLevelQueue.try_pop
push-try_pop_example =
    push-try_pop jobs 1 both high_only ((inl (omega arith), tt), (tt, tt)) refl refl refl

requeue_preempted-Enters_example :
    Enters jobs MlfqJobQueue.init 3 1
      (MlfqJobQueue.requeue_preempted 6 jobs 3 true MlfqJobQueue.init)
unfolding MlfqJobQueue.init SingleLevelQueue.init
requeue_preempted-Enters_example =
    requeue_preempted-Enters 6 jobs 3 true MlfqJobQueue.init (omega arith) refl (init-IsValid jobs)

try_pop_best_first_example :
    Pops two.0 0 two.1 (MlfqJobQueue.try_pop two.1) × IsValid two.0 (MlfqJobQueue.try_pop two.1).1
try_pop_best_first_example = try_pop_best_first two.0 two.1 two-IsValid

-- Job 3, on level 1, is the one job that is promoted after 15 ticks.
run_aging-Ages_example : (MlfqJobQueue.run_aging (λ p. 99) (after_ticks 15) two.1).2 ≡ 1
unfolding MlfqJobQueue.init SingleLevelQueue.init MlfqJobQueue.push_new MlfqJobQueue.push_at
    SingleLevelQueue.push SingleLevelQueue.insert MlfqJobQueue.requeue_preempted
    MlfqJobQueue.tick_waiting SingleLevelQueue.tick_waiting SingleLevelQueue.tick_nodes update
run_aging-Ages_example =
    (run_aging-Ages (λ p. 99) (after_ticks 15) two.1 (after_ticks-IsValid 15)).2

abbrev first_period : Store × MlfqJobQueue × ℕ
first_period = period (λ p. 99) 15 two.0 two.1

-- Job 3 came in on level 1.
no_starvation_example : ((period (λ p. 130) 15 first_period.0 first_period.1).0 3).mlfq_level ≡ 0
unfolding MlfqJobQueue.init SingleLevelQueue.init MlfqJobQueue.push_new MlfqJobQueue.push_at
    SingleLevelQueue.push SingleLevelQueue.insert MlfqJobQueue.requeue_preempted update
no_starvation_example =
    (no_starvation (λ p. 99) (λ p. 130) 15 15 two.0 two.1 two-IsValid (omega arith) (omega arith)
        (omega arith)).2
      3 (omega arith)

-- Job 3, on level 1, would have to yield to job 2, on level 0.
has_better_candidate_iff_example : MlfqJobQueue.has_better_candidate one.0 one.1 1 1 ≡ true
unfolding MlfqJobQueue.init SingleLevelQueue.init MlfqJobQueue.push_new MlfqJobQueue.push_at
    SingleLevelQueue.push SingleLevelQueue.insert update
has_better_candidate_iff_example =
    (has_better_candidate_iff one.0 one.1 1 1 one-IsValid).1 2 (omega arith) (inl (omega arith))

views_lem_example : MlfqJobQueue.size two.1 ≡ pos 2
unfolding MlfqJobQueue.init SingleLevelQueue.init MlfqJobQueue.push_new MlfqJobQueue.push_at
    SingleLevelQueue.push SingleLevelQueue.insert MlfqJobQueue.requeue_preempted update
views_lem_example = (views_lem two.0 two.1 two-IsValid).2

abbrev records : List ℕ
records = 1 ∷ 2 ∷ 3 ∷ 4 ∷ []

abbrev blank : ℕ
blank = 0

snapshot-add_all_example :
    Ring.snapshot 3 blank 2 (add_all 3 blank records (Ring.new_ring 3 blank)) ≡ 3 ∷ 4 ∷ []
snapshot-add_all_example = snapshot-add_all 3 blank 2 records (omega arith)
