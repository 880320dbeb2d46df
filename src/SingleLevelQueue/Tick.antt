-- ===== src/SingleLevelQueue/Tick.antt =====
-- `tickWaiting` ages each queued job by one, as often as it is queued, and touches nothing else.
use tensor_sched.Prelude.{
  ℕ, ◌+◌, List, [], ◌∷◌, ◌≡◌, sym, ap, ◌∙◌, arith, count, ◌==◌, if◌then◌else◌,
}
use tensor_sched.Job.{Job, Store, update}
use tensor_sched.SingleLevelQueue.{wait_once, tick_nodes}
use tensor_sched.SingleLevelQueue.Order.{SameKeys}

-- The job after `n` waits.
abbrev pub wait : Job → ℕ → Job
wait j n = record j { wait_ticks = n + j.wait_ticks; aging_ticks = n + j.aging_ticks }

pub wait_zero : (j : Job) → wait j 0 ≡ j
wait_zero j = ground arith

tick_one :
    (h : Store) (p a : ℕ) (n : ℕ)
    → wait (update h p (wait_once (h p)) a) n ≡ wait (h a) ((if p == a then 1 else 0) + n)
unfolding update
tick_one h p a n = ground arith

pub tick_nodes_lem : (h : Store) (ps : List ℕ) (a : ℕ) → tick_nodes h ps a ≡ wait (h a) (count a ps)
unfolding tick_nodes
tick_nodes_lem h [] a = sym (wait_zero (h a))
tick_nodes_lem h (p ∷ ps) a =
    tick_nodes_lem (update h p (wait_once (h p))) ps a ∙ tick_one h p a (count a ps)

pub tick_nodes-SameKeys : (h : Store) (ps : List ℕ) → SameKeys h (tick_nodes h ps)
tick_nodes-SameKeys h ps a =
    (ap (λ j. j.priority) (tick_nodes_lem h ps a), ap (λ j. j.submit_time) (tick_nodes_lem h ps a))
