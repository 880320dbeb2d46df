-- ===== src/SingleLevelQueue.antt =====
-- SingleLevelQueue of job_queue.h: the list of job pointers of one level, in priority order. A node
-- belongs to one queue alone, so the chain from `head_` is a list of the nodes' job pointers. Each
-- operation holds the queue's mutex from its first line to its last, and so is one step here.
pub mod Order
pub mod Push
pub mod Pop
pub mod Rank
pub mod Drain
pub mod Tick
pub mod Snapshot
use tensor_sched.Prelude.{
  ℕ, zero, suc, ◌+◌, ◌-◌, Bool, true, false, List, [], ◌∷◌, Option, none, some, ltb, leb, ◌==◌,
  if◌then◌else◌, ℤ, pos, negsuc, inc, dec, length, ◌≡◌,
}
use tensor_sched.Job.{Job, Store, update, priority_value, aging_threshold}

pub record SingleLevelQueue : Type 0 where
  pub nodes : List ℕ  -- from `head_` on
  pub size_ : ℤ

unfoldable pub init : SingleLevelQueue
init = record { nodes = []; size_ = pos 0 }

-- The test of `push`: does `job` go in front of `cur`?
abbrev pub insert_here : Job → Job → Bool
insert_here job cur =
    if ltb (priority_value cur.priority) (priority_value job.priority)
    then true
    else if priority_value job.priority == priority_value cur.priority
    then ltb job.submit_time cur.submit_time
    else false

-- The walk of `push` over `cur`, and the splice where it stops.
unfoldable pub insert : Store → ℕ → List ℕ → List ℕ
insert h job [] = job ∷ []
insert h job (cur ∷ next) =
    if insert_here (h job) (h cur) then job ∷ cur ∷ next else cur ∷ insert h job next

unfoldable pub push : Store → ℕ → SingleLevelQueue → SingleLevelQueue
push h job q = record { nodes = insert h job q.nodes; size_ = inc q.size_ }

pop_nodes : List ℕ → ℤ → Option ℕ × SingleLevelQueue
pop_nodes [] n = (none, record { nodes = []; size_ = n })
pop_nodes (job ∷ next) n = (some job, record { nodes = next; size_ = dec n })

unfoldable pub try_pop : SingleLevelQueue → Option ℕ × SingleLevelQueue
unfolding pop_nodes
try_pop q = pop_nodes q.nodes q.size_

unfoldable pub top_priority : Store → SingleLevelQueue → ℤ
top_priority h q = elim q.nodes [ [] ↦ negsuc 0 | job ∷ _ ↦ pos (priority_value (h job).priority) ]

unfoldable pub empty : SingleLevelQueue → Bool
empty q = elim q.nodes [ [] ↦ true | job ∷ _ ↦ false ]

unfoldable pub size : SingleLevelQueue → ℤ
size q = q.size_

abbrev pub wait_once : Job → Job
wait_once j = record j { wait_ticks = suc j.wait_ticks; aging_ticks = suc j.aging_ticks }

unfoldable pub tick_nodes : Store → List ℕ → Store
tick_nodes h [] = h
tick_nodes h (cur ∷ next) = tick_nodes (update h cur (wait_once (h cur))) next

unfoldable pub tick_waiting : Store → SingleLevelQueue → Store
tick_waiting h q = tick_nodes h q.nodes

abbrev pub is_aged : Job → Bool
is_aged j = leb aging_threshold j.aging_ticks

-- The loop of `drainAged` with `room` places of `out` left: what it writes to `out`, and what stays.
unfoldable pub drain_nodes : Store → ℕ → List ℕ → List ℕ × List ℕ
drain_nodes h room [] = ([], [])
drain_nodes h zero (cur ∷ next) = ([], cur ∷ next)
drain_nodes h (suc room) (cur ∷ next) =
    let aged = is_aged (h cur) in
    let (out, kept) = drain_nodes h (if aged then room else suc room) next in
    if aged then (cur ∷ out, kept) else (out, cur ∷ kept)

abbrev sub_times : ℤ → List ℕ → ℤ
sub_times n [] = n
sub_times n (_ ∷ xs) = sub_times (dec n) xs

-- The jobs written to `out` (the count returned is their number), and the queue left.
unfoldable pub drain_aged : Store → ℕ → SingleLevelQueue → List ℕ × SingleLevelQueue
unfolding drain_nodes
drain_aged h out_size q =
    let (out, kept) = drain_nodes h out_size q.nodes in
    (out, record { nodes = kept; size_ = sub_times q.size_ out })

unfoldable pub snapshot_nodes : ℕ → List ℕ → List ℕ
snapshot_nodes room [] = []
snapshot_nodes zero (cur ∷ next) = []
snapshot_nodes (suc room) (cur ∷ next) = cur ∷ snapshot_nodes room next

unfoldable pub snapshot : ℕ → SingleLevelQueue → List ℕ
snapshot max_count q = snapshot_nodes max_count q.nodes

-- The loop of `clear` frees the nodes one by one; the jobs they point to are left alone.
unfoldable pub clear : SingleLevelQueue → SingleLevelQueue
clear q = record { nodes = []; size_ = pos 0 }

-- `size_` is the length of the chain.
abbrev pub IsCounted : SingleLevelQueue → Type 0
IsCounted q = q.size_ ≡ pos (length q.nodes)
