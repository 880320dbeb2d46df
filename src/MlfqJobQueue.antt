-- ===== src/MlfqJobQueue.antt =====
-- MLFQJobQueue of job_queue.h: the levels, each a SingleLevelQueue, from `levels_[0]` on. An update
-- of a job that no thread but the caller can reach is one step with the push that follows it.
pub mod Invariant
pub mod Pushing
pub mod Popping
pub mod Ageing
pub mod Candidate
pub mod Interleaved
pub mod Views
use tensor_sched.Prelude.{
  ℕ, zero, suc, ◌+◌, ◌-◌, Bool, true, false, not, List, [], ◌∷◌, ◌++◌, Option, none, some, ltb, leb,
  if◌then◌else◌, ℤ, pos, negsuc, ◌+ℤ◌, ltb_ℤ, length, get_or, replicate,
}
use tensor_sched.Job.{Job, JobStatus, Store, update, mlfq_levels}
use tensor_sched.SingleLevelQueue
use tensor_sched.SingleLevelQueue.{SingleLevelQueue}

abbrev pub MlfqJobQueue : Type 0
MlfqJobQueue = List SingleLevelQueue

unfoldable pub init : MlfqJobQueue
init = replicate mlfq_levels SingleLevelQueue.init

-- `levels_[level].push(job)`. An index out of range has no meaning in the source, and changes
-- nothing here.
unfoldable pub push_at : Store → ℕ → ℕ → MlfqJobQueue → MlfqJobQueue
push_at h level job [] = []
push_at h zero job (q ∷ qs) = SingleLevelQueue.push h job q ∷ qs
push_at h (suc level) job (q ∷ qs) = q ∷ push_at h level job qs

-- The fields that every way into the queue writes.
abbrev pub queued_at : ℕ → ℕ → Job → Job
queued_at level now j = record j {
  mlfq_level = level;
  ticks_this_slice = 0;
  aging_ticks = 0;
  last_ready_time = now;
}

abbrev pub made_ready : Job → Job
made_ready j = record j { status = JobStatus.ready }

unfoldable pub push_new : ℕ → Store → ℕ → MlfqJobQueue → Store × MlfqJobQueue
push_new now h job qs =
    let h' = update h job (made_ready (queued_at 0 now (h job))) in (h', push_at h' 0 job qs)

-- `mlfq_level` after the `if (demote)` of `requeuePreempted`.
abbrev pub requeue_level : Bool → ℕ → ℕ
requeue_level demote level =
    if demote then (if leb mlfq_levels (level + 1) then mlfq_levels - 1 else level + 1) else level

unfoldable pub requeue_preempted : ℕ → Store → ℕ → Bool → MlfqJobQueue → Store × MlfqJobQueue
requeue_preempted now h job demote qs =
    let level = requeue_level demote (h job).mlfq_level in
    let h' = update h job (made_ready (queued_at level now (h job))) in
    (h', push_at h' level job qs)

-- The first level that has a job gives it.
unfoldable pub try_pop : MlfqJobQueue → Option ℕ × MlfqJobQueue
try_pop [] = (none, [])
try_pop (q ∷ qs) =
    let (found, q') = SingleLevelQueue.try_pop q in
    let (later, qs') = try_pop qs in
    elim found [ some job ↦ (some job, q' ∷ qs) | none ↦ (later, q' ∷ qs') ]

unfoldable pub has_better_candidate : Store → MlfqJobQueue → ℕ → ℕ → Bool
has_better_candidate h [] running_level running_prio = false
has_better_candidate h (q ∷ qs) zero running_prio =
    if not (SingleLevelQueue.empty q)
    then ltb_ℤ (pos running_prio) (SingleLevelQueue.top_priority h q)
    else false
has_better_candidate h (q ∷ qs) (suc level) running_prio =
    if not (SingleLevelQueue.empty q) then true else has_better_candidate h qs level running_prio

unfoldable pub empty : MlfqJobQueue → Bool
empty [] = true
empty (q ∷ qs) = if not (SingleLevelQueue.empty q) then false else empty qs

total_size : ℤ → MlfqJobQueue → ℤ
total_size total [] = total
total_size total (q ∷ qs) = total_size (total +ℤ SingleLevelQueue.size q) qs

unfoldable pub size : MlfqJobQueue → ℤ
unfolding total_size
size qs = total_size (pos 0) qs

unfoldable pub size_at_level : MlfqJobQueue → ℤ → ℤ
size_at_level qs (negsuc l) = pos 0
size_at_level qs (pos l) =
    if leb mlfq_levels l then pos 0 else SingleLevelQueue.size (get_or qs l SingleLevelQueue.init)

abbrev pub aged_buf : ℕ
aged_buf = 64

-- The inner loop of `runAging`: each drained job is pushed on level `new_lvl`, whose queue is `q`.
-- `clock job` is the reading of the clock that `job` gets.
unfoldable pub promote : (ℕ → ℕ) → ℕ → Store → List ℕ → SingleLevelQueue → Store × SingleLevelQueue
promote clock new_lvl h [] q = (h, q)
promote clock new_lvl h (job ∷ rest) q =
    let h' = update h job (queued_at new_lvl (clock job) (h job)) in
    promote clock new_lvl h' rest (SingleLevelQueue.push h' job q)

-- The outer loop at `lvl = new_lvl + 1`: `q` is level `new_lvl`, which the rounds before have left
-- and the later ones do not touch; the list holds the levels from `lvl` on.
unfoldable pub age_levels :
    (ℕ → ℕ) → ℕ → Store → SingleLevelQueue → MlfqJobQueue → Store × MlfqJobQueue × ℕ
unfolding promote
age_levels clock new_lvl h q [] = (h, q ∷ [], 0)
age_levels clock new_lvl h q (r ∷ rs) =
    let (aged, r') = SingleLevelQueue.drain_aged h aged_buf r in
    let (h', q') = promote clock new_lvl h aged q in
    let (h'', rs', promoted) = age_levels clock (suc new_lvl) h' r' rs in
    (h'', q' ∷ rs', length aged + promoted)

unfoldable pub run_aging : (ℕ → ℕ) → Store → MlfqJobQueue → Store × MlfqJobQueue × ℕ
unfolding age_levels
run_aging clock h [] = (h, [], 0)
run_aging clock h (q ∷ qs) = age_levels clock 0 h q qs

unfoldable pub tick_waiting : Store → MlfqJobQueue → Store
tick_waiting h [] = h
tick_waiting h (q ∷ qs) = tick_waiting (SingleLevelQueue.tick_waiting h q) qs

-- `snapshot` with `room` places of the buffer left.
unfoldable pub snapshot : ℕ → MlfqJobQueue → List ℕ
snapshot room [] = []
snapshot room (q ∷ qs) =
    let got = SingleLevelQueue.snapshot room q in
    got ++ (if leb room (length got) then [] else snapshot (room - length got) qs)

-- Every queued job, level by level.
abbrev pub pointers : MlfqJobQueue → List ℕ
pointers [] = []
pointers (q ∷ qs) = q.nodes ++ pointers qs
