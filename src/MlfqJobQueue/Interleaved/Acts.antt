-- ===== src/MlfqJobQueue/Interleaved/Acts.antt =====
-- The steps of a single thread over the levels, one after the other, with no other thread in between.
use mathlib.Core.Path.{subst}
use tensor_sched.Prelude.{
  ℕ, zero, suc, ◌<◌, List, [], ◌∷◌, ◌≡◌, arith, length, drop, ◌==◌, if◌then◌else◌,
}
use tensor_sched.Job.{mlfq_levels}
use tensor_sched.MlfqJobQueue.{MlfqJobQueue}
use tensor_sched.MlfqJobQueue.Interleaved.{
  State, Step, Run, pop_at, drain_at, tick_at, promote_one, found_in,
}

-- The steps of one thread, by what they do: a visit of level `l`, a drain of the level below
-- `new_lvl`, and the promotion of `job`, which reads `now` on the clock.
pub data Act : Type 0 where
  pop tick : (l : ℕ) → Act
  drain : (new_lvl : ℕ) → Act
  promote : (now job : ℕ) → Act

-- The level above `lvl`.
abbrev pub new_lvl_of : ℕ → ℕ
new_lvl_of zero = zero
new_lvl_of (suc new_lvl) = new_lvl

suc-new_lvl_of : (lvl : ℕ) → 0 < lvl → lvl ≡ suc (new_lvl_of lvl)
suc-new_lvl_of lvl lt = ground arith

abbrev pub act : Act → State → State
act (Act.pop l) s = record s {
  levels = (pop_at l s.levels).1;
  held = found_in (pop_at l s.levels).0 s.held;
}
act (Act.tick l) s = record s { store = tick_at s.store l s.levels }
act (Act.drain new_lvl) s = record s {
  levels = (drain_at s.store (suc new_lvl) s.levels).1;
  aged = (drain_at s.store (suc new_lvl) s.levels).0;
  lvl = suc new_lvl;
}
act (Act.promote now job) s = record s {
  store = (promote_one now (new_lvl_of s.lvl) s.store job s.levels).0;
  levels = (promote_one now (new_lvl_of s.lvl) s.store job s.levels).1;
  aged = drop 1 s.aged;
  promoted = suc s.promoted;
}

-- A level is drained only when the jobs of the level before are done with, and it is always the first
-- of the jobs still to do that is promoted.
abbrev pub IsDue : Act → State → Type 0
IsDue (Act.pop l) s = l < mlfq_levels
IsDue (Act.tick l) s = l < mlfq_levels
IsDue (Act.drain new_lvl) s = (s.aged ≡ []) × (suc new_lvl < mlfq_levels)
IsDue (Act.promote now job) s = (s.aged ≡ job ∷ drop 1 s.aged) × (0 < s.lvl)

-- From `s`, just these acts in this order, each due when its turn comes, lead to `t`.
abbrev pub Does : State → List Act → State → Type 0
Does s [] t = s ≡ t
Does s (a ∷ acts) t = IsDue a s × Does (act a s) acts t

pub act-Step : (a : Act) (s : State) → IsDue a s → Step s (act a s)
act-Step (Act.pop l) s due = Step.pop l due
act-Step (Act.tick l) s due = Step.tick l due
act-Step (Act.drain new_lvl) s due = Step.drain new_lvl due.0 due.1
act-Step (Act.promote now job) s due =
    Step.promote now (new_lvl_of s.lvl) job (drop 1 s.aged) due.0 (suc-new_lvl_of s.lvl due.1)

pub Does-Run : (s₀ s t : State) (acts : List Act) → Run s₀ s → Does s acts t → Run s₀ t
Does-Run s₀ s t [] r e = subst (Run s₀) e r
Does-Run s₀ s t (a ∷ acts) r d = Does-Run s₀ (act a s) t acts (Run.later r (act-Step a s d.0)) d.1

-- A pop of each level from `l` on, up to the first that has a job.
abbrev pub scan : ℕ → MlfqJobQueue → List Act
scan l [] = []
scan l (q ∷ qs) = Act.pop l ∷ (if length q.nodes == 0 then scan (suc l) qs else [])

-- The promotion of each of the jobs, in this order, and what comes then.
abbrev pub promote_each : (ℕ → ℕ) → List ℕ → List Act → List Act
promote_each clock [] acts = acts
promote_each clock (job ∷ jobs) acts = Act.promote (clock job) job ∷ promote_each clock jobs acts
