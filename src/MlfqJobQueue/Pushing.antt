-- ===== src/MlfqJobQueue/Pushing.antt =====
-- `pushNew` and `requeuePreempted`: how a job comes into the levels.
use Prim.Native.Nat.{min}
use tensor_sched.Prelude.{
  ℕ, zero, suc, ◌+◌, ◌<◌, Bool, true, false, [], ◌∷◌, ◌≡◌, ◌≢◌, refl, ap, ◌∙◌, arith, count,
  count-append, length, get_or, ◌==◌, if◌then◌else◌,
}
use tensor_sched.Job.{Store, mlfq_levels, update, update_ne}
use tensor_sched.SingleLevelQueue
use tensor_sched.SingleLevelQueue.{SingleLevelQueue, push}
use tensor_sched.SingleLevelQueue.Push.{Splits, count-push, push_ordered}
use tensor_sched.MlfqJobQueue.{
  MlfqJobQueue, push_at, push_new, requeue_preempted, requeue_level, queued_at, made_ready,
  pointers,
}
use tensor_sched.MlfqJobQueue.Invariant.{IsHome, IsLevel, AreLevels, IsValid, AreLevels-AgreesOn}

pub push-IsLevel :
    (h : Store) (level job : ℕ) (q : SingleLevelQueue)
    → IsHome h level job
    → IsLevel h level q
    → IsLevel h level (push h job q)
push-IsLevel h level job q here v =
    let (_, sorted, counted) = push_ordered h job q v.sorted v.counted in
    record {
      sorted = sorted;
      counted = counted;
      home = λ p m. ground (arith, count-push h job p q, v.home p);
    }

pub length-push_at :
    (h : Store) (l job : ℕ) (qs : MlfqJobQueue) → length (push_at h l job qs) ≡ length qs
unfolding push_at
length-push_at h l job [] = refl
length-push_at h zero job (q ∷ qs) = refl
length-push_at h (suc l) job (q ∷ qs) = ap suc (length-push_at h l job qs)

pub count-push_at :
    (h : Store) (l job a : ℕ) (qs : MlfqJobQueue)
    → l < length qs
    → count a (pointers (push_at h l job qs)) ≡ (if job == a then 1 else 0) + count a (pointers qs)
unfolding push_at
count-push_at h l job a [] lt = absurd (omega arith)
count-push_at h zero job a (q ∷ qs) lt = omega (
  arith,
  count-push h job a q,
  count-append a q.nodes (pointers qs),
  count-append a (push h job q).nodes (pointers qs),
)
count-push_at h (suc l) job a (q ∷ qs) lt = omega (
  arith,
  count-push_at h l job a qs,
  count-append a q.nodes (pointers qs),
  count-append a q.nodes (pointers (push_at h l job qs)),
)

pub push_at-AreLevels :
    (h : Store) (base l level job : ℕ) (qs : MlfqJobQueue)
    → base + l ≡ level
    → IsHome h level job
    → AreLevels h base qs
    → AreLevels h base (push_at h l job qs)
unfolding push_at
push_at-AreLevels h base l level job [] e here v = tt
push_at-AreLevels h base zero level job (q ∷ qs) e here v =
    let e' : level ≡ base = omega arith in (push-IsLevel h base job q (rw (← e') here) v.0, v.1)
push_at-AreLevels h base (suc l) level job (q ∷ qs) e here v =
    (v.0, push_at-AreLevels h (suc base) l level job qs (omega arith) here v.1)

push_at_same :
    (h : Store) (l job : ℕ) (qs : MlfqJobQueue) (d : SingleLevelQueue)
    → l < length qs
    → get_or (push_at h l job qs) l d ≡ push h job (get_or qs l d)
unfolding push_at
push_at_same h l job [] d lt = absurd (omega arith)
push_at_same h zero job (q ∷ qs) d lt = refl
push_at_same h (suc l) job (q ∷ qs) d lt = push_at_same h l job qs d (omega arith)

push_at_other :
    (h : Store) (l job k : ℕ) (qs : MlfqJobQueue) (d : SingleLevelQueue)
    → k ≢ l
    → get_or (push_at h l job qs) k d ≡ get_or qs k d
unfolding push_at
push_at_other h l job k [] d ne = refl
push_at_other h zero job zero (q ∷ qs) d ne = absurd (ne refl)
push_at_other h zero job (suc k) (q ∷ qs) d ne = refl
push_at_other h (suc l) job zero (q ∷ qs) d ne = refl
push_at_other h (suc l) job (suc k) (q ∷ qs) d ne =
    push_at_other h l job k qs d (λ e. ne (ap suc e))

pub AreLevels-at :
    (h : Store) (base l : ℕ) (qs : MlfqJobQueue) (d : SingleLevelQueue)
    → l < length qs
    → AreLevels h base qs
    → IsLevel h (base + l) (get_or qs l d)
AreLevels-at h base l [] d lt v = absurd (omega arith)
AreLevels-at h base zero (q ∷ qs) d lt v = let e : base + zero ≡ base = omega arith in rw e v.0
AreLevels-at h base (suc l) (q ∷ qs) d lt v =
    let e : base + suc l ≡ suc base + l = omega arith in
    rw e (AreLevels-at h (suc base) l qs d (omega arith) v.1)

-- What bringing `job` in at `level` does.
pub record Enters (h : Store) (qs : MlfqJobQueue) (job level : ℕ) (r : Store × MlfqJobQueue)
    : Type 0 where
  pub valid : IsValid r.0 r.1
  pub added : (a : ℕ) → count a (pointers r.1) ≡ (if job == a then 1 else 0) + count a (pointers qs)
  pub fresh_slice : ((r.0 job).ticks_this_slice ≡ 0) × ((r.0 job).aging_ticks ≡ 0)
  pub others : (a : ℕ) → a ≢ job → r.0 a ≡ h a
  pub place :
      Splits r.0 job
        (get_or qs level SingleLevelQueue.init).nodes
        (get_or r.1 level SingleLevelQueue.init).nodes
  pub elsewhere :
      (l : ℕ) → l ≢ level → get_or r.1 l SingleLevelQueue.init ≡ get_or qs l SingleLevelQueue.init

Enters-at :
    (now : ℕ) (h : Store) (job level : ℕ) (qs : MlfqJobQueue)
    → level < mlfq_levels
    → count job (pointers qs) ≡ 0
    → IsValid h qs
    → let h' = update h job (made_ready (queued_at level now (h job))) in
      Enters h qs job level (h', push_at h' level job qs)
unfolding update
Enters-at now h job level qs lt out v = record {
  valid = record {
    three = length-push_at h' level job qs ∙ v.three;
    levels = push_at-AreLevels h' 0 level level job qs (omega arith) here levels';
    distinct = λ a. ground (arith, added a, v.distinct a, out_of a);
  };
  added = added;
  fresh_slice = ground arith;
  others = λ a ne. update_ne h job a _ ne;
  place = placed;
  elsewhere = λ l ne. push_at_other h' level job l qs _ ne;
}
  where
    h' : Store
    h' = update h job (made_ready (queued_at level now (h job)))

    in_range : level < length qs
    in_range = omega (arith, v.three)

    added :
        (a : ℕ)
        → count a (pointers (push_at h' level job qs))
          ≡ (if job == a then 1 else 0) + count a (pointers qs)
    added a = count-push_at h' level job a qs in_range

    out_of : (a : ℕ) → job ≡ a → count a (pointers qs) ≡ 0
    out_of a e = rw (← e) out

    here : IsHome h' level job
    here = ground arith

    levels' : AreLevels h' 0 qs
    levels' = AreLevels-AgreesOn h h' 0 qs (λ p. ground arith) (λ p m. ground (arith, out)) v.levels

    placed :
        Splits h' job
          (get_or qs level SingleLevelQueue.init).nodes
          (get_or (push_at h' level job qs) level SingleLevelQueue.init).nodes
    placed =
        let at = AreLevels-at h' 0 level qs SingleLevelQueue.init in_range levels' in
        rw (push_at_same h' level job qs SingleLevelQueue.init in_range)
          (push_ordered h' job (get_or qs level SingleLevelQueue.init) at.sorted at.counted).0

-- On valid levels, submitting a job that is not queued brings it in at level 0 with a fresh slice,
-- behind the jobs of its rank, and changes no other job, no other level and no other job's place;
-- the levels stay valid (each in order, counted, its jobs marked with it, none queued twice).
pub push_new-Enters :
    (now : ℕ) (h : Store) (job : ℕ) (qs : MlfqJobQueue)
    → count job (pointers qs) ≡ 0
    → IsValid h qs
    → Enters h qs job 0 (push_new now h job qs)
unfolding push_new
push_new-Enters now h job qs out v = Enters-at now h job 0 qs (omega arith) out v

-- On valid levels, a job that is not queued and whose level is in range comes back one level down
-- if it is to be demoted, but no lower than the last level, and else on the level it had. It gets a
-- fresh slice and stands behind the jobs of its rank; no other job, no other level and no other
-- job's place changes, and the levels stay valid.
pub requeue_preempted-Enters :
    (now : ℕ) (h : Store) (job : ℕ) (demote : Bool) (qs : MlfqJobQueue)
    → (h job).mlfq_level < mlfq_levels
    → count job (pointers qs) ≡ 0
    → IsValid h qs
    → Enters h qs job
        (if demote then min ((h job).mlfq_level + 1) 2 else (h job).mlfq_level)
        (requeue_preempted now h job demote qs)
unfolding requeue_preempted
requeue_preempted-Enters now h job demote qs lt out v =
    rw (requeue_level-min demote (h job).mlfq_level lt)
      (Enters-at now h job (requeue_level demote (h job).mlfq_level) qs (ground arith) out v)
  where
    requeue_level-min :
        (b : Bool) (l : ℕ) → l < mlfq_levels → (if b then min (l + 1) 2 else l) ≡ requeue_level b l
    requeue_level-min true l lt = ground arith
    requeue_level-min false l lt = refl
