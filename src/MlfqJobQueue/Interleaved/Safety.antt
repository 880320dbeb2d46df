-- ===== src/MlfqJobQueue/Interleaved/Safety.antt =====
-- What holds of the levels however the threads interleave.
use tensor_sched.Prelude.{
  ℕ, suc, Bool, ◌+◌, ◌<◌, List, [], ◌∷◌, ◌≡◌, ◌≢◌, refl, ap, ◌∙◌, arith, count, length, length-set,
  if◌then◌else◌, ◌==◌,
}
use tensor_sched.Job.{Job, Store, update, update_ne, mlfq_levels}
use tensor_sched.SingleLevelQueue
use tensor_sched.SingleLevelQueue.Drain.{Drains, drain_aged-Drains}
use tensor_sched.SingleLevelQueue.Tick.{tick_nodes_lem, tick_nodes-SameKeys}
use tensor_sched.MlfqJobQueue.{pointers, aged_buf, push_new, requeue_preempted, queued_at}
use tensor_sched.MlfqJobQueue.Invariant.{IsLevel, AreLevels-AgreesOn, AreLevels-alike}
use tensor_sched.MlfqJobQueue.Pushing.{
  push_new-Enters, requeue_preempted-Enters, AreLevels-at, length-push_at, count-push_at,
  push_at-AreLevels,
}
use tensor_sched.MlfqJobQueue.Interleaved.{
  State, Step, Run, start, level, drain_at, tick_at, promote_one, without,
}
use tensor_sched.MlfqJobQueue.Interleaved.Levels.{count-set, set-AreLevels, count-without}
use tensor_sched.MlfqJobQueue.Interleaved.Sound.{
  IsSound, valid, start-IsSound, enter-IsSound, pop-IsSound,
}

submit-IsSound :
    (s : State) (now job : ℕ)
    → count job s.submitted ≡ 0
    → IsSound s
    → IsSound (record s {
      store = (push_new now s.store job s.levels).0;
      levels = (push_new now s.store job s.levels).1;
      submitted = job ∷ s.submitted;
    })
submit-IsSound s now job new v =
    enter-IsSound s job 0 (push_new now s.store job s.levels) (job ∷ s.submitted) s.held v
      (push_new-Enters now s.store job s.levels (omega (arith, v.places job)) (valid s v))
      (λ p. ground (arith, new, v.once p)) (λ p. omega arith) (λ p. omega arith)

requeue-IsSound :
    (s : State) (now job : ℕ) (demote : Bool)
    → 0 < count job s.held
    → IsSound s
    → IsSound (record s {
      store = (requeue_preempted now s.store job demote s.levels).0;
      levels = (requeue_preempted now s.store job demote s.levels).1;
      held = without job s.held;
    })
requeue-IsSound s now job demote m v =
    enter-IsSound s job _ (requeue_preempted now s.store job demote s.levels) s.submitted
      (without job s.held) v
      (requeue_preempted-Enters now s.store job demote s.levels (v.held job m)
        (omega (arith, v.places job, v.once job)) (valid s v))
      v.once (λ p. omega (arith, count-without job p s.held m))
      (λ p. omega (arith, count-without job p s.held m))

work-IsSound :
    (s : State) (job : ℕ) (j : Job)
    → 0 < count job s.held
    → j.priority ≡ (s.store job).priority
    → j.submit_time ≡ (s.store job).submit_time
    → j.mlfq_level ≡ (s.store job).mlfq_level
    → IsSound s
    → IsSound (record s { store = update s.store job j })
unfolding update
work-IsSound s job j m same_prio same_time same_level v = record {
  three = v.three;
  levels =
      AreLevels-AgreesOn s.store (update s.store job j) 0 s.levels (λ p. ground arith)
        (λ p q. update_ne s.store job p j (off p (omega arith))) v.levels;
  aged = λ p q. rw (update_ne s.store job p j (off p (omega arith))) (v.aged p q);
  held = λ p q. ground (arith, v.held p);
  lvl = v.lvl;
  once = v.once;
  places = v.places;
}
  where
    off : (p : ℕ) → 0 < count p (pointers s.levels) + count p s.aged → p ≢ job
    off p q e = let m' : 0 < count p s.held = rw e m in omega (arith, v.places p, v.once p)

close-IsSound :
    (s : State) (job : ℕ)
    → 0 < count job s.held
    → IsSound s
    → IsSound (record s { held = without job s.held; closed = job ∷ s.closed })
close-IsSound s job m v = record {
  three = v.three;
  levels = v.levels;
  aged = v.aged;
  held = λ p q. v.held p (omega (arith, count-without job p s.held m));
  lvl = v.lvl;
  once = v.once;
  places = λ p. omega (arith, v.places p, count-without job p s.held m);
}

tick-IsSound :
    (s : State) (l : ℕ) → IsSound s → IsSound (record s { store = tick_at s.store l s.levels })
unfolding tick_at SingleLevelQueue.tick_waiting
tick-IsSound s l v = record {
  three = v.three;
  levels =
      AreLevels-alike s.store _ 0 s.levels (tick_nodes-SameKeys s.store here)
        (λ p. rw (tick_nodes_lem s.store here p) (refl, refl)) v.levels;
  aged = λ p m. rw (tick_nodes_lem s.store here p) (v.aged p m);
  held = λ p m. rw (tick_nodes_lem s.store here p) (v.held p m);
  lvl = v.lvl;
  once = v.once;
  places = v.places;
}
  where
    here : List ℕ
    here = (level s.levels l).nodes

drain-IsSound :
    (s : State) (l : ℕ)
    → s.aged ≡ []
    → suc l < mlfq_levels
    → IsSound s
    → IsSound (record s {
      levels = (drain_at s.store (suc l) s.levels).1;
      aged = (drain_at s.store (suc l) s.levels).0;
      lvl = suc l;
    })
unfolding drain_at
drain-IsSound s l e lt v = record {
  three = length-set s.levels (suc l) _ ∙ v.three;
  levels =
      set-AreLevels s.store 0 (suc l) _ s.levels
        (record {
          sorted = d.sorted;
          counted = d.counted;
          home = λ p m. here.home p (omega (arith, d.shared p));
        })
        v.levels;
  aged = λ p m. (here.home p (omega (arith, d.shared p))).1;
  held = v.held;
  lvl = λ m. (omega arith, lt);
  once = v.once;
  places = λ p. omega (
    arith,
    v.places p,
    d.shared p,
    ap (count p) e,
    count-set (suc l) p (SingleLevelQueue.drain_aged s.store aged_buf q).1 s.levels in_range,
  );
}
  where
    q : SingleLevelQueue.SingleLevelQueue
    q = level s.levels (suc l)

    in_range : suc l < length s.levels
    in_range = omega (arith, v.three)

    here : IsLevel s.store (0 + suc l) q
    here = AreLevels-at s.store 0 (suc l) s.levels SingleLevelQueue.init in_range v.levels

    d : Drains s.store aged_buf q (SingleLevelQueue.drain_aged s.store aged_buf q)
    d = drain_aged-Drains s.store aged_buf q here.sorted here.counted

promote-IsSound :
    (s : State) (now new_lvl job : ℕ) (rest : List ℕ)
    → s.aged ≡ job ∷ rest
    → s.lvl ≡ suc new_lvl
    → IsSound s
    → IsSound (record s {
      store = (promote_one now new_lvl s.store job s.levels).0;
      levels = (promote_one now new_lvl s.store job s.levels).1;
      aged = rest;
      promoted = suc s.promoted;
    })
unfolding promote_one update
promote-IsSound s now l job rest e at_l v = record {
  three = length-push_at h' l job s.levels ∙ v.three;
  levels =
      push_at-AreLevels h' 0 l l job s.levels (omega arith) (ground (arith, v.aged job, mem job)) (
        AreLevels-AgreesOn s.store h' 0 s.levels (λ p. ground arith)
          (λ p m. update_ne s.store job p _ (off p (omega arith))) v.levels);
  aged = λ p m.
      rw (update_ne s.store job p (queued_at l now (s.store job)) (off p (omega arith)))
        (v.aged p (omega (arith, mem p)));
  held = λ p m.
      rw (update_ne s.store job p (queued_at l now (s.store job)) (off p (omega arith)))
        (v.held p m);
  lvl = λ m. v.lvl (omega (arith, ap length e));
  once = v.once;
  places = λ p. omega (arith, v.places p, mem p, count-push_at h' l job p s.levels in_range);
}
  where
    h' : Store
    h' = update s.store job (queued_at l now (s.store job))

    mem : (p : ℕ) → count p s.aged ≡ (if job == p then 1 else 0) + count p rest
    mem p = ap (count p) e

    in_range : l < length s.levels
    in_range = omega (arith, v.lvl (omega (arith, ap length e)), at_l, v.three)

    off : (p : ℕ) → 0 < count p (pointers s.levels) + count p rest + count p s.held → p ≢ job
    off p m q = ground (arith, v.places p, v.once p, mem p)

step-IsSound : (s t : State) → Step s t → IsSound s → IsSound t
step-IsSound s t (Step.submit now job new) v = submit-IsSound s now job new v
step-IsSound s t (Step.requeue now job demote m) v = requeue-IsSound s now job demote m v
step-IsSound s t (Step.pop l lt) v = pop-IsSound s l lt v
step-IsSound s t (Step.work job j m a b c) v = work-IsSound s job j m a b c v
step-IsSound s t (Step.close job m) v = close-IsSound s job m v
step-IsSound s t (Step.tick l lt) v = tick-IsSound s l v
step-IsSound s t (Step.drain l e lt) v = drain-IsSound s l e lt v
step-IsSound s t (Step.promote now l job rest e at_l) v = promote-IsSound s now l job rest e at_l v

-- However the threads that use the levels interleave, one level at a time, the three levels stay in
-- order, counted, and their jobs marked with them and ready; the jobs that a pass of the aging
-- thread has drained and not yet promoted are ready, and those that a thread holds are marked with a
-- level. And every job submitted is in exactly one place: on one level, once, in the buffer of the
-- pass, in a thread's hands, or closed.
pub Run-IsSound : (h : Store) (s : State) → Run (start h) s → IsSound s
Run-IsSound h s Run.here = start-IsSound h
Run-IsSound h s (Run.later {t = t} r step) = step-IsSound t s step (Run-IsSound h t r)
