-- ===== src/MlfqJobQueue/Interleaved/Sound.antt =====
-- What holds of the levels between two steps, and the steps that queue a job or take one out.
use tensor_sched.Prelude.{
  ℕ, ◌+◌, ◌≤◌, ◌<◌, List, ◌≡◌, refl, ap, sym, ◌≢◌, ◌∙◌, arith, count, length, length-set,
  IsDistinct, if◌then◌else◌, ◌==◌, inl, inr,
}
use tensor_sched.Job.{JobStatus, Store, mlfq_levels}
use tensor_sched.SingleLevelQueue
use tensor_sched.SingleLevelQueue.Pop.{try_pop_best}
use tensor_sched.MlfqJobQueue.{MlfqJobQueue, pointers, init}
use tensor_sched.MlfqJobQueue.Invariant.{IsLevel, AreLevels, IsValid, init-IsValid}
use tensor_sched.MlfqJobQueue.Popping.{emptied_IsLevel}
use tensor_sched.MlfqJobQueue.Pushing.{Enters, AreLevels-at}
use tensor_sched.MlfqJobQueue.Interleaved.{State, start, level, pop_at, found_in}
use tensor_sched.MlfqJobQueue.Interleaved.Levels.{count-set, set-AreLevels}

-- The levels are in order, counted and marked; the jobs in the buffer of `runAging` are ready and
-- those in a thread's hands marked with a level; and every job submitted is in exactly one place.
pub record IsSound (s : State) : Type 0 where
  pub three : length s.levels ≡ mlfq_levels
  pub levels : AreLevels s.store 0 s.levels
  pub aged : (p : ℕ) → 0 < count p s.aged → (s.store p).status ≡ JobStatus.ready
  pub held : (p : ℕ) → 0 < count p s.held → (s.store p).mlfq_level < mlfq_levels
  pub lvl : 0 < length s.aged → (0 < s.lvl) × (s.lvl < mlfq_levels)
  pub once : IsDistinct s.submitted
  pub places :
      (p : ℕ)
      → count p (pointers s.levels) + count p s.aged + (count p s.held + count p s.closed)
        ≡ count p s.submitted

pub valid : (s : State) → IsSound s → IsValid s.store s.levels
valid s v = record {
  three = v.three;
  levels = v.levels;
  distinct = λ p. omega (arith, v.places p, v.once p);
}

pub start-IsSound : (h : Store) → IsSound (start h)
unfolding init SingleLevelQueue.init
start-IsSound h = record {
  three = (init-IsValid h).three;
  levels = (init-IsValid h).levels;
  aged = λ p m. absurd (omega arith);
  held = λ p m. absurd (omega arith);
  lvl = λ m. absurd (omega arith);
  once = λ p. omega arith;
  places = λ p. refl;
}

-- A job that is nowhere else comes in at a level, from outside or out of a thread's hands.
pub enter-IsSound :
    (s : State) (job l : ℕ) (r : Store × MlfqJobQueue) (submitted' held' : List ℕ)
    → IsSound s
    → Enters s.store s.levels job l r
    → IsDistinct submitted'
    → ((p : ℕ)
        → (if job == p then 1 else 0) + count p held' + count p s.submitted
          ≡ count p submitted' + count p s.held)
    → ((p : ℕ) → count p held' ≤ count p s.held)
    → IsSound (record s { store = r.0; levels = r.1; submitted = submitted'; held = held' })
enter-IsSound s job l r submitted' held' v e once moved kept = record {
  three = e.valid.three;
  levels = e.valid.levels;
  aged = λ p m. rw (e.others p (λ q. off p (omega arith) (sym q))) (v.aged p m);
  held =
      λ p m. rw (e.others p (λ q. off p (omega arith) (sym q))) (v.held p (omega (arith, kept p)));
  lvl = v.lvl;
  once = once;
  places = places;
}
  where
    places :
        (p : ℕ)
        → count p (pointers r.1) + count p s.aged + (count p held' + count p s.closed)
          ≡ count p submitted'
    places p = omega (arith, e.added p, v.places p, moved p)

    off : (p : ℕ) → 0 < count p s.aged + count p held' → job ≢ p
    off p m q = ground (arith, e.added p, places p, once p)

pub pop-IsSound :
    (s : State) (l : ℕ)
    → l < mlfq_levels
    → IsSound s
    → IsSound
        (record s { levels = (pop_at l s.levels).1; held = found_in (pop_at l s.levels).0 s.held })
unfolding pop_at
pop-IsSound s l lt v = elim (try_pop_best s.store (level s.levels l) here.sorted here.counted) [
  | inl (was_empty, nothing, still_empty, _, counted) ↦
      rw (nothing, found_in)
        (record {
          three = length-set s.levels l _ ∙ v.three;
          levels =
              set-AreLevels s.store 0 l _ s.levels
                (emptied_IsLevel s.store (0 + l) _ still_empty counted) v.levels;
          aged = v.aged;
          held = v.held;
          lvl = v.lvl;
          once = v.once;
          places = λ p. omega (
            arith,
            v.places p,
            ap (count p) was_empty,
            ap (count p) still_empty,
            count-set l p (SingleLevelQueue.try_pop (level s.levels l)).1 s.levels in_range,
          );
        })
  | inr (job, found, nodes_eq, _, _, sorted, counted) ↦
      rw (found, found_in)
        (record {
          three = length-set s.levels l _ ∙ v.three;
          levels =
              set-AreLevels s.store 0 l _ s.levels
                (record {
                  sorted = sorted;
                  counted = counted;
                  home = λ p m. here.home p (ground (arith, ap (count p) nodes_eq));
                })
                v.levels;
          aged = v.aged;
          held = λ p m. ground (arith, v.held p, here.home p, ap (count p) nodes_eq);
          lvl = v.lvl;
          once = v.once;
          places = λ p. ground (
            arith,
            v.places p,
            ap (count p) nodes_eq,
            count-set l p (SingleLevelQueue.try_pop (level s.levels l)).1 s.levels in_range,
          );
        })
]
  where
    in_range : l < length s.levels
    in_range = omega (arith, v.three)

    here : IsLevel s.store (0 + l) (level s.levels l)
    here = AreLevels-at s.store 0 l s.levels SingleLevelQueue.init in_range v.levels
