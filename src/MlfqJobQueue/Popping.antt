-- ===== src/MlfqJobQueue/Popping.antt =====
-- `tryPop`: the best job of the first level that has one.
use native.Mathlib.Decide.{dec_lt}
use tensor_sched.Prelude.{
  ℕ, suc, ◌+◌, ◌≤◌, ◌<◌, List, [], ◌∷◌, ◌++◌, ◌≡◌, refl, sym, ap, ◌∙◌, arith, count, count-append,
  length, Option, none, some, ◌==◌, if◌then◌else◌, ◌⊎◌, inl, inr, All, Bool-cases, ==→eq,
}
use tensor_sched.Job.{Store}
use tensor_sched.SingleLevelQueue.{SingleLevelQueue, IsCounted}
use tensor_sched.SingleLevelQueue.Order.{MayPrecede, IsSorted}
use tensor_sched.SingleLevelQueue.Pop.{try_pop_best}
use tensor_sched.MlfqJobQueue.{MlfqJobQueue, try_pop, pointers}
use tensor_sched.MlfqJobQueue.Invariant.{IsHome, IsLevel, AreLevels, IsValid}

-- A job of level `base + l`, all levels above it being empty, and the levels without it.
pub record Takes (h : Store) (base : ℕ) (qs : MlfqJobQueue) (job : ℕ) (r : Option ℕ × MlfqJobQueue)
    : Type 0 where
  pub found : r.0 ≡ some job
  pub exactly : pointers qs ≡ job ∷ pointers r.1
  pub marked : (base ≤ (h job).mlfq_level) × IsHome h (h job).mlfq_level job
  pub first : (p : ℕ) → 0 < count p (pointers r.1) → (h job).mlfq_level ≤ (h p).mlfq_level
  pub best :
      (p : ℕ)
      → 0 < count p (pointers r.1)
      → (h p).mlfq_level ≡ (h job).mlfq_level
      → MayPrecede h job p
  pub length_kept : length r.1 ≡ length qs
  pub levels : AreLevels h base r.1

-- `none` from an empty queue, which stays empty.
abbrev pub Pops : Store → ℕ → MlfqJobQueue → Option ℕ × MlfqJobQueue → Type 0
Pops h base qs r =
    ((pointers qs ≡ [])
      × (r.0 ≡ none)
      × (pointers r.1 ≡ [])
      × (length r.1 ≡ length qs)
      × AreLevels h base r.1)
    ⊎ ((job : ℕ) × Takes h base qs job r)

-- Every job from level `base` on is marked with its level.
pub AreLevels-marked :
    (h : Store) (base p : ℕ) (qs : MlfqJobQueue)
    → AreLevels h base qs
    → 0 < count p (pointers qs)
    → base ≤ (h p).mlfq_level
AreLevels-marked h base p [] v m = absurd (omega arith)
AreLevels-marked h base p (q ∷ qs) v m = ground (
  arith,
  count-append p q.nodes (pointers qs),
  v.0.home p,
  AreLevels-marked h (suc base) p qs v.1,
)

pub All-member {κ} : (P : ℕ → Type κ) (p : ℕ) (ps : List ℕ) → All P ps → 0 < count p ps → P p
All-member P p [] a m = absurd (omega arith)
All-member P p (x ∷ ps) a m = elim (Bool-cases (x == p)) [
  | inl e ↦ rw (sym (==→eq x p e)) a.0
  | inr e ↦ All-member P p ps a.1 (ground (arith, e, m))
]

Takes-here :
    (h : Store) (base job : ℕ) (q q' : SingleLevelQueue) (qs : MlfqJobQueue)
    → q.nodes ≡ job ∷ q'.nodes
    → All (MayPrecede h job) q'.nodes
    → IsSorted h q'.nodes
    → IsCounted q'
    → AreLevels h base (q ∷ qs)
    → Takes h base (q ∷ qs) job (some job, q' ∷ qs)
Takes-here h base job q q' qs e precedes sorted counted v = record {
  found = refl;
  exactly = rw e;
  marked = (omega (arith, here.0), (refl, here.1));
  first = λ p m. ground (arith, here.0, AreLevels-marked h base p (q' ∷ qs) levels m);
  best = λ p m same. best p (count-append p q'.nodes (pointers qs)) m same;
  length_kept = refl;
  levels = levels;
}
  where
    counts : (p : ℕ) → count p q.nodes ≡ (if job == p then 1 else 0) + count p q'.nodes
    counts p = ap (count p) e

    here : IsHome h base job
    here = v.0.home job (ground (arith, counts job))

    levels : AreLevels h base (q' ∷ qs)
    levels = (
      record {
        sorted = sorted;
        counted = counted;
        home = λ p m. v.0.home p (ground (arith, counts p));
      },
      v.1,
    )

    best :
        (p : ℕ)
        → count p (q'.nodes ++ pointers qs) ≡ count p q'.nodes + count p (pointers qs)
        → 0 < count p (q'.nodes ++ pointers qs)
        → (h p).mlfq_level ≡ (h job).mlfq_level
        → MayPrecede h job p
    best p c m same = elim (dec_lt 0 (count p q'.nodes)) [
      | yes inside ↦ All-member (MayPrecede h job) p q'.nodes precedes inside
      | no outside ↦
          absurd (omega (arith, AreLevels-marked h (suc base) p qs v.1 (omega arith), here.0))
    ]

pub emptied_IsLevel :
    (h : Store) (level : ℕ) (q : SingleLevelQueue) → q.nodes ≡ [] → IsCounted q → IsLevel h level q
emptied_IsLevel h level q e counted = record {
  sorted = rw e tt;
  counted = counted;
  home = λ p m. absurd (omega (arith, ap (count p) e));
}

Takes-below :
    (h : Store) (base job : ℕ) (q q' : SingleLevelQueue) (qs : MlfqJobQueue)
    (r : Option ℕ × MlfqJobQueue)
    → q.nodes ≡ []
    → q'.nodes ≡ []
    → IsCounted q'
    → Takes h (suc base) qs job r
    → Takes h base (q ∷ qs) job (r.0, q' ∷ r.1)
Takes-below h base job q q' qs r e e' counted t = record {
  found = t.found;
  exactly = rw (e, e') t.exactly;
  marked = (omega (arith, t.marked.0), t.marked.1);
  first = λ p. rw e' (t.first p);
  best = λ p. rw e' (t.best p);
  length_kept = ap suc t.length_kept;
  levels = (emptied_IsLevel h base q' e' counted, t.levels);
}

pub try_pop-Pops :
    (h : Store) (base : ℕ) (qs : MlfqJobQueue) → AreLevels h base qs → Pops h base qs (try_pop qs)
unfolding try_pop
try_pop-Pops h base [] v = inl (refl, refl, refl, refl, tt)
try_pop-Pops h base (q ∷ qs) v = elim (try_pop_best h q v.0.sorted v.0.counted) [
  | inl (none_here, none_found, none_left, _, counted) ↦ elim (try_pop-Pops h (suc base) qs v.1) [
    | inl (none_below, not_found, still_none, same, levels) ↦
        rw (none_found, try_pop)
          (inl (
            rw (none_here, none_below),
            not_found,
            rw (none_left, still_none),
            ap suc same,
            (emptied_IsLevel h base _ none_left counted, levels),
          ))
    | inr (job, t) ↦
        rw (none_found, try_pop)
          (inr (job, Takes-below h base job q _ qs (try_pop qs) none_here none_left counted t))
  ]
  | inr (job, found, nodes_eq, _, precedes, sorted, counted) ↦
      rw (found, try_pop)
        (inr (job, Takes-here h base job q _ qs nodes_eq precedes sorted counted v))
]

-- From valid levels the pop fails exactly when no job is queued. Otherwise it takes one job out:
-- no queued job stands on a level before its own, and on its own level none should have gone first
-- (none has a higher priority, or the same with an earlier submission). The levels stay valid.
pub try_pop_best_first :
    (h : Store) (qs : MlfqJobQueue)
    → IsValid h qs
    → Pops h 0 qs (try_pop qs) × IsValid h (try_pop qs).1
try_pop_best_first h qs v = (p, keeps p)
  where
    p : Pops h 0 qs (try_pop qs)
    p = try_pop-Pops h 0 qs v.levels

    keeps : Pops h 0 qs (try_pop qs) → IsValid h (try_pop qs).1
    keeps (inl (_, _, e, same, levels)) = record {
      three = same ∙ v.three;
      levels = levels;
      distinct = λ a. omega (arith, ap (count a) e);
    }
    keeps (inr (job, t)) = record {
      three = t.length_kept ∙ v.three;
      levels = t.levels;
      distinct = λ a. ground (arith, v.distinct a, ap (count a) t.exactly);
    }
