-- ===== src/MlfqJobQueue/Invariant.antt =====
-- What holds of the levels between two operations.
use tensor_sched.Prelude.{
  ℕ, suc, ◌<◌, List, [], ◌∷◌, ◌≡◌, refl, arith, count, count-append, length, IsDistinct,
}
use tensor_sched.Job.{Store, JobStatus, mlfq_levels}
use tensor_sched.SingleLevelQueue
use tensor_sched.SingleLevelQueue.{SingleLevelQueue, IsCounted}
use tensor_sched.SingleLevelQueue.Order.{IsSorted, SameKeys, IsSorted-SameKeys}
use tensor_sched.MlfqJobQueue.{MlfqJobQueue, init, pointers}

-- The job is marked with the level that it waits on, and as ready.
abbrev pub IsHome : Store → ℕ → ℕ → Type 0
IsHome h level p = ((h p).mlfq_level ≡ level) × ((h p).status ≡ JobStatus.ready)

pub record IsLevel (h : Store) (level : ℕ) (q : SingleLevelQueue) : Type 0 where
  pub sorted : IsSorted h q.nodes
  pub counted : IsCounted q
  pub home : (p : ℕ) → 0 < count p q.nodes → IsHome h level p

abbrev pub AreLevels : Store → ℕ → MlfqJobQueue → Type 0
AreLevels h level [] = Unit
AreLevels h level (q ∷ qs) = IsLevel h level q × AreLevels h (suc level) qs

pub record IsValid (h : Store) (qs : MlfqJobQueue) : Type 0 where
  pub three : length qs ≡ mlfq_levels
  pub levels : AreLevels h 0 qs
  pub distinct : IsDistinct (pointers qs)

-- Stores that agree on the queued jobs, and on what the order looks at.
abbrev pub AgreesOn : Store → Store → List ℕ → Type 0
AgreesOn h k ps = (p : ℕ) → 0 < count p ps → k p ≡ h p

pub IsLevel-AgreesOn :
    (h k : Store) (level : ℕ) (q : SingleLevelQueue)
    → SameKeys h k
    → AgreesOn h k q.nodes
    → IsLevel h level q
    → IsLevel k level q
IsLevel-AgreesOn h k level q s a v = record {
  sorted = IsSorted-SameKeys h k q.nodes s v.sorted;
  counted = v.counted;
  home = λ p m. rw (a p m) (v.home p m);
}

pub AreLevels-AgreesOn :
    (h k : Store) (level : ℕ) (qs : MlfqJobQueue)
    → SameKeys h k
    → AgreesOn h k (pointers qs)
    → AreLevels h level qs
    → AreLevels k level qs
AreLevels-AgreesOn h k level [] s a v = tt
AreLevels-AgreesOn h k level (q ∷ qs) s a v = (
  IsLevel-AgreesOn h k level q s (λ p m. a p (omega (arith, count-append p q.nodes (pointers qs))))
      v.0,
  AreLevels-AgreesOn h k (suc level) qs s
      (λ p m. a p (omega (arith, count-append p q.nodes (pointers qs)))) v.1,
)

-- Stores in which the jobs differ in neither rank, level nor status.
pub AreLevels-alike :
    (h k : Store) (level : ℕ) (qs : MlfqJobQueue)
    → SameKeys h k
    → ((p : ℕ) → ((k p).mlfq_level ≡ (h p).mlfq_level) × ((k p).status ≡ (h p).status))
    → AreLevels h level qs
    → AreLevels k level qs
AreLevels-alike h k level [] s a v = tt
AreLevels-alike h k level (q ∷ qs) s a v = (
  record {
    sorted = IsSorted-SameKeys h k q.nodes s v.0.sorted;
    counted = v.0.counted;
    home = λ p m. rw ((a p).0, (a p).1) (v.0.home p m);
  },
  AreLevels-alike h k (suc level) qs s a v.1,
)

empty_IsLevel : (h : Store) (level : ℕ) → IsLevel h level SingleLevelQueue.init
unfolding SingleLevelQueue.init
empty_IsLevel h level = record { sorted = tt; counted = refl; home = λ p m. absurd (omega arith) }

pub init-IsValid : (h : Store) → IsValid h init
unfolding init SingleLevelQueue.init
init-IsValid h = record {
  three = refl;
  levels = (empty_IsLevel h 0, (empty_IsLevel h 1, (empty_IsLevel h 2, tt)));
  distinct = λ a. omega arith;
}
