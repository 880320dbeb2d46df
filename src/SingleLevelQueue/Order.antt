-- ===== src/SingleLevelQueue/Order.antt =====
-- The order of a level: no job stands behind one that it should be put in front of.
use tensor_sched.Prelude.{ℕ, false, true, List, [], ◌∷◌, ◌≡◌, arith, All, All-map}
use tensor_sched.Job.{Job, Store}
use tensor_sched.SingleLevelQueue.{insert_here}

-- `p` may stand before `q`: `push` would not put `q` in front of `p`.
abbrev pub MayPrecede : Store → ℕ → ℕ → Type 0
MayPrecede h p q = insert_here (h q) (h p) ≡ false

abbrev pub IsSorted : Store → List ℕ → Type 0
IsSorted h [] = Unit
IsSorted h (p ∷ ps) = All (MayPrecede h p) ps × IsSorted h ps

-- The order is total and transitive.
pub insert_here→not : (j k : Job) → insert_here j k ≡ true → insert_here k j ≡ false
insert_here→not j k e = ground arith

pub not-insert_here_trans :
    (j k l : Job) → insert_here k j ≡ false → insert_here l k ≡ false → insert_here l j ≡ false
not-insert_here_trans j k l a b = ground arith

pub must_precede_trans :
    (j k l : Job) → insert_here j k ≡ true → insert_here l k ≡ false → insert_here j l ≡ true
must_precede_trans j k l a b = ground arith

-- What the order looks at: two stores with the same keys sort alike.
abbrev pub SameKeys : Store → Store → Type 0
SameKeys h k = (p : ℕ) → ((k p).priority ≡ (h p).priority) × ((k p).submit_time ≡ (h p).submit_time)

pub MayPrecede-SameKeys :
    (h k : Store) (p q : ℕ) → SameKeys h k → MayPrecede h p q → MayPrecede k p q
MayPrecede-SameKeys h k p q s e = rw ((s p).0, (s q).0, (s p).1, (s q).1) e

pub IsSorted-SameKeys : (h k : Store) (ps : List ℕ) → SameKeys h k → IsSorted h ps → IsSorted k ps
IsSorted-SameKeys h k [] s o = tt
IsSorted-SameKeys h k (p ∷ ps) s o = (
  All-map (MayPrecede h p) ps (λ q. MayPrecede-SameKeys h k p q s) o.0,
  IsSorted-SameKeys h k ps s o.1,
)
