-- ===== src/SingleLevelQueue/Rank.antt =====
-- The order of a level by what it means: priorities from CRITICAL down to LOW, and within a priority
-- the earlier submission first. It stands beside the test that `push` runs.
use mathlib.Core.Logic.{◌↔◌}
use mathlib.Core.Path.{subst}
use tensor_sched.Prelude.{
  ℕ, ◌+◌, ◌≤◌, ◌<◌, true, List, [], ◌∷◌, ◌++◌, some, none, pos, ap₂, ◌≡◌, refl, sym, ap, ◌∙◌, arith,
  All, All-map, ◌⊎◌, inl, inr, Bool-cases, count, length,
}
use tensor_sched.Job.{JobPriority, Store, priority_value}
use tensor_sched.SingleLevelQueue.{SingleLevelQueue, insert_here, insert, push, try_pop, IsCounted}
use tensor_sched.SingleLevelQueue.Order.{MayPrecede, IsSorted, must_precede_trans}
use tensor_sched.SingleLevelQueue.Pop.{try_pop_best}
use tensor_sched.SingleLevelQueue.Push.{push_ordered}

-- The place of a priority, the most urgent first.
abbrev pub rank : JobPriority → ℕ
rank JobPriority.critical = 0
rank JobPriority.high = 1
rank JobPriority.medium = 2
rank JobPriority.low = 3

rank_value : (p : JobPriority) → rank p + priority_value p ≡ 4
rank_value p = ground arith

-- Job `p` comes strictly before `q`.
abbrev pub IsBefore : Store → ℕ → ℕ → Type 0
IsBefore h p q =
    (rank (h p).priority < rank (h q).priority)
    ⊎ ((rank (h p).priority ≡ rank (h q).priority) × ((h p).submit_time < (h q).submit_time))

-- Job `p` comes before `q`, or ties with it.
abbrev pub IsNotAfter : Store → ℕ → ℕ → Type 0
IsNotAfter h p q =
    (rank (h p).priority < rank (h q).priority)
    ⊎ ((rank (h p).priority ≡ rank (h q).priority) × ((h p).submit_time ≤ (h q).submit_time))

-- No job stands behind one that it comes before.
abbrev pub IsRanked : Store → List ℕ → Type 0
IsRanked h [] = Unit
IsRanked h (p ∷ ps) = All (IsNotAfter h p) ps × IsRanked h ps

insert_here-IsBefore : (h : Store) (p q : ℕ) → insert_here (h p) (h q) ≡ true → IsBefore h p q
insert_here-IsBefore h p q e =
    ground (arith, e, rank_value (h p).priority, rank_value (h q).priority)

IsBefore-insert_here : (h : Store) (p q : ℕ) → IsBefore h p q → insert_here (h p) (h q) ≡ true
IsBefore-insert_here h p q b =
    ground (arith, b, rank_value (h p).priority, rank_value (h q).priority)

MayPrecede-IsNotAfter : (h : Store) (p q : ℕ) → MayPrecede h p q → IsNotAfter h p q
MayPrecede-IsNotAfter h p q e =
    ground (arith, e, rank_value (h p).priority, rank_value (h q).priority)

IsNotAfter-MayPrecede : (h : Store) (p q : ℕ) → IsNotAfter h p q → MayPrecede h p q
IsNotAfter-MayPrecede h p q b =
    ground (arith, b, rank_value (h p).priority, rank_value (h q).priority)

pub IsSorted-IsRanked : (h : Store) (ps : List ℕ) → IsSorted h ps → IsRanked h ps
IsSorted-IsRanked h [] o = tt
IsSorted-IsRanked h (p ∷ ps) o =
    (All-map (MayPrecede h p) ps (MayPrecede-IsNotAfter h p) o.0, IsSorted-IsRanked h ps o.1)

pub IsRanked-IsSorted : (h : Store) (ps : List ℕ) → IsRanked h ps → IsSorted h ps
IsRanked-IsSorted h [] o = tt
IsRanked-IsSorted h (p ∷ ps) o =
    (All-map (IsNotAfter h p) ps (IsNotAfter-MayPrecede h p) o.0, IsRanked-IsSorted h ps o.1)

-- Where a job is put: the level is cut in two, and it stands between the parts.
abbrev pub Parts : Store → ℕ → List ℕ → List ℕ → Type 0
Parts h job ps qs =
    (front : List ℕ) × (back : List ℕ) × (ps ≡ front ++ back)
    × (qs ≡ front ++ (job ∷ back))
    × All (λ p. IsNotAfter h p job) front
    × All (λ p. IsBefore h job p) back

-- The priorities of a level fall from CRITICAL over HIGH and MEDIUM to LOW, and within one priority
-- the submission times do not fall. A push onto such a level leaves it so, with `size_` still the
-- number of nodes. It puts the job behind all that come before it and behind those of its own priority
-- and submission time, and in front of all that come after it.
pub push-IsRanked :
    (h : Store) (job : ℕ) (q : SingleLevelQueue)
    → IsRanked h q.nodes
    → IsCounted q
    → Parts h job q.nodes (push h job q).nodes
      × IsRanked h (push h job q).nodes
      × IsCounted (push h job q)
push-IsRanked h job q o c =
    let ((front, back, cut, placed, behind, before), sorted, counted) =
      push_ordered h job q (IsRanked-IsSorted h q.nodes o) c in
    (
      (
        front,
        back,
        cut,
        placed,
        All-map (λ p. MayPrecede h p job) front (λ p. MayPrecede-IsNotAfter h p job) behind,
        All-map (λ p. insert_here (h job) (h p) ≡ true) back (insert_here-IsBefore h job) before,
      ),
      IsSorted-IsRanked h (push h job q).nodes sorted,
      counted,
    )

insert_front :
    (h : Store) (job : ℕ) (ps : List ℕ) → All (IsBefore h job) ps → insert h job ps ≡ job ∷ ps
unfolding insert
insert_front h job [] a = refl
insert_front h job (p ∷ ps) a = rw (IsBefore-insert_here h job p a.0) refl

-- A job that stands in front of the others after it was put in comes before all of them.
front-IsBefore :
    (h : Store) (job : ℕ) (ps : List ℕ)
    → IsSorted h ps
    → count job ps ≡ 0
    → insert h job ps ≡ job ∷ ps
    → All (IsBefore h job) ps
unfolding insert
front-IsBefore h job [] o c e = tt
front-IsBefore h job (p ∷ ps) o c e = elim (Bool-cases (insert_here (h job) (h p))) [
  | inl here ↦ (
    insert_here-IsBefore h job p here,
    All-map (MayPrecede h p) ps
        (λ q m. insert_here-IsBefore h job q (must_precede_trans (h job) (h p) (h q) here m)) o.0,
  )
  | inr past ↦
      let e' : p ∷ insert h job ps ≡ job ∷ p ∷ ps = rw past at e in
      let same : p ≡ job = cc e' in absurd (ground (arith, c, same))
]

-- On a level that ranks its jobs, a popped job that is pushed again gives back the level as it was,
-- `size_` included, exactly when the job comes before all that were left. One that ties with the next
-- job does not: it goes behind it.
pub push-try_pop :
    (h : Store) (job : ℕ) (q q' : SingleLevelQueue)
    → IsRanked h q.nodes
    → IsCounted q
    → count job q'.nodes ≡ 0
    → try_pop q ≡ (some job, q')
    → (push h job q' ≡ q) ↔ All (IsBefore h job) q'.nodes
unfolding push
push-try_pop h job q q' o c fresh e = (back_in, all_before)
  where
    was : (q.nodes ≡ job ∷ q'.nodes) × IsCounted q'
    was = elim (try_pop_best h q (IsRanked-IsSorted h q.nodes o) c) [
      | inl (_, missing, _, _, _) ↦
          let found : some job ≡ none = sym (ap (λ r. r.0) e) ∙ missing in absurd (cc found)
      | inr (best, found, nodes_eq, _, _, _, counted) ↦
          let same : job ≡ best = cc (sym (ap (λ r. r.0) e) ∙ found) in
          (nodes_eq ∙ ap₂ (λ p r. p ∷ r.1.nodes) (sym same) e, subst (λ r. IsCounted r.1) e counted)
    ]

    sorted : IsSorted h q'.nodes
    sorted = IsRanked-IsSorted h q'.nodes (rw was.0 at o).1

    back_in : push h job q' ≡ q → All (IsBefore h job) q'.nodes
    back_in same = front-IsBefore h job q'.nodes sorted fresh (ap (λ r. r.nodes) same ∙ was.0)

    all_before : All (IsBefore h job) q'.nodes → push h job q' ≡ q
    all_before before =
        ap₂ (λ ps n. record { nodes = ps; size_ = n })
          (insert_front h job q'.nodes before ∙ sym was.0)
          (rw was.1 (sym (c ∙ ap (λ ps. pos (length ps)) was.0)))
