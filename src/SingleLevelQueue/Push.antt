-- ===== src/SingleLevelQueue/Push.antt =====
-- `push` keeps a level in order, and puts a job behind those of its own rank.
use tensor_sched.Prelude.{
  ℕ, suc, ◌+◌, false, true, List, [], ◌∷◌, ◌++◌, ◌≡◌, refl, arith, All, All-map, inl, inr,
  Bool-cases, count, length, if◌then◌else◌, ◌==◌, ap,
}
use tensor_sched.Job.{Store}
use tensor_sched.SingleLevelQueue.{SingleLevelQueue, insert_here, insert, push, IsCounted}
use tensor_sched.SingleLevelQueue.Order.{
  MayPrecede, IsSorted, insert_here→not, not-insert_here_trans, must_precede_trans,
}

pub count-insert :
    (h : Store) (job a : ℕ) (ps : List ℕ)
    → count a (insert h job ps) ≡ (if job == a then 1 else 0) + count a ps
unfolding insert
count-insert h job a [] = refl
count-insert h job a (p ∷ ps) = ground (arith, count-insert h job a ps)

length-insert : (h : Store) (job : ℕ) (ps : List ℕ) → length (insert h job ps) ≡ suc (length ps)
unfolding insert
length-insert h job [] = refl
length-insert h job (p ∷ ps) = ground (arith, length-insert h job ps)

pub All-insert {κ} :
    (P : ℕ → Type κ) (h : Store) (job : ℕ) (ps : List ℕ)
    → P job
    → All P ps
    → All P (insert h job ps)
unfolding insert
All-insert P h job [] pj a = (pj, tt)
All-insert P h job (p ∷ ps) pj a = elim (Bool-cases (insert_here (h job) (h p))) [
  | inl e ↦ rw e (pj, a)
  | inr e ↦ rw e (a.0, All-insert P h job ps pj a.1)
]

pub insert-IsSorted :
    (h : Store) (job : ℕ) (ps : List ℕ) → IsSorted h ps → IsSorted h (insert h job ps)
unfolding insert
insert-IsSorted h job [] o = (tt, tt)
insert-IsSorted h job (p ∷ ps) o = elim (Bool-cases (insert_here (h job) (h p))) [
  | inl e ↦
      let first = insert_here→not (h job) (h p) e in
      rw e (
        (
          first,
          All-map (MayPrecede h p) ps (λ q. not-insert_here_trans (h job) (h p) (h q) first) o.0,
        ),
        o,
      )
  | inr e ↦ rw e (All-insert (MayPrecede h p) h job ps e o.0, insert-IsSorted h job ps o.1)
]

pub push-IsCounted :
    (h : Store) (job : ℕ) (q : SingleLevelQueue) → IsCounted q → IsCounted (push h job q)
unfolding push
push-IsCounted h job q c = rw (c, length-insert h job q.nodes)

-- Where a job goes in an ordered level: behind every job that it need not precede, in front of all
-- that it must precede. So jobs of one priority and one submission time stand in order of arrival.
abbrev pub Splits : Store → ℕ → List ℕ → List ℕ → Type 0
Splits h job ps qs =
    (front : List ℕ) × (back : List ℕ) × (ps ≡ front ++ back)
    × (qs ≡ front ++ (job ∷ back))
    × All (λ q. insert_here (h job) (h q) ≡ false) front
    × All (λ q. insert_here (h job) (h q) ≡ true) back

pub insert-Splits :
    (h : Store) (job : ℕ) (ps : List ℕ) → IsSorted h ps → Splits h job ps (insert h job ps)
unfolding insert
insert-Splits h job [] o = ([], [], refl, refl, tt, tt)
insert-Splits h job (p ∷ ps) o = elim (Bool-cases (insert_here (h job) (h p))) [
  | inl e ↦ rw e (
    [],
    p ∷ ps,
    refl,
    refl,
    tt,
    (e, All-map (MayPrecede h p) ps (λ q. must_precede_trans (h job) (h p) (h q) e) o.0),
  )
  | inr e ↦
      let (front, back, eq, eq', behind, before) = insert-Splits h job ps o.1 in
      rw e (p ∷ front, back, ap (◌∷◌ p) eq, ap (◌∷◌ p) eq', (e, behind), before)
]

-- Pushing a job onto a level in order leaves the level in order, with the job behind every job that
-- ranks with it or above it and in front of every job below it, and `size_` still the number of nodes.
pub push_ordered :
    (h : Store) (job : ℕ) (q : SingleLevelQueue)
    → IsSorted h q.nodes
    → IsCounted q
    → Splits h job q.nodes (push h job q).nodes
      × IsSorted h (push h job q).nodes
      × IsCounted (push h job q)
unfolding push
push_ordered h job q o c =
    (insert-Splits h job q.nodes o, insert-IsSorted h job q.nodes o, push-IsCounted h job q c)

pub count-push :
    (h : Store) (job a : ℕ) (q : SingleLevelQueue)
    → count a (push h job q).nodes ≡ (if job == a then 1 else 0) + count a q.nodes
unfolding push
count-push h job a q = count-insert h job a q.nodes
