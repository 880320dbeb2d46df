-- ===== src/SingleLevelQueue/Drain.antt =====
-- `drainAged` splits a level into the aged jobs, as many as the buffer takes, and the rest.
use tensor_sched.Prelude.{
  ℕ, zero, suc, ◌+◌, ◌<◌, false, List, [], ◌∷◌, ◌≡◌, refl, ap, arith, count, if◌then◌else◌,
  Bool-cases, inl, inr, length, take, All, pos,
}
use tensor_sched.Job.{Store}
use tensor_sched.SingleLevelQueue.{
  SingleLevelQueue, is_aged, drain_nodes, drain_aged, sub_times, IsCounted,
}
use tensor_sched.SingleLevelQueue.Order.{MayPrecede, IsSorted}

-- The aged jobs of a level, front to back.
abbrev pub aged_nodes : Store → List ℕ → List ℕ
aged_nodes h [] = []
aged_nodes h (p ∷ ps) = if is_aged (h p) then p ∷ aged_nodes h ps else aged_nodes h ps

drain_nodes-out :
    (h : Store) (room : ℕ) (ps : List ℕ) → (drain_nodes h room ps).0 ≡ take room (aged_nodes h ps)
unfolding drain_nodes
drain_nodes-out h zero [] = refl
drain_nodes-out h (suc room) [] = refl
drain_nodes-out h zero (p ∷ ps) = refl
drain_nodes-out h (suc room) (p ∷ ps) = elim (Bool-cases (is_aged (h p))) [
  | inl e ↦ rw e (ap (◌∷◌ p) (drain_nodes-out h room ps))
  | inr e ↦ rw e (drain_nodes-out h (suc room) ps)
]

drain_nodes-count :
    (h : Store) (room : ℕ) (ps : List ℕ) (a : ℕ)
    → count a (drain_nodes h room ps).0 + count a (drain_nodes h room ps).1 ≡ count a ps
unfolding drain_nodes
drain_nodes-count h room [] a = omega arith
drain_nodes-count h zero (p ∷ ps) a = omega arith
drain_nodes-count h (suc room) (p ∷ ps) a = elim (Bool-cases (is_aged (h p))) [
  | inl e ↦ rw e (omega (arith, drain_nodes-count h room ps a))
  | inr e ↦ rw e (omega (arith, drain_nodes-count h (suc room) ps a))
]

drain_nodes-All {κ} :
    (P : ℕ → Type κ) (h : Store) (room : ℕ) (ps : List ℕ)
    → All P ps
    → All P (drain_nodes h room ps).0 × All P (drain_nodes h room ps).1
unfolding drain_nodes
drain_nodes-All P h room [] a = (tt, tt)
drain_nodes-All P h zero (p ∷ ps) a = (tt, a)
drain_nodes-All P h (suc room) (p ∷ ps) a = elim (Bool-cases (is_aged (h p))) [
  | inl e ↦ let (x, y) = drain_nodes-All P h room ps a.1 in rw e ((a.0, x), y)
  | inr e ↦ let (x, y) = drain_nodes-All P h (suc room) ps a.1 in rw e (x, (a.0, y))
]

drain_nodes-IsSorted :
    (h : Store) (room : ℕ) (ps : List ℕ)
    → IsSorted h ps
    → IsSorted h (drain_nodes h room ps).0 × IsSorted h (drain_nodes h room ps).1
unfolding drain_nodes
drain_nodes-IsSorted h room [] o = (tt, tt)
drain_nodes-IsSorted h zero (p ∷ ps) o = (tt, o)
drain_nodes-IsSorted h (suc room) (p ∷ ps) o = elim (Bool-cases (is_aged (h p))) [
  | inl e ↦
      let (x, y) = drain_nodes-IsSorted h room ps o.1 in
      rw e (((drain_nodes-All (MayPrecede h p) h room ps o.0).0, x), y)
  | inr e ↦
      let (x, y) = drain_nodes-IsSorted h (suc room) ps o.1 in
      rw e (x, ((drain_nodes-All (MayPrecede h p) h (suc room) ps o.0).1, y))
]

-- With places of the buffer left over, no aged job stays.
drain_nodes_room :
    (h : Store) (room : ℕ) (ps : List ℕ)
    → length (drain_nodes h room ps).0 < room
    → All (λ p. is_aged (h p) ≡ false) (drain_nodes h room ps).1
unfolding drain_nodes
drain_nodes_room h room [] lt = tt
drain_nodes_room h zero (p ∷ ps) lt = absurd (omega arith)
drain_nodes_room h (suc room) (p ∷ ps) lt = elim (Bool-cases (is_aged (h p))) [
  | inl e ↦
      let lt' : suc (length (drain_nodes h room ps).0) < suc room = rw e at lt in
      rw e (drain_nodes_room h room ps (omega arith))
  | inr e ↦ rw e (e, drain_nodes_room h (suc room) ps (rw e at lt))
]

drain_nodes-length :
    (h : Store) (room : ℕ) (ps : List ℕ)
    → length (drain_nodes h room ps).0 + length (drain_nodes h room ps).1 ≡ length ps
unfolding drain_nodes
drain_nodes-length h room [] = omega arith
drain_nodes-length h zero (p ∷ ps) = omega arith
drain_nodes-length h (suc room) (p ∷ ps) = elim (Bool-cases (is_aged (h p))) [
  | inl e ↦ rw e (omega (arith, drain_nodes-length h room ps))
  | inr e ↦ rw e (omega (arith, drain_nodes-length h (suc room) ps))
]

sub_times_pos : (xs : List ℕ) (n k : ℕ) → length xs + n ≡ k → sub_times (pos k) xs ≡ pos n
sub_times_pos [] n k e = ap pos (omega arith)
sub_times_pos (x ∷ xs) n zero e = absurd (omega arith)
sub_times_pos (x ∷ xs) n (suc k) e = sub_times_pos xs n k (omega arith)

-- A level before and after, with what is taken; `out_size` is the room of the buffer.
pub record Drains (h : Store) (out_size : ℕ) (q : SingleLevelQueue) (r : List ℕ × SingleLevelQueue)
    : Type 0 where
  pub taken : r.0 ≡ take out_size (aged_nodes h q.nodes)
  pub shared : (a : ℕ) → count a r.0 + count a r.1.nodes ≡ count a q.nodes
  pub out_sorted : IsSorted h r.0
  pub sorted : IsSorted h r.1.nodes
  pub counted : IsCounted r.1
  pub exhaustive : length r.0 < out_size → All (λ p. is_aged (h p) ≡ false) r.1.nodes

-- From a level in order `drain_aged` takes the aged jobs from the front on, as many as there are
-- places in the buffer. What it takes and what stays is the level, each in order, with `size_`
-- counting what stays; and unless the buffer is full nothing aged stays.
pub drain_aged-Drains :
    (h : Store) (n : ℕ) (q : SingleLevelQueue)
    → IsSorted h q.nodes
    → IsCounted q
    → Drains h n q (drain_aged h n q)
unfolding drain_aged
drain_aged-Drains h n q o c = record {
  taken = drain_nodes-out h n q.nodes;
  shared = drain_nodes-count h n q.nodes;
  out_sorted = (drain_nodes-IsSorted h n q.nodes o).0;
  sorted = (drain_nodes-IsSorted h n q.nodes o).1;
  counted = rw c (sub_times_pos (drain_nodes h n q.nodes).0 _ _ (drain_nodes-length h n q.nodes));
  exhaustive = drain_nodes_room h n q.nodes;
}
