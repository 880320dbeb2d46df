-- ===== src/MlfqJobQueue/Interleaved/Levels.antt =====
-- One level of the levels is replaced, or goes through one step; a level is found behind others.
use tensor_sched.Prelude.{
  ℕ, zero, suc, ◌+◌, ◌<◌, List, [], ◌∷◌, ◌≡◌, refl, ap, ◌++◌, arith, count, count-append, length,
  set, get_or, if◌then◌else◌, ◌==◌, Bool-cases, inl, inr,
}
use tensor_sched.Job.{Store}
use tensor_sched.SingleLevelQueue
use tensor_sched.SingleLevelQueue.{SingleLevelQueue, push}
use tensor_sched.MlfqJobQueue.{MlfqJobQueue, pointers, push_at}
use tensor_sched.MlfqJobQueue.Invariant.{IsLevel, AreLevels}
use tensor_sched.MlfqJobQueue.Interleaved.{level, without, pop_at}

pub count-set :
    (l a : ℕ) (q : SingleLevelQueue) (qs : MlfqJobQueue)
    → l < length qs
    → count a (pointers (set qs l q)) + count a (level qs l).nodes
      ≡ count a (pointers qs) + count a q.nodes
count-set l a q [] lt = absurd (omega arith)
count-set zero a q (r ∷ rs) lt =
    omega (arith, count-append a q.nodes (pointers rs), count-append a r.nodes (pointers rs))
count-set (suc l) a q (r ∷ rs) lt = omega (
  arith,
  count-set l a q rs (omega arith),
  count-append a r.nodes (pointers (set rs l q)),
  count-append a r.nodes (pointers rs),
)

pub count-level :
    (l a : ℕ) (qs : MlfqJobQueue)
    → l < length qs
    → count a (level qs l).nodes < suc (count a (pointers qs))
count-level l a [] lt = absurd (omega arith)
count-level zero a (r ∷ rs) lt = omega (arith, count-append a r.nodes (pointers rs))
count-level (suc l) a (r ∷ rs) lt =
    omega (arith, count-level l a rs (omega arith), count-append a r.nodes (pointers rs))

pub set-AreLevels :
    (h : Store) (base l : ℕ) (q : SingleLevelQueue) (qs : MlfqJobQueue)
    → IsLevel h (base + l) q
    → AreLevels h base qs
    → AreLevels h base (set qs l q)
set-AreLevels h base l q [] v vs = tt
set-AreLevels h base zero q (r ∷ rs) v vs =
    let e : base ≡ base + zero = omega arith in (rw e v, vs.1)
set-AreLevels h base (suc l) q (r ∷ rs) v vs =
    let e : suc base + l ≡ base + suc l = omega arith in
    (vs.0, set-AreLevels h (suc base) l q rs (rw e v) vs.1)

pub count-without :
    (p a : ℕ) (ps : List ℕ)
    → 0 < count p ps
    → (if p == a then 1 else 0) + count a (without p ps) ≡ count a ps
count-without p a [] m = absurd (omega arith)
count-without p a (q ∷ qs) m = elim (Bool-cases (q == p)) [
  | inl e ↦ rw e (ground arith)
  | inr e ↦ rw e (ground (arith, count-without p a qs))
]

module _ {ℓ} {A : Type ℓ} where
  pub set_middle :
      (pre : List A) (x y : A) (post : List A)
      → set (pre ++ x ∷ post) (length pre) y ≡ pre ++ y ∷ post
  set_middle [] x y post = refl
  set_middle (z ∷ pre) x y post = ap (◌∷◌ z) (set_middle pre x y post)

  pub get_or_middle :
      (pre : List A) (x d : A) (post : List A) → get_or (pre ++ x ∷ post) (length pre) d ≡ x
  get_or_middle [] x d post = refl
  get_or_middle (z ∷ pre) x d post = get_or_middle pre x d post

  pub regroup : (pre : List A) (x : A) (post : List A) → (pre ++ x ∷ []) ++ post ≡ pre ++ x ∷ post
  regroup [] x post = refl
  regroup (z ∷ pre) x post = ap (◌∷◌ z) (regroup pre x post)

  pub length_snoc : (pre : List A) (x : A) → length (pre ++ x ∷ []) ≡ suc (length pre)
  length_snoc [] x = refl
  length_snoc (z ∷ pre) x = ap suc (length_snoc pre x)

pub pop_at_middle :
    (pre : MlfqJobQueue) (q : SingleLevelQueue) (qs : MlfqJobQueue)
    → pop_at (length pre) (pre ++ q ∷ qs)
      ≡ ((SingleLevelQueue.try_pop q).0, pre ++ (SingleLevelQueue.try_pop q).1 ∷ qs)
unfolding pop_at
pop_at_middle pre q qs =
    rw (get_or_middle pre q SingleLevelQueue.init qs)
      (ap (λ x. ((SingleLevelQueue.try_pop q).0, x)) (set_middle pre q _ qs))

pub push_at_middle :
    (h : Store) (job : ℕ) (pre : MlfqJobQueue) (q : SingleLevelQueue) (qs : MlfqJobQueue)
    → push_at h (length pre) job (pre ++ q ∷ qs) ≡ pre ++ push h job q ∷ qs
unfolding push_at
push_at_middle h job [] q qs = refl
push_at_middle h job (r ∷ pre) q qs = ap (◌∷◌ r) (push_at_middle h job pre q qs)
