-- ===== src/MlfqJobQueue/Ageing.antt =====
-- `runAging`: the aged jobs of each level below the top go up one level, and nothing else changes.
pub mod Pass
pub mod Starvation
use tensor_sched.Prelude.{
  ℕ, zero, suc, ◌+◌, ◌-◌, ◌≤◌, ◌<◌, true, false, List, [], ◌∷◌, ◌++◌, ◌≡◌, ◌≢◌, refl, sym, ap, ◌∙◌,
  arith, count, count-append, length, take, ltb, ◌==◌, if◌then◌else◌, All, Bool-cases, inl, inr,
  length-append, ==→eq,
}
use tensor_sched.Job.{Job, Store, JobStatus, update}
use tensor_sched.SingleLevelQueue
use tensor_sched.SingleLevelQueue.{SingleLevelQueue, push, drain_aged, is_aged, IsCounted}
use tensor_sched.SingleLevelQueue.Order.{IsSorted, SameKeys, IsSorted-SameKeys}
use tensor_sched.SingleLevelQueue.Push.{count-push}
use tensor_sched.SingleLevelQueue.Drain.{Drains, drain_aged-Drains, aged_nodes}
use tensor_sched.MlfqJobQueue.{
  MlfqJobQueue, queued_at, promote, age_levels, run_aging, aged_buf, pointers,
}
use tensor_sched.MlfqJobQueue.Invariant.{
  IsHome, IsLevel, AreLevels, IsValid, AgreesOn, IsLevel-AgreesOn, AreLevels-AgreesOn,
}
use tensor_sched.MlfqJobQueue.Pushing.{push-IsLevel}

module _ (clock : ℕ → ℕ) where
  -- What the promotion of the jobs `ps` to `level` makes of the store.
  abbrev pub promoted : ℕ → Store → List ℕ → Store
  promoted level h ps p = if ltb 0 (count p ps) then queued_at level (clock p) (h p) else h p

  promoted_cons :
      (level : ℕ) (h : Store) (job : ℕ) (rest : List ℕ) (p : ℕ)
      → promoted level (update h job (queued_at level (clock job) (h job))) rest p
        ≡ promoted level h (job ∷ rest) p
  unfolding update
  promoted_cons level h job rest p = ground arith

  promote-store :
      (level : ℕ) (h : Store) (ps : List ℕ) (q : SingleLevelQueue) (p : ℕ)
      → (promote clock level h ps q).0 p ≡ promoted level h ps p
  unfolding promote
  promote-store level h [] q p = refl
  promote-store level h (job ∷ rest) q p =
      promote-store level (update h job (queued_at level (clock job) (h job))) rest _ p
      ∙ promoted_cons level h job rest p

  promote-count :
      (level : ℕ) (h : Store) (ps : List ℕ) (q : SingleLevelQueue) (a : ℕ)
      → count a (promote clock level h ps q).1.nodes ≡ count a ps + count a q.nodes
  unfolding promote
  promote-count level h [] q a = omega arith
  promote-count level h (job ∷ rest) q a =
      let h' = update h job (queued_at level (clock job) (h job)) in
      ground (arith, promote-count level h' rest (push h' job q) a, count-push h' job a q)

  promote-IsLevel :
      (level : ℕ) (h : Store) (ps : List ℕ) (q : SingleLevelQueue)
      → ((p : ℕ) → 0 < count p ps → (h p).status ≡ JobStatus.ready)
      → IsLevel h level q
      → IsLevel (promote clock level h ps q).0 level (promote clock level h ps q).1
  unfolding promote update
  promote-IsLevel level h [] q r v = v
  promote-IsLevel level h (job ∷ rest) q r v =
      let h' = update h job (queued_at level (clock job) (h job)) in
      promote-IsLevel level h' rest (push h' job q) (λ p m. ground (arith, r p))
        (push-IsLevel h' level job q (ground (arith, r job)) (still h' (λ p. ground arith) home))
    where
      still :
          (h' : Store)
          → SameKeys h h'
          → ((p : ℕ) → 0 < count p q.nodes → IsHome h' level p)
          → IsLevel h' level q
      still h' s hm = record {
        sorted = IsSorted-SameKeys h h' q.nodes s v.sorted;
        counted = v.counted;
        home = hm;
      }

      home :
          (p : ℕ)
          → 0 < count p q.nodes
          → IsHome (update h job (queued_at level (clock job) (h job))) level p
      home p m = ground (arith, v.home p, r job)

-- The jobs that a pass takes up, over the levels below the top one.
abbrev pub aged_list : Store → MlfqJobQueue → List ℕ
aged_list h [] = []
aged_list h (q ∷ qs) = take aged_buf (aged_nodes h q.nodes) ++ aged_list h qs
