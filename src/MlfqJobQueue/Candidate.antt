-- ===== src/MlfqJobQueue/Candidate.antt =====
-- `hasBetterCandidate`: is there a job that should run in place of a running one?
use tensor_sched.Prelude.{
  ℕ, zero, suc, ◌+◌, ◌≤◌, ◌<◌, true, false, List, [], ◌∷◌, ◌≡◌, refl, ap, arith, count,
  count-append, ◌⊎◌, inl, inr, not, pos, if◌then◌else◌,
}
use tensor_sched.Job.{Store, priority_value}
use tensor_sched.SingleLevelQueue
use tensor_sched.SingleLevelQueue.{SingleLevelQueue}
use tensor_sched.SingleLevelQueue.Pop.{Tops, top_priority-Tops}
use tensor_sched.MlfqJobQueue.{MlfqJobQueue, has_better_candidate, pointers}
use tensor_sched.MlfqJobQueue.Invariant.{IsLevel, AreLevels, IsValid}
use tensor_sched.MlfqJobQueue.Popping.{AreLevels-marked, All-member}

-- The queued job `p` should run before one of priority `prio` that runs on `level`.
abbrev pub IsBetter : Store → ℕ → ℕ → ℕ → Type 0
IsBetter h level prio p =
    ((h p).mlfq_level < level)
    ⊎ (((h p).mlfq_level ≡ level) × (prio < priority_value (h p).priority))

-- What the tests of one level say.
abbrev Head : Store → SingleLevelQueue → Type 0
Head h q =
    ((SingleLevelQueue.empty q ≡ true) × ((p : ℕ) → count p q.nodes ≡ 0))
    ⊎ ((job : ℕ) × (SingleLevelQueue.empty q ≡ false)
        × (0 < count job q.nodes)
        × (SingleLevelQueue.top_priority h q ≡ pos (priority_value (h job).priority))
        × ((p : ℕ)
            → 0 < count p q.nodes
            → priority_value (h p).priority ≤ priority_value (h job).priority))

head_of_tops :
    (h : Store) (q : SingleLevelQueue)
    → Tops h q.nodes (SingleLevelQueue.top_priority h q)
    → Head h q
unfolding SingleLevelQueue.empty
head_of_tops h q (inl (e, _)) = inl (rw (e, SingleLevelQueue.empty), λ p. ap (count p) e)
head_of_tops h q (inr (job, rest, e, top, below)) = inr (
  job,
  rw (e, SingleLevelQueue.empty),
  ground (arith, ap (count job) e),
  top,
  λ p m.
      All-member (λ x. priority_value (h x).priority ≤ priority_value (h job).priority) p
        (job ∷ rest) (omega arith, below) (rw e at m),
)

head : (h : Store) (level : ℕ) (q : SingleLevelQueue) → IsLevel h level q → Head h q
head h level q v = head_of_tops h q (top_priority-Tops h q v.sorted)

-- `p` is queued and better.
abbrev Better : Store → ℕ → ℕ → MlfqJobQueue → ℕ → Type 0
Better h level prio qs p = (0 < count p (pointers qs)) × IsBetter h level prio p

Better-sound :
    (h : Store) (base level here prio : ℕ) (qs : MlfqJobQueue)
    → base + level ≡ here
    → AreLevels h base qs
    → has_better_candidate h qs level prio ≡ true
    → (p : ℕ) × Better h here prio qs p
unfolding has_better_candidate
Better-sound h base level here prio [] eq v e = cc
Better-sound h base zero here prio (q ∷ qs) eq v e = elim (head h base q v.0) [
  | inl (none, _) ↦ ground (arith, none, e)
  | inr (job, some, m, top, _) ↦ (
    job,
    (
      omega (arith, count-append job q.nodes (pointers qs)),
      inr (omega (arith, v.0.home job m), ground (arith, some, top, e)),
    ),
  )
]
Better-sound h base (suc level) here prio (q ∷ qs) eq v e = elim (head h base q v.0) [
  | inl (none, _) ↦
      let (p, (m, b)) =
        Better-sound h (suc base) level here prio qs (omega arith) v.1 (ground (arith, none, e)) in
      (p, (omega (arith, count-append p q.nodes (pointers qs)), b))
  | inr (job, some, m, _, _) ↦ (
    job,
    (omega (arith, count-append job q.nodes (pointers qs)), inl (omega (arith, v.0.home job m))),
  )
]

Better-complete :
    (h : Store) (base level here prio p : ℕ) (qs : MlfqJobQueue)
    → base + level ≡ here
    → AreLevels h base qs
    → 0 < count p (pointers qs)
    → IsBetter h here prio p
    → has_better_candidate h qs level prio ≡ true
unfolding has_better_candidate
Better-complete h base level here prio p [] eq v m b = absurd (omega arith)
Better-complete h base zero here prio p (q ∷ qs) eq v m b = elim (head h base q v.0) [
  | inl (none, nobody) ↦ absurd (
      ground (
        arith,
        nobody p,
        count-append p q.nodes (pointers qs),
        AreLevels-marked h (suc base) p qs v.1,
      ))
  | inr (job, some, _, top, best) ↦ ground (
    arith,
    some,
    top,
    best p,
    v.0.home p,
    count-append p q.nodes (pointers qs),
    AreLevels-marked h (suc base) p qs v.1,
  )
]
Better-complete h base (suc level) here prio p (q ∷ qs) eq v m b = elim (head h base q v.0) [
  | inl (none, nobody) ↦
      rw (none, has_better_candidate)
        (Better-complete h (suc base) level here prio p qs (omega arith) v.1
          (omega (arith, nobody p, count-append p q.nodes (pointers qs))) b)
  | inr (job, some, _, _, _) ↦ rw (some, has_better_candidate)
]

-- On valid levels `hasBetterCandidate` answers yes exactly when some queued job waits on a level before the running
-- job's, or on the same level with a strictly higher priority.
pub has_better_candidate_iff :
    (h : Store) (qs : MlfqJobQueue) (level prio : ℕ)
    → IsValid h qs
    → ((has_better_candidate h qs level prio ≡ true)
        → (p : ℕ) × (0 < count p (pointers qs)) × IsBetter h level prio p)
      × ((p : ℕ)
          → 0 < count p (pointers qs)
          → IsBetter h level prio p
          → has_better_candidate h qs level prio ≡ true)
has_better_candidate_iff h qs level prio v = (
  λ e. flat (Better-sound h 0 level level prio qs (omega arith) v.levels e),
  λ p m b. Better-complete h 0 level level prio p qs (omega arith) v.levels m b,
)
  where
    flat :
        (p : ℕ) × Better h level prio qs p
        → (p : ℕ) × (0 < count p (pointers qs)) × IsBetter h level prio p
    flat (p, (m, b)) = (p, m, b)

top_by_nodes :
    (h k : Store) (q : SingleLevelQueue) (ps : List ℕ)
    → q.nodes ≡ ps
    → ((p : ℕ) → (k p).priority ≡ (h p).priority)
    → SingleLevelQueue.top_priority k q ≡ SingleLevelQueue.top_priority h q
unfolding SingleLevelQueue.top_priority
top_by_nodes h k q [] n e = rw (n, SingleLevelQueue.top_priority)
top_by_nodes h k q (p ∷ ps) n e = rw (n, SingleLevelQueue.top_priority, e p)

-- The answer depends on the store by the priorities alone.
pub has_better-priorities :
    (h k : Store) (qs : MlfqJobQueue) (level prio : ℕ)
    → ((p : ℕ) → (k p).priority ≡ (h p).priority)
    → has_better_candidate k qs level prio ≡ has_better_candidate h qs level prio
unfolding has_better_candidate
has_better-priorities h k [] level prio e = refl
has_better-priorities h k (q ∷ qs) zero prio e = rw (top_by_nodes h k q q.nodes refl e)
has_better-priorities h k (q ∷ qs) (suc level) prio e =
    ap (λ b. if not (SingleLevelQueue.empty q) then true else b)
      (has_better-priorities h k qs level prio e)
