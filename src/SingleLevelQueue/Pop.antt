-- ===== src/SingleLevelQueue/Pop.antt =====
-- `tryPop` and `topPriority`: the head of a level in order is its best job.
use tensor_sched.Prelude.{
  ℕ, ◌≤◌, List, [], ◌∷◌, ◌≡◌, refl, arith, All, All-map, length, none, some, Option, ℤ, pos, negsuc,
  dec, ◌⊎◌, inl, inr,
}
use tensor_sched.Job.{Store, priority_value}
use tensor_sched.SingleLevelQueue.{SingleLevelQueue, try_pop, top_priority, IsCounted}
use tensor_sched.SingleLevelQueue.Order.{MayPrecede, IsSorted}

-- What `try_pop` does: nothing on an empty level, else it takes the head off.
abbrev pub Pops : List ℕ → Option ℕ × SingleLevelQueue → Type 0
Pops ps r =
    ((ps ≡ []) × (r.0 ≡ none) × (r.1.nodes ≡ []))
    ⊎ ((job : ℕ) × (ps ≡ job ∷ r.1.nodes) × (r.0 ≡ some job))

Pops-cases : (ps : List ℕ) (q : SingleLevelQueue) → q.nodes ≡ ps → Pops ps (try_pop q)
unfolding try_pop
Pops-cases [] q e = rw (e, try_pop) (inl (refl, refl, refl))
Pops-cases (p ∷ ps) q e = rw (e, try_pop) (inr (p, refl, refl))

pub try_pop-Pops : (q : SingleLevelQueue) → Pops q.nodes (try_pop q)
try_pop-Pops q = Pops-cases q.nodes q refl

MayPrecede-le :
    (h : Store) (p q : ℕ)
    → MayPrecede h p q
    → priority_value (h q).priority ≤ priority_value (h p).priority
MayPrecede-le h p q e = ground arith

-- What `top_priority` says of a level in order: -1 for an empty one, else a priority that some
-- queued job has and no queued job exceeds.
abbrev pub Tops : Store → List ℕ → ℤ → Type 0
Tops h ps top =
    ((ps ≡ []) × (top ≡ negsuc 0))
    ⊎ ((job : ℕ) × (rest : List ℕ) × (ps ≡ job ∷ rest)
        × (top ≡ pos (priority_value (h job).priority))
        × All (λ q. priority_value (h q).priority ≤ priority_value (h job).priority) rest)

Tops-cases :
    (h : Store) (ps : List ℕ) (q : SingleLevelQueue)
    → q.nodes ≡ ps
    → IsSorted h ps
    → Tops h ps (top_priority h q)
unfolding top_priority
Tops-cases h [] q e o = rw (e, top_priority) (inl (refl, refl))
Tops-cases h (p ∷ ps) q e o =
    rw (e, top_priority)
      (inr (p, ps, refl, refl, All-map (MayPrecede h p) ps (λ q. MayPrecede-le h p q) o.0))

pub top_priority-Tops :
    (h : Store) (q : SingleLevelQueue) → IsSorted h q.nodes → Tops h q.nodes (top_priority h q)
top_priority-Tops h q o = Tops-cases h q.nodes q refl o

-- The outcome of a pop, over the level before it.
abbrev pub PopsBest : Store → SingleLevelQueue → Option ℕ × SingleLevelQueue → Type 0
PopsBest h q r =
    ((q.nodes ≡ [])
      × (r.0 ≡ none)
      × (r.1.nodes ≡ [])
      × (top_priority h q ≡ negsuc 0)
      × IsCounted r.1)
    ⊎ ((job : ℕ) × (r.0 ≡ some job)
        × (q.nodes ≡ job ∷ r.1.nodes)
        × (top_priority h q ≡ pos (priority_value (h job).priority))
        × All (MayPrecede h job) r.1.nodes
        × IsSorted h r.1.nodes
        × IsCounted r.1)

PopsBest-cases :
    (h : Store) (ps : List ℕ) (q : SingleLevelQueue)
    → q.nodes ≡ ps
    → IsSorted h ps
    → IsCounted q
    → PopsBest h q (try_pop q)
unfolding try_pop top_priority
PopsBest-cases h [] q e o c =
    rw (e, try_pop, top_priority) (inl (refl, refl, refl, refl, rw (c, e)))
PopsBest-cases h (p ∷ ps) q e o c =
    rw (e, try_pop, top_priority) (inr (p, refl, refl, refl, o.0, o.1, dec_counted))
  where
    dec_counted : dec q.size_ ≡ pos (length ps)
    dec_counted = rw (c, e)

-- Popping a level in order gives nothing exactly when it is empty; otherwise it gives the job that
-- may precede all that are left, whose priority `top_priority` reports, and leaves the others in
-- order with `size_` their number.
pub try_pop_best :
    (h : Store) (q : SingleLevelQueue) → IsSorted h q.nodes → IsCounted q → PopsBest h q (try_pop q)
try_pop_best h q o c = PopsBest-cases h q.nodes q refl o c
