-- ===== src/ResourceManager/Slots.antt =====
-- The table of worker slots: which slot is found free, and what taking and freeing a slot changes.
use tensor_sched.Prelude.{
  ℕ, zero, suc, ◌+◌, ◌<◌, true, false, List, [], ◌∷◌, ◌≡◌, ◌≢◌, refl, sym, ap, ◌∙◌, arith, get_or,
  set, length, get_or-set_self, get_or-set_ne, length-set, ◌⊎◌, inl, inr, Bool-cases, ℤ, pos,
  negsuc, take,
}
use tensor_sched.ResourceManager.{
  ResourceManager, WorkerSlot, max_concurrent, free_slot, first_free, get_free_worker_slot,
  set_worker_busy, set_worker_free, get_worker, slot_in_range,
}

-- The entry of a slot that runs a job.
abbrev pub taken_slot : ℕ → ℕ → ℕ → List ℕ → WorkerSlot
taken_slot id prio level name = record {
  busy = true;
  job_id = pos id;
  priority = prio;
  mlfq_level = level;
  job_name = take 63 name;
}

abbrev pub IsBusy : List WorkerSlot → ℕ → Type 0
IsBusy ws i = (get_or ws i free_slot).busy ≡ true

abbrev pub IsFree : List WorkerSlot → ℕ → Type 0
IsFree ws i = (get_or ws i free_slot).busy ≡ false

-- The first free slot from number `i` on, the table `ws` beginning there; -1 if all are busy.
abbrev pub Finds : ℕ → List WorkerSlot → ℤ → Type 0
Finds i ws found =
    ((found ≡ negsuc 0) × ((k : ℕ) → k < length ws → IsBusy ws k))
    ⊎ ((k : ℕ) × (found ≡ pos (i + k))
        × (k < length ws)
        × IsFree ws k
        × ((j : ℕ) → j < k → IsBusy ws j))

first_free_busy :
    (i : ℕ) (w : WorkerSlot) (ws : List WorkerSlot)
    → w.busy ≡ true
    → first_free i (w ∷ ws) ≡ first_free (suc i) ws
unfolding first_free
first_free_busy i w ws e = ground (arith, e)

first_free_free :
    (i : ℕ) (w : WorkerSlot) (ws : List WorkerSlot) → w.busy ≡ false → first_free i (w ∷ ws) ≡ pos i
unfolding first_free
first_free_free i w ws e = ground (arith, e)

busy_below :
    (w : WorkerSlot) (ws : List WorkerSlot) (k : ℕ)
    → w.busy ≡ true
    → ((j : ℕ) → j < k → IsBusy ws j)
    → (j : ℕ) → j < suc k
    → IsBusy (w ∷ ws) j
busy_below w ws k busy before zero lt = busy
busy_below w ws k busy before (suc j) lt = before j (omega arith)

first_free-Finds : (i : ℕ) (ws : List WorkerSlot) → Finds i ws (first_free i ws)
unfolding first_free
first_free-Finds i [] = inl (refl, λ k lt. absurd (omega arith))
first_free-Finds i (w ∷ ws) = elim (Bool-cases w.busy) [
  | inl busy ↦ elim (first_free-Finds (suc i) ws) [
    | inl (e, all) ↦ inl (first_free_busy i w ws busy ∙ e, busy_below w ws (length ws) busy all)
    | inr (k, e, lt, free, before) ↦ inr (
      suc k,
      first_free_busy i w ws busy ∙ e ∙ ap pos (omega arith),
      omega arith,
      free,
      busy_below w ws k busy before,
    )
  ]
  | inr free ↦ inr (
    0,
    first_free_free i w ws free ∙ ap pos (omega arith),
    omega arith,
    free,
    λ j lt. absurd (omega arith),
  )
]

module _ {S : Type 0} where
  get_free_worker_slot-Finds :
      (rm : ResourceManager S) → Finds 0 rm.workers (get_free_worker_slot rm)
  unfolding get_free_worker_slot
  get_free_worker_slot-Finds rm = first_free-Finds 0 rm.workers

  get_worker-in :
      (rm : ResourceManager S) (k : ℕ)
      → k < max_concurrent
      → get_worker rm (pos k) ≡ get_or rm.workers k free_slot
  unfolding get_worker
  get_worker-in rm k lt = ap (λ i. get_or rm.workers i free_slot) (ground arith)

  busy-in :
      (rm : ResourceManager S) (slot id prio level : ℕ) (name : List ℕ)
      → slot < max_concurrent
      → (set_worker_busy (pos slot) id prio level name rm).workers
        ≡ set rm.workers slot (taken_slot id prio level name)
  unfolding set_worker_busy
  busy-in rm slot id prio level name lt =
      let here : slot_in_range (pos slot) ≡ true = ground arith in rw here

  free-in :
      (rm : ResourceManager S) (slot : ℕ)
      → slot < max_concurrent
      → (set_worker_free (pos slot) rm).workers ≡ set rm.workers slot free_slot
  unfolding set_worker_free
  free-in rm slot lt = let here : slot_in_range (pos slot) ≡ true = ground arith in rw here

  -- In a table of four slots, `getFreeWorkerSlot` gives the lowest slot that is not busy, and -1 when
  -- all are busy; a slot in range that is taken reads back with the job's data, its name cut to 63
  -- bytes; freeing it makes it free again; neither touches another slot.
  pub worker_slot_laws :
      (rm : ResourceManager S) (slot id prio level : ℕ) (name : List ℕ)
      → length rm.workers ≡ max_concurrent
      → slot < max_concurrent
      → let taken = set_worker_busy (pos slot) id prio level name rm in
        Finds 0 rm.workers (get_free_worker_slot rm)
        × (get_worker taken (pos slot) ≡ taken_slot id prio level name)
        × (get_worker (set_worker_free (pos slot) taken) (pos slot) ≡ free_slot)
        × ((k : ℕ)
            → k < max_concurrent
            → k ≢ slot
            → (get_worker taken (pos k) ≡ get_worker rm (pos k))
              × (get_worker (set_worker_free (pos slot) rm) (pos k) ≡ get_worker rm (pos k)))
  worker_slot_laws rm slot id prio level name len lt = (
    get_free_worker_slot-Finds rm,
    get_worker-in taken slot lt
        ∙ ap (λ ws. get_or ws slot free_slot) (busy-in rm slot id prio level name lt)
        ∙ get_or-set_self rm.workers slot _ _ (omega (arith, len)),
    get_worker-in (set_worker_free (pos slot) taken) slot lt
        ∙ ap (λ ws. get_or ws slot free_slot) (free-in taken slot lt)
        ∙ get_or-set_self taken.workers slot _ _ (
            rw (busy-in rm slot id prio level name lt)
              (omega (arith, len, length-set rm.workers slot (taken_slot id prio level name)))),
    λ k lt_k ne. (
      rw
          (
            get_worker-in taken k lt_k,
            get_worker-in rm k lt_k,
            busy-in rm slot id prio level name lt,
          )
          (get_or-set_ne rm.workers _ _ (λ e. ne (sym e))),
      rw
          (
            get_worker-in (set_worker_free (pos slot) rm) k lt_k,
            get_worker-in rm k lt_k,
            free-in rm slot lt,
          )
          (get_or-set_ne rm.workers _ _ (λ e. ne (sym e))),
    ),
  )
    where
      taken : ResourceManager S
      taken = set_worker_busy (pos slot) id prio level name rm
