-- ===== src/MlfqJobQueue/Interleaved/Scans.antt =====
-- The visit of each level in turn: the loops of `tryPop` and `tickWaiting`, with no other thread in
-- between.
use mathlib.Core.Path.{subst}
use tensor_sched.Prelude.{
  ℕ, suc, ◌+◌, [], ◌∷◌, ◌++◌, Option, some, none, ◌≡◌, refl, sym, arith, length, ◌==◌,
  if◌then◌else◌, ◌⊎◌, inl, inr, true, false,
}
use tensor_sched.Job.{mlfq_levels}
use tensor_sched.SingleLevelQueue
use tensor_sched.SingleLevelQueue.{SingleLevelQueue, push}
use tensor_sched.SingleLevelQueue.Pop.{try_pop-Pops}
use tensor_sched.MlfqJobQueue.{MlfqJobQueue, try_pop, tick_waiting}
use tensor_sched.MlfqJobQueue.Interleaved.Levels.{regroup, length_snoc, pop_at_middle}
use tensor_sched.MlfqJobQueue.Interleaved.Acts.{Act, Does, scan}
use tensor_sched.MlfqJobQueue.Interleaved.{State, tick_at, found_in}

found-cases :
    (q : SingleLevelQueue)
    → (((length q.nodes == 0) ≡ true) × ((SingleLevelQueue.try_pop q).0 ≡ none))
      ⊎ (((length q.nodes == 0) ≡ false)
          × ((job : ℕ) × ((SingleLevelQueue.try_pop q).0 ≡ some job)))
found-cases q = elim (try_pop-Pops q) [
  | inl (none_queued, missing, _) ↦ inl (rw none_queued refl, missing)
  | inr (job, nodes_eq, found) ↦ inr (rw nodes_eq (ground arith), (job, found))
]

-- The state with these levels, once a scan has found `found`.
abbrev popped : State → Option ℕ × MlfqJobQueue → State
popped s r = record s { levels = r.1; held = found_in r.0 s.held }

module _ (s : State) where
  pub scan-Does :
      (pre qs : MlfqJobQueue)
      → length pre + length qs ≡ mlfq_levels
      → Does
          (popped s (none, pre ++ qs))
          (scan (length pre) qs)
          (popped s ((try_pop qs).0, pre ++ (try_pop qs).1))
  unfolding try_pop
  scan-Does pre [] e = refl
  scan-Does pre (q ∷ qs) e = (
    omega arith,
    subst
        (λ r.
          Does (popped s r) (if length q.nodes == 0 then scan (suc (length pre)) qs else [])
            (popped s ((try_pop (q ∷ qs)).0, pre ++ (try_pop (q ∷ qs)).1)))
        (sym (pop_at_middle pre q qs))
        (elim (found-cases q) [
          | inl (empty, f) ↦
              rw (empty, f, try_pop)
                (rest (scan-Does (pre ++ q' ∷ []) qs (omega (arith, length_snoc pre q'))))
          | inr (full, (job, f)) ↦ rw (full, f, try_pop) refl
        ]),
  )
    where
      q' : SingleLevelQueue
      q' = (SingleLevelQueue.try_pop q).1

      rest :
          Does
            (popped s (none, (pre ++ q' ∷ []) ++ qs))
            (scan (length (pre ++ q' ∷ [])) qs)
            (popped s ((try_pop qs).0, (pre ++ q' ∷ []) ++ (try_pop qs).1))
          → Does
              (popped s (none, pre ++ q' ∷ qs))
              (scan (suc (length pre)) qs)
              (popped s ((try_pop qs).0, pre ++ q' ∷ (try_pop qs).1))
      rest d = rw (← regroup pre q' qs, ← regroup pre q' (try_pop qs).1, ← length_snoc pre q') d

  pub tick_waiting-Does :
      (qs : MlfqJobQueue)
      → length qs ≡ mlfq_levels
      → Does
          (record s { levels = qs })
          (Act.tick 0 ∷ Act.tick 1 ∷ Act.tick 2 ∷ [])
          (record s { levels = qs; store = tick_waiting s.store qs })
  unfolding tick_waiting tick_at
  tick_waiting-Does [] e = absurd (omega arith)
  tick_waiting-Does (q ∷ []) e = absurd (omega arith)
  tick_waiting-Does (q ∷ r ∷ []) e = absurd (omega arith)
  tick_waiting-Does (q ∷ r ∷ p ∷ []) e = (omega arith, (omega arith, (omega arith, refl)))
  tick_waiting-Does (q ∷ r ∷ p ∷ _ ∷ _) e = absurd (omega arith)
