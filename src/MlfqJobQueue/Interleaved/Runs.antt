-- ===== src/MlfqJobQueue/Interleaved/Runs.antt =====
-- The steps that a call makes which visits the levels one by one, when no other thread comes in
-- between.
use mathlib.Core.Path.{subst}
use tensor_sched.Prelude.{ℕ, suc, ◌+◌, List, [], ◌∷◌, ◌++◌, ◌≡◌, refl, sym, ap, ap₂, arith, length}
use tensor_sched.Job.{Store, update, mlfq_levels}
use tensor_sched.SingleLevelQueue
use tensor_sched.SingleLevelQueue.{SingleLevelQueue, push}
use tensor_sched.MlfqJobQueue.{
  MlfqJobQueue, try_pop, tick_waiting, run_aging, age_levels, promote, queued_at, aged_buf,
}
use tensor_sched.MlfqJobQueue.Interleaved.Levels.{push_at_middle}
use tensor_sched.MlfqJobQueue.Interleaved.Scans.{scan-Does, tick_waiting-Does}
use tensor_sched.MlfqJobQueue.Interleaved.Acts.{Act, Does, Does-Run, scan, promote_each, act}
use tensor_sched.MlfqJobQueue.Interleaved.{State, Run, drain_at, promote_one, found_in}

module _ (s : State) where
  -- The state in a pass of the aging thread.
  abbrev passed : ℕ → List ℕ → Store × MlfqJobQueue × ℕ → State
  passed lvl aged r = record s {
    store = r.0;
    levels = r.1;
    aged = aged;
    lvl = lvl;
    promoted = s.promoted + r.2;
  }

  module _ (clock : ℕ → ℕ) where
    promote-Does :
        (h : Store) (pre qs : MlfqJobQueue) (q : SingleLevelQueue) (ps : List ℕ) (n : ℕ)
        (acts : List Act) (t : State)
        → let (h', q') = promote clock (length pre) h ps q in
          Does (passed (suc (length pre)) [] (h', pre ++ q' ∷ qs, n + length ps)) acts t
          → Does (passed (suc (length pre)) ps (h, pre ++ q ∷ qs, n)) (promote_each clock ps acts) t
    unfolding promote promote_one
    promote-Does h pre qs q [] n acts t d =
        subst (λ k. Does (passed (suc (length pre)) [] (h, pre ++ q ∷ qs, k)) acts t) (omega arith)
          d
    promote-Does h pre qs q (job ∷ ps) n acts t d = (
      (refl, omega arith),
      subst (λ u. Does u (promote_each clock ps acts) t) (sym promoted_one)
          (promote-Does h' pre qs (push h' job q) ps (suc n) acts t (
            subst
              (λ k.
                Does
                  (passed (suc (length pre)) [] (
                    (promote clock (length pre) h' ps (push h' job q)).0,
                    pre ++ (promote clock (length pre) h' ps (push h' job q)).1 ∷ qs,
                    k,
                  ))
                  acts t)
              (omega arith) d)),
    )
      where
        h' : Store
        h' = update h job (queued_at (length pre) (clock job) (h job))

        promoted_one :
            act
              (Act.promote (clock job) job)
              (passed (suc (length pre)) (job ∷ ps) (h, pre ++ q ∷ qs, n))
            ≡ passed (suc (length pre)) ps (h', pre ++ push h' job q ∷ qs, suc n)
        promoted_one =
            let counted : suc (s.promoted + n) ≡ s.promoted + suc n = omega arith in
            ap₂
              (λ x k. record s {
                store = h';
                levels = x;
                aged = ps;
                lvl = suc (length pre);
                promoted = k;
              })
              (push_at_middle h' job pre q qs) counted

    run_aging-Does :
        (qs : MlfqJobQueue)
        → length qs ≡ mlfq_levels
        → s.aged ≡ []
        → (first : List ℕ) × (second : List ℕ) × Does
            (record s { levels = qs })
            (Act.drain 0 ∷ promote_each clock first (Act.drain 1 ∷ promote_each clock second []))
            (passed 2 [] (run_aging clock s.store qs))
    unfolding run_aging age_levels drain_at
    run_aging-Does [] e b = absurd (omega arith)
    run_aging-Does (q ∷ []) e b = absurd (omega arith)
    run_aging-Does (q ∷ r ∷ []) e b = absurd (omega arith)
    run_aging-Does (q ∷ r ∷ p ∷ []) e b = (
      first,
      second,
      (
        (b, omega arith),
        subst
            (λ k.
              Does (record s { levels = q ∷ r' ∷ p ∷ []; aged = first; lvl = 1; promoted = k })
                (promote_each clock first then_second) total)
            none_yet
            (promote-Does s.store [] (r' ∷ p ∷ []) q first 0 then_second total (
              (refl, omega arith),
              promote-Does h' (q' ∷ []) (p' ∷ []) r' second (0 + length first) [] total
                  (ap (λ k. passed 2 [] (total.store, total.levels, k)) sum_eq),
            )),
      ),
    )
      where
        first : List ℕ
        first = (SingleLevelQueue.drain_aged s.store aged_buf r).0

        r' : SingleLevelQueue
        r' = (SingleLevelQueue.drain_aged s.store aged_buf r).1

        h' : Store
        h' = (promote clock 0 s.store first q).0

        q' : SingleLevelQueue
        q' = (promote clock 0 s.store first q).1

        second : List ℕ
        second = (SingleLevelQueue.drain_aged h' aged_buf p).0

        p' : SingleLevelQueue
        p' = (SingleLevelQueue.drain_aged h' aged_buf p).1

        then_second : List Act
        then_second = Act.drain 1 ∷ promote_each clock second []

        total : State
        total = passed 2 [] (run_aging clock s.store (q ∷ r ∷ p ∷ []))

        none_yet : s.promoted + 0 ≡ s.promoted
        none_yet = omega arith

        sum_eq : 0 + length first + length second ≡ length first + (length second + 0)
        sum_eq = omega arith
    run_aging-Does (q ∷ r ∷ p ∷ _ ∷ _) e b = absurd (omega arith)

-- On the three levels, each call that visits levels one by one is made of just these steps of one
-- level, in this order. `try_pop` pops level after level from 0 on, up to the first that gives a job.
-- `tick_waiting` ticks levels 0, 1 and 2. `run_aging`, when no pass is under way, drains level 1, and
-- promotes the drained jobs one by one in their order; then it does so with level 2. With no other
-- thread in between the steps have exactly the outcome of the call, and they are steps that
-- `Interleaved.Step` allows.
pub calls-Does :
    (s : State)
    → length s.levels ≡ mlfq_levels
    → Does s
        (scan 0 s.levels)
        (record s { levels = (try_pop s.levels).1; held = found_in (try_pop s.levels).0 s.held })
      × Does s
          (Act.tick 0 ∷ Act.tick 1 ∷ Act.tick 2 ∷ [])
          (record s { store = tick_waiting s.store s.levels })
      × (s.aged ≡ []
          → (clock : ℕ → ℕ)
          → let (h, qs, n) = run_aging clock s.store s.levels in
            (first : List ℕ) × (second : List ℕ) × Does s
              (Act.drain 0 ∷ promote_each clock first (Act.drain 1 ∷ promote_each clock second []))
              (record s { store = h; levels = qs; lvl = 2; aged = []; promoted = s.promoted + n }))
      × ((acts : List Act) (t : State) → Does s acts t → Run s t)
calls-Does s three = (
  scan-Does s [] s.levels (omega arith),
  tick_waiting-Does s s.levels three,
  λ b clock. run_aging-Does s clock s.levels three b,
  λ acts t d. Does-Run s s t acts Run.here d,
)
