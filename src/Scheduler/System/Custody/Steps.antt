-- ===== src/Scheduler/System/Custody/Steps.antt =====
-- The steps of workers, of the dispatcher and of callers, and where they leave a job.
use tensor_sched.Prelude.{
  ℕ, Bool, true, false, List, [], ◌∷◌, ◌++◌, none, some, ◌≡◌, ◌≢◌, refl, sym, ap, ◌∙◌, arith,
  get_elem?, set, count, ◌⊎◌, inl, inr, ℤ,
}
use native.Mathlib.Decide.{ℕ_discrete}
use tensor_sched.MlfqJobQueue.{pointers}
use tensor_sched.MlfqJobQueue.Ageing.Pass.{run_aging-Ages}
use tensor_sched.ResourceManager.Ledger.{Grant}
use tensor_sched.Semaphore.{Semaphore}
use tensor_sched.Scheduler.{Scheduler, submit_job, run_aging, add_log}
use tensor_sched.Scheduler.Records.{LogEvent}
use tensor_sched.Scheduler.Dispatch.{pop_job}
use tensor_sched.Scheduler.System.{Pc, done, entering, Thread, Move}
use tensor_sched.Scheduler.System.Threads.{
  sum_of-append, sum_of-set, sum_of-member, sum_of-two, get_elem?-set, get_elem?-snoc,
}
use tensor_sched.Scheduler.System.Invariant.{is_alive, owns, Inv}
use tensor_sched.Scheduler.System.Keeps.{Inv-Relies, Move-alive}
use tensor_sched.Scheduler.System.Others.{submit-Enters, age-parts}
use tensor_sched.Scheduler.System.Dispatching.{popped, idle_empty, spawn-count}
use tensor_sched.Scheduler.System.Leaving.{ran_out, Apart, Own, Move-Apart, Move-Own}
use tensor_sched.Scheduler.System.Custody.{
  Goes-by, Kept, AreSpent, Steady, Steady-IsSpent, Steady-Kept,
}

ran_out-alive : (p : Pc) → ran_out p ≡ true → is_alive p ≡ 1
ran_out-alive done e = cc e
ran_out-alive _ e = refl

module _ (sem : Semaphore) (needs : ℕ → Grant) (text : ℕ → LogEvent → List ℕ)
    (s : Scheduler sem.State) (ts : List Thread) (v : Inv sem needs s ts) where
  open sem use {State}

  run_aging-running : (now : ℕ) (clock : ℕ → ℕ) → (run_aging text now clock s).running ≡ s.running
  unfolding run_aging add_log
  run_aging-running now clock = ground arith

  pub age-Steady :
      (now : ℕ) (clock : ℕ → ℕ)
      → Steady s (run_aging text now clock s)
        × ((p : ℕ)
            → count p (pointers (run_aging text now clock s).queue) ≡ count p (pointers s.queue))
  age-Steady now clock =
      let (store_eq, queue_eq, _, _) = age-parts sem needs s ts v text now clock in
      let (_, same, _, raised) = run_aging-Ages clock s.store s.queue v.valid in
      (
        record {
          goes = λ p.
              rw (store_eq, raised p)
                (Goes-by (s.store p) _ (ground arith) (ground arith) (ground arith));
          stays = λ off. run_aging-running now clock ∙ off;
        },
        λ p. rw queue_eq (same p),
      )

  module _ (i now : ℕ) (locked : Bool) (t : Thread) (p' : Pc) (s' : Scheduler State)
      (here : get_elem? ts i ≡ some t) (mv : Move sem text locked now t.job s t.pc p' s')
      (spent : AreSpent s ts) where
    living : is_alive t.pc ≡ 1
    living = Move-alive sem text locked now t.job s t.pc mv

    abbrev after : List Thread
    after = set ts i (record t { pc = p' })

    apart : Apart t.job s s'
    apart = Move-Apart sem needs text now t.job mv (Inv-Relies sem needs s ts v i t here living)

    own : Own t.job p' s'
    own =
        Move-Own sem needs text now t.job mv (Inv-Relies sem needs s ts v i t here living)
          (spent i t here)

    pub work-Kept : (p : ℕ) → Kept p s ts → Kept p s' after
    work-Kept p k = elim (ℕ_discrete p t.job) [
      | yes e ↦ elim own [
        | inl (alive, _) ↦ inl (
            ground (
              arith,
              alive,
              e,
              sum_of-set (owns p) ts i t (record t { pc = p' }) here,
              sum_of-member (owns p) ts i t here,
            ))
        | inr (_, inl queued) ↦ inl (omega (arith, queued, ap (λ q. count q (pointers s'.queue)) e))
        | inr (_, inr (inl over)) ↦ inr (inl (rw e over))
        | inr (_, inr (inr off)) ↦ inr (inr off)
      ]
      | no ne ↦ elim k [
        | inl held ↦ inl (
            ground (
              arith,
              held,
              ne,
              apart.count_eq p ne,
              sum_of-set (owns p) ts i t (record t { pc = p' }) here,
            ))
        | inr (inl over) ↦ inr (inl (rw (apart.store_eq p ne) over))
        | inr (inr off) ↦ inr (inr (apart.running_eq ∙ off))
      ]
    ]

    -- Another thread that is spent has another job, which the step does not touch.
    pub work-AreSpent : AreSpent s' after
    work-AreSpent j w at out = elim (get_elem?-set ts i j (record t { pc = p' }) w at) [
      | inl (_, same) ↦ elim own [
        | inl (_, now_spent) ↦ rw same (now_spent (ap (λ u. ran_out u.pc) (sym same) ∙ out))
        | inr (gone, _) ↦
            absurd (omega (arith, gone, ran_out-alive p' (ap (λ u. ran_out u.pc) (sym same) ∙ out)))
      ]
      | inr (ne, there) ↦ elim (spent j w there out) [
        | inl over ↦ inl (rw (apart.store_eq w.job (other ne there)) over)
        | inr off ↦ inr (apart.running_eq ∙ off)
      ]
    ]
      where
        other : i ≢ j → get_elem? ts j ≡ some w → w.job ≢ t.job
        other ne there e = absurd (
            ground (
              arith,
              v.owned t.job,
              sum_of-two (owns t.job) ts i j t w ne here there,
              ran_out-alive w.pc out,
              living,
              e,
            ))

  pub pop-Steady : Steady s (pop_job s).1
  pop-Steady =
      rw (popped sem needs s ts v).1
        (record { goes = λ p. Goes-by (s.store p) (s.store p) refl refl refl; stays = λ off. off })

  pub idle-Kept : (p : ℕ) → (pop_job s).0 ≡ none → Kept p s ts → Kept p (pop_job s).1 ts
  idle-Kept p e =
      Steady-Kept s (pop_job s).1 ts ts p pop-Steady
        (omega (arith, ap (count p) (idle_empty sem needs s ts v e)))

  abbrev worker : ℕ → ℤ → Thread
  worker job slot = record { job = job; pc = entering slot }

  pub spawn-Kept :
      (p job : ℕ) (slot : ℤ)
      → (pop_job s).0 ≡ some (job, slot)
      → Kept p s ts
      → Kept p (pop_job s).1 (ts ++ (worker job slot ∷ []))
  spawn-Kept p job slot e =
      Steady-Kept s (pop_job s).1 ts (ts ++ (worker job slot ∷ [])) p pop-Steady (
        ground (
          arith,
          ap (count p) (spawn-count sem needs s ts v job slot e),
          ap (λ t. count p (pointers t.queue)) (popped sem needs s ts v).1,
          sum_of-append (owns p) ts (worker job slot ∷ []),
        ))

  pub spawn-AreSpent :
      (job : ℕ) (slot : ℤ) → AreSpent s ts → AreSpent (pop_job s).1 (ts ++ (worker job slot ∷ []))
  spawn-AreSpent job slot a j u at out = elim (get_elem?-snoc ts j (worker job slot) u at) [
    | inl new ↦ absurd (let bad : true ≡ false = sym out ∙ ap (λ w. ran_out w.pc) new in cc bad)
    | inr old ↦ Steady-IsSpent s (pop_job s).1 pop-Steady u.job (a j u old out)
  ]

  submit-running : (now job : ℕ) → (submit_job text now (some job) s).running ≡ s.running
  unfolding submit_job add_log
  submit-running now job = refl

  pub submit-Kept :
      (now job p : ℕ)
      → count job (pointers s.queue) ≡ 0
      → (p ≡ job) ⊎ Kept p s ts
      → Kept p (submit_job text now (some job) s) ts
  submit-Kept now job p out k = elim (ℕ_discrete p job) [
    | yes e ↦ inl (ground (arith, e, (submit-Enters sem needs s ts v text now job out).added p))
    | no ne ↦ elim k [
      | inl same ↦ absurd (ne same)
      | inr (inl held) ↦
          inl (ground (arith, held, ne, (submit-Enters sem needs s ts v text now job out).added p))
      | inr (inr (inl over)) ↦
          inr (inl (rw ((submit-Enters sem needs s ts v text now job out).others p ne) over))
      | inr (inr (inr off)) ↦ inr (inr (submit-running now job ∙ off))
    ]
  ]

  pub submit-AreSpent :
      (now job : ℕ)
      → count job (pointers s.queue) ≡ 0
      → ((i : ℕ) (t : Thread) → get_elem? ts i ≡ some t → t.job ≡ job → t.pc ≡ done)
      → AreSpent s ts
      → AreSpent (submit_job text now (some job) s) ts
  submit-AreSpent now job out finished a i t at ran = elim (a i t at ran) [
    | inl over ↦
        inl (rw ((submit-Enters sem needs s ts v text now job out).others t.job other) over)
    | inr off ↦ inr (submit-running now job ∙ off)
  ]
    where
      other : t.job ≢ job
      other e = absurd (let bad : true ≡ false = sym ran ∙ ap ran_out (finished i t at e) in cc bad)
