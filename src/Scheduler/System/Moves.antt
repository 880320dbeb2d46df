-- ===== src/Scheduler/System/Moves.antt =====
-- Each step of a worker has an effect of the one form.
use native.Mathlib.Decide.{dec_lt}
use tensor_sched.Prelude.{
  ℕ, suc, ◌+◌, Bool, true, false, List, ◌∷◌, ◌++◌, Option, none, some, ◌≡◌, ◌≢◌, refl, ap, ap₂, ◌∙◌,
  arith, ◌==◌, if◌then◌else◌, get_or, set, length-set, get_or-set_ne, ℤ, pos, inl, inr, Bool-cases,
}
use tensor_sched.ResourceManager
use tensor_sched.ResourceManager.{ResourceManager, max_concurrent}
use tensor_sched.ResourceManager.Ledger
use tensor_sched.ResourceManager.Ledger.{
  Grant, Funds, cpu_of, mem_of, cpu_of_out, mem_of_out, length_out, reserve-Reserves,
  unreserve-Funds, unreserve-slots,
}
use tensor_sched.Semaphore.{Semaphore}
use tensor_sched.Scheduler.{Scheduler}
use tensor_sched.Scheduler.Worker.{place, vacate}
use tensor_sched.Scheduler.Worker.Place.{place_takes_empty}
use tensor_sched.Scheduler.System.{
  Pc, waiting, reserving, refusing, choosing, placing, starting, vacating, freeing, releasing,
  posting, with_slots, reserve_for, unreserve_for,
}
use tensor_sched.Scheduler.System.Invariant.{
  permit, is_granted, seat, is_seated, is_alive, occupied, occurs, grant_at, IsFit, HasEntry,
}
use tensor_sched.Scheduler.System.Seats.{
  is_null→none, occupied-set-some, occupied-set-none, vacancy,
}
use tensor_sched.Scheduler.System.Effect.{Effect, Relies}

-- The place of a grant in the ledger does not matter.
Funds_middle :
    {S : Type 0} (r : ResourceManager S) (g : Grant) (front back : List Grant)
    → Funds r (g ∷ (front ++ back))
    → Funds r (front ++ (g ∷ back))
Funds_middle r g front back f = record {
  cpu_book = f.cpu_book ∙ ap pos (omega (arith, cpu_of_out g front back));
  mem_book = f.mem_book ∙ ap pos (omega (arith, mem_of_out g front back));
  active_book = f.active_book ∙ ap pos (omega (arith, length_out g front back));
  cpu_bound = omega (arith, f.cpu_bound, cpu_of_out g front back);
  mem_bound = omega (arith, f.mem_bound, mem_of_out g front back);
}

module _ (sem : Semaphore) (needs : ℕ → Grant) (job : ℕ) where
  open sem use {State, value, wait, post, wait_blocks, wait_passes, value-post}

  -- A step on the resources alone.
  resources-Effect :
      (p p' : Pc) (s : Scheduler State) (r' : ResourceManager State)
      → seat p' ≡ seat p
      → is_alive p' ≡ is_alive p
      → value r'.slots + permit p' ≡ value s.resources.slots + permit p
      → ((front back : List Grant)
          → Funds s.resources (front ++ (grant_at needs job p ++ back))
          → Funds r' (front ++ (grant_at needs job p' ++ back)))
      → Relies sem needs job p s
      → Effect sem needs job p p' s (record s { resources = r' })
  resources-Effect p p' s r' seated alive permits funds r = record {
    fits = r.fits;
    valid = r.valid;
    queued = λ q. rw alive (omega arith);
    permits = permits;
    funds = funds;
    four = refl;
    entries = rw seated;
    entries_of = λ q. rw seated;
    mine = rw seated r.entry;
    theirs = λ q k ne g. g;
  }

  wait-value : (s t : State) → wait s ≡ some t → value s ≡ suc (value t)
  wait-value s t e = elim (dec_lt 0 (value s)) [
    | yes free ↦ let (u, passed, v) = wait_passes s free in let same : t ≡ u = cc in rw same v
    | no none_free ↦ let blocked = wait_blocks s (omega arith) in absurd (cc)
  ]

  pub pass-Effect :
      (slot : _) (s : Scheduler State) (t : State)
      → wait s.resources.slots ≡ some t
      → Relies sem needs job (waiting slot) s
      → Effect sem needs job (waiting slot) (reserving slot) s (with_slots t s)
  pass-Effect slot s t e =
      resources-Effect _ _ s _ refl refl (omega (arith, wait-value s.resources.slots t e))
        (λ front back f. Ledger.with_slots s.resources _ t f)

  pub post-Effect :
      (p p' : Pc) (s : Scheduler State)
      → seat p' ≡ seat p
      → is_alive p' ≡ is_alive p
      → permit p ≡ suc (permit p')
      → is_granted p' ≡ is_granted p
      → Relies sem needs job p s
      → Effect sem needs job p p' s (with_slots (post s.resources.slots) s)
  post-Effect p p' s seated alive fewer same =
      resources-Effect p p' s _ seated alive (omega (arith, fewer, value-post s.resources.slots))
        (λ front back f. rw same (Ledger.with_slots s.resources _ (post s.resources.slots) f))

  reserve-slots :
      (c m : ℤ) (r : ResourceManager State) → (ResourceManager.reserve c m r).1.slots ≡ r.slots
  unfolding ResourceManager.reserve
  reserve-slots c m r = ground arith

  -- The reservation is the one for the grant of the job.
  reserve_for-grant :
      (s : Scheduler State)
      → IsFit needs job (s.store job)
      → reserve_for job s
        ≡ ResourceManager.reserve (pos (needs job).cpu) (pos (needs job).mem) s.resources
  reserve_for-grant s f = ap₂ (λ c m. ResourceManager.reserve c m s.resources) f.cpu_eq f.memory_eq

  reserve_for-Funds :
      (s : Scheduler State) (front back : List Grant)
      → IsFit needs job (s.store job)
      → Funds s.resources (front ++ back)
      → Funds
          (reserve_for job s).1
          (if (reserve_for job s).0 then front ++ (needs job ∷ back) else front ++ back)
  reserve_for-Funds s front back fit f =
      let g = reserve-Reserves (needs job) (front ++ back) s.resources f in
      rw (reserve_for-grant s fit, g.answer)
        (elim (Bool-cases (Ledger.fits (needs job) (front ++ back))) [
          | inl e ↦ rw e (Funds_middle _ (needs job) front back (rw e at g.funds))
          | inr e ↦ rw e (rw e at g.funds)
        ])

  pub accept-Effect :
      (slot : ℤ) (s : Scheduler State)
      → (reserve_for job s).0 ≡ true
      → Relies sem needs job (reserving slot) s
      → Effect sem needs job
          (reserving slot)
          (choosing slot)
          s
          (record s { resources = (reserve_for job s).1 })
  accept-Effect slot s e r =
      resources-Effect _ _ s _ refl refl (rw (reserve-slots _ _ s.resources))
        (λ front back f. rw e at (reserve_for-Funds s front back (r.fits job) f)) r

  pub refuse-Effect :
      (slot : ℤ) (s : Scheduler State)
      → (reserve_for job s).0 ≡ false
      → Relies sem needs job (reserving slot) s
      → Effect sem needs job
          (reserving slot)
          refusing
          s
          (record s { resources = (reserve_for job s).1 })
  refuse-Effect slot s e r =
      resources-Effect _ _ s _ refl refl (rw (reserve-slots _ _ s.resources))
        (λ front back f. rw e at (reserve_for-Funds s front back (r.fits job) f)) r

  pub give_back-Effect :
      (b : Bool) (s : Scheduler State)
      → Relies sem needs job (releasing b) s
      → Effect sem needs job (releasing b) (posting b) s (unreserve_for job s)
  give_back-Effect b s r =
      resources-Effect _ _ s _ refl refl (rw (unreserve-slots _ _ s.resources))
        (λ front back f.
          rw ((r.fits job).cpu_eq, (r.fits job).memory_eq)
            (unreserve-Funds (needs job) front back s.resources f))
        r

  -- A write of the entry `l`.
  entry-Effect :
      (p p' : Pc) (s : Scheduler State) (l : ℕ) (o : Option ℕ)
      → permit p' ≡ permit p
      → is_granted p' ≡ is_granted p
      → is_alive p' ≡ is_alive p
      → (occupied (set s.active_jobs l o) + is_seated (seat p)
          ≡ occupied s.active_jobs + is_seated (seat p'))
      → ((q : ℕ)
          → occurs q (set s.active_jobs l o) + (if job == q then is_seated (seat p) else 0)
            ≡ occurs q s.active_jobs + (if job == q then is_seated (seat p') else 0))
      → HasEntry (set s.active_jobs l o) job (seat p')
      → ((q : ℕ) → q ≢ job → get_or s.active_jobs l none ≢ some q)
      → Relies sem needs job p s
      → Effect sem needs job p p' s (record s { active_jobs = set s.active_jobs l o })
  entry-Effect p p' s l o permits granted alive all each mine free r = record {
    fits = r.fits;
    valid = r.valid;
    queued = λ q. rw alive (omega arith);
    permits = rw permits;
    funds = λ front back f. rw granted f;
    four = length-set s.active_jobs l o;
    entries = all;
    entries_of = each;
    mine = mine;
    theirs = λ q k ne g.
        get_or-set_ne s.active_jobs o none
          (λ eq. free q ne (ap (λ n. get_or s.active_jobs n none) eq ∙ g))
        ∙ g;
  }

  pub take-Effect :
      (k : ℕ) (s : Scheduler State)
      → Relies sem needs job (placing k) s
      → Effect sem needs job
          (placing k)
          (starting (place job (pos k) s).0)
          s
          (place job (pos k) s).1
  unfolding place
  take-Effect k s r =
      let (l, lt, empty) = vacancy s.active_jobs (omega (arith, r.four, r.room refl refl)) in
      let (in_range, null, mine, _, _) =
        place_takes_empty job l (pos k) s r.four (omega (arith, lt, r.four)) (rw empty) in
      let none_here : get_or s.active_jobs (place job (pos k) s).0 none ≡ none =
        is_null→none _ null in
      let (all, each) =
        occupied-set-some s.active_jobs (place job (pos k) s).0 job
          (omega (arith, in_range, r.four)) none_here in
      entry-Effect _ _ s (place job (pos k) s).0 (some job) refl refl refl (omega (arith, all))
        (λ q. ground (arith, each q)) (in_range, mine) (λ q ne e. cc (none_here, e)) r

  pub leave-Effect :
      (k : ℕ) (b : Bool) (s : Scheduler State)
      → Relies sem needs job (vacating k b) s
      → Effect sem needs job (vacating k b) (freeing k b) s (vacate k s)
  unfolding vacate
  leave-Effect k b s r =
      let (all, each) = occupied-set-none s.active_jobs k job r.entry.1 in
      entry-Effect _ _ s k none refl refl refl (omega (arith, all)) (λ q. ground (arith, each q)) tt
        (λ q ne e. ne (cc (r.entry.1, e))) r
