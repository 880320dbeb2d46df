-- ===== src/ResourceManager/Ledger.antt =====
-- The resource manager against a ledger of the grants that are out.
use native.Mathlib.Decide.{dec_lt}
use tensor_sched.Prelude.{
  ℕ, suc, ◌+◌, ◌≤◌, ◌<◌, Bool, true, false, ◌&&◌, List, [], ◌∷◌, ◌++◌, Option, none, some, ◌≡◌,
  refl, sym, ap, ap₂, arith, leb, length, pos, pos-+ℤ, leb_ℤ, leb_ℤ-pos, sub-pos, ◌+ℤ◌,
  if◌then◌else◌, Bool-cases, inl, inr, ℤ,
}
use tensor_sched.Semaphore.{Semaphore}
use tensor_sched.ResourceManager.{
  ResourceManager, total_cpu, total_memory, max_concurrent, reserve, unreserve, settle, acquire,
  release, new_manager, at_least_zero-pos,
}

-- What a job holds while it runs.
pub record Grant : Type 0 where
  pub cpu : ℕ
  pub mem : ℕ

abbrev pub cpu_of : List Grant → ℕ
cpu_of [] = 0
cpu_of (g ∷ gs) = g.cpu + cpu_of gs

abbrev pub mem_of : List Grant → ℕ
mem_of [] = 0
mem_of (g ∷ gs) = g.mem + mem_of gs

-- The abstract manager: at most four grants, within the two budgets.
abbrev pub fits : Grant → List Grant → Bool
fits g gs = leb (cpu_of gs + g.cpu) total_cpu && leb (mem_of gs + g.mem) total_memory

abbrev pub ask : Grant → List Grant → Option (Bool × List Grant)
ask g gs =
    if leb max_concurrent (length gs)
    then none
    else some (if fits g gs then (true, g ∷ gs) else (false, gs))

-- Taking one grant out of the ledger.
pub cpu_of_out :
    (g : Grant) (xs ys : List Grant) → cpu_of (xs ++ (g ∷ ys)) ≡ g.cpu + cpu_of (xs ++ ys)
cpu_of_out g [] ys = refl
cpu_of_out g (x ∷ xs) ys = omega (arith, cpu_of_out g xs ys)

pub mem_of_out :
    (g : Grant) (xs ys : List Grant) → mem_of (xs ++ (g ∷ ys)) ≡ g.mem + mem_of (xs ++ ys)
mem_of_out g [] ys = refl
mem_of_out g (x ∷ xs) ys = omega (arith, mem_of_out g xs ys)

pub length_out {ℓ} :
    {A : Type ℓ} (a : A) (xs ys : List A) → length (xs ++ (a ∷ ys)) ≡ suc (length (xs ++ ys))
length_out a [] ys = refl
length_out a (x ∷ xs) ys = ap suc (length_out a xs ys)

-- The sums of the manager are the ledger's, which keeps to the two budgets.
pub record Funds {S : Type 0} (rm : ResourceManager S) (gs : List Grant) : Type 0 where
  pub cpu_book : rm.used_cpu ≡ pos (cpu_of gs)
  pub mem_book : rm.used_memory ≡ pos (mem_of gs)
  pub active_book : rm.active_jobs ≡ pos (length gs)
  pub cpu_bound : cpu_of gs ≤ total_cpu
  pub mem_bound : mem_of gs ≤ total_memory

module _ {S : Type 0} where
  -- What `reserve` returns and leaves, over a ledger.
  pub record Reserves (g : Grant) (gs : List Grant) (rm : ResourceManager S)
      (r : Bool × ResourceManager S) : Type 0 where
    pub answer : r.0 ≡ fits g gs
    pub funds : Funds r.1 (if fits g gs then g ∷ gs else gs)
    pub same_slots : r.1.slots ≡ rm.slots
    pub same_workers : r.1.workers ≡ rm.workers

  -- The sums do not depend on the semaphore.
  pub with_slots :
      (rm : ResourceManager S) (gs : List Grant) (s : S)
      → Funds rm gs
      → Funds (record rm { slots = s }) gs
  with_slots rm gs s f = record {
    cpu_book = f.cpu_book;
    mem_book = f.mem_book;
    active_book = f.active_book;
    cpu_bound = f.cpu_bound;
    mem_bound = f.mem_bound;
  }

  pub unreserve-slots :
      (cpu mem : ℤ) (rm : ResourceManager S) → (unreserve cpu mem rm).slots ≡ rm.slots
  unfolding unreserve
  unreserve-slots cpu mem rm = refl

  reserve_by :
      (g : Grant) (gs : List Grant) (rm : ResourceManager S)
      → (leb_ℤ (rm.used_cpu +ℤ pos g.cpu) (pos total_cpu)
          && leb_ℤ (rm.used_memory +ℤ pos g.mem) (pos total_memory))
        ≡ fits g gs
      → Funds rm gs
      → Reserves g gs rm (reserve (pos g.cpu) (pos g.mem) rm)
  unfolding reserve
  reserve_by g gs rm test f = elim (Bool-cases (fits g gs)) [
    | inl e ↦
        rw (test, e)
          (record {
            answer = sym e;
            funds = rw e (record {
              cpu_book = rw (f.cpu_book, pos-+ℤ) (ap pos (omega arith));
              mem_book = rw (f.mem_book, pos-+ℤ) (ap pos (omega arith));
              active_book = rw f.active_book;
              cpu_bound = ground (arith, e);
              mem_bound = ground (arith, e);
            });
            same_slots = refl;
            same_workers = refl;
          })
    | inr e ↦
        rw (test, e)
          (record { answer = sym e; funds = rw e f; same_slots = refl; same_workers = refl })
  ]

  pub reserve-Reserves :
      (g : Grant) (gs : List Grant) (rm : ResourceManager S)
      → Funds rm gs
      → Reserves g gs rm (reserve (pos g.cpu) (pos g.mem) rm)
  reserve-Reserves g gs rm f = reserve_by g gs rm test f
    where
      test :
          (leb_ℤ (rm.used_cpu +ℤ pos g.cpu) (pos total_cpu)
            && leb_ℤ (rm.used_memory +ℤ pos g.mem) (pos total_memory))
          ≡ fits g gs
      test =
          rw (f.cpu_book, f.mem_book, pos-+ℤ, pos-+ℤ)
            (ap₂ ◌&&◌ (leb_ℤ-pos (cpu_of gs + g.cpu) total_cpu)
              (leb_ℤ-pos (mem_of gs + g.mem) total_memory))

  pub unreserve-Funds :
      (g : Grant) (front back : List Grant) (rm : ResourceManager S)
      → Funds rm (front ++ (g ∷ back))
      → Funds (unreserve (pos g.cpu) (pos g.mem) rm) (front ++ back)
  unfolding unreserve
  unreserve-Funds g front back rm f = record {
    cpu_book = rw (f.cpu_book, sub-pos _ _ _ (cpu_of_out g front back), at_least_zero-pos);
    mem_book = rw (f.mem_book, sub-pos _ _ _ (mem_of_out g front back), at_least_zero-pos);
    active_book =
        rw (f.active_book, length_out g front back) (at_least_zero-pos (length (front ++ back)));
    cpu_bound = omega (arith, cpu_of_out g front back, f.cpu_bound);
    mem_bound = omega (arith, mem_of_out g front back, f.mem_bound);
  }

module _ (sem : Semaphore) where
  open sem use {State, value, wait_blocks, wait_passes, value-post, value-init}

  -- The manager keeps the ledger: its sums, and a free slot for each grant that is not out.
  pub record Books (rm : ResourceManager State) (gs : List Grant) : Type 0 where
    pub funds : Funds rm gs
    pub slot_book : value rm.slots + length gs ≡ max_concurrent

  -- `new_manager` has all its slots and an empty ledger.
  pub new_manager-Books : Books (new_manager sem) []
  unfolding new_manager
  new_manager-Books = record {
    funds = record {
      cpu_book = refl;
      mem_book = refl;
      active_book = refl;
      cpu_bound = omega arith;
      mem_bound = omega arith;
    };
    slot_book = omega (arith, value-init max_concurrent);
  }

  -- The result of `acquire` is that of `ask`, and the manager then keeps the new ledger.
  abbrev pub Answers : Option (Bool × ResourceManager State) → Option (Bool × List Grant) → Type 0
  Answers none none = Unit {0}
  Answers (some (b, rm)) (some (c, gs)) = (b ≡ c) × Books rm gs
  Answers _ _ = ⊥

  acquire_blocked :
      (g : Grant) (rm : ResourceManager State)
      → value rm.slots ≡ 0
      → acquire sem (pos g.cpu) (pos g.mem) rm ≡ none
  unfolding acquire
  acquire_blocked g rm e = rw (wait_blocks rm.slots e, acquire)

  settled :
      (g : Grant) (gs : List Grant) (rm : ResourceManager State) (r : Bool × ResourceManager State)
      → value rm.slots + suc (length gs) ≡ max_concurrent
      → Reserves g gs rm r
      → Answers (some (settle sem r)) (some (if fits g gs then (true, g ∷ gs) else (false, gs)))
  settled g gs rm r e s = elim (Bool-cases (fits g gs)) [
    | inl yes_fits ↦
        rw (s.answer, yes_fits)
          (
            refl,
            record { funds = rw yes_fits at s.funds; slot_book = rw s.same_slots (omega arith) },
          )
    | inr no_fit ↦
        rw (s.answer, no_fit)
          (
            refl,
            record {
              funds = with_slots r.1 gs _ (rw no_fit at s.funds);
              slot_book = rw s.same_slots (omega (arith, value-post rm.slots));
            },
          )
  ]

  asked :
      (g : Grant) (gs : List Grant)
      → length gs < max_concurrent
      → ask g gs ≡ some (if fits g gs then (true, g ∷ gs) else (false, gs))
  asked g gs lt = let room : leb max_concurrent (length gs) ≡ false = ground arith in rw room

  -- Where the manager keeps a ledger of grants, asking for a job's needs blocks exactly when four grants are out. If not, the manager says yes
  -- exactly when the needs fit into what the grants leave of both budgets, and then it holds one
  -- grant more; if it says no, its sums and its free slots are as before.
  pub acquire-Answers :
      (g : Grant) (gs : List Grant) (rm : ResourceManager State)
      → Books rm gs
      → Answers (acquire sem (pos g.cpu) (pos g.mem) rm) (ask g gs)
  unfolding acquire
  acquire-Answers g gs rm b = elim (dec_lt 0 (value rm.slots)) [
    | yes free ↦
        let (s, e, v) = wait_passes rm.slots free in
        rw (e, acquire, asked g gs (omega (arith, b.slot_book)))
          (settled g gs (record rm { slots = s }) _ (omega (arith, b.slot_book))
            (reserve-Reserves g gs (record rm { slots = s }) (with_slots rm gs s b.funds)))
    | no none_free ↦
        let full : leb max_concurrent (length gs) ≡ true = ground (arith, b.slot_book) in
        rw (wait_blocks rm.slots (omega arith), acquire, full) tt
  ]

  -- Where the manager keeps the ledger, giving back a grant that is out takes it, and no other, off the ledger and frees one slot.
  pub release-Books :
      (g : Grant) (front back : List Grant) (rm : ResourceManager State)
      → Books rm (front ++ (g ∷ back))
      → Books (release sem (pos g.cpu) (pos g.mem) rm) (front ++ back)
  unfolding release
  release-Books g front back rm b = record {
    funds = with_slots _ _ _ (unreserve-Funds g front back rm b.funds);
    slot_book =
        rw (unreserve-slots (pos g.cpu) (pos g.mem) rm)
          (omega (arith, value-post rm.slots, b.slot_book, length_out g front back));
  }
