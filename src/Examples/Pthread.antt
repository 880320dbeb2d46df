-- ===== src/Examples/Pthread.antt =====
-- pthread_win.h over a heap and handles that are counted.
use tensor_sched.Prelude.Balance
use tensor_sched.Prelude.{
  ℕ, suc, List, [], ◌∷◌, ◌+◌, ◌-◌, true, Option, none, some, ◌≡◌, ◌⊎◌, refl, ap, arith,
  if◌then◌else◌, ◌==◌, Bool-cases, inl, inr, pos, negsuc,
}
use tensor_sched.PthreadWin.{
  WinThreadArg, Resource, same, Win32, pthread_create, pthread_join, win_thread_entry,
}
use tensor_sched.PthreadWin.Lifecycle.{pthread_create-Over}

record World : Type 0 where
  next : ℕ
  out : Resource → ℕ
  memory : ℕ → WinThreadArg
  called : Option WinThreadArg
  begun : List ℕ

abbrev take_out : Resource → World → World
take_out made w = record w {
  next = suc w.next;
  out = λ r. (if same made r then 1 else 0) + w.out r;
}

abbrev give_back : Resource → World → World
give_back gone w = record w { out = λ r. w.out r - (if same gone r then 1 else 0) }

same_eq : (a b : Resource) → same a b ≡ true → a ≡ b
same_eq (Resource.cell x) b e = ground arith
same_eq (Resource.handle x) b e = ground arith

give_back-Returns :
    (gone : Resource) (w : World) → Balance.Returns same (λ w. w.out) gone w (give_back gone w)
give_back-Returns gone w m r = elim (Bool-cases (same gone r)) [
  | inl e ↦ rw e (omega (arith, ap w.out (same_eq gone r e)))
  | inr e ↦ rw e (omega arith)
]

eq_self : (n : ℕ) → (n == n) ≡ true
eq_self n = ground arith

abbrev system : Win32 World
system = record {
  out = λ w. w.out;
  read = λ w. w.memory;
  begun = λ w. w.begun;
  allocate = λ x w. (
    w.next,
    record (take_out (Resource.cell w.next) w) {
      memory = λ a. if a == w.next then x else w.memory a;
    },
  );
  free = λ a. give_back (Resource.cell a);
  begin_thread =
      λ a w. (some w.next, record (take_out (Resource.handle w.next) w) { begun = a ∷ w.begun });
  wait_for_single_object = λ h w. w;
  close_handle = λ h. give_back (Resource.handle h);
  call = λ x w. record (take_out (Resource.handle 99) w) { called = some x };
  allocate_makes = λ x w r. refl;
  allocate_writes = λ x w. ap (λ b. if b then x else w.memory w.next) (eq_self w.next);
  allocate_begins = λ x w. refl;
  free_begins = λ a w. refl;
  begin_begins = λ a w. refl;
  close_begins = λ h w. refl;
  free_returns = λ a. give_back-Returns (Resource.cell a);
  begin_makes = λ a w r. refl;
  begin_reads = λ a b w. refl;
  wait_keeps = λ h w r. refl;
  close_returns = λ h. give_back-Returns (Resource.handle h);
  close_reads = λ h b w. refl;
}

abbrev task : WinThreadArg
task = record { func = 7; arg = 8 }

abbrev at_first : World
at_first = record { next = 0; out = λ r. 0; memory = λ a. task; called = none; begun = [] }

-- The function called in `system` leaves handle 99 open.
pthread_create-Over_example :
    let (code, t, v) = pthread_create system none none task at_first in
    ((code ≡ negsuc 0) × (t ≡ none) × (v.begun ≡ []) × Balance.Even same (λ w. w.out) at_first v)
    ⊎ ((code ≡ pos 0)
        × ((h : ℕ) × (t ≡ some h))
        × ((a : ℕ) × (v.begun ≡ a ∷ [])
            × (win_thread_entry system a v ≡ system.free a (system.call task v))
            × Balance.Over same
                (λ w. w.out)
                at_first
                (Balance.given same (some (Resource.handle 99)))
                (pthread_join system t (win_thread_entry system a v)).1))
pthread_create-Over_example =
    pthread_create-Over system none none task at_first
      (Balance.given same (some (Resource.handle 99))) (λ u r. refl)
