-- ===== src/PthreadWin/Lifecycle.antt =====
-- A thread from its creation to its join.
use tensor_sched.Prelude.Balance
use tensor_sched.Prelude.{
  ℕ, ◌+◌, ◌∷◌, ap₂, Bool, true, false, Option, none, some, ◌≡◌, ◌⊎◌, inl, inr, refl, ap, ◌∙◌, arith,
  ℤ, pos, negsuc, Option-cases, if◌then◌else◌,
}
use mathlib.Core.Option as Option
use tensor_sched.PthreadWin.{
  PthreadAttr, WinThreadArg, Resource, same, Win32, with_begun, win_thread_entry, is_detached,
  store_tid, pthread_create, pthread_join,
}

module _ {W : Type 0} (win : Win32 W) where
  open win use {
    out, read, begun, allocate, free, begin_thread, close_handle, wait_for_single_object, call,
  }

  abbrev tid_extra : Option ℕ → Resource → ℕ
  tid_extra tid r = Balance.given same (Option.map Resource.handle tid) r + 0

  -- What is out of a thread begun and not yet run.
  abbrev begun_extra : Option ℕ → ℕ → Resource → ℕ
  begun_extra tid a r = Balance.given same (some (Resource.cell a)) r + tid_extra tid r

  -- Nothing was begun, or a thread was, which is to run with the cell `a`.
  abbrev Creates : Option ℕ → Bool → WinThreadArg → W → ℕ → ℤ × Option ℕ × W → Type 0
  Creates tid detached x w a r =
      ((r.0 ≡ negsuc 0) × (r.1 ≡ tid) × (begun r.2 ≡ begun w) × Balance.Even same out w r.2)
      ⊎ ((r.0 ≡ pos 0)
          × (read r.2 a ≡ x)
          × (begun r.2 ≡ a ∷ begun w)
          × ((h : ℕ) × (r.1 ≡ (if detached then none else some h)))
          × Balance.Over same out w (begun_extra r.1 a) r.2)

  close-Over :
      (a h : ℕ) (u w : W)
      → Balance.Over same out u (begun_extra (some h) a) w
      → Balance.Over same out u (begun_extra none a) (close_handle h w)
  close-Over a h u w o r = omega (
    arith,
    Balance.returned-Over same out (Resource.handle h) u w (close_handle h w)
        (λ r. Balance.given same (some (Resource.cell a)) r) (ground arith) (win.close_returns h w)
        (λ r. omega (arith, o r)) r,
  )

  store_tid-Over :
      (detached : Bool) (x : WinThreadArg) (a h : ℕ) (tid : Option ℕ) (w v : W)
      → read v a ≡ x
      → begun v ≡ a ∷ begun w
      → Balance.Over same out w (begun_extra (some h) a) v
      → Creates tid detached x w a (store_tid win detached h v)
  store_tid-Over true x a h tid w v e b o =
      inr
        (refl, win.close_reads h a v ∙ e, win.close_begins h v ∙ b, (h, refl), close-Over a h w v o)
  store_tid-Over false x a h tid w v e b o = inr (refl, e, b, (h, refl), o)

  pthread_create-Creates :
      (tid : Option ℕ) (attr : Option PthreadAttr) (x : WinThreadArg) (w : W)
      → Creates tid (is_detached win attr) x w (allocate x w).0 (pthread_create win tid attr x w)
  unfolding pthread_create
  pthread_create-Creates tid attr x w = elim (Option-cases (begin_thread a w₁).0) [
    | inl e ↦
        rw (e, pthread_create) (inl (refl, refl, win.free_begins a w₂ ∙ listed none e, freed e))
    | inr (h, e) ↦
        rw (e, pthread_create)
          (store_tid-Over (is_detached win attr) x a h tid w w₂
            (win.begin_reads a a w₁ ∙ win.allocate_writes x w) (listed (some h) e) (both_out h e))
  ]
    where
      a : ℕ
      a = (allocate x w).0

      w₁ : W
      w₁ = (allocate x w).1

      w₂ : W
      w₂ = (begin_thread a w₁).1

      freed : (begin_thread a w₁).0 ≡ none → Balance.Even same out w (free a w₂)
      freed e r = omega (
        arith,
        Balance.returned-Over same out (Resource.cell a) w w₂ (free a w₂) (λ r. 0) (ground arith)
            (win.free_returns a w₂)
            (λ r. omega (
              arith,
              win.allocate_makes x w r,
              win.begin_makes a w₁ r,
              ap (λ o. Balance.given same (Option.map Resource.handle o) r) e,
            ))
            r,
      )

      listed :
          (found : Option ℕ)
          → (begin_thread a w₁).0 ≡ found
          → begun w₂ ≡ with_begun a found (begun w)
      listed found e = win.begin_begins a w₁ ∙ ap₂ (with_begun a) e (win.allocate_begins x w)

      both_out :
          (h : ℕ)
          → (begin_thread a w₁).0 ≡ some h
          → Balance.Over same out w (begun_extra (some h) a) w₂
      both_out h e r = omega (
        arith,
        win.allocate_makes x w r,
        win.begin_makes a w₁ r,
        ap (λ o. Balance.given same (Option.map Resource.handle o) r) e,
      )

  run-Over :
      (a : ℕ) (tid : Option ℕ) (more : Resource → ℕ) (u w : W)
      → Balance.Over same out u (begun_extra tid a) w
      → Balance.Over same out w more (call (read w a) w)
      → Balance.Over same out u (λ r. tid_extra tid r + more r) (win_thread_entry win a w)
  unfolding win_thread_entry
  run-Over a tid more u w o c =
      Balance.returned-Over same out (Resource.cell a) u (call (read w a) w) _
        (λ r. tid_extra tid r + more r) (ground arith) (win.free_returns a (call (read w a) w))
        (λ r. omega (arith, o r, c r))

  join-Over :
      (tid : Option ℕ) (more : Resource → ℕ) (u w : W)
      → Balance.Over same out u (λ r. tid_extra tid r + more r) w
      → Balance.Over same out u more (pthread_join win tid w).1
  unfolding pthread_join
  join-Over none more u w o r = omega (arith, o r)
  join-Over (some h) more u w o r = omega (
    arith,
    Balance.returned-Over same out (Resource.handle h) u (wait_for_single_object h w) _ more
        (ground arith) (win.close_returns h (wait_for_single_object h w))
        (λ r. omega (arith, o r, win.wait_keeps h w r)) r,
  )

  -- `pthread_create` fails with -1: no thread is begun, the caller's `tid` is as it was, and nothing
  -- more is allocated or open. Or it returns 0, with a handle in `tid`, or null there for a detached
  -- thread, and exactly one thread is begun: its entry gets a cell and calls with it the given
  -- function with the given argument, after which the cell is freed. If that function, wherever it is
  -- called, leaves out what is out and `more`, then once the thread has run and the caller has joined
  -- what `tid` holds, just `more` is out besides what was before: no cell and no handle is lost.
  pub pthread_create-Over :
      (tid : Option ℕ) (attr : Option PthreadAttr) (x : WinThreadArg) (w : W) (more : Resource → ℕ)
      → ((u : W) → Balance.Over same out u more (call x u))
      → let (code, t, v) = pthread_create win tid attr x w in
        ((code ≡ negsuc 0) × (t ≡ tid) × (begun v ≡ begun w) × Balance.Even same out w v)
        ⊎ ((code ≡ pos 0)
            × ((h : ℕ) × (t ≡ (if is_detached win attr then none else some h)))
            × ((a : ℕ) × (begun v ≡ a ∷ begun w)
                × (win_thread_entry win a v ≡ free a (call x v))
                × Balance.Over same out w more (pthread_join win t (win_thread_entry win a v)).1))
  unfolding win_thread_entry
  pthread_create-Over tid attr x w more effect = elim (pthread_create-Creates tid attr x w) [
    | inl failed ↦ inl failed
    | inr (zero_code, reads, begins, shape, o) ↦
        let (_, t, v) = pthread_create win tid attr x w in
        let a = (allocate x w).0 in
        inr (
          zero_code,
          shape,
          (
            a,
            begins,
            ap (λ y. free a (call y v)) reads,
            join-Over t more w (win_thread_entry win a v)
                (run-Over a t more w v o (rw reads (effect v))),
          ),
        )
  ]
