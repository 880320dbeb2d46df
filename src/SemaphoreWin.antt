-- ===== src/SemaphoreWin.antt =====
-- semaphore_win.h: the semaphore of the Windows build, over the semaphore objects of Win32. Those are a
-- parameter, with what their documentation says of valid handles.
use tensor_sched.Prelude.{
  ℕ, zero, suc, ◌+◌, ◌<◌, ◌≤◌, Bool, true, false, List, [], ◌∷◌, Option, none, some, ◌≡◌, refl, ap,
  ◌∙◌, arith, ltb, if◌then◌else◌, ℤ, pos, negsuc, Bool-cases, Option-cases, inl, inr, ◌⊎◌,
}
use mathlib.Core.Option as Option

-- `Handle` is a handle with the state of its object.
pub record Win32 : Type 1 where
  pub Handle : Type 0
  pub create_semaphore : (initial maximum : ℕ) → Option Handle  -- null is `none`
  -- `WaitForSingleObject` without a time limit: whether it returns `WAIT_OBJECT_0`, `none` where the
  -- caller blocks.
  pub wait_for_single_object : Handle → Option (Bool × Handle)
  pub release_semaphore : ℕ → Handle → Bool × Handle
  pub close_handle : Handle → Bool
  pub count_of : Handle → ℕ
  pub maximum_of : Handle → ℕ
  pub created :
      (n m : ℕ) (h : Handle) → create_semaphore n m ≡ some h → (count_of h ≡ n) × (maximum_of h ≡ m)
  pub wait_blocks : (h : Handle) → count_of h ≡ 0 → wait_for_single_object h ≡ none
  pub wait_passes :
      (h : Handle)
      → 0 < count_of h
      → (k : Handle) × (wait_for_single_object h ≡ some (true, k))
        × (count_of h ≡ suc (count_of k))
        × (maximum_of k ≡ maximum_of h)
  pub release_adds :
      (n : ℕ) (h : Handle)
      → count_of h + n ≤ maximum_of h
      → ((release_semaphore n h).0 ≡ true)
        × (count_of (release_semaphore n h).1 ≡ count_of h + n)
        × (maximum_of (release_semaphore n h).1 ≡ maximum_of h)
  pub release_refused :
      (n : ℕ) (h : Handle) → maximum_of h < count_of h + n → release_semaphore n h ≡ (false, h)

pub data Call : Type 0 where
  waits posts : Call

module _ (win : Win32) where
  open win use {
    Handle, create_semaphore, wait_for_single_object, release_semaphore, close_handle, count_of,
    maximum_of, created, wait_blocks, wait_passes, release_adds, release_refused,
  }

  unfoldable pub sem_init : ℕ → ℤ × Option Handle
  sem_init value =
      let sem = create_semaphore value (value + 100) in
      elim sem [ none ↦ (negsuc 0, none) | some h ↦ (pos 0, some h) ]

  unfoldable pub sem_wait : Handle → Option (ℤ × Handle)
  sem_wait sem = elim (wait_for_single_object sem) [
    | none ↦ none
    | some (ok, after) ↦ some (if ok then pos 0 else negsuc 0, after)
  ]

  unfoldable pub sem_post : Handle → ℤ × Handle
  sem_post sem =
      let (ok, after) = release_semaphore 1 sem in (if ok then pos 0 else negsuc 0, after)

  unfoldable pub sem_destroy : Handle → ℤ
  sem_destroy sem = if close_handle sem then pos 0 else negsuc 0

  -- The calls that a program makes of one semaphore, and their results.
  abbrev pub prepend {ℓ} : {A : Type ℓ} → ℤ → List ℤ × A → List ℤ × A
  prepend r (rs, a) = (r ∷ rs, a)

  unfoldable pub run_calls : List Call → Handle → Option (List ℤ × Handle)
  unfolding sem_wait sem_post
  run_calls [] h = some ([], h)
  run_calls (Call.waits ∷ calls) h = elim (sem_wait h) [
    | none ↦ none
    | some (r, k) ↦ Option.map (prepend r) (run_calls calls k)
  ]
  run_calls (Call.posts ∷ calls) h =
      let (r, k) = sem_post h in Option.map (prepend r) (run_calls calls k)

  -- A counter with a greatest value `top`: a wait takes one and blocks at zero, a post adds
  -- one and fails at the top.
  abbrev pub tally : ℕ → List Call → ℕ → Option (List ℤ × ℕ)
  tally top [] c = some ([], c)
  tally top (Call.waits ∷ calls) zero = none
  tally top (Call.waits ∷ calls) (suc c) = Option.map (prepend (pos 0)) (tally top calls c)
  tally top (Call.posts ∷ calls) c =
      if ltb c top
      then Option.map (prepend (pos 0)) (tally top calls (suc c))
      else Option.map (prepend (negsuc 0)) (tally top calls c)

  abbrev pub seen : Option (List ℤ × Handle) → Option (List ℤ × ℕ)
  seen = Option.map (λ p. (p.0, count_of p.1))

  seen-prepend :
      (r : ℤ) (o : Option (List ℤ × Handle))
      → seen (Option.map (prepend r) o) ≡ Option.map (prepend r) (seen o)
  seen-prepend r none = refl
  seen-prepend r (some (rs, k)) = refl

  sem_wait_blocks : (h : Handle) → count_of h ≡ 0 → sem_wait h ≡ none
  unfolding sem_wait
  sem_wait_blocks h e = rw (wait_blocks h e, sem_wait) refl

  sem_wait_passes :
      (h : Handle) (c : ℕ)
      → count_of h ≡ suc c
      → (k : Handle) × (sem_wait h ≡ some (pos 0, k))
        × (count_of k ≡ c)
        × (maximum_of k ≡ maximum_of h)
  unfolding sem_wait
  sem_wait_passes h c e =
      let (k, passed, less, same) = wait_passes h (omega (arith, e)) in
      (k, rw (passed, sem_wait) refl, omega (arith, e, less), same)

  calls-tally :
      (calls : List Call) (h : Handle) (top c : ℕ)
      → count_of h ≡ c
      → maximum_of h ≡ top
      → seen (run_calls calls h) ≡ tally top calls c
  unfolding run_calls sem_post
  calls-tally [] h top c e m = rw e refl
  calls-tally (Call.waits ∷ calls) h top zero e m = rw (sem_wait_blocks h e, run_calls) refl
  calls-tally (Call.waits ∷ calls) h top (suc c) e m =
      let (k, passed, less, same) = sem_wait_passes h c e in
      rw (passed, run_calls)
        (seen-prepend (pos 0) (run_calls calls k)
          ∙ ap (Option.map (prepend (pos 0))) (calls-tally calls k top c less (same ∙ m)))
  calls-tally (Call.posts ∷ calls) h top c e m = elim (Bool-cases (ltb c top)) [
    | inl below ↦
        let (ok, more, same) = release_adds 1 h (ground (arith, below, e, m)) in
        let k = (release_semaphore 1 h).1 in
        rw (below, ok)
          (seen-prepend (pos 0) (run_calls calls k)
            ∙ ap (Option.map (prepend (pos 0)))
                (calls-tally calls k top (suc c) (omega (arith, more, e)) (same ∙ m)))
    | inr full ↦
        let refused = release_refused 1 h (ground (arith, full, e, m)) in
        rw (full, refused)
          (seen-prepend (negsuc 0) (run_calls calls h)
            ∙ ap (Option.map (prepend (negsuc 0))) (calls-tally calls h top c e m))
  ]

  -- `sem_init` fails for want of an object, or gives a counter from `n` up to `n + 100`.
  abbrev pub IsCounter : ℕ → Type 0
  IsCounter n =
      ((sem_init n ≡ (negsuc 0, none)) × (create_semaphore n (n + 100) ≡ none))
      ⊎ ((h : Handle) × (sem_init n ≡ (pos 0, some h))
          × ((calls : List Call) → seen (run_calls calls h) ≡ tally (n + 100) calls n))

  -- Over semaphore objects as documented: `sem_init` fails exactly where the object cannot be
  -- created. Else the semaphore, set to `n`, answers any calls of `sem_wait` and `sem_post` in any
  -- order as a counter from `n` does, with the same results and the same value left: a wait takes
  -- one and blocks at zero; a post adds one, but fails and changes nothing at `n + 100`.
  pub sem_init-run_calls : (n : ℕ) → IsCounter n
  unfolding sem_init
  sem_init-run_calls n = elim (Option-cases (create_semaphore n (n + 100))) [
    | inl e ↦ inl (rw (e, sem_init) refl, e)
    | inr (h, e) ↦
        let (value, top) = created n (n + 100) h e in
        inr (h, rw (e, sem_init) refl, λ calls. calls-tally calls h (n + 100) n value top)
  ]
