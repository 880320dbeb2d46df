-- ===== src/PthreadWin.antt =====
-- pthread_win.h: how the Windows build makes, runs and joins a thread. The heap and the calls of Win32
-- are a parameter, with what their documentation says; so is the function that a thread is to run.
pub mod Lifecycle
use tensor_sched.Prelude.Balance
use tensor_sched.Prelude.{
  ℕ, List, ◌∷◌, Bool, true, false, Option, none, some, ◌≡◌, ◌==◌, ℤ, pos, negsuc,
}
use mathlib.Core.Option as Option

pub record PthreadAttr : Type 0 where
  pub detachstate : ℕ

abbrev pub pthread_create_joinable : ℕ
pthread_create_joinable = 0

abbrev pub pthread_create_detached : ℕ
pthread_create_detached = 1

abbrev pub pthread_attr_init : PthreadAttr → ℤ × PthreadAttr
pthread_attr_init attr = (pos 0, record attr { detachstate = pthread_create_joinable })

abbrev pub pthread_attr_setdetachstate : ℕ → PthreadAttr → ℤ × PthreadAttr
pthread_attr_setdetachstate state attr = (pos 0, record attr { detachstate = state })

-- The pointers `func` and `arg`.
pub record WinThreadArg : Type 0 where
  pub func : ℕ
  pub arg : ℕ

-- What can be out: a `_WinThreadArg` on the heap, an open handle.
pub data Resource : Type 0 where
  cell handle : ℕ → Resource

abbrev pub same : Resource → Resource → Bool
same (Resource.cell a) (Resource.cell b) = a == b
same (Resource.handle a) (Resource.handle b) = a == b
same _ _ = false

-- The threads begun, each by the argument of its entry, once this one was begun, if it was.
abbrev pub with_begun : ℕ → Option ℕ → List ℕ → List ℕ
with_begun a none entries = entries
with_begun a (some h) entries = a ∷ entries

pub record Win32 (W : Type 0) : Type 0 where
  pub out : W → Resource → ℕ
  pub read : W → ℕ → WinThreadArg
  -- The threads begun so far with `_winThreadEntry`, the last first, by the argument it is to get.
  pub begun : W → List ℕ
  pub allocate : WinThreadArg → W → ℕ × W  -- `new`
  pub free : ℕ → W → W  -- `delete`
  -- `_beginthreadex` with `_winThreadEntry` and this argument; null is `none`.
  pub begin_thread : ℕ → W → Option ℕ × W
  pub wait_for_single_object : ℕ → W → W
  pub close_handle : ℕ → W → W
  -- The function at `func` applied to `arg`: code of the program, of which nothing is assumed.
  pub call : WinThreadArg → W → W
  pub allocate_makes :
      (x : WinThreadArg) (w : W)
      → Balance.Makes same out (some (Resource.cell (allocate x w).0)) w (allocate x w).1
  pub allocate_writes : (x : WinThreadArg) (w : W) → read (allocate x w).1 (allocate x w).0 ≡ x
  pub allocate_begins : (x : WinThreadArg) (w : W) → begun (allocate x w).1 ≡ begun w
  pub free_returns : (a : ℕ) (w : W) → Balance.Returns same out (Resource.cell a) w (free a w)
  pub free_begins : (a : ℕ) (w : W) → begun (free a w) ≡ begun w
  pub begin_makes :
      (a : ℕ) (w : W)
      → Balance.Makes same out
          (Option.map Resource.handle (begin_thread a w).0)
          w
          (begin_thread a w).1
  pub begin_begins :
      (a : ℕ) (w : W) → begun (begin_thread a w).1 ≡ with_begun a (begin_thread a w).0 (begun w)
  pub begin_reads : (a b : ℕ) (w : W) → read (begin_thread a w).1 b ≡ read w b
  pub wait_keeps : (h : ℕ) (w : W) → Balance.Even same out w (wait_for_single_object h w)
  pub close_returns :
      (h : ℕ) (w : W) → Balance.Returns same out (Resource.handle h) w (close_handle h w)
  pub close_reads : (h b : ℕ) (w : W) → read (close_handle h w) b ≡ read w b
  pub close_begins : (h : ℕ) (w : W) → begun (close_handle h w) ≡ begun w

module _ {W : Type 0} (win : Win32 W) where
  open win use {read, allocate, free, begin_thread, wait_for_single_object, close_handle, call}

  unfoldable pub win_thread_entry : ℕ → W → W
  win_thread_entry a w = free a (call (read w a) w)

  abbrev pub is_detached : Option PthreadAttr → Bool
  is_detached none = false
  is_detached (some attr) = attr.detachstate == pthread_create_detached

  -- `*tid = h`, or null for a detached thread, whose handle is closed.
  abbrev pub store_tid : Bool → ℕ → W → ℤ × Option ℕ × W
  store_tid true h w = (pos 0, none, close_handle h w)
  store_tid false h w = (pos 0, some h, w)

  -- The result, `*tid` after, where it was `tid` before, and the rest.
  unfoldable pub pthread_create :
      Option ℕ → Option PthreadAttr → WinThreadArg → W → ℤ × Option ℕ × W
  pthread_create tid attr x w =
      let (a, w₁) = allocate x w in
      let (begun, w₂) = begin_thread a w₁ in
      elim begun [ none ↦ (negsuc 0, tid, free a w₂) | some h ↦ store_tid (is_detached attr) h w₂ ]

  unfoldable pub pthread_join : Option ℕ → W → ℤ × W
  pthread_join none w = (pos 0, w)
  pthread_join (some h) w = (pos 0, close_handle h (wait_for_single_object h w))
