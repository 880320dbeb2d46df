-- ===== src/Scheduler/Lifetime.antt =====
-- `start`, `stop` and the destructor of scheduler.cpp, with the two threads that they create and join.
-- The threads library is a parameter, with what its documentation says; `W` is its state. What the
-- threads do meanwhile is left to `System`.
pub mod Once
use tensor_sched.Prelude.Balance
use tensor_sched.Prelude.{
  ℕ, Bool, true, false, not, List, [], ◌++◌, Option, some, none, ◌≡◌, ◌==◌, if◌then◌else◌,
}
use tensor_sched.Scheduler
use tensor_sched.Scheduler.{Scheduler, add_log}
use tensor_sched.Scheduler.Records.{LogEvent}

-- A thread that can be joined is a number.
pub record Pthreads (W : Type 0) : Type 0 where
  pub joinable : W → ℕ → ℕ  -- how often a thread is there to be joined
  pub pthread_create : W → Option ℕ × W  -- `none` where it fails
  pub pthread_join : ℕ → W → W
  pub create_makes :
      (w : W) → Balance.Makes ◌==◌ joinable (pthread_create w).0 w (pthread_create w).1
  pub join_returns : (t : ℕ) (w : W) → Balance.Returns ◌==◌ joinable t w (pthread_join t w)

-- `freed` are the jobs that the destructor has deleted. A thread's field is `none` until it is set.
pub record Service (S W : Type 0) : Type 0 where
  pub sched : Scheduler S
  pub dispatcher_thread : Option ℕ
  pub aging_thread : Option ℕ
  pub system : W
  pub freed : List ℕ

-- A field that `pthread_create` writes where it succeeds.
abbrev pub written : Option ℕ → Option ℕ → Option ℕ
written old none = old
written old (some t) = some t

-- To join by a field that was never set has no meaning in the source, and does nothing here.
abbrev pub join_field : {W : Type 0} → Pthreads W → Option ℕ → W → W
join_field threads none w = w
join_field threads (some t) w = threads.pthread_join t w

module _ {S W : Type 0} (threads : Pthreads W) (text : ℕ → LogEvent → List ℕ) where
  open threads use {pthread_create}

  unfoldable pub start : ℕ → Service S W → Service S W
  start now s =
      let (dispatcher, w₁) = pthread_create s.system in
      let (aging, w₂) = pthread_create w₁ in
      if s.sched.running then s else record s {
        sched = Scheduler.start text now s.sched;
        dispatcher_thread = written s.dispatcher_thread dispatcher;
        aging_thread = written s.aging_thread aging;
        system = w₂;
      }

  unfoldable pub stop : ℕ → Service S W → Service S W
  stop now s = if not s.sched.running then s else record s {
    sched = add_log text now LogEvent.stopped 5 (record s.sched { running = false });
    system = join_field threads s.aging_thread (join_field threads s.dispatcher_thread s.system);
  }

  -- The destructor.
  unfoldable pub destroy : ℕ → Service S W → Service S W
  unfolding stop
  destroy now s =
      let t = stop now s in
      record t { sched = record t.sched { all_jobs = [] }; freed = t.freed ++ t.sched.all_jobs }
