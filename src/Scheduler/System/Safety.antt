-- ===== src/Scheduler/System/Safety.antt =====
-- The invariant in every reachable state, and what it says of the workers.
use tensor_sched.Prelude.{
  ℕ, suc, ◌+◌, ◌≤◌, ◌<◌, List, [], none, some, ◌≡◌, ◌≢◌, refl, ap, arith, get_elem?, get_or, count,
  length, pos,
}
use tensor_sched.Job.{Store}
use tensor_sched.SingleLevelQueue
use tensor_sched.MlfqJobQueue
use tensor_sched.MlfqJobQueue.{pointers}
use tensor_sched.MlfqJobQueue.Invariant.{IsValid, init-IsValid}
use tensor_sched.ResourceManager.{max_concurrent, total_cpu, total_memory}
use tensor_sched.ResourceManager.Ledger.{Grant, cpu_of, mem_of, new_manager-Books}
use tensor_sched.Semaphore.{Semaphore}
use tensor_sched.Scheduler
use tensor_sched.Scheduler.{new_scheduler, add_log}
use tensor_sched.Scheduler.Records.{LogEvent}
use tensor_sched.Scheduler.Worker.{place}
use tensor_sched.Scheduler.Worker.{is_null}
use tensor_sched.Scheduler.Worker.Place.{IsNull, place_takes_empty}
use tensor_sched.Scheduler.System.{
  placing, Thread, System, Step, submit, halt, close_log, age, next_round, look, looked, idle,
  spawn, work, init, Reach, here, later,
}
use tensor_sched.Scheduler.System.Threads.{sum_of, sum_of-member, sum_of-two}
use tensor_sched.Scheduler.System.Invariant.{
  permit, seat, is_seated, is_alive, holds, owns, grants, HasEntry, IsFit, Inv,
}
use tensor_sched.Scheduler.System.Keeps.{Move-Inv, Inv-Relies}
use tensor_sched.Scheduler.System.Seats.{vacancy}
use tensor_sched.Scheduler.System.Others.{halt-Inv, close_log-Inv, tick-Inv, submit-Inv, age-Inv}
use tensor_sched.Scheduler.System.Dispatching.{look-Inv, idle-Inv, spawn-Inv}

module _ (sem : Semaphore) (needs : ℕ → Grant) (text : ℕ → LogEvent → List ℕ) where
  open sem use {State, value, value-init}

  init-Inv :
      (h : Store) → ((p : ℕ) → IsFit needs p (h p)) → Inv sem needs (init sem text h).sched []
  unfolding new_scheduler Scheduler.start add_log MlfqJobQueue.init SingleLevelQueue.init
  init-Inv h fit = record {
    fits = fit;
    valid = init-IsValid h;
    owned = λ p. omega arith;
    permits = omega (arith, (new_manager-Books sem).slot_book);
    funds = (new_manager-Books sem).funds;
    seated = record { four = refl; entries = refl; entries_of = λ p. refl; each = λ i t e. cc };
  }

  pub Step-Inv :
      {m n : System State}
      → Step sem text m n
      → Inv sem needs m.sched m.threads
      → Inv sem needs n.sched n.threads
  Step-Inv {m} (submit now job out finished) v =
      submit-Inv sem needs m.sched m.threads v text now job out finished
  Step-Inv {m} halt v = halt-Inv sem needs m.sched m.threads v
  Step-Inv {m} (close_log now off) v = close_log-Inv sem needs m.sched m.threads v text now
  Step-Inv {m} (age now clock on) v = age-Inv sem needs m.sched m.threads v text now clock
  Step-Inv {m} (next_round e on) v = tick-Inv sem needs m.sched m.threads v (suc m.cycle)
  Step-Inv {m} (look now k e lt) v = look-Inv sem needs m.sched m.threads v text now k
  Step-Inv {m} (looked e) v = v
  Step-Inv {m} (idle e none_found) v = idle-Inv sem needs m.sched m.threads v none_found
  Step-Inv {m} (spawn job slot e found) v = spawn-Inv sem needs m.sched m.threads v job slot found
  Step-Inv {m} (work i now t {p} {s} e mv) v =
      Move-Inv sem needs text _ now m.sched m.threads i t p s v e mv

  pub Reach-Inv :
      {h : Store} {m : System State}
      → ((p : ℕ) → IsFit needs p (h p))
      → Reach sem text h m
      → Inv sem needs m.sched m.threads
  Reach-Inv {h} fit here = init-Inv h fit
  Reach-Inv fit (later r st) = Step-Inv st (Reach-Inv fit r)

  module _ {h : Store} {m : System State} (fit : (p : ℕ) → IsFit needs p (h p))
      (r : Reach sem text h m) where
    -- Over jobs that ask for no less than nothing and start on a level in range, in every state that
    -- the threads reach together: the levels are valid; a job that a worker
    -- has is not queued; two workers never have the same job, nor the same entry of
    -- `active_jobs_`; and the entry of a worker points to its job.
    pub reachable_jobs :
        IsValid m.sched.store m.sched.queue
        × ((i : ℕ) (t : Thread)
            → get_elem? m.threads i ≡ some t
            → is_alive t.pc ≡ 1
            → (count t.job (pointers m.sched.queue) ≡ 0)
              × HasEntry m.sched.active_jobs t.job (seat t.pc))
        × ((i j : ℕ) (t u : Thread)
            → i ≢ j
            → get_elem? m.threads i ≡ some t
            → get_elem? m.threads j ≡ some u
            → is_alive t.pc ≡ 1
            → is_alive u.pc ≡ 1
            → (t.job ≢ u.job) × ((k l : ℕ) → seat t.pc ≡ some k → seat u.pc ≡ some l → k ≢ l))
    reachable_jobs = (
      v.valid,
      λ i t e alive. (
        ground (arith, v.owned t.job, sum_of-member (owns t.job) m.threads i t e, alive),
        v.seated.each i t e,
      ),
      λ i j t u ne e e' alive alive'. (
        apart i j t u ne e e' alive alive',
        λ k l at at' same. apart i j t u ne e e' alive alive' (
            cc (
              entry_of i t k e at,
              entry_of j u l e' at',
              ap (λ n. get_or m.sched.active_jobs n none) same,
            )),
      ),
    )
      where
        v : Inv sem needs m.sched m.threads
        v = Reach-Inv fit r

        apart :
            (i j : ℕ) (t u : Thread)
            → i ≢ j
            → get_elem? m.threads i ≡ some t
            → get_elem? m.threads j ≡ some u
            → is_alive t.pc ≡ 1
            → is_alive u.pc ≡ 1
            → t.job ≢ u.job
        apart i j t u ne e e' alive alive' same = absurd (
            ground (
              arith,
              v.owned t.job,
              sum_of-two (owns t.job) m.threads i j t u ne e e',
              alive,
              alive',
              same,
            ))

        entry_of :
            (i : ℕ) (t : Thread) (k : ℕ)
            → get_elem? m.threads i ≡ some t
            → seat t.pc ≡ some k
            → get_or m.sched.active_jobs k none ≡ some t.job
        entry_of i t k e at =
            let has : HasEntry m.sched.active_jobs t.job (some k) =
              rw at at (v.seated.each i t e) in
            has.1

    -- Over jobs that ask for no less than nothing and start on a level in range, in every reachable
    -- state: at most four workers are between the `sem_wait` of `acquire` and
    -- the `sem_post` after it, and the semaphore stands at what they leave of four. The sums of the
    -- manager are those of the needs of the workers whose reservation is not given back, and keep to
    -- the two budgets.
    pub reachable_budget :
        (value m.sched.resources.slots + sum_of holds m.threads ≡ max_concurrent)
        × (m.sched.resources.used_cpu ≡ pos (cpu_of (grants needs m.threads)))
        × (m.sched.resources.used_memory ≡ pos (mem_of (grants needs m.threads)))
        × (m.sched.resources.active_jobs ≡ pos (length (grants needs m.threads)))
        × (cpu_of (grants needs m.threads) ≤ total_cpu)
        × (mem_of (grants needs m.threads) ≤ total_memory)
    reachable_budget =
        let v = Reach-Inv fit r in
        (
          v.permits, v.funds.cpu_book, v.funds.mem_book, v.funds.active_book, v.funds.cpu_bound,
          v.funds.mem_bound,
        )

    -- Over jobs that ask for no less than nothing and start on a level in range, in every reachable
    -- state: a worker that has its reservation and is about to write itself into
    -- `active_jobs_` finds an empty entry: it takes an empty one of the four, and leaves the other
    -- entries and all else as they are.
    pub reachable_place :
        (i k : ℕ) (t : Thread)
        → get_elem? m.threads i ≡ some t
        → t.pc ≡ placing k
        → let (chosen, s') = place t.job (pos k) m.sched in
          (chosen < max_concurrent)
          × IsNull m.sched.active_jobs chosen
          × (get_or s'.active_jobs chosen none ≡ some t.job)
          × ((j : ℕ)
              → j ≢ chosen
              → get_or s'.active_jobs j none ≡ get_or m.sched.active_jobs j none)
          × (s' ≡ record m.sched { active_jobs = s'.active_jobs })
    reachable_place i k t e at =
        let v = Reach-Inv fit r in
        let rel = Inv-Relies sem needs m.sched m.threads v i t e (ap is_alive at) in
        let (free, in_range, empty) =
          vacancy m.sched.active_jobs
            (omega (arith, rel.room (ap permit at) (ap (λ p. is_seated (seat p)) at), rel.four)) in
        place_takes_empty t.job free (pos k) m.sched rel.four (omega (arith, in_range, rel.four))
          (ap is_null empty)
