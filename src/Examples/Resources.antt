-- ===== src/Examples/Resources.antt =====
-- resource_manager.h with a semaphore that is its value.
use tensor_sched.Prelude.{ℕ, false, [], ◌∷◌, ◌≡◌, ◌≢◌, ◌<◌, refl, some, pos, arith}
use tensor_sched.Semaphore.{counter}
use tensor_sched.ResourceManager.{
  ResourceManager, max_concurrent, new_manager, acquire, release, get_free_worker_slot,
  set_worker_busy, set_worker_free, get_worker, free_slot,
}
use tensor_sched.ResourceManager.Ledger.{Grant, Books, Answers, acquire-Answers, release-Books}
use tensor_sched.ResourceManager.Slots.{Finds, worker_slot_laws, taken_slot}

abbrev grant : Grant
grant = record { cpu = 60; mem = 1024 }

-- A manager with one grant out.
abbrev granted : ResourceManager ℕ
granted = record (new_manager counter) {
  used_cpu = pos 60;
  used_memory = pos 1024;
  active_jobs = pos 1;
  slots = 3;
}

granted-Books : Books counter granted (grant ∷ [])
granted-Books = record {
  funds = record {
    cpu_book = refl;
    mem_book = refl;
    active_book = refl;
    cpu_bound = omega arith;
    mem_bound = omega arith;
  };
  slot_book = refl;
}

-- A second job of the same needs does not fit.
acquire-Answers_example :
    Answers counter (acquire counter (pos 60) (pos 1024) granted) (some (false, grant ∷ []))
acquire-Answers_example = acquire-Answers counter grant (grant ∷ []) granted granted-Books

release-Books_example : Books counter (release counter (pos 60) (pos 1024) granted) []
release-Books_example = release-Books counter grant [] [] granted granted-Books

worker_slot_laws_example :
    let taken = set_worker_busy (pos 2) 7 4 1 (b'J' ∷ []) (new_manager counter) in
    Finds 0 (new_manager counter).workers (get_free_worker_slot (new_manager counter))
    × (get_worker taken (pos 2) ≡ taken_slot 7 4 1 (b'J' ∷ []))
    × (get_worker (set_worker_free (pos 2) taken) (pos 2) ≡ free_slot)
    × ((k : ℕ)
        → k < max_concurrent
        → k ≢ 2
        → (get_worker taken (pos k) ≡ get_worker (new_manager counter) (pos k))
          × (get_worker (set_worker_free (pos 2) (new_manager counter)) (pos k)
              ≡ get_worker (new_manager counter) (pos k)))
unfolding new_manager
worker_slot_laws_example =
    worker_slot_laws (new_manager counter) 2 7 4 1 (b'J' ∷ []) refl (omega arith)
