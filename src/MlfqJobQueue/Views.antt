-- ===== src/MlfqJobQueue/Views.antt =====
-- The operations that look at the levels: `empty`, `size`, `sizeAtLevel`, `snapshot`, `tickWaiting`.
use Prim.Native.Nat.{min}
use tensor_sched.Prelude.{
  ℕ, zero, suc, ◌+◌, ◌-◌, ◌<◌, true, false, List, [], ◌∷◌, ◌++◌, ◌≡◌, ◌↔◌, refl, sym, ap, ◌∙◌,
  arith, count, count-append, length, length-append, take, length-take, take-nil, get_or, leb,
  Bool-cases, inl, inr, pos, pos-+ℤ,
}
use tensor_sched.Job.{Job, Store, mlfq_levels}
use tensor_sched.SingleLevelQueue
use tensor_sched.SingleLevelQueue.{SingleLevelQueue, IsCounted, tick_nodes}
use tensor_sched.SingleLevelQueue.Tick.{wait, wait_zero, tick_nodes_lem}
use tensor_sched.SingleLevelQueue.Snapshot.{snapshot-take}
use tensor_sched.MlfqJobQueue.{
  MlfqJobQueue, size_at_level, empty, size, total_size, snapshot, tick_waiting, pointers,
}
use tensor_sched.MlfqJobQueue.Invariant.{AreLevels, AreLevels-alike, IsValid}

take-zero_le {ℓ} : {A : Type ℓ} (n : ℕ) (xs : List A) → n ≡ 0 → take n xs ≡ []
take-zero_le zero xs e = refl
take-zero_le (suc n) xs e = absurd (omega arith)

take-append {ℓ} :
    {A : Type ℓ} (n : ℕ) (xs ys : List A) → take n (xs ++ ys) ≡ take n xs ++ take (n - length xs) ys
take-append n [] ys = let e : n - 0 ≡ n = omega arith in rw (e, take-nil)
take-append zero (x ∷ xs) ys = sym (take-zero_le (0 - suc (length xs)) ys (omega arith))
take-append (suc n) (x ∷ xs) ys =
    let e : suc n - suc (length xs) ≡ n - length xs = omega arith in
    rw e (ap (◌∷◌ x) (take-append n xs ys))

snapshot-pointers : (room : ℕ) (qs : MlfqJobQueue) → snapshot room qs ≡ take room (pointers qs)
unfolding snapshot
snapshot-pointers room [] = sym (take-nil room)
snapshot-pointers room (q ∷ qs) =
    rw
      (
        snapshot-take room q,
        take-append room q.nodes (pointers qs),
        snapshot-pointers (room - length (take room q.nodes)) qs,
        length-take,
      )
      (elim (Bool-cases (leb room (min room (length q.nodes)))) [
        | inl full ↦ rw (full, take-zero_le (room - length q.nodes) (pointers qs) (ground arith))
        | inr more ↦
            let e : room - min room (length q.nodes) ≡ room - length q.nodes = omega arith in
            rw (more, e)
      ])

total_size_lem :
    (h : Store) (base n : ℕ) (qs : MlfqJobQueue)
    → AreLevels h base qs
    → total_size (pos n) qs ≡ pos (n + length (pointers qs))
unfolding total_size SingleLevelQueue.size
total_size_lem h base n [] v = ap pos (omega arith)
total_size_lem h base n (q ∷ qs) v =
    rw (v.0.counted, pos-+ℤ, length-append q.nodes (pointers qs))
      (total_size_lem h (suc base) (n + length q.nodes) qs v.1 ∙ ap pos (omega arith))

get_or-size :
    (h : Store) (base l : ℕ) (qs : MlfqJobQueue) (d : SingleLevelQueue)
    → IsCounted d
    → AreLevels h base qs
    → (get_or qs l d).size_ ≡ pos (length (get_or qs l d).nodes)
get_or-size h base l [] d c v = c
get_or-size h base zero (q ∷ qs) d c v = v.0.counted
get_or-size h base (suc l) (q ∷ qs) d c v = get_or-size h (suc base) l qs d c v.1

size-pointers :
    (h : Store) (qs : MlfqJobQueue) → IsValid h qs → size qs ≡ pos (length (pointers qs))
unfolding size
size-pointers h qs v = total_size_lem h 0 0 qs v.levels ∙ ap pos (omega arith)

empty_step :
    (q : SingleLevelQueue) (qs : MlfqJobQueue) (ps : List ℕ)
    → q.nodes ≡ ps
    → (empty qs ≡ true) ↔ (pointers qs ≡ [])
    → (empty (q ∷ qs) ≡ true) ↔ (pointers (q ∷ qs) ≡ [])
unfolding empty SingleLevelQueue.empty
empty_step q qs [] e ih = rw (e, SingleLevelQueue.empty) ih
empty_step q qs (p ∷ ps) e ih = rw (e, SingleLevelQueue.empty) (λ f. cc, λ f. cc)

empty_iff : (qs : MlfqJobQueue) → (empty qs ≡ true) ↔ (pointers qs ≡ [])
unfolding empty
empty_iff [] = (λ _. refl, λ _. refl)
empty_iff (q ∷ qs) = empty_step q qs q.nodes refl (empty_iff qs)

wait_wait : (j : Job) (m n : ℕ) → wait (wait j m) n ≡ wait j (m + n)
wait_wait j m n = ground arith

pub tick_waiting_lem :
    (h : Store) (qs : MlfqJobQueue) (p : ℕ)
    → tick_waiting h qs p ≡ wait (h p) (count p (pointers qs))
unfolding tick_waiting SingleLevelQueue.tick_waiting
tick_waiting_lem h [] p = sym (wait_zero (h p))
tick_waiting_lem h (q ∷ qs) p =
    rw (tick_waiting_lem (tick_nodes h q.nodes) qs p, tick_nodes_lem h q.nodes p, count-append)
      (wait_wait (h p) (count p q.nodes) (count p (pointers qs)))

-- The ticking thread keeps the levels valid: it changes no rank, no level and no status.
pub tick_waiting-IsValid :
    (h : Store) (qs : MlfqJobQueue) → IsValid h qs → IsValid (tick_waiting h qs) qs
tick_waiting-IsValid h qs v = record {
  three = v.three;
  levels =
      AreLevels-alike h (tick_waiting h qs) 0 qs (λ p. rw (tick_waiting_lem h qs p) (refl, refl))
        (λ p. rw (tick_waiting_lem h qs p) (refl, refl)) v.levels;
  distinct = v.distinct;
}

-- On valid levels the views say what the queue is: a snapshot is the queued jobs, level by level, as
-- many as the buffer takes; `empty` says yes exactly when no job is queued; `size` is the number of
-- queued jobs and `size_at_level` that of a level. And a clock tick of the dispatcher adds one to the
-- waiting time and to the age of every queued job, changes nothing else of any job, and keeps the
-- levels valid.
pub views_lem :
    (h : Store) (qs : MlfqJobQueue)
    → IsValid h qs
    → ((room : ℕ) → snapshot room qs ≡ take room (pointers qs))
      × ((empty qs ≡ true) ↔ (pointers qs ≡ []))
      × (size qs ≡ pos (length (pointers qs)))
      × ((l : ℕ)
          → l < mlfq_levels
          → size_at_level qs (pos l) ≡ pos (length (get_or qs l SingleLevelQueue.init).nodes))
      × ((p : ℕ) → tick_waiting h qs p ≡ wait (h p) (count p (pointers qs)))
      × IsValid (tick_waiting h qs) qs
unfolding size_at_level SingleLevelQueue.size SingleLevelQueue.init
views_lem h qs v = (
  λ room. snapshot-pointers room qs,
  empty_iff qs,
  size-pointers h qs v,
  λ l lt.
      let inside : leb mlfq_levels l ≡ false = ground arith in
      rw inside (get_or-size h 0 l qs SingleLevelQueue.init refl v.levels),
  tick_waiting_lem h qs,
  tick_waiting-IsValid h qs v,
)
