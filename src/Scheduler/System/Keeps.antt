-- ===== src/Scheduler/System/Keeps.antt =====
-- A step of a worker keeps the invariant.
use tensor_sched.Prelude.{
  ℕ, zero, suc, ◌≤◌, Bool, List, [], ◌∷◌, ◌++◌, Option, none, some, ◌≡◌, ◌≢◌, refl, sym, ap, ◌∙◌,
  arith, get_elem?, get_or, set, inl, inr,
}
use mathlib.Core.List.{append_assoc}
use tensor_sched.ResourceManager.Ledger.{Grant, Funds}
use tensor_sched.Semaphore.{Semaphore}
use tensor_sched.Scheduler.{Scheduler}
use tensor_sched.Scheduler.Records.{LogEvent}
use tensor_sched.Scheduler.System.{Pc, done, Thread, Move}
use tensor_sched.Scheduler.System.Threads.{
  sum_of-set, sum_of-member, sum_of-two, sum_of-lt, get_elem?-set,
}
use tensor_sched.Scheduler.System.Invariant.{
  permit, seat, is_seated, is_alive, holds, sits, sits_for, owns, grants, grant_at, HasEntry, Inv,
}
use tensor_sched.Scheduler.System.Effect.{Effect, Relies}
use tensor_sched.Scheduler.System.Closing.{Move-Effect}

seated_holds : (pc : Pc) → is_seated (seat pc) ≤ permit pc
seated_holds done = omega arith
seated_holds _ = omega arith

pub seated_alive : (pc : Pc) → is_seated (seat pc) ≤ is_alive pc
seated_alive done = omega arith
seated_alive _ = omega arith

-- The grants of the threads, with that of thread `i` set apart.
grants_split :
    (needs : ℕ → Grant) (ts : List Thread) (i : ℕ) (t : Thread)
    → get_elem? ts i ≡ some t
    → (front : List Grant) × (back : List Grant) × (grants needs ts
        ≡ front ++ (grant_at needs t.job t.pc ++ back))
      × ((p : Pc)
          → grants needs (set ts i (record t { pc = p }))
            ≡ front ++ (grant_at needs t.job p ++ back))
grants_split needs [] i t e = cc
grants_split needs (u ∷ ts) zero t e =
    let same : u ≡ t = cc in ([], grants needs ts, rw same, λ p. refl)
grants_split needs (u ∷ ts) (suc i) t e =
    let (front, back, now, next) = grants_split needs ts i t e in
    let here = grant_at needs u.job u.pc in
    (
      here ++ front,
      back,
      ap (λ gs. here ++ gs) now ∙ sym (append_assoc here front _),
      λ p. ap (λ gs. here ++ gs) (next p) ∙ sym (append_assoc here front _),
    )

HasEntry-theirs :
    (active active' : List (Option ℕ)) (q : ℕ) (o : Option ℕ)
    → (is_seated o ≡ 1 → (k : ℕ) → get_or active k none ≡ some q → get_or active' k none ≡ some q)
    → HasEntry active q o
    → HasEntry active' q o
HasEntry-theirs active active' q none keep e = tt
HasEntry-theirs active active' q (some k) keep e = (e.0, keep refl k e.1)

module _ (sem : Semaphore) (needs : ℕ → Grant) (s : Scheduler sem.State) (ts : List Thread)
    (v : Inv sem needs s ts) (i : ℕ) (t : Thread) (here : get_elem? ts i ≡ some t) where
  open sem use {State}

  pub Inv-Relies : is_alive t.pc ≡ 1 → Relies sem needs t.job t.pc s
  Inv-Relies alive = record {
    fits = v.fits;
    valid = v.valid;
    unqueued = ground (arith, v.owned t.job, sum_of-member (owns t.job) ts i t here, alive);
    entry = v.seated.each i t here;
    four = v.seated.four;
    room = λ held standing. omega (
      arith,
      v.seated.entries,
      v.permits,
      sum_of-lt sits holds ts i t (λ u. seated_holds u.pc) here (omega (arith, held, standing)),
    );
  }

  -- Another seated thread has another job.
  other_job :
      (j : ℕ) (u : Thread)
      → is_alive t.pc ≡ 1
      → i ≢ j
      → get_elem? ts j ≡ some u
      → is_seated (seat u.pc) ≡ 1
      → u.job ≢ t.job
  other_job j u alive ne there seated e = absurd (
      ground (
        arith,
        v.owned t.job,
        sum_of-two (owns t.job) ts i j t u ne here there,
        seated_alive u.pc,
        alive,
        seated,
        e,
      ))

  pub Effect-Inv :
      (p : Pc) (s' : Scheduler State)
      → is_alive t.pc ≡ 1
      → Effect sem needs t.job t.pc p s s'
      → Inv sem needs s' (set ts i (record t { pc = p }))
  Effect-Inv p s' alive f = record {
    fits = f.fits;
    valid = f.valid;
    owned = λ q. omega (arith, v.owned q, f.queued q, sum_of-set (owns q) ts i t u here);
    permits = omega (arith, v.permits, f.permits, sum_of-set holds ts i t u here);
    funds = funds;
    seated = record {
      four = f.four ∙ v.seated.four;
      entries = omega (arith, v.seated.entries, f.entries, sum_of-set sits ts i t u here);
      entries_of = λ q.
          omega
            (arith, v.seated.entries_of q, f.entries_of q, sum_of-set (sits_for q) ts i t u here);
      each = λ j w e. elim (get_elem?-set ts i j u w e) [
        | inl (_, same) ↦ rw same f.mine
        | inr (ne, there) ↦
            HasEntry-theirs s.active_jobs s'.active_jobs w.job (seat w.pc)
              (λ seated k. f.theirs w.job k (other_job j w alive ne there seated))
              (v.seated.each j w there)
      ];
    };
  }
    where
      u : Thread
      u = record t { pc = p }

      funds : Funds s'.resources (grants needs (set ts i u))
      funds =
          let (front, back, now, next) = grants_split needs ts i t here in
          rw (next p) (f.funds front back (rw now at v.funds))

pub Move-alive :
    (sem : Semaphore) (text : ℕ → LogEvent → List ℕ) (locked : Bool) (now job : ℕ)
    (s : Scheduler sem.State) (p : Pc) {p' : Pc} {s' : Scheduler sem.State}
    → Move sem text locked now job s p p' s'
    → is_alive p ≡ 1
Move-alive sem text locked now job s done mv = elim mv [ ]
Move-alive sem text locked now job s _ mv = refl

pub Move-Inv :
    (sem : Semaphore) (needs : ℕ → Grant) (text : ℕ → LogEvent → List ℕ) (locked : Bool) (now : ℕ)
    (s : Scheduler sem.State) (ts : List Thread) (i : ℕ) (t : Thread) (p : Pc)
    (s' : Scheduler sem.State)
    → Inv sem needs s ts
    → get_elem? ts i ≡ some t
    → Move sem text locked now t.job s t.pc p s'
    → Inv sem needs s' (set ts i (record t { pc = p }))
Move-Inv sem needs text locked now s ts i t p s' v here mv =
    let alive = Move-alive sem text locked now t.job s t.pc mv in
    Effect-Inv sem needs s ts v i t here p s' alive
      (Move-Effect sem needs text now t.job mv (Inv-Relies sem needs s ts v i t here alive))
