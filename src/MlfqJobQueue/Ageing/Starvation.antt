-- ===== src/MlfqJobQueue/Ageing/Starvation.antt =====
-- How long a queued job can stay below the top level.
use tensor_sched.Prelude.{
  ℕ, zero, suc, ◌+◌, ◌-◌, ◌≤◌, ◌<◌, true, List, [], ◌∷◌, ◌++◌, ◌≡◌, refl, ap, ap₂, ◌∙◌, arith,
  count, count-append, length, length-append, take, ◌==◌, ==→eq, Bool-cases, inl, inr,
}
use tensor_sched.Job.{Store}
use tensor_sched.SingleLevelQueue.{SingleLevelQueue, is_aged}
use tensor_sched.SingleLevelQueue.Drain.{aged_nodes}
use tensor_sched.MlfqJobQueue.{MlfqJobQueue, run_aging, tick_waiting, pointers, aged_buf}
use tensor_sched.MlfqJobQueue.Invariant.{AreLevels, IsValid}
use tensor_sched.MlfqJobQueue.Views.{tick_waiting_lem, tick_waiting-IsValid}
use tensor_sched.MlfqJobQueue.Ageing.{aged_list}
use tensor_sched.MlfqJobQueue.Ageing.Pass.{raised, run_aging-Ages}

split_at :
    (a : ℕ) (ys : List ℕ)
    → 0 < count a ys
    → (front : List ℕ) × (back : List ℕ) × (ys ≡ front ++ (a ∷ back))
split_at a [] m = absurd (omega arith)
split_at a (y ∷ ys) m = elim (Bool-cases (y == a)) [
  | inl e ↦ ([], ys, ap (λ z. z ∷ ys) (==→eq y a e))
  | inr e ↦
      let (front, back, eq) = split_at a ys (ground (arith, e, m)) in
      (y ∷ front, back, ap (◌∷◌ y) eq)
]

length-counts : (xs ys : List ℕ) → ((a : ℕ) → count a xs ≡ count a ys) → length xs ≡ length ys
length-counts [] [] e = refl
length-counts [] (y ∷ ys) e = absurd (ground (arith, e y))
length-counts (x ∷ xs) ys e =
    let (front, back, eq) = split_at x ys (ground (arith, e x)) in
    let rest : length xs ≡ length (front ++ back) = length-counts xs (front ++ back) (λ a.
      omega (
        arith,
        e a,
        ap (count a) eq,
        count-append a front (x ∷ back),
        count-append a front back,
      )) in
    omega (arith, rest, ap length eq, length-append front (x ∷ back), length-append front back)

take_all {ℓ} : {A : Type ℓ} (n : ℕ) (xs : List A) → length xs ≤ n → take n xs ≡ xs
take_all zero [] le = refl
take_all zero (x ∷ xs) le = absurd (omega arith)
take_all (suc n) [] le = refl
take_all (suc n) (x ∷ xs) le = ap (◌∷◌ x) (take_all n xs (omega arith))

all_aged_nodes :
    (h : Store) (ps : List ℕ)
    → ((p : ℕ) → 0 < count p ps → is_aged (h p) ≡ true)
    → aged_nodes h ps ≡ ps
all_aged_nodes h [] a = refl
all_aged_nodes h (p ∷ ps) a =
    let here : is_aged (h p) ≡ true = a p (ground arith) in
    rw here (ap (◌∷◌ p) (all_aged_nodes h ps (λ q m. a q (omega arith))))

aged_list_all :
    (h : Store) (qs : MlfqJobQueue)
    → ((p : ℕ) → 0 < count p (pointers qs) → is_aged (h p) ≡ true)
    → length (pointers qs) ≤ aged_buf
    → aged_list h qs ≡ pointers qs
aged_list_all h [] a le = refl
aged_list_all h (q ∷ qs) a le =
    ap₂ ◌++◌
      (ap (take aged_buf) (
          all_aged_nodes h q.nodes
            (λ p m. a p (omega (arith, count-append p q.nodes (pointers qs)))))
        ∙ take_all aged_buf q.nodes (omega (arith, le, length-append q.nodes (pointers qs))))
      (aged_list_all h qs (λ p m. a p (omega (arith, count-append p q.nodes (pointers qs))))
        (omega (arith, le, length-append q.nodes (pointers qs))))

-- The clock ticks `n` times, with no job coming or going.
abbrev pub ticks : ℕ → Store → MlfqJobQueue → Store
ticks zero h qs = h
ticks (suc n) h qs = tick_waiting (ticks n h qs) qs

-- Then the aging thread makes a pass.
abbrev pub period : (ℕ → ℕ) → ℕ → Store → MlfqJobQueue → Store × MlfqJobQueue × ℕ
period clock n h qs = run_aging clock (ticks n h qs) qs

ticks-IsValid : (n : ℕ) (h : Store) (qs : MlfqJobQueue) → IsValid h qs → IsValid (ticks n h qs) qs
ticks-IsValid zero h qs v = v
ticks-IsValid (suc n) h qs v = tick_waiting-IsValid (ticks n h qs) qs (ticks-IsValid n h qs v)

ticks-ages :
    (n : ℕ) (h : Store) (qs : MlfqJobQueue) (p : ℕ)
    → ((ticks n h qs p).mlfq_level ≡ (h p).mlfq_level)
      × (0 < count p (pointers qs) → n ≤ (ticks n h qs p).aging_ticks)
ticks-ages zero h qs p = (refl, λ m. omega arith)
ticks-ages (suc n) h qs p =
    rw (tick_waiting_lem (ticks n h qs) qs p)
      ((ticks-ages n h qs p).0, λ m. ground (arith, (ticks-ages n h qs p).1, m))

pub marked_below :
    (h : Store) (base p : ℕ) (qs : MlfqJobQueue)
    → AreLevels h base qs
    → 0 < count p (pointers qs)
    → (h p).mlfq_level < base + length qs
marked_below h base p [] v m = absurd (omega arith)
marked_below h base p (q ∷ qs) v m =
    ground
      (arith, count-append p q.nodes (pointers qs), v.0.home p, marked_below h (suc base) p qs v.1)

-- What a period does to the levels of the queued jobs.
pub record Lifts (h : Store) (qs : MlfqJobQueue) (r : Store × MlfqJobQueue × ℕ) : Type 0 where
  pub valid : IsValid r.0 r.1
  pub same : (a : ℕ) → count a (pointers r.1) ≡ count a (pointers qs)
  pub lifted : (p : ℕ) → 0 < count p (pointers qs) → (r.0 p).mlfq_level ≡ (h p).mlfq_level - 1

raised-level :
    (clock : ℕ → ℕ) (h : Store) (q : SingleLevelQueue) (qs : MlfqJobQueue) (p : ℕ)
    → IsValid h (q ∷ qs)
    → 0 < count p (pointers (q ∷ qs))
    → (raised clock h (pointers qs) p).mlfq_level ≡ (h p).mlfq_level - 1
raised-level clock h q qs p v m =
    ground (arith, count-append p q.nodes (pointers qs), v.levels.0.home p, m)

Lifts-by :
    (clock : ℕ → ℕ) (k : Store) (qs : MlfqJobQueue)
    → IsValid k qs
    → ((p : ℕ) → 0 < count p (pointers qs) → is_aged (k p) ≡ true)
    → length (pointers qs) ≤ aged_buf
    → Lifts k qs (run_aging clock k qs)
Lifts-by clock k [] v a le = absurd (omega (arith, v.three))
Lifts-by clock k (q ∷ qs) v a le =
    let (valid, same, _, store) = run_aging-Ages clock k (q ∷ qs) v in
    let all : aged_list k qs ≡ pointers qs =
      aged_list_all k qs (λ p m. a p (omega (arith, count-append p q.nodes (pointers qs))))
        (omega (arith, le, length-append q.nodes (pointers qs))) in
    record {
      valid = valid;
      same = same;
      lifted = λ p m.
          ap (λ j. j.mlfq_level) (store p)
          ∙ ap (λ ps. (raised clock k ps p).mlfq_level) all
          ∙ raised-level clock k q qs p v m;
    }

period-Lifts :
    (clock : ℕ → ℕ) (n : ℕ) (h : Store) (qs : MlfqJobQueue)
    → IsValid h qs
    → length (pointers qs) ≤ aged_buf
    → 15 ≤ n
    → Lifts h qs (period clock n h qs)
period-Lifts clock n h qs v le long =
    let t =
      Lifts-by clock (ticks n h qs) qs (ticks-IsValid n h qs v)
        (λ p m. ground (arith, (ticks-ages n h qs p).1 m, long)) le in
    record {
      valid = t.valid;
      same = t.same;
      lifted = λ p m. t.lifted p m ∙ ap (λ l. l - 1) (ticks-ages n h qs p).0;
    }

-- No queued job starves on a low level. On valid levels with at most 64 jobs, none coming or going:
-- after 15 or more ticks and a pass of the aging thread, and once more 15 or more ticks and a pass,
-- every queued job has reached level 0. The same jobs are queued, and the levels are valid.
pub no_starvation :
    (clock clock' : ℕ → ℕ) (m n : ℕ) (h : Store) (qs : MlfqJobQueue)
    → IsValid h qs
    → length (pointers qs) ≤ aged_buf
    → 15 ≤ m
    → 15 ≤ n
    → let (h', qs', _) = period clock m h qs in
      let (h'', qs'', _) = period clock' n h' qs' in
      IsValid h'' qs''
      × ((a : ℕ) → count a (pointers qs'') ≡ count a (pointers qs))
      × ((p : ℕ) → 0 < count p (pointers qs) → (h'' p).mlfq_level ≡ 0)
no_starvation clock clock' m n h qs v le long long' = (
  second.valid,
  λ a. second.same a ∙ first.same a,
  λ p queued.
      let here : 0 < count p (pointers mid.1) = omega (arith, first.same p, queued) in
      let low : (h p).mlfq_level < 3 =
        omega (arith, v.three, marked_below h 0 p qs v.levels queued) in
      omega (arith, second.lifted p here, first.lifted p queued, low),
)
  where
    mid : Store × MlfqJobQueue × ℕ
    mid = period clock m h qs

    first : Lifts h qs mid
    first = period-Lifts clock m h qs v le long

    second : Lifts mid.0 mid.1 (period clock' n mid.0 mid.1)
    second =
        period-Lifts clock' n mid.0 mid.1 first.valid
          (omega (arith, le, length-counts (pointers mid.1) (pointers qs) first.same)) long'
