-- ===== src/MlfqJobQueue/Ageing/Pass.antt =====
-- A whole pass of `runAging` over the levels.
use tensor_sched.Prelude.{
  ℕ, suc, ◌+◌, ◌-◌, ◌≤◌, ◌<◌, List, [], ◌∷◌, ◌++◌, ◌≡◌, refl, sym, ap, ap₂, ◌∙◌, arith, count,
  count-append, length, take, ltb, if◌then◌else◌, length-append,
}
use tensor_sched.Job.{Job, Store}
use tensor_sched.SingleLevelQueue.{SingleLevelQueue, drain_aged, is_aged}
use tensor_sched.SingleLevelQueue.Order.{SameKeys}
use tensor_sched.SingleLevelQueue.Drain.{Drains, drain_aged-Drains, aged_nodes}
use tensor_sched.MlfqJobQueue.{MlfqJobQueue, promote, age_levels, run_aging, aged_buf, pointers}
use tensor_sched.MlfqJobQueue.Invariant.{
  IsLevel, AreLevels, IsValid, AgreesOn, IsLevel-AgreesOn, AreLevels-AgreesOn,
}
use tensor_sched.MlfqJobQueue.Ageing.{
  promoted, promote-store, promote-count, promote-IsLevel, aged_list,
}

aged_nodes-AgreesOn :
    (h k : Store) (ps : List ℕ) → AgreesOn h k ps → aged_nodes k ps ≡ aged_nodes h ps
aged_nodes-AgreesOn h k [] a = refl
aged_nodes-AgreesOn h k (p ∷ ps) a = rw (a p (ground arith)) (
    ap (λ rest. if is_aged (h p) then p ∷ rest else rest)
      (aged_nodes-AgreesOn h k ps (λ x m. a x (omega arith))))

aged_list-AgreesOn :
    (h k : Store) (qs : MlfqJobQueue) → AgreesOn h k (pointers qs) → aged_list k qs ≡ aged_list h qs
aged_list-AgreesOn h k [] a = refl
aged_list-AgreesOn h k (q ∷ qs) a =
    ap₂ (λ xs ys. take aged_buf xs ++ ys)
      (aged_nodes-AgreesOn h k q.nodes
        (λ x m. a x (omega (arith, count-append x q.nodes (pointers qs)))))
      (aged_list-AgreesOn h k qs (λ x m. a x (omega (arith, count-append x q.nodes (pointers qs)))))

aged_list-le :
    (h : Store) (level a : ℕ) (qs : MlfqJobQueue)
    → AreLevels h level qs
    → count a (aged_list h qs) ≤ count a (pointers qs)
aged_list-le h level a [] v = omega arith
aged_list-le h level a (q ∷ qs) v =
    let d = drain_aged-Drains h aged_buf q v.0.sorted v.0.counted in
    omega (
      arith,
      count-append a q.nodes (pointers qs),
      count-append a (take aged_buf (aged_nodes h q.nodes)) (aged_list h qs),
      ap (count a) d.taken,
      d.shared a,
      aged_list-le h (suc level) a qs v.1,
    )

-- A job after a pass that takes up the jobs `ps`: one level up if it is one of them, else as it was.
abbrev pub raised : (ℕ → ℕ) → Store → List ℕ → ℕ → Job
raised clock h ps p =
    if ltb 0 (count p ps)
    then record (h p) {
      mlfq_level = (h p).mlfq_level - 1;
      ticks_this_slice = 0;
      aging_ticks = 0;
      last_ready_time = clock p;
    }
    else h p

-- The effect of a pass on levels whose jobs are `all`, those below the top level being `lower`.
pub record Ages (clock : ℕ → ℕ) (h : Store) (base : ℕ) (all : List ℕ) (lower : MlfqJobQueue)
    (r : Store × MlfqJobQueue × ℕ) : Type 0 where
  pub levels : AreLevels r.0 base r.1
  pub same : (a : ℕ) → count a (pointers r.1) ≡ count a all
  pub length_kept : length r.1 ≡ suc (length lower)
  pub number : r.2 ≡ length (aged_list h lower)
  pub store : (p : ℕ) → r.0 p ≡ raised clock h (aged_list h lower) p

-- One round: level `base` is `q`, the level drained is `r`, and `rs` are the levels below.
module _ (clock : ℕ → ℕ) (base : ℕ) (h : Store) (q r : SingleLevelQueue) (rs : MlfqJobQueue)
    (dist : (a : ℕ) → count a (q.nodes ++ pointers (r ∷ rs)) ≤ 1) (v : IsLevel h base q)
    (vs : AreLevels h (suc base) (r ∷ rs)) where
  abbrev drained : Drains h aged_buf r (drain_aged h aged_buf r)
  drained = drain_aged-Drains h aged_buf r vs.0.sorted vs.0.counted

  abbrev out : List ℕ
  out = (drain_aged h aged_buf r).0

  abbrev left : SingleLevelQueue
  left = (drain_aged h aged_buf r).1

  abbrev after : Store
  after = (promote clock base h out q).0

  -- The jobs of the level drained are on neither of the other two sides.
  counts :
      (a : ℕ)
      → (count a q.nodes + (count a r.nodes + count a (pointers rs)) ≤ 1)
        × (count a out + count a left.nodes ≡ count a r.nodes)
        × (count a (left.nodes ++ pointers rs) ≡ count a left.nodes + count a (pointers rs))
        × (count a (q.nodes ++ (r.nodes ++ pointers rs))
            ≡ count a q.nodes + (count a r.nodes + count a (pointers rs)))
  counts a = omega (
    arith,
    dist a,
    drained.shared a,
    count-append a q.nodes (r.nodes ++ pointers rs),
    count-append a r.nodes (pointers rs),
    count-append a left.nodes (pointers rs),
  )

  keys : SameKeys h after
  keys p = ground (arith, promote-store clock base h out q p)

  off : (p : ℕ) → count p out ≡ 0 → after p ≡ h p
  off p e = ground (arith, promote-store clock base h out q p)

  left-IsLevel : IsLevel after (suc base) left
  left-IsLevel =
      IsLevel-AgreesOn h after (suc base) left keys (λ p m. off p (omega (arith, counts p)))
        (record {
          sorted = drained.sorted;
          counted = drained.counted;
          home = λ p m. vs.0.home p (omega (arith, counts p));
        })

  rs_AreLevels : AreLevels after (suc (suc base)) rs
  rs_AreLevels =
      AreLevels-AgreesOn h after (suc (suc base)) rs keys (λ p m. off p (omega (arith, counts p)))
        vs.1

  top_IsLevel : IsLevel after base (promote clock base h out q).1
  top_IsLevel =
      promote-IsLevel clock base h out q (λ p m. (vs.0.home p (omega (arith, counts p))).1) v

  same_list : aged_list after rs ≡ aged_list h rs
  same_list = aged_list-AgreesOn h after rs (λ p m. off p (omega (arith, counts p)))

  lower_list : aged_list h (r ∷ rs) ≡ out ++ aged_list h rs
  lower_list = ap (λ xs. xs ++ aged_list h rs) (sym drained.taken)

  raised_round :
      (p : ℕ) → raised clock after (aged_list after rs) p ≡ raised clock h (aged_list h (r ∷ rs)) p
  raised_round p =
      rw (same_list, lower_list)
        (ground (
          arith,
          promote-store clock base h out q p,
          count-append p out (aged_list h rs),
          counts p,
          aged_list-le h (suc (suc base)) p rs vs.1,
          vs.0.home p,
        ))

  -- The later rounds leave the jobs of level `base` alone.
  untouched :
      (p : ℕ)
      → 0 < count p out + count p q.nodes
      → raised clock after (aged_list after rs) p ≡ after p
  untouched p m = rw same_list (ground (arith, counts p, aged_list-le h (suc (suc base)) p rs vs.1))

  -- The round before the others makes the whole pass.
  age_round :
      (later : Store × MlfqJobQueue × ℕ)
      → Ages clock after (suc base) (left.nodes ++ pointers rs) rs later
      → Ages clock h base
          (q.nodes ++ pointers (r ∷ rs))
          (r ∷ rs)
          (later.0, (promote clock base h out q).1 ∷ later.1, length out + later.2)
  age_round later rest = record {
    levels = (
      IsLevel-AgreesOn after later.0 base (promote clock base h out q).1
          (λ p. ground (arith, rest.store p))
          (λ p m. rest.store p ∙ untouched p (omega (arith, promote-count clock base h out q p)))
          top_IsLevel,
      rest.levels,
    );
    same = λ a. omega (
      arith,
      counts a,
      rest.same a,
      promote-count clock base h out q a,
      count-append a (promote clock base h out q).1.nodes (pointers later.1),
    );
    length_kept = ap suc rest.length_kept;
    number = rw (lower_list, length-append out (aged_list h rs), rest.number, same_list) refl;
    store = λ p. rest.store p ∙ raised_round p;
  }

age_levels-Ages :
    (clock : ℕ → ℕ) (base : ℕ) (h : Store) (q : SingleLevelQueue) (rs : MlfqJobQueue)
    → ((a : ℕ) → count a (q.nodes ++ pointers rs) ≤ 1)
    → IsLevel h base q
    → AreLevels h (suc base) rs
    → Ages clock h base (q.nodes ++ pointers rs) rs (age_levels clock base h q rs)
unfolding age_levels
age_levels-Ages clock base h q [] dist v vs = record {
  levels = (v, tt);
  same = λ a. refl;
  length_kept = refl;
  number = refl;
  store = λ p. refl;
}
age_levels-Ages clock base h q (r ∷ rs) dist v vs = age_round clock base h q r rs dist v vs _ (
    age_levels-Ages clock (suc base) _ _ rs
      (λ a. omega (arith, counts clock base h q r rs dist v vs a))
      (left-IsLevel clock base h q r rs dist v vs) (rs_AreLevels clock base h q r rs dist v vs))

-- The levels below the top one.
abbrev pub lower : MlfqJobQueue → MlfqJobQueue
lower [] = []
lower (q ∷ qs) = qs

-- What a pass of the aging thread does on valid levels: on each level below the top it takes up the jobs that have
-- waited 15 ticks or more, the first 64 of them in queue order. Each of these goes one level up, not
-- to the top, with its slice and its waiting reset; every other job is as it was. The number
-- returned is the number of jobs taken up, no job is lost or duplicated, and the levels stay valid.
pub run_aging-Ages :
    (clock : ℕ → ℕ) (h : Store) (qs : MlfqJobQueue)
    → IsValid h qs
    → let (h', qs', promoted) = run_aging clock h qs in
      IsValid h' qs'
      × ((a : ℕ) → count a (pointers qs') ≡ count a (pointers qs))
      × (promoted ≡ length (aged_list h (lower qs)))
      × ((p : ℕ) → h' p ≡ raised clock h (aged_list h (lower qs)) p)
unfolding run_aging
run_aging-Ages clock h [] v = absurd (omega (arith, v.three))
run_aging-Ages clock h (q ∷ qs) v = (
  record {
    three = a.length_kept ∙ v.three;
    levels = a.levels;
    distinct = λ x. omega (arith, v.distinct x, a.same x);
  },
  a.same,
  a.number,
  a.store,
)
  where
    a : Ages clock h 0 (pointers (q ∷ qs)) qs (age_levels clock 0 h q qs)
    a = age_levels-Ages clock 0 h q qs v.distinct v.levels.0 v.levels.1
