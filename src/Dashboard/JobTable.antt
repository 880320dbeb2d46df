-- ===== src/Dashboard/JobTable.antt =====
-- The order of the job table.
use tensor_sched.Prelude.{
  ℕ, suc, ◌+◌, ◌-◌, ◌≤◌, List, [], ◌∷◌, ◌≡◌, refl, sym, ap, ◌∙◌, arith, ltb, ◌==◌, if◌then◌else◌,
  get_or, set, length, All, All-map, Bool-cases, inl, inr,
}
use tensor_sched.Job.{Store}
use tensor_sched.Dashboard.{rank, shift, sort_from, sort_jobs}

-- A list in reverse, in front of another: the array with its sorted part, last entry first.
abbrev rev_onto : List ℕ → List ℕ → List ℕ
rev_onto [] post = post
rev_onto (y ∷ rp) post = rev_onto rp (y ∷ post)

get_or-rev_onto :
    (rp post : List ℕ) (k d : ℕ) → get_or (rev_onto rp post) (length rp + k) d ≡ get_or post k d
get_or-rev_onto [] post k d = ap (λ i. get_or post i d) (omega arith)
get_or-rev_onto (y ∷ rp) post k d =
    ap (λ i. get_or (rev_onto rp (y ∷ post)) i d) (omega arith)
    ∙ get_or-rev_onto rp (y ∷ post) (suc k) d

set-rev_onto :
    (rp post : List ℕ) (k v : ℕ)
    → set (rev_onto rp post) (length rp + k) v ≡ rev_onto rp (set post k v)
set-rev_onto [] post k v = ap (λ i. set post i v) (omega arith)
set-rev_onto (y ∷ rp) post k v =
    ap (λ i. set (rev_onto rp (y ∷ post)) i v) (omega arith) ∙ set-rev_onto rp (y ∷ post) (suc k) v

-- The inner loop on the sorted part.
abbrev insert_back : Store → ℕ → List ℕ → List ℕ
insert_back h key [] = key ∷ []
insert_back h key (y ∷ rp) =
    if ltb (rank h key) (rank h y) then y ∷ insert_back h key rp else key ∷ y ∷ rp

shift-rev_onto :
    (h : Store) (key d : ℕ) (rp post : List ℕ)
    → shift h key (length rp) (rev_onto rp (d ∷ post)) ≡ rev_onto (insert_back h key rp) post
unfolding shift
shift-rev_onto h key d [] post = refl
shift-rev_onto h key d (y ∷ rp) post = elim (Bool-cases (ltb (rank h key) (rank h y))) [
  | inl e ↦ rw (got, e, moved) (shift-rev_onto h key y rp (y ∷ post))
  | inr e ↦ rw (got, e) (put key)
]
  where
    got : get_or (rev_onto rp (y ∷ d ∷ post)) (length rp) 0 ≡ y
    got =
        ap (λ i. get_or (rev_onto rp (y ∷ d ∷ post)) i 0) (omega arith)
        ∙ get_or-rev_onto rp (y ∷ d ∷ post) 0 0

    put :
        (v : ℕ) → set (rev_onto rp (y ∷ d ∷ post)) (suc (length rp)) v ≡ rev_onto rp (y ∷ v ∷ post)
    put v =
        ap (λ i. set (rev_onto rp (y ∷ d ∷ post)) i v) (omega arith)
        ∙ set-rev_onto rp (y ∷ d ∷ post) 1 v

    moved : set (rev_onto rp (y ∷ d ∷ post)) (suc (length rp)) y ≡ rev_onto rp (y ∷ y ∷ post)
    moved = put y

length-insert_back :
    (h : Store) (key : ℕ) (rp : List ℕ) → length (insert_back h key rp) ≡ suc (length rp)
length-insert_back h key [] = refl
length-insert_back h key (y ∷ rp) = ground (arith, length-insert_back h key rp)

-- The outer loop on the sorted part.
abbrev insert_all : Store → List ℕ → List ℕ → List ℕ
insert_all h rp [] = rp
insert_all h rp (x ∷ xs) = insert_all h (insert_back h x rp) xs

sort_from-rev_onto :
    (h : Store) (rp xs : List ℕ)
    → sort_from h (length rp) (length xs) (rev_onto rp xs) ≡ rev_onto (insert_all h rp xs) []
unfolding sort_from
sort_from-rev_onto h rp [] = refl
sort_from-rev_onto h rp (x ∷ xs) =
    ap (λ key. next (shift h key (length rp) (rev_onto rp (x ∷ xs)))) got
    ∙ ap next (shift-rev_onto h x x rp xs)
    ∙ ap (λ i. sort_from h i (length xs) (rev_onto (insert_back h x rp) xs))
        (sym (length-insert_back h x rp))
    ∙ sort_from-rev_onto h (insert_back h x rp) xs
  where
    next : List ℕ → List ℕ
    next = sort_from h (suc (length rp)) (length xs)

    got : get_or (rev_onto rp (x ∷ xs)) (length rp) 0 ≡ x
    got =
        ap (λ i. get_or (rev_onto rp (x ∷ xs)) i 0) (omega arith) ∙ get_or-rev_onto rp (x ∷ xs) 0 0

-- The entries of one rank.
abbrev pub of_rank : Store → ℕ → List ℕ → List ℕ
of_rank h k [] = []
of_rank h k (x ∷ xs) = if rank h x == k then x ∷ of_rank h k xs else of_rank h k xs

-- By rank, upwards.
abbrev pub IsRanked : Store → List ℕ → Type 0
IsRanked h [] = Unit {0}
IsRanked h (x ∷ xs) = All (λ y. rank h x ≤ rank h y) xs × IsRanked h xs

abbrev IsFalling : Store → List ℕ → Type 0
IsFalling h [] = Unit {0}
IsFalling h (x ∷ xs) = All (λ y. rank h y ≤ rank h x) xs × IsFalling h xs

of_rank-rev_onto :
    (h : Store) (k : ℕ) (rp post : List ℕ)
    → of_rank h k (rev_onto rp post) ≡ rev_onto (of_rank h k rp) (of_rank h k post)
of_rank-rev_onto h k [] post = refl
of_rank-rev_onto h k (y ∷ rp) post =
    of_rank-rev_onto h k rp (y ∷ post)
    ∙ (elim (Bool-cases (rank h y == k)) [ inl e ↦ rw e refl | inr e ↦ rw e refl ])

of_rank-insert_back :
    (h : Store) (k x : ℕ) (rp : List ℕ) → of_rank h k (insert_back h x rp) ≡ of_rank h k (x ∷ rp)
of_rank-insert_back h k x [] = refl
of_rank-insert_back h k x (y ∷ rp) = ground (arith, of_rank-insert_back h k x rp)

of_rank-insert_all :
    (h : Store) (k : ℕ) (rp xs : List ℕ)
    → of_rank h k (rev_onto (insert_all h rp xs) []) ≡ of_rank h k (rev_onto rp xs)
of_rank-insert_all h k rp [] = refl
of_rank-insert_all h k rp (x ∷ xs) =
    of_rank-insert_all h k (insert_back h x rp) xs
    ∙ of_rank-rev_onto h k (insert_back h x rp) xs
    ∙ ap (λ r. rev_onto r (of_rank h k xs)) (of_rank-insert_back h k x rp)
    ∙ sym (of_rank-rev_onto h k (x ∷ rp) xs)

All-insert_back {κ} :
    (P : ℕ → Type κ) (h : Store) (x : ℕ) (rp : List ℕ) → P x → All P rp → All P (insert_back h x rp)
All-insert_back P h x [] px a = (px, tt)
All-insert_back P h x (y ∷ rp) px a = elim (Bool-cases (ltb (rank h x) (rank h y))) [
  | inl e ↦ rw e (a.0, All-insert_back P h x rp px a.1)
  | inr e ↦ rw e (px, a)
]

insert_back-IsFalling :
    (h : Store) (x : ℕ) (rp : List ℕ) → IsFalling h rp → IsFalling h (insert_back h x rp)
insert_back-IsFalling h x [] o = (tt, tt)
insert_back-IsFalling h x (y ∷ rp) o = elim (Bool-cases (ltb (rank h x) (rank h y))) [
  | inl e ↦ rw e (
    All-insert_back (λ z. rank h z ≤ rank h y) h x rp (ground arith) o.0,
    insert_back-IsFalling h x rp o.1,
  )
  | inr e ↦
      let le : rank h y ≤ rank h x = ground arith in
      rw e ((le, All-map (λ z. rank h z ≤ rank h y) rp (λ z l. omega (arith, le, l)) o.0), o)
]

insert_all-IsFalling :
    (h : Store) (rp xs : List ℕ) → IsFalling h rp → IsFalling h (insert_all h rp xs)
insert_all-IsFalling h rp [] o = o
insert_all-IsFalling h rp (x ∷ xs) o =
    insert_all-IsFalling h (insert_back h x rp) xs (insert_back-IsFalling h x rp o)

rev_onto-IsRanked :
    (h : Store) (rp post : List ℕ)
    → IsFalling h rp
    → IsRanked h post
    → All (λ p. All (λ z. rank h z ≤ rank h p) rp) post
    → IsRanked h (rev_onto rp post)
rev_onto-IsRanked h [] post f o a = o
rev_onto-IsRanked h (y ∷ rp) post f o a =
    rev_onto-IsRanked h rp (y ∷ post) f.1
      (All-map (λ p. All (λ z. rank h z ≤ rank h p) (y ∷ rp)) post (λ p b. b.0) a, o)
      (f.0, All-map (λ p. All (λ z. rank h z ≤ rank h p) (y ∷ rp)) post (λ p b. b.1) a)

pub sort_jobs_lem :
    (h : Store) (buf : List ℕ)
    → IsRanked h (sort_jobs h buf) × ((k : ℕ) → of_rank h k (sort_jobs h buf) ≡ of_rank h k buf)
unfolding sort_jobs sort_from
sort_jobs_lem h [] = (tt, λ k. refl)
sort_jobs_lem h (x ∷ xs) =
    let rounds : length (x ∷ xs) - 1 ≡ length xs = omega arith in
    let done : sort_jobs h (x ∷ xs) ≡ rev_onto (insert_all h (x ∷ []) xs) [] =
      ap (λ n. sort_from h 1 n (x ∷ xs)) rounds ∙ sort_from-rev_onto h (x ∷ []) xs in
    rw done (
      rev_onto-IsRanked h (insert_all h (x ∷ []) xs) []
          (insert_all-IsFalling h (x ∷ []) xs (tt, tt)) tt tt,
      λ k. of_rank-insert_all h k (x ∷ []) xs,
    )
