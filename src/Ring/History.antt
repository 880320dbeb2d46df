-- ===== src/Ring/History.antt =====
-- A ring buffer against the list of everything ever added to it.
use Prim.Native.Nat.{min}
use native.Mathlib.Nat.{mod-add-mod, mod-mod, add-mod_right, mod-lt}
use native.Mathlib.Decide.{ℕ_discrete}
use mathlib.Core.List.{append-nil, append_assoc}
use tensor_sched.Prelude.{
  ℕ, zero, suc, ◌+◌, ◌-◌, ◌%◌, ◌≤◌, ◌<◌, List, [], ◌∷◌, ◌++◌, ◌≡◌, ◌≢◌, refl, sym, ap, ◌∙◌, arith,
  ltb, if◌then◌else◌, get_or, set, length, drop, length-append, length-set, length-replicate,
  get_or-set_self, get_or-set_ne,
}
use tensor_sched.Ring.{Ring, new_ring, add, copy, snapshot}

-- Two numbers less than `limit` apart go to different cells.
mod-ne : (limit k d : ℕ) → 0 < d → d < limit → (k + d) % limit ≢ k % limit
mod-ne limit k d pos_d lt e = grind arith

apart : (limit k n : ℕ) → k < n → n < k + limit → n % limit ≢ k % limit
apart limit k n lt near e =
    mod-ne limit k (n - k) (omega arith) (omega arith) (ap (λ m. m % limit) back ∙ e)
  where
    back : k + (n - k) ≡ n
    back = omega arith

mod-suc : (limit i s : ℕ) → i % limit ≡ s % limit → (i + 1) % limit ≡ (s + 1) % limit
mod-suc limit i s e =
    sym (mod-add-mod i limit 1) ∙ ap (λ m. (m + 1) % limit) e ∙ mod-add-mod s limit 1

module _ {ℓ} {A : Type ℓ} (limit : ℕ) (blank : A) where
  -- The ring holds the last `count` entries of `hist` (oldest first), each in its cell.
  pub record Holds (r : Ring A) (hist : List A) : Type ℓ where
    pub cells : length r.buf ≡ limit
    pub head_eq : r.head ≡ length hist
    pub count_eq : r.count ≡ min limit (length hist)
    pub kept :
        (k : ℕ)
        → k < length hist
        → length hist ≤ k + limit
        → get_or r.buf (k % limit) blank ≡ get_or hist k blank

  get_or-append_left :
      (xs : List A) (x : A) (k : ℕ)
      → k < length xs
      → get_or (xs ++ (x ∷ [])) k blank ≡ get_or xs k blank
  get_or-append_left [] x k lt = absurd (omega arith)
  get_or-append_left (y ∷ ys) x zero lt = refl
  get_or-append_left (y ∷ ys) x (suc k) lt = get_or-append_left ys x k (omega arith)

  get_or-append_last :
      (xs : List A) (x : A) (k : ℕ) → k ≡ length xs → get_or (xs ++ (x ∷ [])) k blank ≡ x
  get_or-append_last [] x zero e = refl
  get_or-append_last [] x (suc k) e = absurd (omega arith)
  get_or-append_last (y ∷ ys) x zero e = absurd (omega arith)
  get_or-append_last (y ∷ ys) x (suc k) e = get_or-append_last ys x k (omega arith)

  pub new_ring-Holds : Holds (new_ring limit blank) []
  unfolding new_ring
  new_ring-Holds = record {
    cells = length-replicate limit blank;
    head_eq = refl;
    count_eq = omega arith;
    kept = λ k lt. absurd (omega arith);
  }

  -- Adding a record to a ring adds it to the history, and the ring then holds the last of that.
  pub add-Holds :
      (x : A) (r : Ring A) (hist : List A)
      → 0 < limit
      → Holds r hist
      → Holds (add limit x r) (hist ++ (x ∷ []))
  unfolding add
  add-Holds x r hist pos_limit v = record {
    cells = length-set r.buf (r.head % limit) x ∙ v.cells;
    head_eq = omega (arith, v.head_eq, len);
    count_eq = ground (arith, v.count_eq, len);
    kept = λ k lt near. kept' k lt near (ℕ_discrete k (length hist));
  }
    where
      len : length (hist ++ (x ∷ [])) ≡ length hist + 1
      len = length-append hist (x ∷ [])

      kept' :
          (k : ℕ)
          → k < length (hist ++ (x ∷ []))
          → length (hist ++ (x ∷ [])) ≤ k + limit
          → Dec (k ≡ length hist)
          → get_or (set r.buf (r.head % limit) x) (k % limit) blank
            ≡ get_or (hist ++ (x ∷ [])) k blank
      kept' k lt near (yes last) =
          rw (get_or-append_last hist x k last, v.head_eq, last)
            (get_or-set_self r.buf (length hist % limit) x blank
              (omega (arith, v.cells, mod-lt (length hist) pos_limit)))
      kept' k lt near (no older) =
          rw (get_or-append_left hist x k (omega (arith, len)), v.head_eq)
            (get_or-set_ne r.buf x blank
                (apart limit k (length hist) (omega (arith, len)) (omega (arith, len)))
              ∙ v.kept k (omega (arith, len)) (omega (arith, len)))

  drop-length : (xs : List A) (n : ℕ) → n ≡ length xs → drop n xs ≡ []
  drop-length [] zero e = refl
  drop-length [] (suc n) e = refl
  drop-length (x ∷ xs) zero e = absurd (omega arith)
  drop-length (x ∷ xs) (suc n) e = drop-length xs n (omega arith)

  drop-get_or :
      (xs : List A) (n : ℕ) → n < length xs → drop n xs ≡ get_or xs n blank ∷ drop (suc n) xs
  drop-get_or [] n lt = absurd (omega arith)
  drop-get_or (x ∷ xs) zero lt = refl
  drop-get_or (x ∷ xs) (suc n) lt = drop-get_or xs n (omega arith)

  copy-drop :
      (r : Ring A) (hist : List A) (i s c : ℕ)
      → Holds r hist
      → s + c ≡ length hist
      → c ≤ limit
      → i % limit ≡ s % limit
      → copy limit blank r.buf i c ≡ drop s hist
  unfolding copy
  copy-drop r hist i s zero v e le m = sym (drop-length hist s (omega arith))
  copy-drop r hist i s (suc c) v e le m =
      rw (drop-get_or hist s (omega arith), m, v.kept s (omega arith) (omega arith))
        (ap (◌∷◌ (get_or hist s blank)) (
          copy-drop r hist (i + 1) (suc s) c v (omega arith) (omega arith)
            (mod-suc limit i s m ∙ ap (λ k. k % limit) (omega arith))))

  -- A snapshot is the end of the history.
  pub snapshot-Holds :
      (n : ℕ) (r : Ring A) (hist : List A)
      → 0 < limit
      → Holds r hist
      → snapshot limit blank n r ≡ drop (length hist - min n limit) hist
  unfolding snapshot
  snapshot-Holds n r hist pos_limit v =
      copy-drop r hist _ (length hist - min n limit) taken v (ground (arith, v.count_eq))
        (ground (arith, v.count_eq)) start
    where
      taken : ℕ
      taken = if ltb r.count n then r.count else n

      back : r.head + limit - taken ≡ length hist - min n limit + limit
      back = ground (arith, v.count_eq, v.head_eq)

      wraps : (s : ℕ) → (s + limit) % limit % limit ≡ s % limit
      wraps s = mod-mod (s + limit) limit ∙ add-mod_right s limit

      start : (r.head + limit - taken) % limit % limit ≡ (length hist - min n limit) % limit
      start = rw back (wraps (length hist - min n limit))

  -- The records of a list added one after the other.
  abbrev pub add_all : List A → Ring A → Ring A
  add_all [] r = r
  add_all (x ∷ xs) r = add_all xs (add limit x r)

  add_all-Holds :
      (xs hist : List A) (r : Ring A) → 0 < limit → Holds r hist → Holds (add_all xs r) (hist ++ xs)
  add_all-Holds [] hist r pos_limit v = rw (append-nil hist) v
  add_all-Holds (x ∷ xs) hist r pos_limit v =
      let whole =
        add_all-Holds xs (hist ++ (x ∷ [])) (add limit x r) pos_limit
          (add-Holds x r hist pos_limit v) in
      rw (append_assoc hist (x ∷ []) xs) at whole

  -- After any records have been added to a new ring of at least one cell, a snapshot is the end of their list: the last
  -- `n`, or as many as there are or as the ring holds, oldest first and none skipped.
  pub snapshot-add_all :
      (n : ℕ) (xs : List A)
      → 0 < limit
      → snapshot limit blank n (add_all xs (new_ring limit blank))
        ≡ drop (length xs - min n limit) xs
  snapshot-add_all n xs pos_limit =
      snapshot-Holds n (add_all xs (new_ring limit blank)) xs pos_limit
        (add_all-Holds xs [] (new_ring limit blank) pos_limit new_ring-Holds)
