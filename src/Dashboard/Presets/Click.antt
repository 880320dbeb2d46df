-- ===== src/Dashboard/Presets/Click.antt =====
-- A click on the row of presets submits one of them at most.
use tensor_sched.Prelude.{
  ℕ, zero, suc, ◌+◌, ◌-◌, ◌*◌, ◌/◌, ◌<◌, Bool, true, false, List, [], ◌∷◌, some, ◌≡◌, refl, ap, ◌∙◌,
  arith, ℤ, pos, ltb_ℤ, get_elem?, length, All, Bool-cases, ◌⊎◌, inl, inr,
}
use tensor_sched.Job.{new_job}
use tensor_sched.ResourceManager.{total_cpu, total_memory}
use tensor_sched.Scheduler.Records.{LogEvent}
use tensor_sched.Dashboard.Form.{mouse_down, in_box, Desk, create_job}
use tensor_sched.Dashboard.Form.Columns.{in_box-left, in_box-next}
use tensor_sched.Dashboard.Form.Values.{IsWithin}
use tensor_sched.Dashboard.Form.Jobs.{Submits}
use tensor_sched.Dashboard.Presets.{Preset, presets, submit_preset, click_presets, preset_panel}

record Affordable (p : Preset) : Type 0 where
  cpu_range : IsWithin 1 total_cpu p.cpu
  memory_range : IsWithin 1 total_memory p.mem
  burst_range : IsWithin 1 100 p.burst

affordable :
    (p : Preset) (cpu mem burst : ℕ)
    → p.cpu ≡ pos (suc cpu)
    → p.mem ≡ pos (suc mem)
    → p.burst ≡ pos (suc burst)
    → (cpu < total_cpu) × (mem < total_memory) × (burst < 100)
    → Affordable p
affordable p cpu mem burst c m b (lc, lm, lb) = record {
  cpu_range = (suc cpu, c, omega arith, omega (arith, lc));
  memory_range = (suc mem, m, omega arith, omega (arith, lm));
  burst_range = (suc burst, b, omega arith, omega (arith, lb));
}

presets-Affordable : All Affordable presets
presets-Affordable = (
  affordable _ 29 511 19 refl refl refl (omega arith),
  (
    affordable _ 14 127 9 refl refl refl (omega arith),
    (
      affordable _ 59 767 34 refl refl refl (omega arith),
      (
        affordable _ 9 63 7 refl refl refl (omega arith),
        (
          affordable _ 24 255 13 refl refl refl (omega arith),
          (
            affordable _ 44 511 27 refl refl refl (omega arith),
            (
              affordable _ 69 1023 39 refl refl refl (omega arith),
              (affordable _ 7 63 5 refl refl refl (omega arith), tt),
            ),
          ),
        ),
      ),
    ),
  ),
)

-- The click at `mx`, `my` is on button `k` of the row.
abbrev pub hits_column : ℕ → ℕ → ℕ → ℤ → ℤ → ℕ → Bool
hits_column x y bw mx my k = in_box mx my (x + k * (bw + 5)) (x + k * (bw + 5) + bw) y (y + 40)

hits_column-later :
    (x y bw : ℕ) (mx my : ℤ) (i k : ℕ)
    → hits_column x y bw mx my (i + suc k) ≡ hits_column x y bw mx my (suc i + k)
hits_column-later x y bw mx my i k =
    let e : i + suc k ≡ suc i + k = omega arith in ap (hits_column x y bw mx my) e

module _ (address : ℕ → ℕ) (label : List ℤ → ℕ → List ℕ) {S : Type 0} (text : ℕ → LogEvent → List ℕ)
    (now x y bw : ℕ) (mx my : ℤ) where
  abbrev clicked : ℕ → List Preset → Desk S → Desk S
  clicked = click_presets address label text now x y bw mx my

  clicked_past :
      (i : ℕ) (ps : List Preset) (d : Desk S)
      → ltb_ℤ mx (pos (x + i * (bw + 5))) ≡ true
      → clicked i ps d ≡ d
  unfolding click_presets
  clicked_past i [] d e = refl
  clicked_past i (p ∷ ps) d e =
      rw (in_box-left mx my _ _ y (y + 40) e) (clicked_past (suc i) ps d (ground (arith, e)))

  -- From button `i` on: nothing is hit and nothing done, or one button is, and its preset submitted.
  Outcome : ℕ → List Preset → Desk S → Desk S → Type 0
  Outcome i ps d d' =
      ((d' ≡ d) × ((k : ℕ) → k < length ps → hits_column x y bw mx my (i + k) ≡ false))
      ⊎ ((k : ℕ) × (p : Preset) × (get_elem? ps k ≡ some p)
          × (hits_column x y bw mx my (i + k) ≡ true)
          × (d' ≡ submit_preset address label text now p d))

  clicked_one : (i : ℕ) (ps : List Preset) (d : Desk S) → Outcome i ps d (clicked i ps d)
  unfolding click_presets Outcome
  clicked_one i [] d = inl (refl, λ k lt. absurd (omega (arith, lt)))
  clicked_one i (p ∷ ps) d = elim (Bool-cases (hits_column x y bw mx my i)) [
    | inl e ↦
        let same =
          clicked_past (suc i) ps (submit_preset address label text now p d)
            (in_box-next mx my x bw 5 y (y + 40) i e) in
        inr (0, p, refl, ground (arith, e), rw e same)
    | inr e ↦ rw e (elim (clicked_one (suc i) ps d) [
      | inl (same, none_hit) ↦ inl (same, missed e none_hit)
      | inr (k, q, at, e', same) ↦ inr (suc k, q, at, hits_column-later x y bw mx my i k ∙ e', same)
    ])
  ]
    where
      missed :
          hits_column x y bw mx my i ≡ false
          → ((k : ℕ) → k < length ps → hits_column x y bw mx my (suc i + k) ≡ false)
          → (k : ℕ) → k < suc (length ps)
          → hits_column x y bw mx my (i + k) ≡ false
      missed e rest zero lt = ground (arith, e)
      missed e rest (suc k) lt = hits_column-later x y bw mx my i k ∙ rest k (omega (arith, lt))

All-get_elem? {ℓ κ} :
    {A : Type ℓ} (P : A → Type κ) (xs : List A) (k : ℕ) (a : A)
    → All P xs
    → get_elem? xs k ≡ some a
    → P a
All-get_elem? P [] k a h e = cc
All-get_elem? P (x ∷ xs) zero a h e = let same : x ≡ a = cc in rw same at h.0
All-get_elem? P (x ∷ xs) (suc k) a h e = All-get_elem? P xs k a h.1 e

module _ (address : ℕ → ℕ) (label : List ℤ → ℕ → List ℕ) {S : Type 0}
    (text : ℕ → LogEvent → List ℕ) where
  submit_preset-Submits :
      (now : ℕ) (p : Preset) (d : Desk S)
      → Affordable p
      → Submits address label text now d (submit_preset address label text now p d)
  unfolding create_job
  submit_preset-Submits now p d a = (
    new_job d.next_job_id (label p.name d.next_job_id) p.prio p.cpu p.mem p.burst now,
    record {
      cpu_range = a.cpu_range;
      memory_range = a.memory_range;
      burst_range = a.burst_range;
      status_eq = refl;
      level_eq = refl;
    },
    refl,
    refl,
    refl,
  )

  -- No button is hit and nothing changes; or one is, and its preset is submitted.
  abbrev pub Clicks : ℕ → ℕ → ℕ → ℕ → ℤ → ℤ → Desk S → Desk S → Type 0
  Clicks now x y bw mx my d d' =
      ((d' ≡ d) × ((k : ℕ) → k < 8 → hits_column x y bw mx my k ≡ false))
      ⊎ ((k : ℕ) × (p : Preset) × (get_elem? presets k ≡ some p)
          × (hits_column x y bw mx my k ≡ true)
          × (d' ≡ submit_preset address label text now p d)
          × Submits address label text now d d')

  pub preset_panel_lem :
      (now x y w : ℕ) (mx my : ℤ) (d : Desk S)
      → Clicks now x y
          ((w - 7 * 5) / 8)
          mx
          my
          d
          (preset_panel address label text now x y w (mouse_down mx my) d)
  unfolding preset_panel Outcome
  preset_panel_lem now x y w mx my d =
      elim (clicked_one address label text now x y ((w - 7 * 5) / 8) mx my 0 presets d) [
        | inl (same, none_hit) ↦ inl (same, λ k lt. hits_at_zero k ∙ none_hit k lt)
        | inr (k, p, at, e, same) ↦
            let fine =
              submit_preset-Submits now p d
                (All-get_elem? Affordable presets k p presets-Affordable at) in
            inr (k, p, at, hits_at_zero k ∙ e, same, rw same fine)
      ]
    where
      hits_at_zero :
          (k : ℕ)
          → hits_column x y ((w - 7 * 5) / 8) mx my k
            ≡ hits_column x y ((w - 7 * 5) / 8) mx my (0 + k)
      hits_at_zero k =
          let e : k ≡ 0 + k = omega arith in ap (hits_column x y ((w - 7 * 5) / 8) mx my) e
