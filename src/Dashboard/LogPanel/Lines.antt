-- ===== src/Dashboard/LogPanel/Lines.antt =====
-- Which entries the log panel shows, and where.
use Prim.Native.Nat.{min}
use mathlib.Core.Option as Option
use mathlib.Core.Path.{subst}
use tensor_sched.Prelude.{
  ℕ, zero, suc, ◌+◌, ◌-◌, ◌*◌, ◌/◌, ◌≤◌, ◌<◌, true, false, List, [], ◌∷◌, ◌≡◌, refl, ap, ◌∙◌, arith,
  ltb, length, drop, get_elem?, Bool-cases, inl, inr,
}
use tensor_sched.Dashboard.{UiLogEntry, UiState, ui_log_max, ui_log_snapshot}
use tensor_sched.Dashboard.LogPanel.{line_h, clip_h, first_shown, log_line, log_lines, log_panel}

module _ {ℓ} {A : Type ℓ} where
  pub length-drop : (n : ℕ) (xs : List A) → length (drop n xs) ≡ length xs - n
  length-drop zero xs = omega arith
  length-drop (suc n) [] = omega arith
  length-drop (suc n) (x ∷ xs) = omega (arith, length-drop n xs)

  pub get_elem?-drop : (n k : ℕ) (xs : List A) → get_elem? (drop n xs) k ≡ get_elem? xs (n + k)
  get_elem?-drop zero k xs = let e : k ≡ 0 + k = omega arith in ap (get_elem? xs) e
  get_elem?-drop (suc n) k [] = refl
  get_elem?-drop (suc n) k (x ∷ xs) =
      let e : suc (n + k) ≡ suc n + k = omega arith in
      get_elem?-drop n k xs ∙ ap (get_elem? (x ∷ xs)) e

-- How many lines begin above the lower edge.
abbrev pub rows : ℕ → ℕ
rows h = (clip_h h + 13) / line_h

module _ (fit : List ℕ → List ℕ) (dimmed : ℕ → ℕ) (now_ms y h : ℕ) where
  abbrev at_row : ℕ → ℕ
  at_row j = y + 26 + j * line_h

  next_row : (j : ℕ) → at_row j + line_h ≡ at_row (suc j)
  next_row j = omega arith

  log_lines-length :
      (j : ℕ) (es : List UiLogEntry)
      → length (log_lines fit dimmed now_ms y h (at_row j) es) ≡ min (length es) (rows h - j)
  unfolding log_lines
  log_lines-length j [] = omega arith
  log_lines-length j (e ∷ es) = elim (Bool-cases (ltb (at_row j) (y + h - 4))) [
    | inl lt ↦
        let inside : at_row j < y + h - 4 = ground arith in
        rw (lt, next_row j) (omega (arith, inside, log_lines-length (suc j) es))
    | inr ge ↦ let outside : y + h - 4 ≤ at_row j = ground arith in rw ge (omega (arith, outside))
  ]

  log_lines_none : (j : ℕ) → log_lines fit dimmed now_ms y h (at_row j) [] ≡ []
  unfolding log_lines
  log_lines_none j = refl

  log_lines_inside :
      (j : ℕ) (e : UiLogEntry) (es : List UiLogEntry)
      → ltb (at_row j) (y + h - 4) ≡ true
      → log_lines fit dimmed now_ms y h (at_row j) (e ∷ es)
        ≡ log_line fit dimmed now_ms (at_row j) e
          ∷ log_lines fit dimmed now_ms y h (at_row (suc j)) es
  unfolding log_lines
  log_lines_inside j e es inside = rw (inside, next_row j) refl

  log_lines_outside :
      (j : ℕ) (e : UiLogEntry) (es : List UiLogEntry)
      → ltb (at_row j) (y + h - 4) ≡ false
      → log_lines fit dimmed now_ms y h (at_row j) (e ∷ es) ≡ []
  unfolding log_lines
  log_lines_outside j e es outside = rw outside refl

  log_lines-get_elem? :
      (j k : ℕ) (es : List UiLogEntry)
      → k < length (log_lines fit dimmed now_ms y h (at_row j) es)
      → get_elem? (log_lines fit dimmed now_ms y h (at_row j) es) k
        ≡ Option.map (log_line fit dimmed now_ms (at_row (j + k))) (get_elem? es k)
  log_lines-get_elem? j k [] lt = absurd (omega (arith, lt, ap length (log_lines_none j)))
  log_lines-get_elem? j zero (e ∷ es) lt = elim (Bool-cases (ltb (at_row j) (y + h - 4))) [
    | inl inside ↦
        let same : j + 0 ≡ j = omega arith in rw (log_lines_inside j e es inside, same) refl
    | inr outside ↦ absurd (omega (arith, lt, ap length (log_lines_outside j e es outside)))
  ]
  log_lines-get_elem? j (suc k) (e ∷ es) lt = elim (Bool-cases (ltb (at_row j) (y + h - 4))) [
    | inl inside ↦
        let same : j + suc k ≡ suc j + k = omega arith in
        rw (log_lines_inside j e es inside, same)
          (log_lines-get_elem? (suc j) k es
            (omega (arith, lt, ap length (log_lines_inside j e es inside))))
    | inr outside ↦ absurd (omega (arith, lt, ap length (log_lines_outside j e es outside)))
  ]

  pub log_panel-get_elem? :
      (ui : UiState)
      → let entries = ui_log_snapshot ui_log_max ui in
        let first = first_shown h (length entries) ui.log_scroll in
        let lines = log_panel fit dimmed now_ms y h ui in
        (length lines ≡ min (length entries - first) (rows h))
        × ((k : ℕ)
            → k < length lines
            → get_elem? lines k
              ≡ Option.map
                  (log_line fit dimmed now_ms (y + 26 + k * line_h))
                  (get_elem? entries (first + k)))
        × ((k : ℕ) → k < length lines → y + 26 + k * line_h < y + h - 4)
        × (44 ≤ h → ui.log_scroll ≡ 0 → first + length lines ≡ length entries)
  unfolding log_panel
  log_panel-get_elem? ui = (
    many,
    λ k lt. rw (at_row_add k, get_elem?-drop first k entries) at (shifted k lt),
    λ k lt. omega (arith, lt, many),
    λ room unscrolled. omega (arith, many),
  )
    where
      at_row_add : (k : ℕ) → at_row (0 + k) ≡ y + 26 + k * line_h
      at_row_add k = omega arith

      entries : List UiLogEntry
      entries = ui_log_snapshot ui_log_max ui

      first : ℕ
      first = first_shown h (length entries) ui.log_scroll

      top : at_row 0 ≡ y + 26
      top = omega arith

      many :
          length (log_lines fit dimmed now_ms y h (y + 26) (drop first entries))
          ≡ min (length entries - first) (rows h)
      many =
          omega
            (arith, rw top at (log_lines-length 0 (drop first entries)), length-drop first entries)

      shifted :
          (k : ℕ)
          → k < length (log_lines fit dimmed now_ms y h (y + 26) (drop first entries))
          → get_elem? (log_lines fit dimmed now_ms y h (y + 26) (drop first entries)) k
            ≡ Option.map
                (log_line fit dimmed now_ms (at_row (0 + k)))
                (get_elem? (drop first entries) k)
      shifted k lt =
          subst
            (λ r.
              k < length (log_lines fit dimmed now_ms y h r (drop first entries))
              → get_elem? (log_lines fit dimmed now_ms y h r (drop first entries)) k
                ≡ Option.map (log_line fit dimmed now_ms (at_row (0 + k)))
                    (get_elem? (drop first entries) k))
            top (log_lines-get_elem? 0 k (drop first entries)) lt
