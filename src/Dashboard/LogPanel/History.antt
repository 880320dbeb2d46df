-- ===== src/Dashboard/LogPanel/History.antt =====
-- The log panel over the history of the messages.
use Prim.Native.Nat.{min}
use mathlib.Core.Option as Option
use tensor_sched.Prelude.{
  ℕ, ◌+◌, ◌-◌, ◌*◌, ◌≤◌, ◌<◌, List, ◌∷◌, ◌≡◌, ap, ◌∙◌, arith, length, drop, get_elem?,
}
use tensor_sched.Dashboard.{UiLogEntry, UiState, new_ui, push_log, ui_log_max, ui_log_snapshot}
use tensor_sched.Dashboard.Log.{Message, entries, push_all, ui_log_snapshot-push_all}
use tensor_sched.Dashboard.LogPanel.{line_h, first_shown, log_line, log_panel}
use tensor_sched.Dashboard.LogPanel.Lines.{rows, log_panel-get_elem?, length-drop, get_elem?-drop}

-- How many of the messages the log holds.
abbrev pub kept : List UiLogEntry → ℕ
kept all = min (length all) ui_log_max

module _ (fit : List ℕ → List ℕ) (dimmed : ℕ → ℕ) (now_ms y h : ℕ) where
  -- After one or more messages, and whatever the scroll position is then, the log panel shows messages
  -- that follow one another, of the last 512: line `k` is the message `k` places after the one at the
  -- scroll position, at `14 * k` below the top of the clip; it begins inside the panel, and there are as
  -- many lines as do. With the scroll at zero, where a message puts it, the last line is the newest
  -- message, in a panel that has room for one line.
  pub log_panel-push_all :
      (m : Message) (ms : List Message) (scroll : ℕ)
      → let all = entries (m ∷ ms) in
        let ui = push_all ms (push_log m.ms m.msg m.color_hint new_ui) in
        let lines = log_panel fit dimmed now_ms y h (record ui { log_scroll = scroll }) in
        let first = first_shown h (kept all) scroll in
        (ui.log_scroll ≡ 0)
        × (length lines ≡ min (kept all - first) (rows h))
        × ((k : ℕ)
            → k < length lines
            → get_elem? lines k
              ≡ Option.map
                  (log_line fit dimmed now_ms (y + 26 + k * line_h))
                  (get_elem? all (length all - kept all + (first + k))))
        × ((k : ℕ) → k < length lines → y + 26 + k * line_h < y + h - 4)
        × (44 ≤ h → scroll ≡ 0 → first + length lines ≡ kept all)
  unfolding ui_log_snapshot
  log_panel-push_all m ms scroll =
      let shown = log_panel-get_elem? fit dimmed now_ms y h ui in
      (
        (ui_log_snapshot-push_all ui_log_max m ms).1,
        rw counted at shown.0,
        λ k lt. rw counted at (shown.1 k lt) ∙ ap (Option.map _) (message k),
        shown.2,
        λ room e. rw counted at (shown.3 room e),
      )
    where
      all : List UiLogEntry
      all = entries (m ∷ ms)

      ui : UiState
      ui = record (push_all ms (push_log m.ms m.msg m.color_hint new_ui)) { log_scroll = scroll }

      snap : ui_log_snapshot ui_log_max ui ≡ drop (length all - kept all) all
      snap =
          let e : length all - min ui_log_max ui_log_max ≡ length all - kept all = omega arith in
          (ui_log_snapshot-push_all ui_log_max m ms).0 ∙ ap (λ n. drop n all) e

      counted : length (ui_log_snapshot ui_log_max ui) ≡ kept all
      counted = omega (arith, ap length snap, length-drop (length all - kept all) all)

      message :
          (k : ℕ)
          → get_elem? (ui_log_snapshot ui_log_max ui) (first_shown h (kept all) scroll + k)
            ≡ get_elem? all (length all - kept all + (first_shown h (kept all) scroll + k))
      message k =
          ap (λ xs. get_elem? xs (first_shown h (kept all) scroll + k)) snap
          ∙ get_elem?-drop (length all - kept all) (first_shown h (kept all) scroll + k) all
