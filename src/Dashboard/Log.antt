-- ===== src/Dashboard/Log.antt =====
-- The log of the dashboard.
use Prim.Native.Nat.{min}
use tensor_sched.Prelude.{ℕ, ◌-◌, List, [], ◌∷◌, ◌≡◌, refl, ap, ◌∙◌, arith, length, drop}
use tensor_sched.Ring
use tensor_sched.Ring.History.{add_all, snapshot-add_all}
use tensor_sched.Dashboard.{
  UiLogEntry, UiState, ui_entry, ui_log_max, blank_entry, new_ui, push_log, ui_log_snapshot,
}

-- A message with the time that it came at and its color.
pub record Message : Type 0 where
  pub ms : ℕ
  pub msg : List ℕ
  pub color_hint : ℕ

abbrev pub entries : List Message → List UiLogEntry
entries [] = []
entries (m ∷ ms) = ui_entry m.ms m.msg m.color_hint ∷ entries ms

abbrev pub push_all : List Message → UiState → UiState
push_all [] ui = ui
push_all (m ∷ ms) ui = push_all ms (push_log m.ms m.msg m.color_hint ui)

push_all-add_all :
    (ms : List Message) (ui : UiState)
    → (push_all ms ui).log_entries ≡ add_all ui_log_max blank_entry (entries ms) ui.log_entries
unfolding push_log
push_all-add_all [] ui = refl
push_all-add_all (m ∷ ms) ui = push_all-add_all ms (push_log m.ms m.msg m.color_hint ui)

push_all-scroll :
    (ms : List Message) (ui : UiState) → ui.log_scroll ≡ 0 → (push_all ms ui).log_scroll ≡ 0
unfolding push_log
push_all-scroll [] ui e = e
push_all-scroll (m ∷ ms) ui e = push_all-scroll ms (push_log m.ms m.msg m.color_hint ui) refl

pub ui_log_snapshot-push_all :
    (n : ℕ) (m : Message) (ms : List Message)
    → let ui = push_all ms (push_log m.ms m.msg m.color_hint new_ui) in
      (ui_log_snapshot n ui
        ≡ drop (length (entries (m ∷ ms)) - min n ui_log_max) (entries (m ∷ ms)))
      × (ui.log_scroll ≡ 0)
unfolding ui_log_snapshot new_ui push_log
ui_log_snapshot-push_all n m ms = (
  ap (Ring.snapshot ui_log_max blank_entry n) (push_all-add_all (m ∷ ms) new_ui)
      ∙ snapshot-add_all ui_log_max blank_entry n (entries (m ∷ ms)) (omega arith),
  push_all-scroll ms (push_log m.ms m.msg m.color_hint new_ui) refl,
)
