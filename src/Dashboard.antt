-- ===== src/Dashboard.antt =====
-- The state of the dashboard in main.cpp that is not drawing.
pub mod Sdl
pub mod Fonts
pub mod Startup
pub mod Paint
pub mod GanttPanel
pub mod LogPanel
pub mod JobRows
pub mod JobTable
pub mod Sparkline
pub mod Log
pub mod NameField
pub mod Form
pub mod Presets
pub mod Frame
use tensor_sched.Prelude.{
  ℕ, zero, suc, ◌+◌, ◌-◌, ◌%◌, List, [], ◌∷◌, ltb, if◌then◌else◌, get_or, set, replicate, length,
  take,
}
use tensor_sched.Job.{JobStatus, Store}
use tensor_sched.Ring
use tensor_sched.Ring.{Ring}

-- `rankStatus` of `drawJobTable`.
abbrev pub rank_status : JobStatus → ℕ
rank_status JobStatus.running = 0
rank_status JobStatus.preempted = 1
rank_status JobStatus.ready = 2
rank_status JobStatus.waiting = 3
rank_status JobStatus.completed = 4
rank_status JobStatus.failed = 5

abbrev pub rank : Store → ℕ → ℕ
rank h p = rank_status (h p).status

-- The inner loop, `place` being `j + 1`: entries of a greater rank move up by one, and `key` goes
-- below them. Entries are read in range only.
unfoldable pub shift : Store → ℕ → ℕ → List ℕ → List ℕ
shift h key zero buf = set buf 0 key
shift h key (suc j) buf =
    let moved = shift h key j (set buf (suc j) (get_or buf j 0)) in
    if ltb (rank h key) (rank h (get_or buf j 0)) then moved else set buf (suc j) key

-- The outer loop from `i` on, with `rounds` left.
unfoldable pub sort_from : Store → ℕ → ℕ → List ℕ → List ℕ
sort_from h i zero buf = buf
sort_from h i (suc rounds) buf = sort_from h (suc i) rounds (shift h (get_or buf i 0) i buf)

-- The jobs of the table, over statuses that do not change meanwhile.
unfoldable pub sort_jobs : Store → List ℕ → List ℕ
sort_jobs h buf = sort_from h 1 (length buf - 1) buf

abbrev pub spark_len : ℕ
spark_len = 120

-- The values are of any type, with `blank` the one that the array begins with.
pub record SparkData {ℓ} (A : Type ℓ) : Type ℓ where
  pub data_ : List A
  pub head : ℕ

unfoldable pub new_spark {ℓ} : {A : Type ℓ} → A → SparkData A
new_spark blank = record { data_ = replicate spark_len blank; head = 0 }

unfoldable pub push_value {ℓ} : {A : Type ℓ} → A → SparkData A → SparkData A
push_value v s = record { data_ = set s.data_ s.head v; head = (s.head + 1) % spark_len }

unfoldable pub get_value {ℓ} : {A : Type ℓ} → A → SparkData A → ℕ → A
get_value blank s i = get_or s.data_ ((s.head + i) % spark_len) blank

pub record UiLogEntry : Type 0 where
  pub text : List ℕ
  pub color_hint : ℕ
  pub born_ms : ℕ

abbrev pub ui_log_max : ℕ
ui_log_max = 512

abbrev pub blank_entry : UiLogEntry
blank_entry = record { text = []; color_hint = 0; born_ms = 0 }

-- The fields that logging touches.
pub record UiState : Type 0 where
  pub log_scroll : ℕ
  pub log_entries : Ring UiLogEntry

unfoldable pub new_ui : UiState
new_ui = record { log_scroll = 0; log_entries = Ring.new_ring ui_log_max blank_entry }

abbrev pub ui_entry : ℕ → List ℕ → ℕ → UiLogEntry
ui_entry ms msg color_hint = record { text = take 255 msg; color_hint = color_hint; born_ms = ms }

-- `ms` is what `SDL_GetTicks` returns.
unfoldable pub push_log : ℕ → List ℕ → ℕ → UiState → UiState
push_log ms msg color_hint ui = record {
  log_scroll = 0;
  log_entries = Ring.add ui_log_max (ui_entry ms msg color_hint) ui.log_entries;
}

unfoldable pub ui_log_snapshot : ℕ → UiState → List UiLogEntry
ui_log_snapshot max_count ui = Ring.snapshot ui_log_max blank_entry max_count ui.log_entries
