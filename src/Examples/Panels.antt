-- ===== src/Examples/Panels.antt =====
-- The panels of the dashboard in the places that `main` gives them.
use tensor_sched.Prelude.{true, [], ◌∷◌, ◌≡◌, List, All, ◌⊎◌, arith, length}
use tensor_sched.Dashboard.{push_log, new_ui}
use tensor_sched.Dashboard.Log.{Message, push_all}
use tensor_sched.Scheduler.Records.{GanttRecord, blank_gantt}
use tensor_sched.Dashboard.GanttPanel.{gantt_panel}
use tensor_sched.Dashboard.GanttPanel.Legend.{IsHeading}
use tensor_sched.Dashboard.GanttPanel.Layout.{IsInside, gantt_panel-IsInside}
use tensor_sched.Dashboard.LogPanel.{log_panel}
use tensor_sched.Dashboard.LogPanel.History.{log_panel-push_all}

abbrev history : List GanttRecord
history =
    record blank_gantt { priority = 4; tick = 1 }
    ∷ record blank_gantt { worker = 3; priority = 2; mlfq_level = 1; tick = 1; preempted = true }
    ∷ []

-- Each label of the legend is 11 wide.
gantt_panel-IsInside_example :
    All
      (λ f. IsHeading 290 250 1144 f ⊎ IsInside 290 250 1144 462 f)
      (gantt_panel (λ l. 11) 0 290 250 1144 462 history)
gantt_panel-IsInside_example =
    (gantt_panel-IsInside (λ l. 11) 0 290 250 1144 462 history (omega arith) (omega arith)).0

abbrev hello : Message
hello = record { ms = 1; msg = b'H' ∷ []; color_hint = 5 }

-- Both messages are shown.
log_panel-push_all_example :
    length (
      log_panel
        (λ s. s)
        (λ a. a)
        90
        718
        156
        (record (push_all (hello ∷ []) (push_log 1 (b'H' ∷ []) 5 new_ui)) { log_scroll = 0 }))
    ≡ 2
log_panel-push_all_example =
    (log_panel-push_all (λ s. s) (λ a. a) 90 718 156 hello (hello ∷ []) 0).1
