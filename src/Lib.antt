-- ===== src/Lib.antt =====
-- TensorSched: a multi-level feedback queue scheduler with preemption, aging and a dashboard. Paths
-- below are in TensorSched/TensorSched/files (1)/.
--
-- The program. `submitJob` puts a job on the top level of the queue (job_queue.h). A dispatcher
-- thread (scheduler.cpp, `runDispatcher`) lets the queued jobs grow older, preempts running jobs that
-- have a better candidate in the queue, pops the best job and starts a worker thread for it. The
-- worker (`workerFunc`) asks the resource manager (resource_manager.h) for a slot and a share of the
-- budget, runs the job for a slice, gives all back, and finishes or requeues the job. An aging
-- thread (`runAging`) lifts jobs that have waited too long.
--
-- The files.
--   Job models job.h: `Job`, its enumerations and accessors. A `Job*` is a number, and a `Store` says
--     what stands at each; all components share the store, so a write through one pointer is seen
--     by all that keep it.
--   SingleLevelQueue and MlfqJobQueue model the two classes of job_queue.h, one function per method.
--     The chain of nodes from `head_` is a list of pointers; `size_` is kept apart, as in the source.
--     SingleLevelQueue.Rank has the order of a level by priorities and submission times, beside the
--     test that `push` runs. MlfqJobQueue.Interleaved lets threads take turns at the levels, one step
--     for each level that a call locks; Acts there names these steps, and Scans and Runs list those
--     that each call makes.
--   Semaphore is the interface of `sem_init`, `sem_wait` and `sem_post`, which the platform gives: a
--     parameter with the laws that POSIX documents, and a counter that satisfies them.
--   ResourceManager models resource_manager.h, one function per method; a method that waits returns
--     `none` where the caller blocks. ResourceManager.Ledger holds the abstract manager, a list of
--     grants, and Books ties the two together.
--   Ring models the ring buffers of scheduler.cpp (log and Gantt chart) and of main.cpp (the log of
--     the dashboard).
--   Scheduler models scheduler.h and scheduler.cpp. The state is one record. Scheduler.Worker cuts
--     `workerFunc` at its waits and critical sections, Scheduler.Dispatch holds a round of the
--     dispatcher, and thread creation is the pair of job and slot that the round returns.
--     Scheduler.Lifetime has the destructor and the two threads that `start` creates and `stop` joins.
--   Scheduler.System puts all threads over one scheduler: `Step` is a step of the dispatcher, of
--     the aging thread, of one of the workers (`Move`) or of a caller, and `Reach` holds what any
--     order of such steps leads to. A caller submits a job only where it is neither queued nor
--     with a worker. Its children carry an invariant through the steps, in which what a worker
--     gains, the shared state has given up; Running and Progress run the workers to their ends,
--     and Custody follows a job from place to place.
--   SemaphoreWin models semaphore_win.h over the semaphore objects of Win32, a parameter with the laws
--     that their documentation gives.
--   PthreadWin models pthread_win.h over the heap and the calls of Win32, again a parameter with laws:
--     the making, running and joining of a thread.
--   Dashboard models the state of main.cpp that is not drawing: the series of the sparklines, the
--     log with its scroll position, the order of the job table. Dashboard.NameField, Form and Presets
--     are what the text field, the form and the rows of buttons do with an event; Dashboard.Frame is a
--     frame of the main loop, which polls the events and shows the panels their last one.
--     Dashboard.Startup is `main` around that loop, and Fonts the fonts that it loads, over Sdl, the
--     calls of SDL and SDL_ttf as a parameter. Dashboard.GanttPanel, LogPanel and JobRows are what
--     three of the panels draw, in the colors and rectangles of Paint.
--   Double is the interface of the operations on `double` and of their rounding; Job.Progress and
--     Scheduler.Averages, the percentage of a job and `recalcStats`, are over it.
--   Prelude has the notation and the lemmas on lists, tests and integers; Examples runs the theorems
--     on a small workload.
--
-- Numbers. Counters, levels and clock readings are natural numbers, since the source only counts
-- them up from zero; what a caller passes in as an `int` (needs, burst, slot) is an integer. An `int`
-- does not overflow here: the counters would have to pass 2^31 - 1. Each reading of a clock is an
-- argument. The text of a log line is a parameter `text` of the event that it reports.
--
-- Fuel. `slice`, the loop of a worker, runs on fuel, one round each; a slice that is not interrupted
-- takes at most one round more than the ticks left of its quantum or its burst. All other loops are
-- structural.
--
-- Not modelled: the callbacks, the panels that are only text and floats, the rounded backgrounds and
-- the borders of the other panels, the wrappers of critical sections and condition variables for Windows. In
-- Scheduler.System thread creation does not fail, a call on the queue of levels is one step of its
-- thread though the code locks one level at a time (MlfqJobQueue.Interleaved has the finer steps), and
-- so is a run of writes to a worker's own job. The division of floats in a slider and in the fading
-- of a log line is a parameter.
pub mod Prelude
pub mod Job
pub mod SingleLevelQueue
pub mod MlfqJobQueue
pub mod Semaphore
pub mod SemaphoreWin
pub mod PthreadWin
pub mod Double
pub mod ResourceManager
pub mod Ring
pub mod Scheduler
pub mod Dashboard
pub mod Examples
