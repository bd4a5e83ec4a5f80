-- ===== src/Kernel/Main/Fair.antt =====
-- A round in which the task that was picked yields.
use cs452_kernel.Base.{ℕ, ◌≡◌, ◌≢◌, List, [], ◌∷◌, ◌++◌, false, update, ok, ◌==◌, if◌then◌else◌}
use cs452_kernel.Kernel.Task.{Task, Tasks, state_running, is_killed, is_running, set_ready_state}
use cs452_kernel.Kernel.TaskQueue.{task_queue_empty}
use cs452_kernel.Kernel.TaskQueue.Holds.{Holds}
use cs452_kernel.Kernel.State.{KernelData}
use cs452_kernel.Kernel.Stopwatch.{stopwatch_start, stopwatch_end, stpw_idle_task, stpw_user_task}
use cs452_kernel.Kernel.Main.{Reads, kernel_round}

module _ (user_start depth fuel idle_task_tid : ℕ) (task_activate : KernelData → ℕ → ℕ × KernelData)
    (regs : KernelData → ℕ → ℕ → ℕ)
    (came_back : (k : KernelData) (t : ℕ)
      → task_activate k t
        ≡ (1, record k { tasks = update k.tasks t (record (k.tasks t) { x = regs k t }) }))
    (yields : (k : KernelData) (t : ℕ) → regs k t 0 ≡ 4) where
  abbrev clock : KernelData → Reads → ℕ → ℕ
  clock k r t = if (k.tasks t).tid == idle_task_tid then stpw_idle_task else stpw_user_task

  -- The state in which the task is let run, and the one after its call.
  abbrev started : KernelData → Reads → ℕ → KernelData
  started k r t = record k {
    tasks = set_ready_state k.tasks t state_running;
    stopwatch = stopwatch_start k.stopwatch (clock k r t) r.started_at;
  }

  abbrev yielded : KernelData → Reads → ℕ → KernelData
  yielded k r t =
      let k₁ = started k r t in
      record k₁ {
        tasks = update k₁.tasks t (record (k₁.tasks t) { x = regs k₁ t });
        stopwatch = stopwatch_end k₁.stopwatch (clock k r t) r.ended_at;
      }

  -- A queued task that has an id and is not killed.
  abbrev pub IsAlive : Tasks → ℕ → Type 0
  IsAlive s t = (is_killed (s t).ready_state ≡ false) × ((s t).tid ≢ 0)

  -- The round ran `c`, and `c` stands again in its queue, ready, behind all others.
  abbrev pub Rotated : KernelData → Reads → (ℕ → List ℕ) → ℕ → List ℕ → ℕ → List ℕ → Type 0
  Rotated k r qs p pre c post =
      (k' : KernelData) × (kernel_round user_start depth fuel idle_task_tid task_activate k r
        ≡ ok (task_queue_empty k'.tq, k'))
      × Holds k'.tasks k'.tq (update qs p ((pre ++ post) ++ c ∷ []))
      × (is_running (k'.tasks c).ready_state ≡ false)
      × ((k'.tasks c).tid ≡ (k.tasks c).tid)
