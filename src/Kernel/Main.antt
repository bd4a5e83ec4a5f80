-- ===== src/Kernel/Main.antt =====
-- One round of the loop of `kernel_main`, kernel/src/kernel.c. The context switch, which runs the task
-- until it comes back with a handler code, is a parameter, as are the entry address of the tasks, the
-- fuels, the id of the idle task, and what the devices and the timer read in the round.
pub mod Fair
mod Tests
use cs452_kernel.Base.{
  ℕ, Bool, ◌==◌, if◌then◌else◌, none, some, Outcome, ok, fault, null_deref, panic, ◌>>=◌,
}
use cs452_kernel.Kernel.Task.{state_running, is_killed, set_ready_state}
use cs452_kernel.Kernel.TaskQueue.{task_queue_schedule, task_queue_add, task_queue_empty}
use cs452_kernel.Kernel.Stopwatch.{stopwatch_start, stopwatch_end, stpw_idle_task, stpw_user_task}
use cs452_kernel.Kernel.State.{KernelData}
use cs452_kernel.Kernel.Interrupts.{Devices, handle_interrupt, flag_set}
use cs452_kernel.Kernel.Syscall.{task_svc_handle, task_dealloc}

-- What a round reads: the time at its start and its end, the low word of the timer, and the devices.
pub record Reads : Type 0 where
  pub started_at : ℕ
  pub ended_at : ℕ
  pub now : ℕ
  pub devices : Devices

module _ (user_start depth fuel idle_task_tid : ℕ)
    (task_activate : KernelData → ℕ → ℕ × KernelData) where
  -- The branches on the handler code.
  unfoldable pub handle : ℕ → KernelData → Reads → ℕ → Outcome KernelData
  handle handler k r t =
      let interrupted = handle_interrupt fuel k.tasks k.eq r.devices >>= λ q.
      ok (record k { tasks = q.0; eq = q.1 }) in
      if flag_set handler 1
      then task_svc_handle user_start r.now depth fuel k t
      else if flag_set handler 2
      then interrupted
      else fault panic

  -- From the choice of a task that is ready to the end of the handler.
  unfoldable pub run_task : KernelData → Reads → ℕ → Outcome KernelData
  unfolding handle
  run_task k r t =
      let stpw = if (k.tasks t).tid == idle_task_tid then stpw_idle_task else stpw_user_task in
      let k₁ : KernelData = record k {
        tasks = set_ready_state k.tasks t state_running;
        stopwatch = stopwatch_start k.stopwatch stpw r.started_at;
      } in
      let (handler, k₂) = task_activate k₁ t in
      handle handler (record k₂ { stopwatch = stopwatch_end k₂.stopwatch stpw r.ended_at }) r t

  -- The task goes back to its queue, or its parts are freed.
  unfoldable pub put_back : KernelData → ℕ → Outcome KernelData
  put_back k t =
      let queued =
        task_queue_add fuel k.tasks k.tq t >>= λ q. ok (record k { tasks = q.1; tq = q.2 }) in
      if is_killed (k.tasks t).ready_state then task_dealloc fuel k t else queued

  -- The state after a round, and whether the loop ends there.
  unfoldable pub kernel_round : KernelData → Reads → Outcome (Bool × KernelData)
  unfolding run_task put_back
  kernel_round k r = task_queue_schedule fuel k.tasks k.tq >>= elim [
    | none ↦ fault null_deref
    | some c ↦
        let (t, s, tq) = c in
        let k₁ : KernelData = record k { tasks = s; tq = tq } in
        let ran = run_task k₁ r t >>= λ k'. put_back k' t in
        (if is_killed (s t).ready_state then task_dealloc fuel k₁ t else ran) >>= λ k₂.
        ok (task_queue_empty k₂.tq, k₂)
  ]
