-- ===== src/Kernel/State.antt =====
-- The state that the kernel's parts share while it handles a system call: the arguments of
-- `task_svc_handle` in kernel/src/task-state.c, the memory behind the tasks' pointers, and the compare
-- registers of the system timer.
use cs452_kernel.Base.{ℕ, ◌+◌, ◌-◌, ◌%◌, ◌^◌, Bool, ltb}
use cs452_kernel.Memory.{Mem}
use cs452_kernel.Kernel.Task.{Tasks, set_x}
use cs452_kernel.Kernel.TaskQueue.{TaskQueue}
use cs452_kernel.Kernel.EventQueue.{EventQueue}
use cs452_kernel.Kernel.StackAlloc.{StackAlloc}
use cs452_kernel.Kernel.TaskAlloc.{TaskAlloc}
use cs452_kernel.Kernel.Stopwatch.{Stopwatch}

pub record KernelData : Type 0 where
  pub tasks : Tasks
  pub talloc : TaskAlloc
  pub salloc : StackAlloc
  pub tq : TaskQueue
  pub eq : EventQueue
  pub stopwatch : Stopwatch
  pub mem : Mem
  pub timer_cmp : ℕ → ℕ

-- The 64-bit patterns of -1 and -2.
abbrev pub code_1 : ℕ
code_1 = 2 ^ 64 - 1

abbrev pub code_2 : ℕ
code_2 = 2 ^ 64 - 2

-- `a < b` on the int64_t that two patterns stand for.
abbrev pub lt_signed : ℕ → ℕ → Bool
lt_signed a b = ltb ((a + 2 ^ 63) % 2 ^ 64) ((b + 2 ^ 63) % 2 ^ 64)

-- Register `i` of task `t`.
abbrev pub reg : KernelData → ℕ → ℕ → ℕ
reg k t i = (k.tasks t).x i

-- `t->x0 = v`
abbrev pub set_x0 : KernelData → ℕ → ℕ → KernelData
set_x0 k t v = record k { tasks = set_x k.tasks t 0 v }
