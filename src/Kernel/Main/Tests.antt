-- ===== src/Kernel/Main/Tests.antt =====
-- A round with one task.
use cs452_kernel.Base.{ℕ, List, [], none, pos}
use cs452_kernel.Kernel.TaskQueue.Holds.{Holds}
use cs452_kernel.Kernel.State.{KernelData}
use cs452_kernel.Kernel.Main.{Reads}
use cs452_kernel.Kernel.Example.{kernel, no_task}
use cs452_kernel.Base.{update, ◌∷◌, some}

-- Task 0 alone, in the queue of priority 8.
abbrev alone : KernelData
alone = record kernel {
  tasks = update kernel.tasks 0 (record (kernel.tasks 0) { next = none });
  tq = record {
    front = update no_task 8 (some 0);
    back = update no_task 8 (some 0);
    global_tid = 53;
  };
}

abbrev no_list : ℕ → List ℕ
no_list _ = []

abbrev qs : ℕ → List ℕ
qs = update no_list 8 (0 ∷ [])

-- The task comes back with the call SYS_YIELD.
abbrev yielding : KernelData → ℕ → ℕ × KernelData
yielding k t = (1, record k { tasks = update k.tasks t (record (k.tasks t) { x = λ _. 4 }) })

abbrev reads : Reads
reads = record {
  started_at = 5;
  ended_at = 9;
  now = 9;
  devices = record {
    interrupt_id = 97;
    marklin_interrupt = 0;
    cts_status = pos 0;
    marklin_char = pos 0;
    console_interrupt = 0;
  };
}

-- The registers with which a task comes back.
abbrev yield_regs : KernelData → ℕ → ℕ → ℕ
yield_regs k t i = 4
