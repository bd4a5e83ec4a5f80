-- ===== src/Kernel/Example.antt =====
-- A kernel state for the tests: the descriptors 0, 1 and 2 in the queue of priority 8.
use cs452_kernel.Base.{ℕ, zero, suc, Option, none, some, false, update, ◌==◌, if◌then◌else◌}
use cs452_kernel.Kernel.Task.{Task, Tasks, ReadyState, state_ready, state_rply_wait}
use cs452_kernel.Kernel.State.{KernelData}

abbrev pub task_with : ReadyState → ℕ → Option ℕ → (ℕ → ℕ) → Task
task_with r n q regs = record {
  x = regs;
  pc = 0;
  sp = 0;
  pstate = 0;
  tid = n;
  parent = none;
  ready_state = r;
  priority = 8;
  next = q;
  waiting_senders_next = none;
  event_wait_next = none;
  slab_index = 0;
  stack_base = 0;
}

-- Task 0 sends 4 bytes from 1000 to task 52.
abbrev sender_regs : ℕ → ℕ
sender_regs i =
    if i == 0 then 9 else if i == 1 then 52 else if i == 2 then 1000 else if i == 3 then 4 else 0

-- Task 1 receives into 8 bytes at 2000, and the id of the sender at 5000.
abbrev receiver_regs : ℕ → ℕ
receiver_regs i =
    if i == 0 then 10 else if i == 1 then 5000 else if i == 2 then 2000 else if i == 3 then 8 else 0

-- Task 2 waits for a reply of at most 16 bytes.
abbrev replied_regs : ℕ → ℕ
replied_regs i = if i == 4 then 3000 else if i == 5 then 16 else 0

abbrev pub tasks : Tasks
tasks zero = task_with state_ready 51 (some 1) sender_regs
tasks (suc zero) = task_with state_ready 52 (some 2) receiver_regs
tasks (suc (suc t)) = task_with state_rply_wait 53 none replied_regs

abbrev pub no_task : ℕ → Option ℕ
no_task _ = none

abbrev pub kernel : KernelData
kernel = record {
  tasks = tasks;
  talloc = record { free_list = none; active_slabs = λ _. 0; task_count_in_slab = λ _. 0 };
  salloc = record { is_allocd = λ _. 0; base = 0 };
  tq = record {
    front = update no_task 8 (some 0);
    back = update no_task 8 (some 2);
    global_tid = 53;
  };
  eq = record { front = no_task; back = no_task };
  stopwatch = λ _. record { total_ticks = 0; start_tick = 0; started = false };
  mem = λ a. a;
  timer_cmp = λ _. 0;
}

-- The kernel with another value in a register.
abbrev pub with_reg : KernelData → ℕ → ℕ → ℕ → KernelData
with_reg k t i v = record k {
  tasks = update k.tasks t (record (k.tasks t) { x = update (k.tasks t).x i v });
}
