-- ===== src/Kernel/Syscall.antt =====
-- kernel/src/task-state.c: the start of a task, its end, and `task_svc_handle`, which answers the system
-- call of the task `t` by the number in its x0. `user_start` is the address of the entry routine, and
-- `now` the low word of the system timer at the call.
pub mod Laws
use cs452_kernel.Base.{
  ℕ, zero, suc, ◌+◌, ◌-◌, ◌*◌, ◌%◌, ◌^◌, Bool, true, false, not, ◌&&◌, ◌||◌, Option, none, some,
  ltb, leb, ◌==◌, if◌then◌else◌, update, same_ptr, Outcome, ok, fault, panic, ◌>>=◌, ℤ, pos, negsuc,
}
use cs452_kernel.Memory.{Mem, write_bytes}
use cs452_kernel.Kernel.Task.{
  Task, Tasks, ReadyState, state_ready, state_killed, n_priority, p_server_lo, set_ready_state,
}
use cs452_kernel.Kernel.TaskQueue.{
  TaskQueue, task_queue_add, task_queue_get, task_queue_free_tid, task_queue_kill_children,
}
use cs452_kernel.Kernel.EventQueue.{EventQueue, timer_tick, event_queue_block}
use cs452_kernel.Kernel.StackAlloc.{StackAlloc, stack_alloc_new, stack_alloc_free}
use cs452_kernel.Kernel.TaskAlloc.{TaskAlloc, task_alloc_new, task_alloc_free}
use cs452_kernel.Kernel.Stopwatch.{stopwatch_get_total_ticks, stpw_idle_task, stpw_user_task}
use cs452_kernel.Kernel.State.{KernelData, code_1, code_2, lt_signed, reg, set_x0}
use cs452_kernel.Kernel.Message.{sys_send, sys_receive, sys_reply}

-- enum SYSCALL_N
pub data Syscall : Type 0 where
  sys_creat sys_tid sys_ptid sys_yield sys_exit sys_idle_status sys_kill sys_kill_child sys_msg_send
        sys_msg_rcv sys_msg_rply sys_await :
      Syscall

abbrev pub decode : ℕ → Option Syscall
decode n =
    if n == 1
    then some sys_creat
    else if n == 2
    then some sys_tid
    else if n == 3
    then some sys_ptid
    else if n == 4
    then some sys_yield
    else if n == 5
    then some sys_exit
    else if n == 6
    then some sys_idle_status
    else if n == 7
    then some sys_kill
    else if n == 8
    then some sys_kill_child
    else if n == 9
    then some sys_msg_send
    else if n == 10
    then some sys_msg_rcv
    else if n == 11
    then some sys_msg_rply
    else if n == 12
    then some sys_await
    else none

unfoldable pub task_init :
    ℕ → Tasks → ℕ → ℕ → Option ℕ → ℕ → StackAlloc → Outcome (Tasks × StackAlloc)
task_init user_start s t function parent priority salloc = stack_alloc_new salloc >>= λ r. ok (
  update s t (record (s t) {
    x = λ i. if i == 0 then function else 0;
    pc = user_start;
    sp = r.0;
    pstate = 0;
    parent = parent;
    priority = priority;
    ready_state = state_ready;
    stack_base = r.0;
  }),
  r.1,
)

-- SYS_CREAT once a descriptor is there.
unfoldable pub create_task : ℕ → ℕ → KernelData → ℕ → ℕ → Outcome KernelData
unfolding task_init
create_task user_start fuel k t new_task =
    task_init user_start k.tasks new_task (reg k t 2) (some t) (reg k t 1) k.salloc >>= λ r.
    task_queue_add fuel r.0 k.tq new_task >>= λ q.
    let k' : KernelData = record k { tasks = q.1; tq = q.2; salloc = r.1 } in
    ok (elim (q.0) [ pos tid ↦ set_x0 k' t tid | negsuc n ↦ set_x0 k' t code_2 ])

unfoldable pub svc_create : ℕ → ℕ → KernelData → ℕ → Outcome KernelData
unfolding create_task
svc_create user_start fuel k t =
    let made = task_alloc_new fuel k.tasks k.talloc >>= λ r.
    let k' : KernelData = record k { tasks = r.1; talloc = r.2 } in
    elim (r.0) [
      | none ↦ ok (set_x0 k' t code_2)
      | some new_task ↦ create_task user_start fuel k' t new_task
    ] in
    if not (lt_signed (reg k t 1) 0) && lt_signed (reg k t 1) n_priority
    then made
    else ok (set_x0 k t code_1)

unfoldable pub svc_parent_tid : KernelData → ℕ → KernelData
svc_parent_tid k t = elim ((k.tasks t).parent) [
  | none ↦ set_x0 k t 0
  | some p ↦ set_x0 k t (k.tasks p).tid
]

unfoldable pub svc_kill_child : ℕ → ℕ → KernelData → ℕ → Outcome KernelData
svc_kill_child depth fuel k t =
    task_queue_kill_children depth fuel k.tasks k.tq (k.tasks t).tid >>= λ s.
    ok (record k { tasks = s })

-- `child` is the task that was found, which `t` may kill.
unfoldable pub kill_task : ℕ → ℕ → KernelData → ℕ → ℕ → Outcome KernelData
kill_task depth fuel k t child =
    let s₁ = set_ready_state k.tasks child state_killed in
    task_queue_kill_children depth fuel s₁ k.tq (s₁ child).tid >>= λ s.
    ok (set_x0 (record k { tasks = s }) t 0)

unfoldable pub svc_kill : ℕ → ℕ → KernelData → ℕ → Outcome KernelData
unfolding kill_task
svc_kill depth fuel k t = task_queue_get fuel k.tasks k.tq (reg k t 1 % 2 ^ 16) >>= elim [
  | none ↦ ok (set_x0 k t code_1)
  | some child ↦
      if same_ptr (k.tasks child).parent (some t) || leb p_server_lo (k.tasks t).priority
      then kill_task depth fuel k t child
      else ok (set_x0 k t code_1)
]

-- Two uint64_t are written through the task's pointers.
unfoldable pub svc_idle_status : KernelData → ℕ → KernelData
svc_idle_status k t =
    let m₁ =
      write_bytes k.mem (reg k t 1) (stopwatch_get_total_ticks k.stopwatch stpw_idle_task) 8 in
    record k {
      mem = write_bytes m₁ (reg k t 2) (stopwatch_get_total_ticks k.stopwatch stpw_user_task) 8;
    }

-- The int of a register.
abbrev pub int_of : ℕ → ℤ
int_of p = let low = p % 2 ^ 32 in if ltb low (2 ^ 31) then pos low else negsuc (2 ^ 32 - low - 1)

-- `trigger_interrupt` of kernel/src/interrupts.c for a valid event, with `set_timer`: 10 ms from now.
unfoldable pub trigger_interrupt : ℕ → (ℕ → ℕ) → ℤ → ℕ → ℕ
trigger_interrupt now timer_cmp (pos e) =
    if e == timer_tick then update timer_cmp 1 ((now + 10 * 1000) % 2 ^ 32) else timer_cmp
trigger_interrupt now timer_cmp (negsuc n) = timer_cmp

unfoldable pub svc_await : ℕ → KernelData → ℕ → KernelData
unfolding trigger_interrupt
svc_await now k t =
    let e = int_of (reg k t 1) in
    let (valid, s', eq') = event_queue_block k.tasks k.eq t e in
    if valid
    then set_x0 (record k { tasks = s'; eq = eq'; timer_cmp = trigger_interrupt now k.timer_cmp e })
        t 0
    else set_x0 k t code_1

-- The first fuel bounds the depth of `task_queue_kill_children`, the second every loop.
unfoldable pub answer : ℕ → ℕ → ℕ → ℕ → KernelData → ℕ → Option Syscall → Outcome KernelData
unfolding svc_create svc_parent_tid svc_kill_child svc_kill svc_idle_status svc_await
answer user_start now depth fuel k t none = fault panic
answer user_start now depth fuel k t (some sys_creat) = svc_create user_start fuel k t
answer user_start now depth fuel k t (some sys_tid) = ok (set_x0 k t (k.tasks t).tid)
answer user_start now depth fuel k t (some sys_ptid) = ok (svc_parent_tid k t)
answer user_start now depth fuel k t (some sys_yield) = ok k
answer user_start now depth fuel k t (some sys_exit) =
    ok (record k { tasks = set_ready_state k.tasks t state_killed })
answer user_start now depth fuel k t (some sys_idle_status) = ok (svc_idle_status k t)
answer user_start now depth fuel k t (some sys_kill) = svc_kill depth fuel k t
answer user_start now depth fuel k t (some sys_kill_child) = svc_kill_child depth fuel k t
answer user_start now depth fuel k t (some sys_msg_send) = sys_send fuel k t
answer user_start now depth fuel k t (some sys_msg_rcv) = ok (sys_receive k t)
answer user_start now depth fuel k t (some sys_msg_rply) = sys_reply fuel k t
answer user_start now depth fuel k t (some sys_await) = ok (svc_await now k t)

unfoldable pub task_svc_handle : ℕ → ℕ → ℕ → ℕ → KernelData → ℕ → Outcome KernelData
unfolding answer
task_svc_handle user_start now depth fuel k t =
    answer user_start now depth fuel k t (decode (reg k t 0))

unfoldable pub task_dealloc : ℕ → KernelData → ℕ → Outcome KernelData
task_dealloc fuel k t = task_queue_free_tid fuel k.tasks k.tq (k.tasks t).tid >>= λ s.
    stack_alloc_free k.salloc (s t).stack_base >>= λ salloc.
    task_alloc_free fuel s k.talloc (some t) >>= λ r.
    ok (record k { tasks = r.0; talloc = r.1; salloc = salloc })
