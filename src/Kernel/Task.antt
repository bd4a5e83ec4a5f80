-- ===== src/Kernel/Task.antt =====
-- kernel/include/task-state.h and include/task.h: the task descriptor, its states and priorities.
-- A task_t pointer is the index of the descriptor in the slabs of kernel/include/task-alloc.h,
-- `slab * N_TASK_T + place`, and NULL is `none`; the descriptors are a function from the index.
-- A register of 64 bits is its bit pattern.
use cs452_kernel.Base.{ℕ, Bool, true, false, Option, update}

pub data ReadyState : Type 0 where
  state_running state_ready state_send_wait state_rply_wait state_rcv_wait state_event_wait
        state_killed :
      ReadyState

-- enum PRIORITY. P_IDLE is 0 and N_PRIORITY the number of levels.
abbrev pub p_idle : ℕ
p_idle = 0

abbrev pub p_low : ℕ
p_low = 1

abbrev pub p_server_lo : ℕ
p_server_lo = 7

abbrev pub n_priority : ℕ
n_priority = 11

abbrev pub n_server_priority : ℕ
n_server_priority = 4

pub record Task : Type 0 where
  -- x0 to x30, by number
  pub x : ℕ → ℕ
  pub pc : ℕ
  pub sp : ℕ
  pub pstate : ℕ
  pub tid : ℕ
  pub parent : Option ℕ
  pub ready_state : ReadyState
  pub priority : ℕ
  pub next : Option ℕ
  pub waiting_senders_next : Option ℕ
  pub event_wait_next : Option ℕ
  pub slab_index : ℕ
  pub stack_base : ℕ

abbrev pub Tasks : Type 0
Tasks = ℕ → Task

abbrev pub is_ready_or_killed : ReadyState → Bool
is_ready_or_killed state_ready = true
is_ready_or_killed state_killed = true
is_ready_or_killed _ = false

abbrev pub is_running : ReadyState → Bool
is_running state_running = true
is_running _ = false

abbrev pub is_killed : ReadyState → Bool
is_killed state_killed = true
is_killed _ = false

abbrev pub is_rcv_wait : ReadyState → Bool
is_rcv_wait state_rcv_wait = true
is_rcv_wait _ = false

abbrev pub is_rply_wait : ReadyState → Bool
is_rply_wait state_rply_wait = true
is_rply_wait _ = false

-- One field of one descriptor written: `t->next = p` and the like.
abbrev pub set_next : Tasks → ℕ → Option ℕ → Tasks
set_next s t p = update s t (record (s t) { next = p })

abbrev pub set_ready_state : Tasks → ℕ → ReadyState → Tasks
set_ready_state s t r = update s t (record (s t) { ready_state = r })

abbrev pub set_tid : Tasks → ℕ → ℕ → Tasks
set_tid s t n = update s t (record (s t) { tid = n })

abbrev pub set_parent : Tasks → ℕ → Option ℕ → Tasks
set_parent s t p = update s t (record (s t) { parent = p })

abbrev pub set_event_wait_next : Tasks → ℕ → Option ℕ → Tasks
set_event_wait_next s t p = update s t (record (s t) { event_wait_next = p })

abbrev pub set_waiting_senders_next : Tasks → ℕ → Option ℕ → Tasks
set_waiting_senders_next s t p = update s t (record (s t) { waiting_senders_next = p })

abbrev pub set_x : Tasks → ℕ → ℕ → ℕ → Tasks
set_x s t i v = update s t (record (s t) { x = update (s t).x i v })
