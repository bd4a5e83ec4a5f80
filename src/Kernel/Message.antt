-- ===== src/Kernel/Message.antt =====
-- The message calls of `task_svc_handle` in kernel/src/task-state.c: SYS_MSG_SEND, SYS_MSG_RCV and
-- SYS_MSG_RPLY. `t` is the calling task.
pub mod Laws
pub mod Exchange
mod Tests
use cs452_kernel.Base.{
  ℕ, zero, suc, ◌%◌, ◌^◌, Bool, Option, none, some, if◌then◌else◌, update, Outcome, ok, fault, hang,
  ◌>>=◌, not,
}
use cs452_kernel.Memory.{Mem, memcpy, write_bytes}
use cs452_kernel.Kernel.Task.{
  Task, Tasks, ReadyState, state_ready, state_send_wait, state_rply_wait, state_rcv_wait,
  is_rcv_wait, is_rply_wait, set_ready_state, set_waiting_senders_next, set_x,
}
use cs452_kernel.Kernel.TaskQueue.{task_queue_get}
use cs452_kernel.Kernel.State.{KernelData, code_1, code_2, lt_signed, reg, set_x0}

-- `(a < b) ? a : b`, as the size_t that `memcpy` takes.
abbrev pub shorter : ℕ → ℕ → ℕ
shorter a b = if lt_signed a b then a else b

-- SYS_MSG_SEND to a task that waits in Receive.
unfoldable pub send_to_waiting : KernelData → ℕ → ℕ → KernelData
send_to_waiting k t rcv =
    let s₁ = set_ready_state k.tasks t state_rply_wait in
    let len = shorter ((s₁ t).x 3) ((s₁ rcv).x 3) in
    let m₁ = memcpy k.mem ((s₁ rcv).x 2) ((s₁ t).x 2) len in
    let m₂ = write_bytes m₁ ((s₁ rcv).x 1) (s₁ t).tid 4 in
    record k { mem = m₂; tasks = set_ready_state (set_x s₁ rcv 0 len) rcv state_ready }

-- `while (cur) { prev = cur; cur = rcv_t->waiting_senders_next; }`: what `prev` ends as.
unfoldable pub last_sender : ℕ → Tasks → ℕ → Option ℕ → Option ℕ → Outcome (Option ℕ)
last_sender zero s rcv prev cur = fault hang
last_sender (suc fuel) s rcv prev none = ok prev
last_sender (suc fuel) s rcv prev (some cur) =
    last_sender fuel s rcv (some cur) (s rcv).waiting_senders_next

-- SYS_MSG_SEND to a task that does not.
unfoldable pub send_and_wait : ℕ → KernelData → ℕ → ℕ → Outcome KernelData
unfolding last_sender
send_and_wait fuel k t rcv =
    let s₁ = set_ready_state k.tasks t state_send_wait in
    last_sender fuel s₁ rcv none (s₁ rcv).waiting_senders_next >>= λ prev. ok (elim prev [
      | none ↦ record k { tasks = set_waiting_senders_next s₁ rcv (some t) }
      | some p ↦ record k { tasks = set_waiting_senders_next s₁ p (some t) }
    ])

unfoldable pub sys_send : ℕ → KernelData → ℕ → Outcome KernelData
unfolding send_to_waiting send_and_wait
sys_send fuel k t = task_queue_get fuel k.tasks k.tq (reg k t 1 % 2 ^ 16) >>= elim [
  | none ↦ ok (set_x0 k t code_1)
  | some rcv ↦
      if is_rcv_wait (k.tasks rcv).ready_state
      then ok (send_to_waiting k t rcv)
      else send_and_wait fuel k t rcv
]

-- SYS_MSG_RCV with a sender that waits.
unfoldable pub receive_from : KernelData → ℕ → ℕ → KernelData
receive_from k t snd =
    let s₁ = set_waiting_senders_next k.tasks t (k.tasks snd).waiting_senders_next in
    let s₂ = set_waiting_senders_next s₁ snd none in
    let s₃ = set_ready_state s₂ snd state_rply_wait in
    let len = shorter ((s₃ t).x 3) ((s₃ snd).x 3) in
    let m₁ = memcpy k.mem ((s₃ t).x 2) ((s₃ snd).x 2) len in
    let m₂ = write_bytes m₁ ((s₃ t).x 1) (s₃ snd).tid 4 in
    record k { mem = m₂; tasks = set_x s₃ t 0 len }

unfoldable pub sys_receive : KernelData → ℕ → KernelData
unfolding receive_from
sys_receive k t = elim ((k.tasks t).waiting_senders_next) [
  | none ↦ record k { tasks = set_ready_state k.tasks t state_rcv_wait }
  | some snd ↦ receive_from k t snd
]

-- SYS_MSG_RPLY to a task that waits for the reply.
unfoldable pub reply_to : KernelData → ℕ → ℕ → KernelData
reply_to k t snd =
    let s = k.tasks in
    let len = shorter ((s snd).x 5) ((s t).x 3) in
    let m₁ = memcpy k.mem ((s snd).x 4) ((s t).x 2) len in
    record k {
      mem = m₁;
      tasks = set_ready_state (set_x (set_x s t 0 len) snd 0 len) snd state_ready;
    }

unfoldable pub sys_reply : ℕ → KernelData → ℕ → Outcome KernelData
unfolding reply_to
sys_reply fuel k t = task_queue_get fuel k.tasks k.tq (reg k t 1 % 2 ^ 16) >>= elim [
  | none ↦ ok (set_x0 k t code_1)
  | some snd ↦
      if not (is_rply_wait (k.tasks snd).ready_state)
      then ok (set_x0 k t code_2)
      else ok (reply_to k t snd)
]
