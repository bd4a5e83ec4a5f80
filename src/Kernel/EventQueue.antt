-- ===== src/Kernel/EventQueue.antt =====
-- include/events.h, kernel/include/event-queue.h and kernel/src/event-queue.c: for each event the
-- tasks that wait for it, linked through `event_wait_next`.
pub mod Waits
pub mod Unblock
mod Tests
use cs452_kernel.Base.{
  ℕ, zero, suc, ◌+◌, ◌-◌, ◌%◌, ◌^◌, Bool, true, false, ◌&&◌, Option, none, some, ltb, leb,
  if◌then◌else◌, update, is_none, Outcome, ok, fault, hang, ℤ, pos, negsuc,
}
use cs452_kernel.Kernel.Task.{
  Task, Tasks, ReadyState, state_ready, state_event_wait, set_event_wait_next, set_ready_state,
  set_x,
}

-- enum EVENT
abbrev pub timer_tick : ℕ
timer_tick = 0

abbrev pub console_rx : ℕ
console_rx = 1

abbrev pub marklin_rx : ℕ
marklin_rx = 2

abbrev pub marklin_cts : ℕ
marklin_cts = 3

abbrev pub n_events : ℕ
n_events = 4

pub record EventQueue : Type 0 where
  pub front : ℕ → Option ℕ
  pub back : ℕ → Option ℕ

unfoldable pub event_queue_init : EventQueue → EventQueue
event_queue_init eq = record { front = λ _. none; back = λ _. none }

-- The body of `event_queue_block` for a valid event.
unfoldable pub block_valid : Tasks → EventQueue → ℕ → ℕ → Tasks × EventQueue
block_valid s eq t e = elim (eq.back e) [
  | none ↦ (
    set_ready_state s t state_event_wait,
    record eq { front = update eq.front e (some t); back = update eq.back e (some t) },
  )
  | some b ↦ (
    set_ready_state (set_event_wait_next s b (some t)) t state_event_wait,
    record eq { back = update eq.back e (some t) },
  )
]

-- `event_id` is an int.
unfoldable pub event_queue_block : Tasks → EventQueue → ℕ → ℤ → Bool × Tasks × EventQueue
unfolding block_valid
event_queue_block s eq t (pos e) =
    if ltb e n_events
    then (let (s', eq') = block_valid s eq t e in (true, s', eq'))
    else (false, s, eq)
event_queue_block s eq t (negsuc n) = (false, s, eq)

-- The value goes into x0 as the 64-bit pattern of the int.
abbrev pub int_pattern : ℤ → ℕ
int_pattern (pos n) = n % 2 ^ 64
int_pattern (negsuc n) = (2 ^ 64 - 1) - n % 2 ^ 64

-- The body of `event_queue_unblock_one` for a waiting task.
unfoldable pub unblock_head : Tasks → EventQueue → ℕ → ℤ → ℕ → Tasks × EventQueue
unblock_head s eq e retval head =
    let eq₁ : EventQueue = record eq { front = update eq.front e (s head).event_wait_next } in
    let (s₂, eq₂) : Tasks × EventQueue =
      if is_none (s head).event_wait_next
      then (s, record eq₁ { back = update eq₁.back e none })
      else (set_event_wait_next s head none, eq₁) in
    (set_ready_state (set_x s₂ head 0 (int_pattern retval)) head state_ready, eq₂)

unfoldable pub event_queue_unblock_one : Tasks → EventQueue → ℕ → ℤ → Bool × Tasks × EventQueue
unfolding unblock_head
event_queue_unblock_one s eq e retval = elim (eq.front e) [
  | none ↦ (false, s, eq)
  | some head ↦ (let (s', eq') = unblock_head s eq e retval head in (true, s', eq'))
]

-- The loop of `event_queue_unblock_all`; the fuel counts its calls of `event_queue_unblock_one`.
unfoldable pub unblock_loop : ℕ → Tasks → EventQueue → ℕ → ℤ → Outcome (Tasks × EventQueue)
unblock_loop zero s eq e retval = fault hang
unblock_loop (suc fuel) s eq e retval =
    let (more, s', eq') = event_queue_unblock_one s eq e retval in
    let rest = unblock_loop fuel s' eq' e retval in if more then rest else ok (s', eq')

unfoldable pub event_queue_unblock_all :
    ℕ → Tasks → EventQueue → ℕ → ℤ → Outcome (Bool × Tasks × EventQueue)
unfolding unblock_loop
event_queue_unblock_all fuel s eq e retval = elim (eq.front e) [
  | none ↦ ok (false, s, eq)
  | some head ↦ (elim (unblock_loop fuel s eq e retval) [
    | ok (s', eq') ↦ ok (true, s', eq')
    | fault f ↦ fault f
  ])
]
