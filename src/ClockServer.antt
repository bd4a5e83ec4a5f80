-- ===== src/ClockServer.antt =====
-- include/clock.h, src/clock-server.c and src/clock.c: the server that wakes tasks at their ticks, over
-- the clock queue, and the calls of its clients. The time at each reading is an argument.
pub mod Laws
mod Tests
use cs452_kernel.Base.{
  ℕ, zero, suc, ◌+◌, ◌-◌, ◌*◌, ◌/◌, ◌%◌, ◌^◌, Bool, true, false, ltb, ◌==◌, if◌then◌else◌, List, [],
  ◌∷◌, ◌++◌, Outcome, ok, fault, hang, ◌>>=◌, ℤ, pos, negsuc, minus_one,
}
use cs452_kernel.ClockQueue.{ClockQueue, clock_queue_ready, clock_queue_get, clock_queue_add}

pub data ClockMsgType : Type 0 where
  clockserver_time clockserver_delay clockserver_delay_until clockserver_notify : ClockMsgType
  clockserver_awake clockserver_ok clockserver_error clockserver_max : ClockMsgType

pub record MsgClockserver : Type 0 where
  pub type : ClockMsgType
  pub requester_tid : ℕ
  pub clock_tick : ℕ

-- A Reply to a task.
abbrev pub ClockReply : Type 0
ClockReply = ℕ × MsgClockserver

abbrev pub clock_reply : ClockMsgType → ℕ → ℕ → ClockReply
clock_reply type tid tick =
    (tid, record { type = type; requester_tid = tid % 2 ^ 16; clock_tick = tick })

-- The loop wakes the tasks that are due, and ends at a task without an id.
unfoldable pub dequeue_all_ready : ℕ → ClockQueue → ℕ → Outcome (ClockQueue × List ClockReply)
unfolding clock_queue_ready clock_queue_get
dequeue_all_ready zero cq now = fault hang
dequeue_all_ready (suc fuel) cq now =
    let (tid, cq') = clock_queue_get cq now in
    let further = dequeue_all_ready fuel cq' now >>= λ (q, replies).
    ok (q, clock_reply clockserver_awake tid now ∷ replies) in
    if clock_queue_ready cq now
    then (if tid == 0 then ok (cq', clock_reply clockserver_error tid 0 ∷ []) else further)
    else ok (cq, [])

-- One round of `clockserver_main`: the queue after a message, and the replies. `now` is the first time
-- that is read, and `later` the one that is read for the notifier.
unfoldable pub clockserver_handle :
    ℕ → ClockQueue → ℕ → MsgClockserver → ℕ → ℕ → Outcome (ClockQueue × List ClockReply)
unfolding dequeue_all_ready clock_queue_add
clockserver_handle fuel cq sender msg now later =
    elim (msg.type) as (λ _. Outcome (ClockQueue × List ClockReply)) [
      | clockserver_time ↦ ok (cq, clock_reply clockserver_time msg.requester_tid now ∷ [])
      | clockserver_delay ↦
          clock_queue_add fuel cq msg.requester_tid ((now + msg.clock_tick) % 2 ^ 64) >>= λ q.
          ok (q, [])
      | clockserver_delay_until ↦
          clock_queue_add fuel cq msg.requester_tid msg.clock_tick >>= λ q. ok (q, [])
      | clockserver_notify ↦ dequeue_all_ready fuel cq now >>= λ (q, replies).
          ok (q, replies ++ clock_reply clockserver_ok sender later ∷ [])
      | _ ↦ ok (cq, clock_reply clockserver_error sender 0 ∷ [])
    ]

-- SYSTICKS_CLOCKTICK_UNIT of include/sys-clock.h.
abbrev pub systicks_clocktick_unit : ℕ
systicks_clocktick_unit = 1000 * 10

-- The result is an int: the pattern of its 32 bits stands for one that is not negative.
abbrev clock_result : ℤ → MsgClockserver → ℤ
clock_result (pos ret) msg = elim (msg.type) as (λ _. ℤ) [
  | clockserver_error ↦ minus_one
  | _ ↦ pos (msg.clock_tick / systicks_clocktick_unit % 2 ^ 32)
]
clock_result (negsuc ret) msg = minus_one

-- The product of the unit and an int, a uint64_t.
abbrev in_systicks : ℤ → ℕ
in_systicks (pos ticks) = systicks_clocktick_unit * ticks % 2 ^ 64
in_systicks (negsuc n) = (2 ^ 64 - systicks_clocktick_unit * (n + 1) % 2 ^ 64) % 2 ^ 64

-- The calls of a client. `junk` is what a message holds before it is filled in, and `send` the Send of
-- the kernel.
module _ {S : Type 0} (junk : MsgClockserver)
    (send : ℕ → MsgClockserver → S → Outcome (S × ℤ × MsgClockserver)) (my_tid : ℕ) where
  abbrev ask : ℕ → MsgClockserver → S → Outcome (S × ℤ)
  ask tid m s = send tid m s >>= λ (s', ret, msg). ok (s', clock_result ret msg)

  unfoldable pub time : ℕ → S → Outcome (S × ℤ)
  time tid s = ask tid (record junk { type = clockserver_time; requester_tid = my_tid % 2 ^ 16 }) s

  unfoldable pub delay : ℕ → ℤ → S → Outcome (S × ℤ)
  delay tid (pos ticks) s =
      ask tid
        (record {
          type = clockserver_delay;
          requester_tid = my_tid % 2 ^ 16;
          clock_tick = in_systicks (pos ticks) % 2 ^ 32;
        })
        s
  delay tid (negsuc n) s = ok (s, negsuc 1)

  unfoldable pub delay_until : ℕ → ℤ → ℕ → S → Outcome (S × ℤ)
  delay_until tid ticks now s =
      let asked =
        ask tid
          (record {
            type = clockserver_delay_until;
            requester_tid = my_tid % 2 ^ 16;
            clock_tick = in_systicks ticks;
          })
          s in
      if ltb (in_systicks ticks) now then ok (s, negsuc 1) else asked
