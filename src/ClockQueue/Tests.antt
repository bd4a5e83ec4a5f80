-- ===== src/ClockQueue/Tests.antt =====
-- A queue with one entry, and an insertion before it.
use cs452_kernel.Base.{ℕ, ◌≡◌, refl, Option, none, some, ok, ◌==◌, if◌then◌else◌, Outcome}
use cs452_kernel.ClockQueue.{ClockQueue, clock_queue_add}

-- Task 60 waits for the tick 100 in the entry 0; the entry 1 is free.
abbrev queue : ClockQueue
queue = record {
  storage = λ e. record {
    tid = if e == 0 then 60 else 0;
    clock_tick = if e == 0 then 100 else 0;
    next = none;
  };
  freelist = some 1;
  head = some 0;
}

abbrev head_after : Outcome ClockQueue → Option ℕ
head_after (ok cq) = cq.head
head_after _ = none

earlier_first : head_after (clock_queue_add 2 queue 61 50) ≡ some 1
unfolding clock_queue_add
earlier_first = refl
