-- ===== src/ClockQueue.antt =====
-- include/clock-queue.h and src/clock-queue.c: the tasks that wait for a clock tick, in the order of
-- their ticks. An entry is its index in the storage, and NULL is `none`.
pub mod Laws
pub mod Order
pub mod Insert
pub mod Holds
pub mod Add
pub mod Get
mod Tests
use cs452_kernel.Base.{
  ℕ, zero, suc, ◌+◌, Bool, false, Option, none, some, ltb, if◌then◌else◌, update, Outcome, ok,
  fault, hang, ◌>>=◌,
}

abbrev pub max_waiting_tasks : ℕ
max_waiting_tasks = 256

pub record ClockQueueEntry : Type 0 where
  pub tid : ℕ
  pub clock_tick : ℕ
  pub next : Option ℕ

pub record ClockQueue : Type 0 where
  pub storage : ℕ → ClockQueueEntry
  pub freelist : Option ℕ
  pub head : Option ℕ

abbrev set_link : ClockQueue → ℕ → Option ℕ → ClockQueue
set_link cq e p = record cq { storage = update cq.storage e (record (cq.storage e) { next = p }) }

-- `for (int i = 0; i < MAX_WAITING_TASKS; i++)`, from `i` on with `n` rounds left.
unfoldable pub free_entries : ℕ → ℕ → ClockQueue → ClockQueue
free_entries zero i cq = cq
free_entries (suc n) i cq =
    free_entries n (i + 1) (record (set_link cq i cq.freelist) { freelist = some i })

unfoldable pub clock_queue_init : ClockQueue → ClockQueue
unfolding free_entries
clock_queue_init cq = free_entries max_waiting_tasks 0 (record {
  storage = λ _. record { tid = 0; clock_tick = 0; next = none };
  freelist = none;
  head = none;
})

unfoldable pub clock_queue_ready : ClockQueue → ℕ → Bool
clock_queue_ready cq curr_clock_tick = elim (cq.head) [
  | none ↦ false
  | some h ↦ ltb (cq.storage h).clock_tick curr_clock_tick
]

-- The id, or 0 if no entry is due, and the queue after the call.
unfoldable pub clock_queue_get : ClockQueue → ℕ → ℕ × ClockQueue
clock_queue_get cq curr_clock_tick = elim (cq.head) [
  | none ↦ (0, cq)
  | some h ↦
      let popped : ClockQueue = record cq { head = (cq.storage h).next } in
      if ltb curr_clock_tick (cq.storage h).clock_tick
      then (0, cq)
      else ((cq.storage h).tid, record (set_link popped h popped.freelist) { freelist = some h })
]

-- The loop that looks for the entry to insert behind.
unfoldable pub place_after : ℕ → ClockQueue → ℕ → ℕ → Outcome ℕ
place_after zero cq tick current = fault hang
place_after (suc fuel) cq tick current = elim ((cq.storage current).next) [
  | none ↦ ok current
  | some n ↦
      let further = place_after fuel cq tick n in
      if ltb (cq.storage n).clock_tick tick then further else ok current
]

-- The sorted insertion of the entry `e`, which is filled in.
unfoldable pub insert_sorted : ℕ → ClockQueue → ℕ → Outcome ClockQueue
unfolding place_after
insert_sorted fuel cq e = elim (cq.head) [
  | none ↦ ok (record (set_link cq e none) { head = some e })
  | some h ↦
      let behind = place_after fuel cq (cq.storage e).clock_tick h >>= λ current.
      let linked = set_link cq e (cq.storage current).next in
      ok (set_link linked current (some e)) in
      if ltb (cq.storage e).clock_tick (cq.storage h).clock_tick
      then ok (record (set_link cq e (some h)) { head = some e })
      else behind
]

-- With no entry free the call does nothing.
unfoldable pub clock_queue_add : ℕ → ClockQueue → ℕ → ℕ → Outcome ClockQueue
unfolding insert_sorted
clock_queue_add fuel cq tid clock_tick = elim (cq.freelist) [
  | none ↦ ok cq
  | some e ↦
      insert_sorted fuel
        (record cq {
          freelist = (cq.storage e).next;
          storage =
              update cq.storage e (record { tid = tid; clock_tick = clock_tick; next = none });
        })
        e
]
