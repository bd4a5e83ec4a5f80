-- ===== src/ClockQueue/Laws.antt =====
-- When `clock_queue_ready` and `clock_queue_get` take an entry to be due.
use cs452_kernel.Base.{ℕ, ◌<◌, ◌≤◌, ◌≡◌, ◌≢◌, refl, arith, true, false, some, ltb}
use cs452_kernel.ClockQueue.{ClockQueue, clock_queue_ready, clock_queue_get}

-- For a queue with the head `h`, `clock_queue_get` takes out the head from its tick on: it returns its
-- id, and the entry goes to the front of the free list, while no other entry changes. Before the tick
-- it returns 0 and changes nothing. `clock_queue_ready` is false up to the tick itself: at that very
-- tick there is an entry to get, and it says that there is none.
pub due_lem :
    (cq : ClockQueue) (h now : ℕ)
    → cq.head ≡ some h
    → (now < (cq.storage h).clock_tick
        → (clock_queue_get cq now ≡ (0, cq)) × (clock_queue_ready cq now ≡ false))
      × ((cq.storage h).clock_tick ≤ now
          → let (tid, cq') = clock_queue_get cq now in
            (tid ≡ (cq.storage h).tid)
            × (cq'.head ≡ (cq.storage h).next)
            × (cq'.freelist ≡ some h)
            × ((cq'.storage h).next ≡ cq.freelist)
            × ((e : ℕ) → h ≢ e → cq'.storage e ≡ cq.storage e))
      × ((cq.storage h).clock_tick < now → clock_queue_ready cq now ≡ true)
      × ((cq.storage h).clock_tick ≡ now → clock_queue_ready cq now ≡ false)
unfolding clock_queue_get clock_queue_ready
due_lem cq h now at_head = (
  λ before.
      let late : ltb now (cq.storage h).clock_tick ≡ true = ground arith in
      let not_ready : ltb (cq.storage h).clock_tick now ≡ false = ground arith in
      (simp (at_head, clock_queue_get, late), (rw (at_head, clock_queue_ready, not_ready))),
  λ due.
      let on_time : ltb now (cq.storage h).clock_tick ≡ false = ground arith in
      rw (at_head, clock_queue_get, on_time)
        (refl, refl, refl, ground arith, (λ e ne. ground arith)),
  λ past.
      let ready : ltb (cq.storage h).clock_tick now ≡ true = ground arith in
      rw (at_head, clock_queue_ready, ready),
  λ same.
      let not_ready : ltb (cq.storage h).clock_tick now ≡ false = ground arith in
      rw (at_head, clock_queue_ready, not_ready),
)
