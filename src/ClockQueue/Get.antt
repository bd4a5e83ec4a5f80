-- ===== src/ClockQueue/Get.antt =====
-- The first entry taken out of the clock queue.
use cs452_kernel.Base.{
  ℕ, ◌≤◌, ◌≡◌, ◌≢◌, refl, ap, sym, ◌∙◌, subst, Bool, false, ltb, if◌then◌else◌, Option, none, some,
  List, ◌∷◌, arith,
}
use cs452_kernel.Base.Lists.{All-mono, All-mono₂}
use cs452_kernel.Kernel.Links.{Links, Links-congr, NotIn}
use cs452_kernel.ClockQueue.{
  ClockQueue, ClockQueueEntry, set_link, clock_queue_get, clock_queue_ready,
}
use cs452_kernel.ClockQueue.Order.{next_of, tick_of}
-- `es` are the entries in the queue, in order, and `free` those of the free list.
use cs452_kernel.ClockQueue.Holds.{Holds, Sorted-congr, waiting, task_at, waiting_congr}

-- The queue without its first entry, which goes to the front of the free list.
abbrev pub popped : ClockQueue → ℕ → ClockQueue
popped cq h = record (set_link (record cq { head = next_of cq h }) h cq.freelist) {
  freelist = some h;
}

pub ready_lem :
    (cq : ClockQueue) (p : Option ℕ) (now : ℕ)
    → cq.head ≡ p
    → clock_queue_ready cq now
      ≡ elim p as (λ _. Bool) [ none ↦ false | some h ↦ ltb (tick_of cq h) now ]
unfolding clock_queue_ready
ready_lem cq p now at =
    ap (λ (o : Option ℕ). elim o as (λ _. Bool) [ none ↦ false | some h ↦ ltb (tick_of cq h) now ])
      at

pub get_lem :
    (cq : ClockQueue) (h now : ℕ)
    → cq.head ≡ some h
    → tick_of cq h ≤ now
    → clock_queue_get cq now ≡ ((cq.storage h).tid, popped cq h)
unfolding clock_queue_get
get_lem cq h now at le =
    let on_time : ltb now (tick_of cq h) ≡ false = ground arith in
    ap
      (λ (o : Option ℕ). elim o as (λ _. ℕ × ClockQueue) [
        | none ↦ (0, cq)
        | some i ↦ if ltb now (tick_of cq i) then (0, cq) else ((cq.storage i).tid, popped cq i)
      ])
      at
    ∙ ap (λ b. if b then (0, cq) else ((cq.storage h).tid, popped cq h)) on_time

-- To take the first entry out keeps the invariant, and the other tasks.
pub pop_lem :
    (cq : ClockQueue) (h : ℕ) (es free : List ℕ)
    → Holds cq (h ∷ es) free
    → Holds (popped cq h) es (h ∷ free) × (waiting (popped cq h) es ≡ waiting cq es)
pop_lem cq h es free holds =
    let (at, chain) = holds.queue in
    let (out, distinct) = holds.distinct in
    let (out_free, apart) = holds.apart in
    let (least, sorted) = holds.sorted in
    let sum = holds.total in
    let other : (x : ℕ) → h ≢ x → (popped cq h).storage x ≡ cq.storage x = λ x ne. ground arith in
    let at_h : next_of (popped cq h) h ≡ cq.freelist = ground arith in
    let links : (p : Option ℕ) (xs : List ℕ)
        → NotIn h xs
        → Links (next_of cq) p xs
        → Links (next_of (popped cq h)) p xs =
      λ p xs o. Links-congr (next_of cq) (next_of (popped cq h)) p xs (
        All-mono (λ x. h ≢ x) (λ x. next_of (popped cq h) x ≡ next_of cq x) xs
          (λ x ne. ap (λ (y : ClockQueueEntry). y.next) (other x ne)) o) in
    (
      record {
        queue = links (next_of cq h) es out chain;
        frees = (
          refl,
          subst (λ p. Links (next_of (popped cq h)) p free) (sym at_h)
              (links cq.freelist free out_free holds.frees),
        );
        distinct = distinct;
        distinct_free = (out_free, holds.distinct_free);
        apart =
            All-mono₂ (λ u. h ≢ u) (λ u. NotIn u free) (λ u. NotIn u (h ∷ free)) es
              (λ u ne o. ((λ same. ne (sym same)), o)) out apart;
        sorted =
            Sorted-congr (tick_of cq) (tick_of (popped cq h)) es
              (All-mono (λ x. h ≢ x) (λ x. tick_of (popped cq h) x ≡ tick_of cq x) es
                (λ x ne. ap (λ (y : ClockQueueEntry). y.clock_tick) (other x ne)) out)
              sorted;
        total = omega (arith, sum);
      },
      waiting_congr cq (popped cq h) es (
          All-mono (λ x. h ≢ x) (λ x. task_at (popped cq h) x ≡ task_at cq x) es
            (λ x ne. ap (λ (y : ClockQueueEntry). (y.tid, y.clock_tick)) (other x ne)) out),
    )
