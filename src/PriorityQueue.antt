-- ===== src/PriorityQueue.antt =====
-- include/priority-queue.h and src/priority-queue.c: the queue with priorities, a binary heap in an
-- array. A value is a pointer that the queue only moves and compares; NULL is 0. A recursion takes
-- fuel; `PriorityQueue.Down` and `PriorityQueue.Up` show how much is enough.
pub mod Order
pub mod Nodes
pub mod Down
pub mod Up
pub mod Laws
pub mod Decrease
mod Tests
use cs452_kernel.Base.{
  ℕ, zero, suc, ◌+◌, ◌-◌, ◌*◌, ◌/◌, ◌%◌, ◌^◌, Bool, true, false, not, ◌||◌, Option, none, some, ltb,
  leb, ◌==◌, if◌then◌else◌, update, Outcome, ok, fault, hang, ◌>>=◌,
}

abbrev pub max_pq_elements : ℕ
max_pq_elements = 256

pub record HeapNode : Type 0 where
  pub priority : ℕ
  pub value : ℕ

abbrev pub Heap : Type 0
Heap = ℕ → HeapNode

pub record PriorityQueue : Type 0 where
  pub heap : Heap
  pub size : ℕ

-- The index `c` of a child as an int16_t, or -1 (`none`) if it is negative or out of the heap.
unfoldable pub child : ℕ → ℕ → Option ℕ
child size c = let i = c % 2 ^ 16 in if leb size i || leb (2 ^ 15) i then none else some i

abbrev pub above : Heap → ℕ → ℕ → Bool
above heap i j = ltb (heap i).priority (heap j).priority

-- The child of index `c`, if there is one above the node `m`, or else `m`.
abbrev pub lower : Heap → Option ℕ → ℕ → ℕ
lower heap none m = m
lower heap (some c) m = if above heap c m then c else m

-- The smallest of a node and its children.
unfoldable pub smallest : Heap → ℕ → ℕ → ℕ
unfolding child
smallest heap size i = lower heap (child size (i * 2 + 2)) (lower heap (child size (i * 2 + 1)) i)

abbrev pub swap : Heap → ℕ → ℕ → Heap
swap heap i j = update (update heap i (heap j)) j (heap i)

unfoldable pub heapify : ℕ → Heap → ℕ → ℕ → Outcome Heap
heapify zero heap size i = fault hang
heapify (suc fuel) heap size i =
    let m = smallest heap size i in
    let next = heapify fuel (swap heap m i) size m in if m == i then ok heap else next

-- The loop of `priority_queue_init`, from index `n - 1` down.
unfoldable pub init_from : Heap → ℕ → ℕ → Outcome Heap
init_from heap size zero = ok heap
init_from heap size (suc n) = heapify (size + 1) heap size n >>= λ next. init_from next size n

pub priority_queue_init : PriorityQueue → ℕ → Outcome PriorityQueue
unfolding init_from
priority_queue_init pq size =
    init_from pq.heap size (size / 2) >>= λ heap. ok (record { heap = heap; size = size })

-- The quotient of -1 by 2 is 0 in C, as it is here.
unfoldable pub bubble_up : ℕ → Heap → ℕ → Outcome Heap
bubble_up zero heap i = fault hang
bubble_up (suc fuel) heap i =
    let parent = (i - 1) / 2 in
    let next = bubble_up fuel (swap heap parent i) parent in
    if above heap i parent then next else ok heap

pub priority_queue_add : PriorityQueue → ℕ → ℕ → Outcome PriorityQueue
unfolding bubble_up
priority_queue_add pq val priority =
    let heap = update pq.heap pq.size (record { priority = priority; value = val }) in
    let added =
      bubble_up (pq.size + 1) heap pq.size >>= λ h. ok (record { heap = h; size = pq.size + 1 }) in
    if ltb pq.size max_pq_elements then added else ok pq

abbrev pub null : ℕ
null = 0

pub priority_queue_pop_min : PriorityQueue → Outcome (ℕ × PriorityQueue)
unfolding heapify
priority_queue_pop_min pq =
    let size = pq.size - 1 in
    let popped = heapify (size + 1) (update pq.heap 0 (pq.heap size)) size 0 >>= λ heap.
    ok ((pq.heap 0).value, record { heap = heap; size = size }) in
    if pq.size == 0 then ok (null, pq) else popped

-- The loop that looks for `val`, from index `i` on with `n` nodes left.
unfoldable pub find_from : Heap → ℕ → ℕ → ℕ → Option ℕ
find_from heap val zero i = none
find_from heap val (suc n) i =
    let rest = find_from heap val n (i + 1) in if (heap i).value == val then some i else rest

pub priority_queue_decrease : PriorityQueue → ℕ → ℕ → Outcome (Bool × PriorityQueue)
unfolding find_from bubble_up
priority_queue_decrease pq val new_priority =
    elim (find_from pq.heap val pq.size 0) as (λ _. Outcome (Bool × PriorityQueue)) [
      | none ↦ ok (false, pq)
      | some i ↦
          bubble_up (pq.size + 1)
            (update pq.heap i (record (pq.heap i) { priority = new_priority })) i
          >>= λ heap. ok (true, record pq { heap = heap })
    ]

pub priority_queue_empty : PriorityQueue → Bool
priority_queue_empty pq = pq.size == 0
