-- ===== src/PriorityQueue/Tests.antt =====
-- A queue of three nodes, with the priorities 4, 9 and 6.
use cs452_kernel.Base.{
  ℕ, ◌+◌, ◌≤◌, ◌<◌, ◌≡◌, refl, ◌==◌, if◌then◌else◌, arith, Outcome, ok, false, List, [], ◌∷◌,
}
use cs452_kernel.PriorityQueue.{
  HeapNode, Heap, PriorityQueue, priority_queue_init, priority_queue_add, priority_queue_pop_min,
  priority_queue_empty, null, heapify, smallest, child,
}
use cs452_kernel.PriorityQueue.Order.{IsChild, IsHeap, child-lt}
use cs452_kernel.PriorityQueue.Nodes.{tally, SameNodes}
use cs452_kernel.PriorityQueue.Laws.{IsValid, add_lem, pop_lem, priority_queue_init_lem}

abbrev priorities : ℕ → ℕ
priorities i = if i == 0 then 4 else if i == 1 then 9 else 6

abbrev queue : PriorityQueue
queue = record { heap = λ i. record { priority = priorities i; value = 100 + i }; size = 3 }

queue-IsValid : IsValid queue
queue-IsValid = (omega arith, λ a c is_child lt lo. top a c is_child lt)
  where
    top : (a c : ℕ) → IsChild a c → c < 3 → priorities a ≤ priorities c
    top a c is_child lt = ground (arith, child-lt is_child)

pop_lem_example :
    (queue.size ≡ 0 → priority_queue_pop_min queue ≡ ok (null, queue))
    × (0 < 3
        → (h' : Heap) × (priority_queue_pop_min queue ≡ ok (100, record { heap = h'; size = 2 }))
          × IsHeap h' 2
          × ((i : ℕ) → i < 3 → 4 ≤ (queue.heap i).priority)
          × ((f : HeapNode → ℕ) → tally f h' 2 + f (queue.heap 0) ≡ tally f queue.heap 3))
pop_lem_example = pop_lem queue queue-IsValid

add_lem_example :
    (3 < 256
      → (h' : Heap) × (priority_queue_add queue 77 5 ≡ ok (record { heap = h'; size = 4 }))
        × IsHeap h' 4
        × ((f : HeapNode → ℕ)
            → tally f h' 4 ≡ tally f queue.heap 3 + f (record { priority = 5; value = 77 })))
    × (256 ≤ 3 → priority_queue_add queue 77 5 ≡ ok queue)
add_lem_example = add_lem queue queue-IsValid 77 5

priority_queue_init_lem_example :
    (pq' : PriorityQueue) × (priority_queue_init queue 2 ≡ ok pq')
    × (pq'.size ≡ 2)
    × IsValid pq'
    × SameNodes queue.heap pq'.heap 2
priority_queue_init_lem_example = priority_queue_init_lem queue 2 (omega arith)

abbrev popped : Outcome (ℕ × PriorityQueue) → List ℕ
popped (ok (v, pq)) = v ∷ pq.size ∷ (pq.heap 0).value ∷ []
popped _ = []

pops : popped (priority_queue_pop_min queue) ≡ 100 ∷ 2 ∷ 102 ∷ []
unfolding priority_queue_pop_min heapify smallest child
pops = refl

empties : priority_queue_empty queue ≡ false
unfolding priority_queue_empty
empties = refl
