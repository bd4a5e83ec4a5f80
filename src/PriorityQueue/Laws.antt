-- ===== src/PriorityQueue/Laws.antt =====
-- The operations of the priority queue, which never hang and keep the heap.
use cs452_kernel.Base.{
  ℕ, zero, suc, ◌+◌, ◌-◌, ◌/◌, ◌≤◌, ◌<◌, ◌≡◌, refl, sym, ap, ◌∙◌, inl, inr, ◌==◌, arith, ok, true,
  false, ltb, update, update_ne, ◌>>=◌,
}
use native.Mathlib.Decide.{ℕ_discrete}
use cs452_kernel.PriorityQueue.{
  HeapNode, Heap, PriorityQueue, init_from, priority_queue_init, priority_queue_add,
  priority_queue_pop_min, null, max_pq_elements,
}
use cs452_kernel.PriorityQueue.Order.{IsChild, IsHeap, IsHeapFrom, child-lt, parent_lem}
use cs452_kernel.PriorityQueue.Nodes.{tally, SameNodes, tally_append, tally_moved}
use cs452_kernel.PriorityQueue.Down.{Sinking, heapify_lem}
use cs452_kernel.PriorityQueue.Up.{Rising, bubble_up_lem}

-- A queue that fits its array and is in order.
abbrev pub IsValid : PriorityQueue → Type 0
IsValid pq = (pq.size ≤ 256) × IsHeap pq.heap pq.size

-- No node is above the root.
root_lem :
    (n i size : ℕ) (h : Heap) → IsHeap h size → i < n → i < size → (h 0).priority ≤ (h i).priority
root_lem zero i size h heap lt inside = absurd (omega arith)
root_lem (suc n) i size h heap lt inside = elim (ℕ_discrete i 0) [
  | yes e ↦ let at : (h i).priority ≡ (h 0).priority = ap (λ j. (h j).priority) e in omega arith
  | no ne ↦
      let over = parent_lem i (omega arith) in
      let higher = child-lt over in
      omega (
        arith,
        root_lem n ((i - 1) / 2) size h heap (omega arith) (omega arith),
        heap ((i - 1) / 2) i over inside (omega arith),
      )
]

module _ (pq : PriorityQueue) (valid : IsValid pq) where
  appended : (x : HeapNode) → Rising (update pq.heap pq.size x) (pq.size + 1) pq.size
  appended x = (
    λ a c is_child lt ne.
        let over = child-lt is_child in
        let at_a =
          ap (λ (n : HeapNode). n.priority)
            (update_ne pq.heap pq.size a x (λ e. absurd (omega (arith, e)))) in
        let at_c =
          ap (λ (n : HeapNode). n.priority) (update_ne pq.heap pq.size c x (λ e. ne (sym e))) in
        omega (arith, at_a, at_c, valid.1 a c is_child (omega arith) (omega arith)),
    λ a c over under lt. absurd (omega (arith, child-lt under)),
  )

  -- A full queue drops the value silently. Otherwise it is added to a valid queue, which stays in order
  -- and keeps its nodes.
  pub add_lem :
      (val priority : ℕ)
      → (pq.size < 256
          → (h' : Heap) × (priority_queue_add pq val priority
              ≡ ok (record { heap = h'; size = pq.size + 1 }))
            × IsHeap h' (pq.size + 1)
            × ((f : HeapNode → ℕ)
                → tally f h' (pq.size + 1)
                  ≡ tally f pq.heap pq.size + f (record { priority = priority; value = val })))
        × (256 ≤ pq.size → priority_queue_add pq val priority ≡ ok pq)
  unfolding priority_queue_add
  add_lem val priority =
      let x : HeapNode = record { priority = priority; value = val } in
      let room : (pq.size < 256 → ltb pq.size max_pq_elements ≡ true) = λ lt. ground arith in
      let full : (256 ≤ pq.size → ltb pq.size max_pq_elements ≡ false) = λ le. ground arith in
      (
        λ lt.
            let (h', e, heap, same) =
              bubble_up_lem (pq.size + 1) (update pq.heap pq.size x) (pq.size + 1) pq.size
                (omega arith) (omega arith) (appended x) in
            (
              h',
              rw (room lt) (ap (λ o. o >>= λ h. ok (record { heap = h; size = pq.size + 1 })) e),
              heap,
              λ f. same f ∙ tally_append f pq.heap pq.size x,
            ),
        λ le. rw (full le) refl,
      )

  replaced : (n : ℕ) → pq.size ≡ n + 1 → Sinking 0 (update pq.heap 0 (pq.heap n)) n 0
  replaced n e = (
    λ a c is_child lt lo ne.
        let over = child-lt is_child in
        let at_a =
          ap (λ (n : HeapNode). n.priority) (update_ne pq.heap 0 a (pq.heap n) (λ e. ne (sym e))) in
        let at_c =
          ap (λ (n : HeapNode). n.priority)
            (update_ne pq.heap 0 c (pq.heap n) (λ e. absurd (omega (arith, e)))) in
        omega (arith, at_a, at_c, valid.1 a c is_child (omega arith) (omega arith)),
    λ a c over under lt lo. absurd (omega (arith, child-lt over)),
  )

  -- An empty queue gives NULL. Otherwise a valid queue gives the value of its root, whose priority is the
  -- smallest of all, and keeps the other nodes, in order.
  pub pop_lem :
      (pq.size ≡ 0 → priority_queue_pop_min pq ≡ ok (null, pq))
      × (0 < pq.size
          → (h' : Heap) × (priority_queue_pop_min pq
              ≡ ok ((pq.heap 0).value, record { heap = h'; size = pq.size - 1 }))
            × IsHeap h' (pq.size - 1)
            × ((i : ℕ) → i < pq.size → (pq.heap 0).priority ≤ (pq.heap i).priority)
            × ((f : HeapNode → ℕ)
                → tally f h' (pq.size - 1) + f (pq.heap 0) ≡ tally f pq.heap pq.size))
  unfolding priority_queue_pop_min
  pop_lem = (
    λ e. let none : (pq.size == 0) ≡ true = ground arith in rw none refl,
    λ lt.
        let n = pq.size - 1 in
        let some : (pq.size == 0) ≡ false = ground arith in
        let (h', e, heap, same) =
          heapify_lem (n + 1) 0 (update pq.heap 0 (pq.heap n)) n 0 (omega (arith, valid.0))
            (omega arith) (omega arith) (omega arith) (replaced n (omega arith)) in
        (
          h',
          rw some (ap (λ o. o >>= λ h. ok ((pq.heap 0).value, record { heap = h; size = n })) e),
          heap,
          λ i inside. root_lem (i + 1) i pq.size pq.heap valid.1 (omega arith) inside,
          λ f. omega (arith, same f, tally_moved f pq.heap n pq.size (omega arith)),
        ),
  )

-- The loop of the initialisation puts one node after the other in order.
init_from_lem :
    (n size : ℕ) (h : Heap)
    → size ≤ 256
    → n ≤ size
    → IsHeapFrom n h size
    → (h' : Heap) × (init_from h size n ≡ ok h') × IsHeap h' size × SameNodes h h' size
unfolding init_from
init_from_lem zero size h small le heap = (h, refl, heap, λ f. refl)
init_from_lem (suc n) size h small le heap =
    let (h₁, e₁, heap₁, same₁) =
      heapify_lem (size + 1) n h size n small (omega arith) (omega arith) (omega arith) (
        (λ a c is_child lt lo ne. heap a c is_child lt (omega arith)),
        (λ a c over under lt lo. absurd (omega (arith, child-lt over))),
      ) in
    let (h₂, e₂, heap₂, same₂) = init_from_lem n size h₁ small (omega arith) heap₁ in
    (h₂, ap (λ o. o >>= λ next. init_from next size n) e₁ ∙ e₂, heap₂, λ f. same₂ f ∙ same₁ f)

-- The initialisation ends: any 256 nodes or fewer are put in order, and none is lost.
pub priority_queue_init_lem :
    (pq : PriorityQueue) (size : ℕ)
    → size ≤ 256
    → (pq' : PriorityQueue) × (priority_queue_init pq size ≡ ok pq')
      × (pq'.size ≡ size)
      × IsValid pq'
      × SameNodes pq.heap pq'.heap size
unfolding priority_queue_init
priority_queue_init_lem pq size small =
    let (h', e, heap, same) =
      init_from_lem (size / 2) size pq.heap small (omega arith)
        (λ a c is_child lt lo. absurd (leaves a c is_child lt lo)) in
    (
      record { heap = h'; size = size },
      ap (λ o. o >>= λ heap. ok (record { heap = heap; size = size })) e,
      refl,
      (small, heap),
      same,
    )
  where
    leaves : (a c : ℕ) → IsChild a c → c < size → size / 2 ≤ a → ⊥
    leaves a c (inl e) lt lo = ground arith
    leaves a c (inr e) lt lo = ground arith
