-- ===== src/PriorityQueue/Decrease.antt =====
-- `priority_queue_decrease` finds a value and keeps the heap.
use cs452_kernel.Base.{
  ℕ, zero, suc, ◌+◌, ◌≤◌, ◌<◌, ◌≡◌, ◌≢◌, refl, sym, ap, subst, ◌∙◌, inl, inr, ◌⊎◌, ◌==◌, arith, ok,
  true, false, update, update_self, update_ne, some, none, ◌>>=◌,
}
use native.Mathlib.Decide.{ℕ_discrete}
use cs452_kernel.PriorityQueue.{HeapNode, Heap, PriorityQueue, find_from, priority_queue_decrease}
use cs452_kernel.PriorityQueue.Order.{IsHeap, child-lt}
use cs452_kernel.PriorityQueue.Nodes.{tally, tally-update}
use cs452_kernel.PriorityQueue.Laws.{IsValid}
use cs452_kernel.PriorityQueue.Up.{Rising, bubble_up_lem}

-- The loop that looks for a value finds the first node that has it.
find_lem :
    (h : Heap) (val n i : ℕ)
    → ((find_from h val n i ≡ none) × ((j : ℕ) → i ≤ j → j < i + n → (h j).value ≢ val))
      ⊎ ((k : ℕ) × (find_from h val n i ≡ some k)
          × (i ≤ k)
          × (k < i + n)
          × ((h k).value ≡ val)
          × ((j : ℕ) → i ≤ j → j < k → (h j).value ≢ val))
unfolding find_from
find_lem h val zero i = inl (refl, λ j lo hi. absurd (omega arith))
find_lem h val (suc n) i = elim (ℕ_discrete (h i).value val) [
  | yes e ↦
      let here : ((h i).value == val) ≡ true = ground arith in
      inr (i, rw here refl, omega arith, omega arith, e, λ j lo hi. absurd (omega arith))
  | no ne ↦
      let past : ((h i).value == val) ≡ false = ground arith in
      let skip : (j : ℕ) → i ≤ j → j ≢ i → i + 1 ≤ j = λ j lo nj. omega arith in
      let first : (j : ℕ) → j ≡ i → (h j).value ≢ val =
        λ j e. subst (λ k. (h k).value ≢ val) (sym e) ne in
      elim (find_lem h val n (i + 1)) [
        | inl (e, all) ↦ inl (
          rw past e,
          λ j lo hi. elim (ℕ_discrete j i) [
            | yes f ↦ first j f
            | no nf ↦ all j (skip j lo nf) (omega arith)
          ],
        )
        | inr (k, e, lo', hi', at, all) ↦ inr (
          k,
          rw past e,
          omega arith,
          omega arith,
          at,
          λ j lo hi. elim (ℕ_discrete j i) [ yes f ↦ first j f | no nf ↦ all j (skip j lo nf) hi ],
        )
      ]
]

module _ (pq : PriorityQueue) (valid : IsValid pq) where
  lowered :
      (i priority : ℕ)
      → priority ≤ (pq.heap i).priority
      → Rising (update pq.heap i (record (pq.heap i) { priority = priority })) pq.size i
  lowered i priority less =
      let x : HeapNode = record (pq.heap i) { priority = priority } in
      let stays : (j : ℕ) → j ≢ i → (update pq.heap i x j).priority ≡ (pq.heap j).priority =
        λ j ne. ap (λ (n : HeapNode). n.priority) (update_ne pq.heap i j x (λ e. ne (sym e))) in
      (
        λ a c is_child lt ne. elim (ℕ_discrete a i) [
          | yes e ↦
              let at : (update pq.heap i x a).priority ≡ priority =
                ap (λ j. (update pq.heap i x j).priority) e
                ∙ ap (λ (n : HeapNode). n.priority) (update_self pq.heap i x) in
              let old : (pq.heap a).priority ≡ (pq.heap i).priority =
                ap (λ j. (pq.heap j).priority) e in
              omega (arith, at, old, stays c ne, valid.1 a c is_child lt (omega arith))
          | no ne' ↦ omega (arith, stays a ne', stays c ne, valid.1 a c is_child lt (omega arith))
        ],
        λ a c over under lt.
            let a_i = child-lt over in
            let i_c = child-lt under in
            omega (
              arith,
              stays a (λ e. absurd (omega (arith, e))),
              stays c (λ e. absurd (omega (arith, e))),
              valid.1 a i over (omega arith) (omega arith),
              valid.1 i c under lt (omega arith),
            ),
      )

  -- A value that is not in the queue is reported and nothing changes. Otherwise the first node that has
  -- it gets the new priority, and the queue stays in order if that is not larger than the old one.
  pub decrease_lem :
      (val priority : ℕ)
      → ((priority_queue_decrease pq val priority ≡ ok (false, pq))
          × ((j : ℕ) → j < pq.size → (pq.heap j).value ≢ val))
        ⊎ ((i : ℕ) × (i < pq.size)
            × ((pq.heap i).value ≡ val)
            × (priority ≤ (pq.heap i).priority
                → (h' : Heap) × (priority_queue_decrease pq val priority
                    ≡ ok (true, record pq { heap = h' }))
                  × IsHeap h' pq.size
                  × ((f : HeapNode → ℕ)
                      → tally f h' pq.size + f (pq.heap i)
                        ≡ tally f pq.heap pq.size
                          + f (record (pq.heap i) { priority = priority }))))
  unfolding priority_queue_decrease
  decrease_lem val priority = elim (find_lem pq.heap val pq.size 0) [
    | inl (e, all) ↦
        inl (rw (e, priority_queue_decrease) refl, λ j lt. all j (omega arith) (omega arith))
    | inr (i, e, _, lt, at, _) ↦ inr (
      i,
      omega arith,
      at,
      λ less.
          let (h', e', heap, same) =
            bubble_up_lem (pq.size + 1)
              (update pq.heap i (record (pq.heap i) { priority = priority })) pq.size i
              (omega arith) (omega arith) (lowered i priority less) in
          (
            h',
            rw (e, priority_queue_decrease)
                (ap (λ o. o >>= λ heap. ok (true, record pq { heap = heap })) e'),
            heap,
            λ f. omega (
              arith,
              same f,
              tally-update f pq.heap pq.size i (record (pq.heap i) { priority = priority })
                  (omega arith),
            ),
          ),
    )
  ]
