-- ===== src/PriorityQueue/Up.antt =====
-- `priority_queue_bubble_up` puts a node in order that may be too small.
use cs452_kernel.Base.{
  ℕ, zero, suc, ◌-◌, ◌/◌, ◌≤◌, ◌<◌, ◌≡◌, ◌≢◌, refl, ap, subst, ◌∙◌, inl, inr, arith, ok, Bool-cases,
}
use native.Mathlib.Decide.{ℕ_discrete}
use cs452_kernel.PriorityQueue.{Heap, above, swap, bubble_up}
use cs452_kernel.PriorityQueue.Order.{IsChild, IsHeap, child-lt, parent_unique, parent_lem}
use cs452_kernel.PriorityQueue.Nodes.{SameNodes, swap-SameNodes}
use cs452_kernel.PriorityQueue.Down.{now_at, now_m, now_i, now_else}

-- In order, except that node `i` may be smaller than its parent; its children are not.
abbrev pub Rising : Heap → ℕ → ℕ → Type 0
Rising h size i =
    ((a c : ℕ) → IsChild a c → c < size → c ≢ i → (h a).priority ≤ (h c).priority)
    × ((a c : ℕ) → IsChild a i → IsChild i c → c < size → (h a).priority ≤ (h c).priority)

module _ (h : Heap) (size i p : ℕ) (inside : i < size) (rising : Rising h size i) where
  risen : ((a : ℕ) → IsChild a i → (h a).priority ≤ (h i).priority) → IsHeap h size
  risen top a c is_child lt lo = elim (ℕ_discrete c i) [
    | yes e ↦
        let at : (h c).priority ≡ (h i).priority = ap (λ j. (h j).priority) e in
        omega (arith, at, top a (subst (IsChild a) e is_child))
    | no ne ↦ rising.0 a c is_child lt ne
  ]

  -- The exchange of `i` with its parent `p`.
  lifted : IsChild p i → (h i).priority < (h p).priority → Rising (swap h p i) size p
  unfolding now_at
  lifted below less = (
    λ a c is_child lt ne. elim (ℕ_discrete c i) [
      | yes e ↦
          let same : a ≡ p = parent_unique (subst (IsChild a) e is_child) below in
          omega (arith, now_m h p i a same, now_i h p i c e)
      | no ne' ↦ elim (ℕ_discrete a p) [
        | yes e ↦ omega (
          arith,
          now_m h p i a e,
          now_else h p i c ne ne',
          rising.0 p c (subst (λ b. IsChild b c) e is_child) lt ne',
        )
        | no np ↦ elim (ℕ_discrete a i) [
          | yes e ↦ omega (
            arith,
            now_i h p i a e,
            now_else h p i c ne ne',
            rising.1 p c below (subst (λ b. IsChild b c) e is_child) lt,
          )
          | no ni ↦
              omega (
                arith,
                now_else h p i a np ni,
                now_else h p i c ne ne',
                rising.0 a c is_child lt ne',
              )
        ]
      ]
    ],
    λ a c over under lt.
        let above_p = child-lt over in
        let above_i = child-lt below in
        let at_a =
          now_else h p i a (λ f. absurd (omega (arith, f))) (λ f. absurd (omega (arith, f))) in
        let first = rising.0 a p over (omega arith) (λ f. absurd (omega (arith, f))) in
        elim (ℕ_discrete c i) [
          | yes e ↦ omega (arith, at_a, first, now_i h p i c e)
          | no ne ↦
              let beneath = child-lt under in
              omega (
                arith,
                at_a,
                first,
                now_else h p i c (λ f. absurd (omega (arith, f))) ne,
                rising.0 p c under lt ne,
              )
        ],
  )

-- With more fuel than the index of the node, `priority_queue_bubble_up` ends with a heap of the same
-- nodes, if the node alone may be out of order.
pub bubble_up_lem :
    (fuel : ℕ) (h : Heap) (size i : ℕ)
    → i < fuel
    → i < size
    → Rising h size i
    → (h' : Heap) × (bubble_up fuel h i ≡ ok h') × IsHeap h' size × SameNodes h h' size
unfolding bubble_up
bubble_up_lem zero h size i enough inside rising = absurd (omega arith)
bubble_up_lem (suc fuel) h size i enough inside rising =
    elim (Bool-cases (above h i ((i - 1) / 2))) [
      | inr stop ↦ (
        h,
        rw stop refl,
        risen h size i ((i - 1) / 2) inside rising (λ a over.
            let e : a ≡ (i - 1) / 2 =
              parent_unique over (parent_lem i (omega (arith, child-lt over))) in
            let at : (h a).priority ≡ (h ((i - 1) / 2)).priority = ap (λ j. (h j).priority) e in
            ground arith),
        λ f. refl,
      )
      | inl go ↦ elim (ℕ_discrete i 0) [
        | yes e ↦
            let at : (h i).priority ≡ (h ((i - 1) / 2)).priority =
              ap (λ j. (h j).priority) (omega arith) in
            absurd (ground arith)
        | no ne ↦
            let p = (i - 1) / 2 in
            let below : IsChild p i = parent_lem i (omega arith) in
            let higher = child-lt below in
            let (h', e, heap, same) =
              bubble_up_lem fuel (swap h p i) size p (omega arith) (omega arith)
                (lifted h size i p inside rising below (ground arith)) in
            (h', rw go e, heap, λ f. same f ∙ swap-SameNodes h size p i (omega arith) inside f)
      ]
    ]
