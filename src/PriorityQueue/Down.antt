-- ===== src/PriorityQueue/Down.antt =====
-- `heapify` puts a node in order that may be too large.
use cs452_kernel.Base.{
  ℕ, zero, suc, ◌+◌, ◌≤◌, ◌<◌, ◌≡◌, ◌≢◌, refl, sym, ap, subst, ◌∙◌, inl, inr, ◌==◌, arith, ok, true,
  false,
}
use native.Mathlib.Decide.{ℕ_discrete}
use cs452_kernel.PriorityQueue.{HeapNode, Heap, smallest, swap, heapify}
use cs452_kernel.PriorityQueue.Order.{
  IsChild, IsHeapFrom, child-lt, parent_unique, Smallest, smallest_lem,
}
use cs452_kernel.PriorityQueue.Nodes.{swap_left, swap_right, swap_other, SameNodes, swap-SameNodes}

-- In order from `k` on, except that node `i` may be larger than its children; its parent is not.
abbrev pub Sinking : ℕ → Heap → ℕ → ℕ → Type 0
Sinking k h size i =
    ((a c : ℕ) → IsChild a c → c < size → k ≤ a → a ≢ i → (h a).priority ≤ (h c).priority)
    × ((a c : ℕ) → IsChild a i → IsChild i c → c < size → k ≤ a → (h a).priority ≤ (h c).priority)

module _ (h : Heap) (m i : ℕ) where
  -- The priority at `j` after the exchange of `m` and `i`.
  unfoldable pub now_at : (j : ℕ) → ℕ
  now_at j = (swap h m i j).priority

  pub now_m : (j : ℕ) → j ≡ m → now_at j ≡ (h i).priority
  unfolding now_at
  now_m j e =
      ap (λ c. (swap h m i c).priority) e ∙ ap (λ (n : HeapNode). n.priority) (swap_left h m i)

  pub now_i : (j : ℕ) → j ≡ i → now_at j ≡ (h m).priority
  unfolding now_at
  now_i j e =
      ap (λ c. (swap h m i c).priority) e ∙ ap (λ (n : HeapNode). n.priority) (swap_right h m i)

  pub now_else : (j : ℕ) → j ≢ m → j ≢ i → now_at j ≡ (h j).priority
  unfolding now_at
  now_else j ne ne' =
      ap (λ (n : HeapNode). n.priority) (swap_other h m i j (λ e. ne (sym e)) (λ e. ne' (sym e)))

module _ (k : ℕ) (h : Heap) (size i m : ℕ) (from : k ≤ i) (sinking : Sinking k h size i) where
  settled : Smallest h size i m → m ≡ i → IsHeapFrom k h size
  settled (_, least) same a c is_child lt lo = elim (ℕ_discrete a i) [
    | yes e ↦
        let at : (h m).priority ≡ (h a).priority = ap (λ j. (h j).priority) (same ∙ sym e) in
        omega (arith, at, least c (subst (λ b. IsChild b c) e is_child) lt)
    | no ne ↦ sinking.0 a c is_child lt lo ne
  ]

  sunk :
      IsChild i m
      → m < size
      → (h m).priority < (h i).priority
      → ((c : ℕ) → IsChild i c → c < size → (h m).priority ≤ (h c).priority)
      → Sinking k (swap h m i) size m
  unfolding now_at
  sunk below inside less least = (
    λ a c is_child lt lo ne. elim (ℕ_discrete a i) [
      | yes e ↦
          let under : IsChild i c = subst (λ b. IsChild b c) e is_child in
          elim (ℕ_discrete c m) [
            | yes f ↦ omega (arith, now_i h m i a e, now_m h m i c f)
            | no nf ↦ omega (
              arith,
              now_i h m i a e,
              now_else h m i c nf (λ f. absurd (omega (arith, f, child-lt under))),
              least c under lt,
            )
          ]
      | no ne' ↦ elim (ℕ_discrete c i) [
        | yes f ↦
            let over : IsChild a i = subst (IsChild a) f is_child in
            omega
              (arith, now_else h m i a ne ne', now_i h m i c f, sinking.1 a m over below inside lo)
        | no nf ↦
            let apart : c ≢ m = λ f. ne' (parent_unique (subst (IsChild a) f is_child) below) in
            omega (
              arith,
              now_else h m i a ne ne',
              now_else h m i c apart nf,
              sinking.0 a c is_child lt lo ne',
            )
      ]
    ],
    λ a c over under lt lo.
        let e : a ≡ i = parent_unique over below in
        let below_m = child-lt under in
        let below_i = child-lt below in
        omega (
          arith,
          now_i h m i a e,
          now_else h m i c (λ f. absurd (omega (arith, f))) (λ f. absurd (omega (arith, f))),
          sinking.0 m c under lt (omega arith) (λ f. absurd (omega (arith, f))),
        ),
  )

-- With more fuel than there are nodes from `i` on, `heapify` ends with a heap from `k` on, of the same
-- nodes, if node `i` alone may be out of order.
pub heapify_lem :
    (fuel k : ℕ) (h : Heap) (size i : ℕ)
    → size ≤ 256
    → i ≤ size
    → size < i + fuel
    → k ≤ i
    → Sinking k h size i
    → (h' : Heap) × (heapify fuel h size i ≡ ok h') × IsHeapFrom k h' size × SameNodes h h' size
unfolding heapify
heapify_lem zero k h size i small le enough from sinking = absurd (omega arith)
heapify_lem (suc fuel) k h size i small le enough from sinking =
    let found = smallest_lem h size i small le in
    elim (ℕ_discrete (smallest h size i) i) [
      | yes e ↦
          let stop : (smallest h size i == i) ≡ true = ground arith in
          (h, rw stop refl, settled k h size i (smallest h size i) from sinking found e, λ f. refl)
      | no ne ↦ elim found.0 [
        | inl e ↦ absurd (ne e)
        | inr (below, inside, less) ↦
            let m = smallest h size i in
            let deeper = child-lt below in
            let go : (m == i) ≡ false = ground arith in
            let (h', e, heap, same) =
              heapify_lem fuel k (swap h m i) size m small (omega arith) (omega arith) (omega arith)
                (sunk k h size i m from sinking below inside less found.1) in
            (h', rw go e, heap, λ f. same f ∙ swap-SameNodes h size m i inside (omega arith) f)
      ]
    ]
