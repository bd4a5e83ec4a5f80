-- ===== src/PriorityQueue/Nodes.antt =====
-- The nodes of the heap as a multiset, and what an exchange of two of them changes.
use cs452_kernel.Base.{
  ℕ, zero, suc, ◌+◌, ◌≤◌, ◌<◌, ◌≡◌, ◌≢◌, refl, sym, ap, subst, ◌∙◌, update, update_self, update_ne,
  arith,
}
use native.Mathlib.Decide.{ℕ_discrete}
use cs452_kernel.PriorityQueue.{HeapNode, Heap, swap}

module _ (h : Heap) (i j : ℕ) where
  pub swap_left : swap h i j i ≡ h j
  swap_left = elim (ℕ_discrete j i) [
    | yes e ↦
        subst (λ k. swap h i j k ≡ h j) e (update_self (update h i (h j)) j (h i) ∙ ap h (sym e))
    | no ne ↦ update_ne (update h i (h j)) j i (h i) ne ∙ update_self h i (h j)
  ]

  pub swap_right : swap h i j j ≡ h i
  swap_right = update_self (update h i (h j)) j (h i)

  pub swap_other : (k : ℕ) → i ≢ k → j ≢ k → swap h i j k ≡ h k
  swap_other k ne ne' = update_ne (update h i (h j)) j k (h i) ne' ∙ update_ne h i k (h j) ne

-- The sum of `f` over the first `n` nodes. Two heaps have the same nodes, as often, if it agrees
-- for every `f`.
abbrev pub tally : (HeapNode → ℕ) → Heap → ℕ → ℕ
tally f h zero = 0
tally f h (suc n) = tally f h n + f (h n)

abbrev pub SameNodes : Heap → Heap → ℕ → Type 0
SameNodes h h' n = (f : HeapNode → ℕ) → tally f h' n ≡ tally f h n

module _ (f : HeapNode → ℕ) where
  pub tally_beyond :
      (h : Heap) (n i : ℕ) (x : HeapNode) → n ≤ i → tally f (update h i x) n ≡ tally f h n
  tally_beyond h zero i x le = refl
  tally_beyond h (suc n) i x le =
      let there = ap f (update_ne h i n x (λ e. absurd (omega (arith, e)))) in
      omega (arith, there, tally_beyond h n i x (omega arith))

  pub tally-update :
      (h : Heap) (n i : ℕ) (x : HeapNode)
      → i < n
      → tally f (update h i x) n + f (h i) ≡ tally f h n + f x
  tally-update h zero i x lt = absurd (omega arith)
  tally-update h (suc n) i x lt = elim (ℕ_discrete i n) [
    | yes e ↦
        let here = ap f (ap (update h i x) (sym e) ∙ update_self h i x) in
        let there = ap (λ k. f (h k)) e in
        omega (arith, here, there, tally_beyond h n i x (omega arith))
    | no ne ↦
        let there = ap f (update_ne h i n x ne) in
        omega (arith, there, tally-update h n i x (omega arith))
  ]

  pub tally_last : (h : Heap) (n m : ℕ) → m ≡ n + 1 → tally f h m ≡ tally f h n + f (h n)
  tally_last h n m e = let next : m ≡ suc n = omega arith in ap (tally f h) next

  pub tally_append :
      (h : Heap) (n : ℕ) (x : HeapNode) → tally f (update h n x) (n + 1) ≡ tally f h n + f x
  tally_append h n x =
      let here = ap f (update_self h n x) in
      omega
        (arith, here, tally_last (update h n x) n (n + 1) refl, tally_beyond h n n x (omega arith))

  -- The last node put in the place of the first.
  pub tally_moved :
      (h : Heap) (n m : ℕ) → m ≡ n + 1 → tally f (update h 0 (h n)) n + f (h 0) ≡ tally f h m
  tally_moved h n m e = elim (ℕ_discrete n 0) [
    | yes z ↦
        let none : tally f (update h 0 (h n)) n ≡ 0 = ap (tally f (update h 0 (h n))) z in
        let one : f (h n) ≡ f (h 0) = ap (λ k. f (h k)) z in
        let before : tally f h n ≡ 0 = ap (tally f h) z in
        omega (arith, none, one, before, tally_last h n m e)
    | no ne ↦ omega (arith, tally-update h n 0 (h n) (omega arith), tally_last h n m e)
  ]

pub swap-SameNodes : (h : Heap) (n i j : ℕ) → i < n → j < n → SameNodes h (swap h i j) n
swap-SameNodes h n i j lt lt' f =
    let middle : update h i (h j) j ≡ h j = ground arith in
    omega (
      arith,
      ap f middle,
      tally-update f h n i (h j) lt,
      tally-update f (update h i (h j)) n j (h i) lt',
    )
