-- ===== src/PriorityQueue/Order.antt =====
-- The order of the heap, and the multiset of its nodes: the sum of any function over them.
use cs452_kernel.Base.{
  ℕ, ◌+◌, ◌-◌, ◌*◌, ◌/◌, ◌%◌, ◌^◌, ◌≤◌, ◌<◌, ◌≡◌, refl, sym, ap, subst, ◌∙◌, inl, inr, ◌⊎◌, true,
  false, ◌||◌, leb, Option, some, none, arith, Bool-cases,
}
use native.Mathlib.Decide.{dec_lt}
use native.Mathlib.Nat.{mod-eq_of_lt}
use cs452_kernel.PriorityQueue.{Heap, child, above, lower, smallest}

abbrev pub IsChild : ℕ → ℕ → Type 0
IsChild a c = (c ≡ a * 2 + 1) ⊎ (c ≡ a * 2 + 2)

-- From the nodes from `k` on, none has a larger priority than its children.
abbrev pub IsHeapFrom : ℕ → Heap → ℕ → Type 0
IsHeapFrom k h size = (a c : ℕ) → IsChild a c → c < size → k ≤ a → (h a).priority ≤ (h c).priority

abbrev pub IsHeap : Heap → ℕ → Type 0
IsHeap = IsHeapFrom 0

pub child-lt : {a c : ℕ} → IsChild a c → a < c
child-lt (inl e) = omega arith
child-lt (inr e) = omega arith

pub parent_unique : {a b c : ℕ} → IsChild a c → IsChild b c → a ≡ b
parent_unique (inl e) (inl f) = omega arith
parent_unique (inl e) (inr f) = absurd (omega arith)
parent_unique (inr e) (inl f) = absurd (omega arith)
parent_unique (inr e) (inr f) = omega arith

pub parent_lem : (i : ℕ) → 0 < i → IsChild ((i - 1) / 2) i
parent_lem i lt = ground arith

child_lem :
    (size c : ℕ)
    → size ≤ 256
    → c ≤ 1024
    → ((child size c ≡ none) × (size ≤ c)) ⊎ ((child size c ≡ some c) × (c < size))
unfolding child
child_lem size c small le =
    let short : c % 2 ^ 16 ≡ c = mod-eq_of_lt (omega arith) in
    rw short (elim (dec_lt c size) [
      | yes lt ↦
          inr ((let e : (leb size c || leb (2 ^ 15) c) ≡ false = ground arith in rw e refl), lt)
      | no ge ↦
          inl (
            (let e : (leb size c || leb (2 ^ 15) c) ≡ true = ground arith in rw e refl),
            omega arith,
          )
    ])

-- What one choice between a node and a child does.
abbrev Lower : Heap → Option ℕ → ℕ → ℕ → Type 0
Lower h o m r =
    ((r ≡ m) ⊎ ((o ≡ some r) × ((h r).priority < (h m).priority)))
    × ((h r).priority ≤ (h m).priority)
    × ((c : ℕ) → o ≡ some c → (h r).priority ≤ (h c).priority)

lower_lem : (h : Heap) (o : Option ℕ) (m : ℕ) → Lower h o m (lower h o m)
lower_lem h none m = (inl refl, omega arith, λ c e. absurd (ground arith))
lower_lem h (some c) m = elim (Bool-cases (above h c m)) [
  | inl b ↦ rw b (inr (refl, ground arith), ground arith, λ d e. ground arith)
  | inr b ↦ rw b (inl refl, omega arith, λ d e. ground arith)
]

-- What `child` can say of an index.
abbrev Found : ℕ → ℕ → Option ℕ → Type 0
Found size k o = ((o ≡ none) × (size ≤ k)) ⊎ ((o ≡ some k) × (k < size))

abbrev or_zero : Option ℕ → ℕ
or_zero none = 0
or_zero (some k) = k

Found-some : (size k r : ℕ) (o : Option ℕ) → Found size k o → o ≡ some r → (r ≡ k) × (k < size)
Found-some size k r o (inl (e, ge)) f = absurd (ground arith)
Found-some size k r o (inr (e, lt)) f = (ap or_zero (sym f ∙ e), lt)

Found-here : (size k c : ℕ) (o : Option ℕ) → Found size k o → c ≡ k → c < size → o ≡ some c
Found-here size k c o (inl (e, ge)) same lt = absurd (omega arith)
Found-here size k c o (inr (e, _)) same lt = e ∙ ap some (sym same)

-- The smallest of a node and its children is the node, or a child that is above the node and not
-- below the other child.
abbrev pub Smallest : Heap → ℕ → ℕ → ℕ → Type 0
Smallest h size i m =
    ((m ≡ i) ⊎ (IsChild i m × (m < size) × ((h m).priority < (h i).priority)))
    × ((c : ℕ) → IsChild i c → c < size → (h m).priority ≤ (h c).priority)

pub smallest_lem :
    (h : Heap) (size i : ℕ) → size ≤ 256 → i ≤ size → Smallest h size i (smallest h size i)
unfolding smallest
smallest_lem h size i small le =
    both (child size (i * 2 + 1)) (child size (i * 2 + 2)) (lower h (child size (i * 2 + 1)) i)
      (smallest h size i) (child_lem size (i * 2 + 1) small (omega arith))
      (child_lem size (i * 2 + 2) small (omega arith)) (lower_lem h (child size (i * 2 + 1)) i)
      (lower_lem h (child size (i * 2 + 2)) (lower h (child size (i * 2 + 1)) i))
  where
    both :
        (o o' : Option ℕ) (f r : ℕ)
        → Found size (i * 2 + 1) o
        → Found size (i * 2 + 2) o'
        → Lower h o i f
        → Lower h o' f r
        → Smallest h size i r
    both o o' f r left right (picked, le₁, all₁) (picked', le₂, all₂) = (
      elim picked' [
        | inr (e, less) ↦
            let (at, lt) = Found-some size (i * 2 + 2) r o' right e in
            inr (inr at, omega arith, omega arith)
        | inl same ↦ elim picked [
          | inl stays ↦ inl (same ∙ stays)
          | inr (e, less) ↦
              let (at, lt) = Found-some size (i * 2 + 1) f o left e in
              inr (
                subst (λ m. IsChild i m × (m < size) × ((h m).priority < (h i).priority)) (sym same)
                  (inl at, omega arith, less))
        ]
      ],
      λ c is_child lt. elim is_child [
        | inl e ↦ omega (arith, le₂, all₁ c (Found-here size (i * 2 + 1) c o left e lt))
        | inr e ↦ all₂ c (Found-here size (i * 2 + 2) c o' right e lt)
      ],
    )
