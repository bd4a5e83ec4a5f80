-- ===== src/Deque/Iterate.antt =====
-- The iterators: what `deque_itr_get` reads on the way from `deque_begin`, and where `deque_end` lies.
use native.Mathlib.Nat.{mod-eq_of_lt, mod-eq-sub-mod}
use cs452_kernel.Base.{ℕ, zero, suc, ◌+◌, ◌-◌, ◌≤◌, ◌<◌, ◌≡◌, refl, ap, ap₂, List, [], ◌∷◌, arith}
use cs452_kernel.Deque.{Deque, deque_itr_get, deque_begin, deque_itr_next, deque_end}
use cs452_kernel.Deque.Inv.{IsValid, mask_lem}
use cs452_kernel.Deque.Refine.{contents}
use cs452_kernel.Deque.Ring.{ring}

-- The values read in `n` rounds of `get` and `next` from an iterator.
unfoldable pub collect : Deque → ℕ → ℕ → List ℕ
collect q itr zero = []
collect q itr (suc n) = deque_itr_get q itr ∷ collect q (deque_itr_next itr) n

collect-ring : {q : Deque} (v : IsValid q) (i n : ℕ) → collect q i n ≡ ring q.buf q.max_size i n
unfolding collect deque_itr_get deque_itr_next
collect-ring v i zero = refl
collect-ring {q} v i (suc n) = ap₂ ◌∷◌ (ap q.buf (mask_lem v i)) (collect-ring v (i + 1) n)

-- As many rounds as there are values read them all, in order, from `deque_begin` on.
pub collect-contents : {q : Deque} → IsValid q → collect q (deque_begin q) q.size ≡ contents q
unfolding deque_begin contents
collect-contents {q} v = collect-ring v q.front q.size

-- `deque_end` is `size` steps from `deque_begin` where the values reach the end of the buffer, and
-- a whole round too far, `size + max_size` steps, where they do not.
pub end_lem :
    {q : Deque}
    → IsValid q
    → (q.max_size ≤ q.front + q.size → deque_end q ≡ deque_begin q + q.size)
      × (q.front + q.size < q.max_size → deque_end q ≡ deque_begin q + q.size + q.max_size)
unfolding deque_begin deque_end
end_lem {q} v = (
  λ h. omega (
    arith,
    v.back_at,
    v.fits,
    v.front_in,
    mod-eq-sub-mod {n = q.front + q.size} {m = q.max_size} h,
    mod-eq_of_lt {n = q.front + q.size - q.max_size} {m = q.max_size} (omega arith),
  ),
  λ h. omega (arith, v.back_at, mod-eq_of_lt h),
)
