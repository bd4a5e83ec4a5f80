-- ===== src/ClockQueue/Holds.antt =====
-- The invariant of the clock queue, and the tasks that wait in it.
use cs452_kernel.Base.{ℕ, ◌+◌, ◌≤◌, ◌≡◌, refl, ap₂, List, [], ◌∷◌, arith}
use cs452_kernel.Base.Lists.{length, All, All-mono₂}
use cs452_kernel.Kernel.Links.{Links, NotIn, Distinct}
use cs452_kernel.ClockQueue.{ClockQueue}
use cs452_kernel.ClockQueue.Order.{Sorted, next_of, tick_of}

-- `es` are the entries in the queue, in order, and `free` those of the free list.
pub record Holds (cq : ClockQueue) (es free : List ℕ) : Type 0 where
  pub queue : Links (next_of cq) cq.head es
  pub frees : Links (next_of cq) cq.freelist free
  pub distinct : Distinct es
  pub distinct_free : Distinct free
  pub apart : All (λ u. NotIn u free) es
  pub sorted : Sorted (tick_of cq) es
  pub total : length es + length free ≤ 256

pub Sorted-congr : (f g : ℕ → ℕ) (es : List ℕ) → All (λ x. g x ≡ f x) es → Sorted f es → Sorted g es
Sorted-congr f g [] same s = tt
Sorted-congr f g (x ∷ es) (here, same) (least, s) = (
  All-mono₂ (λ y. g y ≡ f y) (λ y. f x ≤ f y) (λ y. g x ≤ g y) es
      (λ y e le. omega (arith, e, le, here)) same least,
  Sorted-congr f g es same s,
)

-- A waiting task and its tick.
abbrev pub waiting : ClockQueue → List ℕ → List (ℕ × ℕ)
waiting cq [] = []
waiting cq (e ∷ es) = ((cq.storage e).tid, (cq.storage e).clock_tick) ∷ waiting cq es

abbrev pub task_at : ClockQueue → ℕ → ℕ × ℕ
task_at cq e = ((cq.storage e).tid, (cq.storage e).clock_tick)

pub waiting_congr :
    (cq cq' : ClockQueue) (es : List ℕ)
    → All (λ x. task_at cq' x ≡ task_at cq x) es
    → waiting cq' es ≡ waiting cq es
waiting_congr cq cq' [] same = refl
waiting_congr cq cq' (e ∷ es) (here, same) =
    ap₂ (λ x xs. x ∷ xs) here (waiting_congr cq cq' es same)
