-- ===== src/ClockQueue/Add.antt =====
-- An addition to the clock queue is that of a task to a sorted list.
use cs452_kernel.Base.{
  ℕ, suc, ◌<◌, ◌≡◌, ◌≢◌, refl, ap, ap₂, sym, ◌∙◌, subst, fun_ext, ltb, if◌then◌else◌, Option, none,
  some, List, [], ◌∷◌, Bool-cases, inl, inr, Outcome, ok, update, arith,
}
use cs452_kernel.Base.Lists.{length, All, All-mono, All-mono₂}
use cs452_kernel.Kernel.Links.{Links, Links-congr, NotIn}
use cs452_kernel.ClockQueue.{ClockQueue, ClockQueueEntry, insert_sorted, clock_queue_add}
use cs452_kernel.ClockQueue.Order.{
  ins, place, All-ins, ins-Sorted, ins-Distinct, next_of, tick_of, Sorted,
}
use cs452_kernel.ClockQueue.Insert.{Inserted, insert_lem}
-- `es` are the entries in the queue, in order, and `free` those of the free list.
use cs452_kernel.ClockQueue.Holds.{Holds, Sorted-congr, waiting, task_at, waiting_congr}

-- The entry `e` filled in, and out of the free list.
abbrev pub filled : ClockQueue → ℕ → ℕ → ℕ → ClockQueue
filled cq e tid tick = record cq {
  freelist = (cq.storage e).next;
  storage = update cq.storage e (record { tid = tid; clock_tick = tick; next = none });
}

filled_lem :
    (cq : ClockQueue) (e tid tick : ℕ)
    → (tick_of (filled cq e tid tick) e ≡ tick)
      × (((filled cq e tid tick).storage e).tid ≡ tid)
      × ((x : ℕ) → e ≢ x → (filled cq e tid tick).storage x ≡ cq.storage x)
filled_lem cq e tid tick = (ground arith, ground arith, λ x ne. ground arith)

length-place : (f : ℕ → ℕ) (e : ℕ) (es : List ℕ) → length (place f e es) ≡ suc (length es)
unfolding place
length-place f e [] = refl
length-place f e (n ∷ es) = elim (Bool-cases (ltb (f n) (f e))) [
  | inl before ↦ rw before (ap suc (length-place f e es))
  | inr here ↦ rw here
]

length-ins : (f : ℕ → ℕ) (e : ℕ) (es : List ℕ) → length (ins f e es) ≡ suc (length es)
unfolding ins
length-ins f e [] = refl
length-ins f e (n ∷ es) = elim (Bool-cases (ltb (f e) (f n))) [
  | inl first ↦ rw first
  | inr later ↦ rw later (ap suc (length-place f e es))
]

-- Each of one list is apart from each of the other.
All-swap : (es fs : List ℕ) → All (λ u. NotIn u fs) es → All (λ v. NotIn v es) fs
All-swap es [] h = tt
All-swap es (v ∷ fs) h = (
  All-mono (λ u. NotIn u (v ∷ fs)) (λ u. v ≢ u) es (λ u p same. p.0 (sym same)) h,
  All-swap es fs (All-mono (λ u. NotIn u (v ∷ fs)) (λ u. NotIn u fs) es (λ u p. p.1) h),
)

-- The contract: a task goes behind the first one unless its tick is smaller, and among the later ones
-- before the first whose tick is not smaller.
unfoldable pub put_later : ℕ × ℕ → List (ℕ × ℕ) → List (ℕ × ℕ)
put_later w [] = w ∷ []
put_later w (x ∷ xs) = let more = put_later w xs in if ltb x.1 w.1 then x ∷ more else w ∷ x ∷ xs

unfoldable pub put : ℕ × ℕ → List (ℕ × ℕ) → List (ℕ × ℕ)
unfolding put_later
put w [] = w ∷ []
put w (x ∷ xs) = let more = put_later w xs in if ltb w.1 x.1 then w ∷ x ∷ xs else x ∷ more

waiting-place :
    (cq : ClockQueue) (e : ℕ) (es : List ℕ)
    → waiting cq (place (tick_of cq) e es) ≡ put_later (task_at cq e) (waiting cq es)
unfolding place put_later
waiting-place cq e [] = refl
waiting-place cq e (n ∷ es) = elim (Bool-cases (ltb (tick_of cq n) (tick_of cq e))) [
  | inl before ↦ rw before (ap (λ l. task_at cq n ∷ l) (waiting-place cq e es))
  | inr here ↦ rw here
]

waiting-ins :
    (cq : ClockQueue) (e : ℕ) (es : List ℕ)
    → waiting cq (ins (tick_of cq) e es) ≡ put (task_at cq e) (waiting cq es)
unfolding ins put
waiting-ins cq e [] = refl
waiting-ins cq e (n ∷ es) = elim (Bool-cases (ltb (tick_of cq e) (tick_of cq n))) [
  | inl first ↦ rw first
  | inr later ↦ rw later (ap (λ l. task_at cq n ∷ l) (waiting-place cq e es))
]

All-of : (P : ℕ → Type 0) (xs : List ℕ) → ((x : ℕ) → P x) → All P xs
All-of P [] h = tt
All-of P (x ∷ xs) h = (h x, All-of P xs h)

module _ (cq : ClockQueue) (es fs : List ℕ) (e tid tick : ℕ) (h : Holds cq es (e ∷ fs)) where
  abbrev start : ClockQueue
  start = filled cq e tid tick

  out : NotIn e es
  out = All-mono (λ u. NotIn u (e ∷ fs)) (λ u. e ≢ u) es (λ u p same. p.0 (sym same)) h.apart

  same_at : (xs : List ℕ) → NotIn e xs → All (λ x. start.storage x ≡ cq.storage x) xs
  same_at xs o =
      All-mono (λ x. e ≢ x) (λ x. start.storage x ≡ cq.storage x) xs (filled_lem cq e tid tick).2 o

  kept_links :
      (p : Option ℕ) (xs : List ℕ)
      → NotIn e xs
      → Links (next_of cq) p xs
      → Links (next_of start) p xs
  kept_links p xs o = Links-congr (next_of cq) (next_of start) p xs (
      All-mono (λ x. start.storage x ≡ cq.storage x) (λ x. next_of start x ≡ next_of cq x) xs
        (λ x s. ap (λ (y : ClockQueueEntry). y.next) s) (same_at xs o))

  start-Sorted : Sorted (tick_of start) es
  start-Sorted =
      Sorted-congr (tick_of cq) (tick_of start) es
        (All-mono (λ x. start.storage x ≡ cq.storage x) (λ x. tick_of start x ≡ tick_of cq x) es
          (λ x s. ap (λ (y : ClockQueueEntry). y.clock_tick) s) (same_at es out))
        h.sorted

  -- The queue after the entry is linked in.
  grown : (cq' : ClockQueue) → Inserted start cq' e es → Holds cq' (ins (tick_of start) e es) fs
  grown cq' i =
      let ticks = fun_ext i.ticks in
      let sum = h.total in
      let rest = All-mono (λ u. NotIn u (e ∷ fs)) (λ u. NotIn u fs) es (λ u p. p.1) h.apart in
      let more = length-ins (tick_of start) e es in
      record {
        queue = i.chain;
        frees =
            subst (λ p. Links (next_of cq') p fs) (sym i.free_kept)
              (Links-congr (next_of start) (next_of cq') start.freelist fs
                (All-mono₂ (λ u. e ≢ u) (λ u. NotIn u es) (λ u. next_of cq' u ≡ next_of start u) fs
                  i.others h.distinct_free.0 (All-swap es fs rest))
                (kept_links start.freelist fs h.distinct_free.0 h.frees.1));
        distinct = ins-Distinct (tick_of start) e es out h.distinct;
        distinct_free = h.distinct_free.1;
        apart = All-ins (tick_of start) e (λ u. NotIn u fs) es h.distinct_free.0 rest;
        sorted =
            subst (λ f. Sorted f (ins (tick_of start) e es)) (sym ticks)
              (ins-Sorted (tick_of start) e es start-Sorted);
        total = omega (arith, sum, more);
      }

  grown_waiting :
      (cq' : ClockQueue)
      → Inserted start cq' e es
      → waiting cq' (ins (tick_of start) e es) ≡ put (tid, tick) (waiting cq es)
  grown_waiting cq' i =
      let (at_tick, at_tid, _) = filled_lem cq e tid tick in
      let both : (x : ℕ) → task_at cq' x ≡ task_at start x =
        λ x. ap₂ (λ t k. (t, k)) (i.tids x) (i.ticks x) in
      waiting_congr start cq' (ins (tick_of start) e es)
        (All-of (λ x. task_at cq' x ≡ task_at start x) (ins (tick_of start) e es) both)
      ∙ waiting-ins start e es
      ∙ ap₂ put (ap₂ (λ (t k : ℕ). (t, k)) at_tid at_tick) (
          waiting_congr cq start es (
            All-mono (λ x. start.storage x ≡ cq.storage x) (λ x. task_at start x ≡ task_at cq x) es
              (λ x s. ap (λ (y : ClockQueueEntry). (y.tid, y.clock_tick)) s) (same_at es out)))

  -- With fuel for the queue, an addition with an entry free ends, puts the task at its place among the
  -- others by its tick, and keeps the invariant: the queue stays sorted and the two lists disjoint.
  pub queued_lem :
      (fuel : ℕ)
      → 256 < fuel
      → (cq' : ClockQueue) × (es' : List ℕ) × (clock_queue_add fuel cq tid tick ≡ ok cq')
        × Holds cq' es' fs
        × (waiting cq' es' ≡ put (tid, tick) (waiting cq es))
  unfolding clock_queue_add
  queued_lem fuel enough =
      let sum = h.total in
      let (cq', run, i) =
        insert_lem start e fuel es (omega (arith, sum, enough)) out h.distinct
          (kept_links cq.head es out h.queue) in
      (
        cq',
        ins (tick_of start) e es,
        ap
              (λ (o : Option ℕ). elim o as (λ _. Outcome ClockQueue) [
                | none ↦ ok cq
                | some x ↦ insert_sorted fuel (filled cq x tid tick) x
              ])
              h.frees.0
            ∙ run,
        grown cq' i,
        grown_waiting cq' i,
      )
