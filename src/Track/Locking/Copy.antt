-- ===== src/Track/Locking/Copy.antt =====
-- What the copy loops put in a message: the segments of the queue, in order, if there are 8 at most.
use cs452_kernel.Base.{
  ℕ, zero, suc, ◌+◌, ◌%◌, ◌^◌, ◌≤◌, ◌<◌, ◌≡◌, refl, ap, ap₂, subst, ◌∙◌, true, false, ltb, arith,
  update, List, [], ◌∷◌, map, Outcome, ok, fault, out_of_bounds, update_self, update_ne, ◌>>=◌, inl,
  inr, lt→ltb, Bool-cases,
}
use native.Mathlib.Decide.{dec_lt, ℕ_discrete}
use native.Mathlib.Nat.{mod-eq_of_lt}
use cs452_kernel.Deque.{Deque, deque_size, deque_begin, deque_itr_get, deque_itr_next}
use cs452_kernel.Deque.Inv.{IsValid, mask_lem}
use cs452_kernel.Deque.Ring.{ring}
use cs452_kernel.Deque.Refine.{contents}
use cs452_kernel.Track.Messages.{TsMsg, max_segments_msg}
use cs452_kernel.Track.Locking.{
  copy_from, copy_segment_ids, copy_second_from, copy_second_segment_ids,
}

-- The first `n` cells of an array from `i` on.
abbrev pub cells : (ℕ → ℕ) → ℕ → ℕ → List ℕ
cells f i zero = []
cells f i (suc n) = f i ∷ cells f (i + 1) n

module _ {q : Deque} (v : IsValid q) where
  -- The value of the queue that belongs in cell `j`.
  abbrev value_at : ℕ → ℕ
  value_at j = q.buf ((q.front + j) % q.max_size) % 2 ^ 16

  cells-ring :
      (f : ℕ → ℕ) (i n : ℕ)
      → ((j : ℕ) → j < i + n → f j ≡ value_at j)
      → cells f i n ≡ map (λ (x : ℕ). x % 2 ^ 16) (ring q.buf q.max_size (q.front + i) n)
  cells-ring f i zero h = refl
  cells-ring f i (suc n) h = ap₂ ◌∷◌ (h i (omega arith)) (
      cells-ring f (i + 1) n (λ j lt. h j (omega arith))
      ∙ ap (λ (start : ℕ). map (λ (x : ℕ). x % 2 ^ 16) (ring q.buf q.max_size start n))
          (omega arith))

  module _ (m : TsMsg) (small : q.size ≤ 8) where
    -- The message after `k` rounds.
    abbrev filled : (ℕ → ℕ) → ℕ → TsMsg
    filled g k = record m { segment_ids = g; no_segments = k }

    abbrev Copied : (ℕ → ℕ) → ℕ → Outcome TsMsg → Type 0
    Copied g k o =
        (f : ℕ → ℕ) × (o ≡ ok (filled f q.size))
        × ((j : ℕ) → j < k → f j ≡ g j)
        × ((j : ℕ) → k ≤ j → j < q.size → f j ≡ value_at j)

    all-Copied : (g : ℕ → ℕ) (k : ℕ) → k ≡ q.size → Copied g k (ok (filled g k))
    all-Copied g k e =
        (g, ap (λ n. ok (filled g n)) e, (λ j lt. refl), (λ j lo hi. absurd (omega arith)))

    -- One round.
    round_lem :
        (places k : ℕ) (g : ℕ → ℕ) (o : Outcome TsMsg)
        → k < q.size
        → copy_from q places (q.front + (k + 1)) (filled (update g k (value_at k)) (k + 1)) ≡ o
        → copy_from q (suc places) (q.front + k) (filled g k) ≡ o
    unfolding copy_from deque_size deque_itr_get deque_itr_next
    round_lem places k g o lt e =
        let go = lt→ltb k q.size lt in
        let byte : (k + 1) % 256 ≡ k + 1 = mod-eq_of_lt (omega arith) in
        let next : q.front + k + 1 ≡ q.front + (k + 1) = omega arith in
        let here : deque_itr_get q (q.front + k) ≡ q.buf ((q.front + k) % q.max_size) =
          ap q.buf (mask_lem v (q.front + k)) in
        rw (go, byte, next, here) e

    copied :
        (places k : ℕ) (g : ℕ → ℕ)
        → k ≤ q.size
        → q.size ≤ k + places
        → Copied g k (copy_from q places (q.front + k) (filled g k))
    unfolding copy_from deque_size
    copied zero k g le room =
        let stop : ltb k q.size ≡ false = ground arith in rw stop (all-Copied g k (omega arith))
    copied (suc places) k g le room = elim (dec_lt k q.size) [
      | no stop ↦
          let stops : ltb k q.size ≡ false = ground arith in rw stops (all-Copied g k (omega arith))
      | yes lt ↦
          let (f, e, old, new) =
            copied places (k + 1) (update g k (value_at k)) (omega arith) (omega arith) in
          (
            f,
            round_lem places k g (ok (filled f q.size)) lt e,
            (λ j below.
                old j (omega arith)
                ∙ update_ne g k j (value_at k) (λ x. absurd (omega (arith, x)))),
            (λ j lo hi. elim (ℕ_discrete k j) [
              | yes same ↦
                  subst (λ i. f i ≡ value_at i) same
                    (old k (omega arith) ∙ update_self g k (value_at k))
              | no ne ↦ new j (omega arith) hi
            ]),
          )
    ]

  overflow :
      (places k : ℕ) (m : TsMsg)
      → m.no_segments ≡ k
      → k + places ≡ 8
      → 8 < q.size
      → (it : ℕ) → copy_from q places it m ≡ fault out_of_bounds
  unfolding copy_from deque_size
  overflow zero k m at room big it =
      let go : ltb m.no_segments q.size ≡ true = ground arith in rw go refl
  overflow (suc places) k m at room big it =
      let go : ltb m.no_segments q.size ≡ true = ground arith in
      let byte : (m.no_segments + 1) % 256 ≡ k + 1 = rw at (mod-eq_of_lt (omega arith)) in
      simp go (
        overflow places (k + 1)
          (record m {
            segment_ids = update m.segment_ids m.no_segments (deque_itr_get q it % 2 ^ 16);
            no_segments = (m.no_segments + 1) % 256;
          })
          byte (omega arith) big (deque_itr_next it))

-- The message with its two requests exchanged.
abbrev swap : TsMsg → TsMsg
swap m = record m {
  segment_ids = m.second_segment_ids;
  second_segment_ids = m.segment_ids;
  no_segments = m.second_no_segments;
  second_no_segments = m.no_segments;
}

-- The two loops differ in the request that they fill.
second_from_lem :
    (q : Deque) (places it : ℕ) (m : TsMsg)
    → copy_second_from q places it m ≡ copy_from q places it (swap m) >>= λ m'. ok (swap m')
unfolding copy_from copy_second_from
second_from_lem q zero it m = elim (Bool-cases (ltb m.second_no_segments (deque_size q))) [
  | inl go ↦ rw go refl
  | inr stop ↦ rw stop refl
]
second_from_lem q (suc places) it m = elim (Bool-cases (ltb m.second_no_segments (deque_size q))) [
  | inl go ↦ rw go (second_from_lem q places (deque_itr_next it) _)
  | inr stop ↦ rw stop refl
]

second_lem :
    (q : Deque) (m : TsMsg)
    → copy_second_segment_ids m q ≡ copy_segment_ids (swap m) q >>= λ m'. ok (swap m')
unfolding copy_segment_ids copy_second_segment_ids
second_lem q m =
    second_from_lem q max_segments_msg (deque_begin q) (record m { second_no_segments = 0 })

-- The values of a queue, cut to the 16 bits of a segment number.
abbrev pub segments_of : Deque → List ℕ
segments_of q = map (λ (x : ℕ). x % 2 ^ 16) (contents q)

first_lem :
    {q : Deque} (v : IsValid q) (m : TsMsg) (small : q.size ≤ 8)
    → (f : ℕ → ℕ) × (copy_segment_ids m q ≡ ok (record m { segment_ids = f; no_segments = q.size }))
      × (cells f 0 q.size ≡ segments_of q)
unfolding copy_segment_ids deque_begin contents
first_lem {q} v m small =
    let (f, e, _, all) = copied v m small 8 0 m.segment_ids (omega arith) (omega arith) in
    let start : q.front + 0 ≡ q.front = omega arith in
    (
      f,
      subst
          (λ it.
            copy_from q 8 it (record m { no_segments = 0 })
            ≡ ok (record m { segment_ids = f; no_segments = q.size }))
          start e,
      cells-ring v f 0 q.size (λ j lt. all j (omega arith) (omega arith))
          ∙ ap (λ it. map (λ (x : ℕ). x % 2 ^ 16) (ring q.buf q.max_size it q.size)) start,
    )

overflow_lem :
    {q : Deque} (v : IsValid q) (m : TsMsg)
    → 8 < q.size
    → copy_segment_ids m q ≡ fault out_of_bounds
unfolding copy_segment_ids
overflow_lem {q} v m big =
    overflow v 8 0 (record m { no_segments = 0 }) refl refl big (deque_begin q)

-- A valid queue of 8 values at most is copied whole and in order, into the first or the second request of a
-- message, whose other fields stay. A longer queue is written past the end of the array.
pub copy_lem :
    {q : Deque}
    → IsValid q
    → (m : TsMsg)
    → (q.size ≤ 8
        → (f : ℕ → ℕ) × (g : ℕ → ℕ) × (copy_segment_ids m q
            ≡ ok (record m { segment_ids = f; no_segments = q.size }))
          × (cells f 0 q.size ≡ segments_of q)
          × (copy_second_segment_ids m q
              ≡ ok (record m { second_segment_ids = g; second_no_segments = q.size }))
          × (cells g 0 q.size ≡ segments_of q))
      × (8 < q.size
          → (copy_segment_ids m q ≡ fault out_of_bounds)
            × (copy_second_segment_ids m q ≡ fault out_of_bounds))
copy_lem {q} v m = (
  λ small.
      let (f, e, same) = first_lem v m small in
      let (g, e', same') = first_lem v (swap m) small in
      (f, g, e, same, second_lem q m ∙ ap (λ o. o >>= λ m'. ok (swap m')) e', same'),
  λ big. (
    overflow_lem v m big,
    second_lem q m ∙ ap (λ o. o >>= λ m'. ok (swap m')) (overflow_lem v (swap m) big),
  ),
)
