-- ===== src/Deque/Refine.antt =====
-- A valid deque behaves as the bounded list of its values.
use native.Mathlib.Nat.{mod-mod, mod-add-mod, mod-eq_of_lt}
use native.Mathlib.Decide.{dec_lt}
use cs452_kernel.Base.{
  ℕ, suc, ◌+◌, ◌-◌, ◌%◌, ◌<◌, ◌≡◌, refl, ap, ap₂, sym, ◌∙◌, ◌≢◌, List, [], ◌∷◌, ◌++◌, arith, update,
  update_self, ◌==◌, if◌then◌else◌,
}
use cs452_kernel.Base.Lists.{length}
use cs452_kernel.Deque.{Deque, deque_push_back, deque_pop_back, deque_push_front, deque_pop_front}
use cs452_kernel.Deque.Ring.{ring, length-ring, ring_snoc, ring_congr, ring-update_ne, mod_ne}
use cs452_kernel.Deque.Inv.{
  IsValid, capacity_pos, before, pushed_back, pushed_front, popped_back, popped_front,
  push_back_full, push_front_full, pop_back_none, pop_front_none, push_back_room, push_front_room,
  pop_back_some, pop_front_some, back_and_forth,
}
use cs452_kernel.Deque.Spec.{take_back, take_front, take_back-snoc}

-- The values that a deque holds, front first.
unfoldable pub contents : Deque → List ℕ
contents q = ring q.buf q.max_size q.front q.size

pub length-contents : (q : Deque) → length (contents q) ≡ q.size
unfolding contents
length-contents q = length-ring q.buf q.max_size q.front q.size

module _ {q : Deque} (v : IsValid q) where
  pub contents-pushed_back :
      (x : ℕ) → q.size < q.max_size → contents (pushed_back v x) ≡ contents q ++ x ∷ []
  unfolding contents pushed_back
  contents-pushed_back x h =
      ring_snoc (update q.buf q.back x) q.max_size q.front q.size
      ∙ ap₂ (λ (l : List ℕ) (y : ℕ). l ++ y ∷ [])
          (ring-update_ne q.buf q.max_size q.front q.size q.back x apart)
          (ap (update q.buf q.back x) (sym v.back_at) ∙ update_self q.buf q.back x)
    where
      apart : (k : ℕ) → k < q.size → (q.front + k) % q.max_size ≢ q.back
      apart k below e =
          mod_ne q.max_size (q.front + k) (q.size - k) (omega arith) (omega arith)
            (ap (λ (t : ℕ). t % q.max_size) (omega arith) ∙ sym v.back_at ∙ sym e)

  before_mod : before v % q.max_size ≡ before v
  unfolding before
  before_mod = mod-mod (q.front + q.max_size - 1) q.max_size

  -- The places of the values lie one further from the new front.
  places : (k : ℕ) → (before v + (k + 1)) % q.max_size ≡ (q.front + k) % q.max_size
  unfolding before
  places k =
      ap (λ (t : ℕ). t % q.max_size) (omega arith)
      ∙ sym (mod-add-mod (before v + 1) q.max_size k)
      ∙ ap (λ (t : ℕ). (t + k) % q.max_size) (back_and_forth q.front q.max_size (capacity_pos v))
      ∙ mod-add-mod q.front q.max_size k

  contents-pushed_front :
      (x : ℕ) → q.size < q.max_size → contents (pushed_front v x) ≡ x ∷ contents q
  unfolding contents pushed_front
  contents-pushed_front x h =
      let one_more : q.size + 1 ≡ suc q.size = omega arith in
      rw one_more (
        ap₂ ◌∷◌ (ap (update q.buf (before v) x) before_mod ∙ update_self q.buf (before v) x) (
          ring_congr (update q.buf (before v) x) q.max_size (before v + 1) q.front q.size shifted
          ∙ ring-update_ne q.buf q.max_size q.front q.size (before v) x apart))
    where
      shifted : (before v + 1) % q.max_size ≡ q.front % q.max_size
      shifted =
          ap (λ (t : ℕ). t % q.max_size) (omega arith)
          ∙ places 0
          ∙ ap (λ (t : ℕ). t % q.max_size) (omega arith)

      apart : (k : ℕ) → k < q.size → (q.front + k) % q.max_size ≢ before v
      apart k below e =
          mod_ne q.max_size (before v) (k + 1) (omega arith) (omega arith)
            (places k ∙ e ∙ sym before_mod)

  contents-popped_back :
      0 < q.size
      → contents q ≡ contents (popped_back v) ++ q.buf ((q.front + (q.size - 1)) % q.max_size) ∷ []
  unfolding contents popped_back
  contents-popped_back h =
      ap (ring q.buf q.max_size q.front) (omega arith)
      ∙ ring_snoc q.buf q.max_size q.front (q.size - 1)

  pub contents-popped_front : 0 < q.size → contents q ≡ q.buf q.front ∷ contents (popped_front v)
  unfolding contents popped_front
  contents-popped_front h =
      let one_more : q.size ≡ suc (q.size - 1) = omega arith in
      ap (ring q.buf q.max_size q.front) one_more
      ∙ ap₂ ◌∷◌ (ap q.buf (mod-eq_of_lt v.front_in)) (
          ring_congr q.buf q.max_size (q.front + 1) ((q.front + 1) % q.max_size) (q.size - 1)
            (sym (mod-mod (q.front + 1) q.max_size)))

  -- `deque_push_back` adds the value behind the others, and a full deque drops it.
  pub push_back_refines :
      (x : ℕ)
      → contents (deque_push_back q x)
        ≡ (if length (contents q) == q.max_size then contents q else contents q ++ x ∷ [])
  push_back_refines x = elim (dec_lt q.size q.max_size) [
    | yes h ↦
        ground
          (arith, length-contents q, ap contents (push_back_room v x h), contents-pushed_back x h)
    | no h ↦
        let full : q.size ≡ q.max_size = omega (arith, v.fits) in
        ground (arith, length-contents q, ap contents (push_back_full q x full))
  ]

  pub push_front_refines :
      (x : ℕ)
      → contents (deque_push_front q x)
        ≡ (if length (contents q) == q.max_size then contents q else x ∷ contents q)
  push_front_refines x = elim (dec_lt q.size q.max_size) [
    | yes h ↦
        ground
          (arith, length-contents q, ap contents (push_front_room v x h), contents-pushed_front x h)
    | no h ↦
        let full : q.size ≡ q.max_size = omega (arith, v.fits) in
        ground (arith, length-contents q, ap contents (push_front_full q x full))
  ]

  pub contents_none : q.size ≡ 0 → contents q ≡ []
  unfolding contents
  contents_none e = ap (ring q.buf q.max_size q.front) e

  pub pop_back_refines : let (x, r) = deque_pop_back q in (x, contents r) ≡ take_back (contents q)
  pop_back_refines = elim (dec_lt 0 q.size) [
    | yes h ↦ rw (pop_back_some v h) (
        sym (take_back-snoc (contents (popped_back v)) _)
        ∙ ap take_back (sym (contents-popped_back h)))
    | no h ↦
        let none_left : q.size ≡ 0 = omega arith in
        rw (pop_back_none q none_left, contents_none none_left) (unfold take_back in refl)
  ]

  pub pop_front_refines :
      let (x, r) = deque_pop_front q in (x, contents r) ≡ take_front (contents q)
  pop_front_refines = elim (dec_lt 0 q.size) [
    | yes h ↦ rw (pop_front_some v h, contents-popped_front h) (unfold take_front in refl)
    | no h ↦
        let none_left : q.size ≡ 0 = omega arith in
        rw (pop_front_none q none_left, contents_none none_left) (unfold take_front in refl)
  ]
