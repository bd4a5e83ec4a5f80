-- ===== src/Deque/Inv.antt =====
-- The representation invariant of a deque, and that every operation keeps it.
use native.Mathlib.Nat.{add_assoc, mod-lt, mod-add-mod, add-mod_right, pow-le-pow_right}
use native.Mathlib.Decide.{dec_lt}
use cs452_kernel.Base.{
  ℕ, suc, ◌+◌, ◌-◌, ◌%◌, ◌^◌, ◌≤◌, ◌<◌, ◌≡◌, refl, ap, sym, ◌∙◌, arith, bit_and, update,
  bit_and_mask, pow_two_pos,
}
use cs452_kernel.Deque.{
  Deque, deque_push_back, deque_pop_back, deque_push_front, deque_pop_front, no_value,
}

-- The capacity is a power of two of at most 2 ^ 10, `front` is an index below it, at most that many
-- values are held, and `back` lies `size` places behind `front`.
pub record IsValid (q : Deque) : Type 0 where
  pub exponent : ℕ
  pub small : exponent ≤ 10
  pub power : q.max_size ≡ 2 ^ exponent
  pub front_in : q.front < q.max_size
  pub fits : q.size ≤ q.max_size
  pub back_at : q.back ≡ (q.front + q.size) % q.max_size

module _ {q : Deque} (v : IsValid q) where
  pub mask_lem : (x : ℕ) → bit_and x (q.max_size - 1) ≡ x % q.max_size
  mask_lem x = rw v.power (bit_and_mask v.exponent x)

  pub capacity_pos : 0 < q.max_size
  capacity_pos = rw v.power (pow_two_pos v.exponent)

  pub capacity_small : q.max_size ≤ 1024
  capacity_small = rw v.power (pow-le-pow_right {n = 2} (omega arith) v.small)

  pub back_in : q.back < q.max_size
  back_in = rw v.back_at (mod-lt (q.front + q.size) capacity_pos)

-- The index behind another, and the index before another, as the code computes them.
pub forth : (a b n m : ℕ) → a ≡ (n + m) % b → (a + 1) % b ≡ (n + (m + 1)) % b
forth a b n m e =
    ap (λ (t : ℕ). (t + 1) % b) e
    ∙ mod-add-mod (n + m) b 1
    ∙ ap (λ (t : ℕ). t % b) (add_assoc n m 1)

pub back_and_forth : (i b : ℕ) → 0 < b → ((i + b - 1) % b + 1) % b ≡ i % b
back_and_forth i b h =
    mod-add-mod (i + b - 1) b 1 ∙ ap (λ (t : ℕ). t % b) (omega arith) ∙ add-mod_right i b

pub step_back : (a b n m : ℕ) → 0 < b → a ≡ (n + suc m) % b → (a + b - 1) % b ≡ (n + m) % b
step_back a b n m h e =
    ap (λ (t : ℕ). t % b) (omega arith)
    ∙ ap (λ (t : ℕ). (t + (b - 1)) % b) e
    ∙ mod-add-mod (n + suc m) b (b - 1)
    ∙ ap (λ (t : ℕ). t % b) (omega arith)
    ∙ add-mod_right (n + m) b

-- Refused calls change nothing.
module _ (q : Deque) where
  pub push_back_full : (x : ℕ) → q.size ≡ q.max_size → deque_push_back q x ≡ q
  unfolding deque_push_back
  push_back_full x e = ground arith

  pub push_front_full : (x : ℕ) → q.size ≡ q.max_size → deque_push_front q x ≡ q
  unfolding deque_push_front
  push_front_full x e = ground arith

  pub pop_back_none : q.size ≡ 0 → deque_pop_back q ≡ (no_value, q)
  unfolding deque_pop_back
  pop_back_none e = ground arith

  pub pop_front_none : q.size ≡ 0 → deque_pop_front q ≡ (no_value, q)
  unfolding deque_pop_front
  pop_front_none e = ground arith

-- What the others do, with each index as a remainder.
module _ {q : Deque} (v : IsValid q) where
  unfoldable pub pushed_back : ℕ → Deque
  pushed_back x = record q {
    size = q.size + 1;
    back = (q.front + (q.size + 1)) % q.max_size;
    buf = update q.buf q.back x;
  }

  pub push_back_room : (x : ℕ) → q.size < q.max_size → deque_push_back q x ≡ pushed_back x
  unfolding deque_push_back pushed_back
  push_back_room x h = ground (
    arith,
    capacity_small v,
    mask_lem v (q.back + 1),
    forth q.back q.max_size q.front q.size v.back_at,
  )

  unfoldable pub before : ℕ
  before = (q.front + q.max_size - 1) % q.max_size

  unfoldable pub pushed_front : ℕ → Deque
  pushed_front x = record q { size = q.size + 1; front = before; buf = update q.buf before x }

  pub push_front_room : (x : ℕ) → q.size < q.max_size → deque_push_front q x ≡ pushed_front x
  unfolding deque_push_front pushed_front before
  push_front_room x h = ground (arith, capacity_small v, mask_lem v (q.front + q.max_size - 1))

  unfoldable pub popped_back : Deque
  popped_back = record q { size = q.size - 1; back = (q.front + (q.size - 1)) % q.max_size }

  pub pop_back_some :
      0 < q.size → deque_pop_back q ≡ (q.buf ((q.front + (q.size - 1)) % q.max_size), popped_back)
  unfolding deque_pop_back popped_back
  pop_back_some h =
      let last : (q.back + q.max_size - 1) % q.max_size ≡ (q.front + (q.size - 1)) % q.max_size =
        step_back q.back q.max_size q.front (q.size - 1) (capacity_pos v)
          (v.back_at ∙ ap (λ (t : ℕ). (q.front + t) % q.max_size) (omega arith)) in
      ground (arith, mask_lem v (q.back + q.max_size - 1), last)

  unfoldable pub popped_front : Deque
  popped_front = record q { size = q.size - 1; front = (q.front + 1) % q.max_size }

  pub pop_front_some : 0 < q.size → deque_pop_front q ≡ (q.buf q.front, popped_front)
  unfolding deque_pop_front popped_front
  pop_front_some h = ground (arith, mask_lem v (q.front + 1))

-- Every operation keeps the invariant.
module _ {q : Deque} (v : IsValid q) where
  pub pushed_back-IsValid : (x : ℕ) → q.size < q.max_size → IsValid (pushed_back v x)
  unfolding pushed_back
  pushed_back-IsValid x h = record {
    exponent = v.exponent;
    small = v.small;
    power = v.power;
    front_in = v.front_in;
    fits = omega arith;
    back_at = refl;
  }

  pushed_front-IsValid : (x : ℕ) → q.size < q.max_size → IsValid (pushed_front v x)
  unfolding pushed_front before
  pushed_front-IsValid x h = record {
    exponent = v.exponent;
    small = v.small;
    power = v.power;
    front_in = mod-lt (q.front + q.max_size - 1) (capacity_pos v);
    fits = omega arith;
    back_at =
        v.back_at
        ∙ sym (mod-add-mod q.front q.max_size q.size)
        ∙ ap (λ (t : ℕ). (t + q.size) % q.max_size)
            (sym (back_and_forth q.front q.max_size (capacity_pos v)))
        ∙ mod-add-mod (before v + 1) q.max_size q.size
        ∙ ap (λ (t : ℕ). t % q.max_size) (omega arith);
  }

  popped_back-IsValid : 0 < q.size → IsValid (popped_back v)
  unfolding popped_back
  popped_back-IsValid h = record {
    exponent = v.exponent;
    small = v.small;
    power = v.power;
    front_in = v.front_in;
    fits = omega (arith, v.fits);
    back_at = refl;
  }

  pub popped_front-IsValid : 0 < q.size → IsValid (popped_front v)
  unfolding popped_front
  popped_front-IsValid h = record {
    exponent = v.exponent;
    small = v.small;
    power = v.power;
    front_in = mod-lt (q.front + 1) (capacity_pos v);
    fits = omega (arith, v.fits);
    back_at =
        v.back_at
        ∙ ap (λ (t : ℕ). t % q.max_size) (omega arith)
        ∙ sym (mod-add-mod (q.front + 1) q.max_size (q.size - 1));
  }

  pub push_back-IsValid : (x : ℕ) → IsValid (deque_push_back q x)
  push_back-IsValid x = elim (dec_lt q.size q.max_size) [
    | yes h ↦ rw (push_back_room v x h) (pushed_back-IsValid x h)
    | no h ↦ rw (push_back_full q x (omega (arith, v.fits))) v
  ]

  pub push_front-IsValid : (x : ℕ) → IsValid (deque_push_front q x)
  push_front-IsValid x = elim (dec_lt q.size q.max_size) [
    | yes h ↦ rw (push_front_room v x h) (pushed_front-IsValid x h)
    | no h ↦ rw (push_front_full q x (omega (arith, v.fits))) v
  ]

  pub pop_back-IsValid : IsValid (deque_pop_back q).1
  pop_back-IsValid = elim (dec_lt 0 q.size) [
    | yes h ↦ rw (pop_back_some v h) (popped_back-IsValid h)
    | no h ↦ rw (pop_back_none q (omega arith)) v
  ]

  pub pop_front-IsValid : IsValid (deque_pop_front q).1
  pop_front-IsValid = elim (dec_lt 0 q.size) [
    | yes h ↦ rw (pop_front_some v h) (popped_front-IsValid h)
    | no h ↦ rw (pop_front_none q (omega arith)) v
  ]
