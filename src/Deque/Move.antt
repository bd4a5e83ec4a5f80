-- ===== src/Deque/Move.antt =====
-- `deque_init`, `deque_reset` and `deque_move`.
use native.Mathlib.Nat.{mod-eq_of_lt}
use cs452_kernel.Base.{
  ℕ, zero, suc, ◌+◌, ◌^◌, ◌≤◌, ◌<◌, ◌≡◌, refl, ap, sym, ◌∙◌, inl, inr, [], ◌∷◌, ◌++◌, append-nil,
  append_assoc, Option, some, arith, Bool-cases, ◌==◌, ltb, pos, false, minus_one, pow_two_pos,
}
use cs452_kernel.Deque.{Deque, deque_init, deque_reset, deque_move, move_loop, deque_empty}
use cs452_kernel.Deque.Inv.{
  IsValid, capacity_pos, pop_front_some, popped_front, pushed_back-IsValid, popped_front-IsValid,
  push_back_room, pushed_back,
}
use cs452_kernel.Deque.Refine.{contents, contents-pushed_back, contents-popped_front, contents_none}

-- `deque_init` takes exponents up to 10 and leaves an empty deque of that power of two; any larger
-- one gives -1 and leaves the deque alone.
pub init_lem :
    (q : Deque) (size : ℕ)
    → (size ≤ 10
        → let (r, q') = deque_init q size in
          (r ≡ pos 0) × IsValid q' × (q'.max_size ≡ 2 ^ size) × (contents q' ≡ []))
      × (10 < size → deque_init q size ≡ (minus_one, q))
unfolding deque_init contents
init_lem q size = (
  λ h.
      let taken : ltb 10 size ≡ false = ground arith in
      rw taken (
        refl,
        record {
          exponent = size;
          small = h;
          power = refl;
          front_in = pow_two_pos size;
          fits = omega arith;
          back_at = sym (mod-eq_of_lt (pow_two_pos size));
        },
        refl,
        refl,
      ),
  λ h. ground arith,
)

-- A reset deque keeps its capacity and is empty.
pub reset_lem :
    {q : Deque}
    → IsValid q
    → IsValid (deque_reset q)
      × (contents (deque_reset q) ≡ [])
      × ((deque_reset q).max_size ≡ q.max_size)
unfolding deque_reset contents
reset_lem v = (
  record {
    exponent = v.exponent;
    small = v.small;
    power = v.power;
    front_in = capacity_pos v;
    fits = omega arith;
    back_at = sym (mod-eq_of_lt (capacity_pos v));
  },
  refl,
  refl,
)

-- What the loop of `deque_move` returns: the values of `other` behind those of `q`, and `other` empty.
abbrev Moved : Deque → Deque → Option (Deque × Deque) → Type 0
Moved q other r =
    (q' : Deque) × (other' : Deque) × (r ≡ some (q', other'))
    × IsValid q'
    × IsValid other'
    × (q'.max_size ≡ q.max_size)
    × (contents q' ≡ contents q ++ contents other)
    × (contents other' ≡ [])

-- One round moves the front value, and the later rounds the rest.
Moved-round :
    {q other : Deque} (v : IsValid q) (w : IsValid other) (r : Option (Deque × Deque))
    → q.size < q.max_size
    → 0 < other.size
    → Moved (pushed_back v (other.buf other.front)) (popped_front w) r
    → Moved q other r
unfolding pushed_back
Moved-round {q} {other} v w r room some_left (q', other', e, v', w', capacity, moved, emptied) = (
  q',
  other',
  e,
  v',
  w',
  capacity,
  moved
      ∙ ap (λ l. l ++ contents (popped_front w)) (contents-pushed_back v x room)
      ∙ append_assoc (contents q) (x ∷ []) (contents (popped_front w))
      ∙ ap (λ l. contents q ++ l) (sym (contents-popped_front w some_left)),
  emptied,
)
  where
    x : ℕ
    x = other.buf other.front

move_loop_lem :
    (fuel : ℕ) {q other : Deque}
    → IsValid q
    → IsValid other
    → other.size < fuel
    → q.size + other.size ≤ q.max_size
    → Moved q other (move_loop fuel q other)
unfolding move_loop deque_empty pushed_back popped_front
move_loop_lem zero v w h room = absurd (omega arith)
move_loop_lem (suc fuel) {q} {other} v w h room = elim (Bool-cases (other.size == 0)) [
  | inl done ↦
      let e : other.size ≡ 0 = ground arith in
      (
        q,
        other,
        rw done,
        v,
        w,
        refl,
        sym (append-nil (contents q)) ∙ ap (λ l. contents q ++ l) (sym (contents_none w e)),
        contents_none w e,
      )
  | inr more ↦
      let some_left : 0 < other.size = ground arith in
      let free : q.size < q.max_size = omega arith in
      rw (more, pop_front_some w some_left, push_back_room v (other.buf other.front) free)
        (Moved-round v w _ free some_left (
          move_loop_lem fuel (pushed_back-IsValid v (other.buf other.front) free)
            (popped_front-IsValid w some_left) (omega arith) (omega arith)))
]

-- `deque_move` ends; the target takes over the capacity and the values of the source, in order,
-- whatever it held before, and the source is left empty. Both stay valid.
pub deque_move_lem :
    (q : Deque) {other : Deque}
    → IsValid other
    → (q' : Deque) × (other' : Deque) × (deque_move q other ≡ some (q', other'))
      × IsValid q'
      × IsValid other'
      × (q'.max_size ≡ other.max_size)
      × (contents q' ≡ contents other)
      × (contents other' ≡ [])
unfolding deque_move deque_reset contents
deque_move_lem q {other} w =
    move_loop_lem (other.size + 1)
      (record {
        exponent = w.exponent;
        small = w.small;
        power = w.power;
        front_in = capacity_pos w;
        fits = omega arith;
        back_at = sym (mod-eq_of_lt (capacity_pos w));
      })
      w (omega arith) (omega (arith, w.fits))
