-- ===== src/Deque.antt =====
-- include/deque.h and src/deque.c: the double-ended queue of 32-bit values over a circular buffer.
-- A value is the bit pattern of its int32_t, since values are only moved. The indices are int16_t and
-- the size is a uint16_t in the source; `Deque.Inv` shows the ranges in which they stay.
pub mod Ring
pub mod Inv
pub mod Spec
pub mod Refine
pub mod Run
pub mod Iterate
pub mod Move
pub mod Bounded
mod Tests
use cs452_kernel.Base.{
  ℕ, zero, suc, ◌+◌, ◌-◌, ◌%◌, ◌^◌, Bool, Option, none, some, bit_and, ltb, ◌==◌, if◌then◌else◌,
  update, ℤ, pos, minus_one,
}

pub record Deque : Type 0 where
  pub size : ℕ
  pub max_size : ℕ
  pub front : ℕ
  pub back : ℕ
  pub buf : ℕ → ℕ

-- The number of cells of `buf`.
abbrev pub buf_size : ℕ
buf_size = 1025

-- The pattern of the int32_t -1.
abbrev pub no_value : ℕ
no_value = 2 ^ 32 - 1

unfoldable pub deque_init : Deque → ℕ → ℤ × Deque
deque_init q size =
    if ltb 10 size
    then (minus_one, q)
    else (pos 0, record { size = 0; max_size = 2 ^ size; front = 0; back = 0; buf = λ _. 0 })

pub deque_reset : Deque → Deque
deque_reset q = record q { size = 0; front = 0; back = 0 }

unfoldable pub deque_empty : Deque → Bool
deque_empty q = q.size == 0

unfoldable pub deque_full : Deque → Bool
deque_full q = q.size == q.max_size

unfoldable pub deque_size : Deque → ℕ
deque_size q = q.size

unfoldable pub deque_push_back : Deque → ℕ → Deque
unfolding deque_full
deque_push_back q x = if deque_full q then q else record q {
  buf = update q.buf q.back x;
  back = bit_and (q.back + 1) (q.max_size - 1);
  size = (q.size + 1) % 2 ^ 16;
}

pub deque_back : Deque → ℕ
deque_back q = q.buf (bit_and (q.back + q.max_size - 1) (q.max_size - 1))

unfoldable pub deque_pop_back : Deque → ℕ × Deque
unfolding deque_empty deque_back
deque_pop_back q = if deque_empty q then (no_value, q) else (
  deque_back q,
  record q { back = bit_and (q.back + q.max_size - 1) (q.max_size - 1); size = q.size - 1 },
)

-- The write is made after `front` has moved.
unfoldable pub deque_push_front : Deque → ℕ → Deque
unfolding deque_full
deque_push_front q x =
    let front = bit_and (q.front + q.max_size - 1) (q.max_size - 1) in
    if deque_full q
    then q
    else record q { front = front; buf = update q.buf front x; size = (q.size + 1) % 2 ^ 16 }

unfoldable pub deque_front : Deque → ℕ
deque_front q = q.buf q.front

unfoldable pub deque_pop_front : Deque → ℕ × Deque
unfolding deque_empty deque_front
deque_pop_front q = if deque_empty q then (no_value, q) else (
  deque_front q,
  record q { front = bit_and (q.front + 1) (q.max_size - 1); size = q.size - 1 },
)

unfoldable pub deque_itr_get : Deque → ℕ → ℕ
deque_itr_get q itr = q.buf (bit_and itr (q.max_size - 1))

unfoldable pub deque_begin : Deque → ℕ
deque_begin q = q.front

pub deque_end : Deque → ℕ
deque_end q = q.back + q.max_size

unfoldable pub deque_itr_next : ℕ → ℕ
deque_itr_next itr = itr + 1

-- The loop of `deque_move`, with the source queue beside the target; `none` when the fuel runs out.
pub move_loop : ℕ → Deque → Deque → Option (Deque × Deque)
unfolding deque_empty
move_loop zero q other = none
move_loop (suc fuel) q other =
    let (x, rest) = deque_pop_front other in
    let next = move_loop fuel (deque_push_back q x) rest in
    if deque_empty other then some (q, other) else next

-- One round for each value, and one for the test that ends the loop.
pub deque_move : Deque → Deque → Option (Deque × Deque)
unfolding deque_reset move_loop
deque_move q other =
    move_loop (other.size + 1) (record (deque_reset q) { max_size = other.max_size; buf = λ _. 0 })
      other
