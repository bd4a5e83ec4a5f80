-- ===== src/Track/Parsing/Numbers.antt =====
-- The numbers in the input.
use cs452_kernel.Base.{
  ℕ, zero, suc, ◌+◌, ◌-◌, ◌*◌, ◌%◌, ◌^◌, Bool, ◌&&◌, ◌||◌, leb, ◌==◌, if◌then◌else◌, Option, none,
  some,
}
use cs452_kernel.Deque.{
  Deque, deque_init, deque_size, deque_front, deque_pop_front, deque_push_back, deque_pop_back,
}

-- The cast of an int to a char. A char from 128 on is negative, and below no letter or digit.
abbrev pub to_char : ℕ → ℕ
to_char x = x % 256

abbrev pub is_ws : ℕ → Bool
is_ws c = (c == b' ') || (c == 9)

-- The loop of `strip_ws`, with `size` characters left and `n` stripped.
unfoldable pub strip_from : ℕ → Deque → ℕ → ℕ × Deque
strip_from zero q n = (n, q)
strip_from (suc size) q n =
    let rest = strip_from size (deque_pop_front q).1 ((n + 1) % 2 ^ 16) in
    if is_ws (to_char (deque_front q)) then rest else (n, q)

unfoldable pub strip_ws : Deque → ℕ × Deque
unfolding strip_from
strip_ws q = strip_from (deque_size q) q 0

-- The value of a digit of a decimal or a hexadecimal number.
abbrev pub digit : ℕ → Option ℕ
digit c = if leb b'0' c && leb c b'9' then some (c - b'0') else none

abbrev pub hex_digit : ℕ → Option ℕ
hex_digit c =
    if leb b'0' c && leb c b'9'
    then some (c - b'0')
    else if leb b'a' c && leb c b'f'
    then some ((c - b'a') + 10)
    else if leb b'A' c && leb c b'F'
    then some ((c - b'A') + 10)
    else none

-- The loop that moves the digits from the input to the stack.
unfoldable pub digits_from : (ℕ → Option ℕ) → ℕ → Deque → Deque → Deque × Deque
digits_from digit_of zero q stack = (stack, q)
digits_from digit_of (suc size) q stack =
    elim (digit_of (to_char (deque_front q))) as (λ _. Deque × Deque) [
      | none ↦ (stack, q)
      | some d ↦ digits_from digit_of size (deque_pop_front q).1 (deque_push_back stack d)
    ]

-- The loop that adds up the digits, the last one first. `dig` is a uint32_t.
unfoldable pub value_from : ℕ → ℕ → Deque → ℕ → ℕ → ℕ
value_from base zero stack dig res = res
value_from base (suc size) stack dig res =
    let (d, rest) = deque_pop_back stack in
    value_from base size rest ((dig * base) % 2 ^ 32) ((res + dig * d) % 2 ^ 32)

-- `parse_int` and `parse_hex_int`, with an empty stack for at most 128 digits.
unfoldable pub parse_digits : (ℕ → Option ℕ) → ℕ → Deque → ℕ × Deque
unfolding digits_from value_from
parse_digits digit_of base q =
    let (_, empty) = deque_init q 7 in
    let (stack, rest) = digits_from digit_of (deque_size q) q empty in
    (value_from base (deque_size stack) stack 1 0, rest)

unfoldable pub parse_int : Deque → ℕ × Deque
unfolding parse_digits
parse_int q = parse_digits digit 10 q

unfoldable pub parse_hex_int : Deque → ℕ × Deque
unfolding parse_digits
parse_hex_int q = parse_digits hex_digit 16 q

-- The front of an empty input is what stands in its buffer.
unfoldable pub parse_num : Deque → ℕ × Deque
unfolding parse_int parse_hex_int
parse_num q =
    let q₁ = (deque_pop_front q).1 in
    if deque_front q == b'0'
    then (if (deque_front q₁ == b'x') || (deque_front q₁ == b'X')
        then parse_hex_int (deque_pop_front q₁).1
        else parse_int q₁)
    else parse_int q
