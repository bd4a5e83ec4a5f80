-- ===== src/Track/Parsing/Path.antt =====
-- The name of a node of the track. A node is its index in `track`. The number of sensors of a module,
-- N_SEN_PER_MOD, is defined nowhere in the repository: it is a parameter.
use cs452_kernel.Base.{
  ℕ, ◌+◌, ◌-◌, ◌*◌, ◌%◌, ◌^◌, Bool, not, ◌&&◌, ◌||◌, ltb, leb, ◌==◌, if◌then◌else◌, Option, none,
  some,
}
use cs452_kernel.Deque.{Deque, deque_begin, deque_itr_next, deque_itr_get, deque_pop_front}
use cs452_kernel.Track.Parsing.Numbers.{to_char, parse_num}

abbrev pub is_negative : ℕ → Bool
is_negative x = leb (2 ^ 31) x

-- SW0_BASE, N_SW0, SW1_BASE and N_SW1.
abbrev pub is_switch0 : ℕ → Bool
is_switch0 n = leb 1 n && ltb n (1 + 18)

abbrev pub is_switch1 : ℕ → Bool
is_switch1 n = leb 153 n && ltb n (153 + 4)

-- A branch or a merge: BR or MR and a number.
unfoldable pub parse_switch_node : Deque → Option ℕ × Deque
parse_switch_node q =
    let (x, q₁) = deque_pop_front q in
    let c = to_char x in
    let offset = if c == b'B' then 0 else 1 in
    let (sw_no, q₂) = parse_num (deque_pop_front q₁).1 in
    if not ((c == b'B') || (c == b'M'))
    then (none, q₁)
    else if is_negative sw_no
    then (none, q₂)
    else if is_switch0 sw_no
    then (some (80 + 2 * (sw_no - 1) + offset), q₂)
    else if is_switch1 sw_no
    then (some (116 + 2 * (sw_no - 153) + offset), q₂)
    else (none, q₂)

-- An entry or an exit: EN or EX and a number.
unfoldable pub parse_end_node : ℕ → Deque → Option ℕ × Deque
parse_end_node second_char q =
    let (x, q₁) = deque_pop_front q in
    let offset = if second_char == b'N' then 0 else 1 in
    let (end_no, q₂) = parse_num (deque_pop_front q₁).1 in
    if not (to_char x == b'E')
    then (none, q₁)
    else if is_negative end_no
    then (none, q₂)
    else if leb 1 end_no && leb end_no 5
    then (some (124 + 2 * (end_no - 1) + offset), q₂)
    else if (leb 5 end_no && leb end_no 9) && (end_no % 2 == 1)
    then (some (132 + (end_no - 5) + offset), q₂)
    else if end_no == 10
    then (some (132 + 4 + offset), q₂)
    else (none, q₂)

module _ (n_sen_per_mod : ℕ) where
  -- A sensor: the letter of its module and a number.
  unfoldable pub parse_sensor_node : Deque → Option ℕ × Deque
  parse_sensor_node q =
      let (x, q₁) = deque_pop_front q in
      let c = to_char x in
      let (mod_no, q₂) = parse_num q₁ in
      if not (leb b'A' c && leb c b'E')
      then (none, q₁)
      else if is_negative mod_no
      then (none, q₂)
      else if leb 1 mod_no && leb mod_no n_sen_per_mod
      then (some (0 + (c - b'A') * n_sen_per_mod + (mod_no - 1)), q₂)
      else (none, q₂)

  -- `none` is the result -1, which leaves the node as it was.
  unfoldable pub parse_path_node : Deque → Option ℕ × Deque
  unfolding parse_switch_node parse_end_node parse_sensor_node
  parse_path_node q =
      let second_char = to_char (deque_itr_get q (deque_itr_next (deque_begin q))) in
      if second_char == b'R'
      then parse_switch_node q
      else if (second_char == b'N') || (second_char == b'X')
      then parse_end_node second_char q
      else parse_sensor_node q
