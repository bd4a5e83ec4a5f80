-- ===== src/Track/Parsing/Tests.antt =====
-- Commands and numbers in the input.
use cs452_kernel.Base.{ℕ, zero, suc, ◌%◌, ◌^◌, ◌≤◌, ◌≡◌, refl, List, [], ◌∷◌, arith, some}
use cs452_kernel.Base.Lists.{length}
use cs452_kernel.Deque.{
  Deque, deque_size, deque_pop_front, deque_push_back, deque_pop_back, deque_init, deque_itr_get,
  deque_itr_next, deque_begin,
}
use cs452_kernel.Deque.Inv.{IsValid}
use cs452_kernel.Deque.Refine.{contents}
use cs452_kernel.Track.Speed.{trn_hash}
use cs452_kernel.Track.Parsing.Path.{parse_path_node}
use cs452_kernel.Track.Parsing.Numbers.{digit, parse_digits, parse_num, strip_ws}
use cs452_kernel.Track.Parsing.Command.{CmdS, err, cmd_go, cmd_tr, parse_cmd}
use cs452_kernel.Track.Parsing.Digits.{span}
use cs452_kernel.Track.Parsing.Value.{horner}
use cs452_kernel.Track.Parsing.Laws.{parse_digits_lem}

abbrev cells : List ℕ → ℕ → ℕ
cells [] i = 0
cells (x ∷ xs) zero = x
cells (x ∷ xs) (suc i) = cells xs i

abbrev line : List ℕ → Deque
line xs = record {
  size = length xs;
  max_size = 16;
  front = 0;
  back = length xs % 16;
  buf = cells xs;
}

-- 142, and an x.
abbrev number : Deque
number = line (b'1' ∷ b'4' ∷ b'2' ∷ b'x' ∷ [])

number-IsValid : IsValid number
number-IsValid = record {
  exponent = 4;
  small = omega arith;
  power = refl;
  front_in = omega arith;
  fits = omega arith;
  back_at = refl;
}

few : length (span digit (contents number)).0 ≤ 128
unfolding contents
few = omega arith

parse_digits_lem_example :
    let (ds, rest) = span digit (contents number) in
    let (n, q') = parse_digits digit 10 number in
    (n ≡ horner 10 0 ds % 2 ^ 32) × (contents q' ≡ rest) × IsValid q'
parse_digits_lem_example = parse_digits_lem digit 10 number-IsValid few

written : horner 10 0 (span digit (contents number)).0 ≡ 142
unfolding contents
written = refl

abbrev blank : CmdS
blank = record { kind = err; params = λ _. 99; path = λ _. 0 }

go : (parse_cmd 16 (line (b'g' ∷ b'o' ∷ [])) blank).out.kind ≡ cmd_go
unfolding parse_cmd deque_pop_front strip_ws deque_size
go = refl

-- A command without its speed is taken for the speed 0.
no_speed :
    let s = parse_cmd 16 (line (b't' ∷ b'r' ∷ b' ' ∷ b'2' ∷ b'4' ∷ b' ' ∷ [])) blank in
    (s.out.kind ≡ cmd_tr) × (s.out.params 1 ≡ 0)
unfolding parse_cmd deque_pop_front strip_ws deque_size parse_num deque_push_back deque_init
    deque_pop_back trn_hash
no_speed = (refl, refl)

-- The nodes MR3 and EX7, and sensor 13 of module C, with 16 sensors in a module.
nodes :
    ((parse_path_node 16 (line (b'M' ∷ b'R' ∷ b'3' ∷ []))).0 ≡ some 85)
    × ((parse_path_node 16 (line (b'E' ∷ b'X' ∷ b'7' ∷ []))).0 ≡ some 135)
    × ((parse_path_node 16 (line (b'C' ∷ b'1' ∷ b'3' ∷ []))).0 ≡ some 44)
unfolding parse_path_node deque_pop_front deque_size parse_num deque_push_back deque_init
    deque_pop_back deque_itr_get deque_itr_next deque_begin
nodes = (refl, refl, refl)
