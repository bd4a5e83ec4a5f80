-- ===== src/Track/Parsing/Command.antt =====
-- The commands. A step of the parser takes the input and the command so far; the macro RET_ERR ends it
-- with the kind ERR, and keeps what is written already.
use cs452_kernel.Base.{
  ℕ, ◌+◌, ◌-◌, ◌%◌, ◌^◌, Bool, true, false, not, ◌||◌, leb, ◌==◌, if◌then◌else◌, none, some, update,
  pos, negsuc,
}
use cs452_kernel.Deque.{Deque, deque_front, deque_pop_front, deque_empty}
use cs452_kernel.Track.Speed.{trn_hash}
use cs452_kernel.Track.Parsing.Numbers.{to_char, strip_ws, parse_num}
use cs452_kernel.Track.Parsing.Path.{is_negative, is_switch0, is_switch1, parse_path_node}

pub data CmdKind : Type 0 where
  err cmd_tr cmd_rv cmd_sw cmd_tc cmd_st cmd_run cmd_go cmd_hlt cmd_q : CmdKind

-- A parameter is the pattern of an int16_t, a node of the path its index in `track`.
pub record CmdS : Type 0 where
  pub kind : CmdKind
  pub params : ℕ → ℕ
  pub path : ℕ → ℕ

pub record State : Type 0 where
  pub input : Deque
  pub out : CmdS

pub data Parsed (A : Type 0) : Type 0 where
  accept : A → State → Parsed A
  reject : State → Parsed A

abbrev pub Parser : Type 0 → Type 0
Parser A = State → Parsed A

infixl 5 ◌>>=◌ ◌>>◌
abbrev pub ◌>>=◌ : {A B : Type 0} → Parser A → (A → Parser B) → Parser B
◌>>=◌ m f s = elim (m s) [ accept a s' ↦ f a s' | reject s' ↦ reject s' ]

abbrev pub ◌>>◌ : {B : Type 0} → Parser (Unit {0}) → Parser B → Parser B
m >> k = m >>= λ _. k

abbrev ret_err : {A : Type 0} → Parser A
ret_err s = reject (record s { out = record s.out { kind = err } })

abbrev require : Bool → Parser (Unit {0})
require true s = accept tt s
require false s = ret_err s

abbrev next_int : Parser ℕ
next_int s = let (x, q) = deque_pop_front s.input in accept x (record s { input = q })

abbrev next_char : Parser ℕ
next_char s = let (x, q) = deque_pop_front s.input in accept (to_char x) (record s { input = q })

-- `strip_ws`, and the error if it strips nothing.
spaces : Parser (Unit {0})
spaces s = let (n, q) = strip_ws s.input in require (not (n == 0)) (record s { input = q })

number : Parser ℕ
number s =
    let (x, q) = parse_num s.input in
    elim (require (not (is_negative x)) (record s { input = q })) [
      | accept _ s' ↦ accept x s'
      | reject s' ↦ reject s'
    ]

abbrev set_kind : CmdKind → Parser (Unit {0})
set_kind kind s = accept tt (record s { out = record s.out { kind = kind } })

abbrev set_param : ℕ → ℕ → Parser (Unit {0})
set_param i x s =
    accept tt (record s { out = record s.out { params = update s.out.params i (x % 2 ^ 16) } })

abbrev known : ℕ → Bool
known tr = elim (trn_hash tr) as (λ _. Bool) [ pos _ ↦ true | negsuc _ ↦ false ]

-- A train that is known, for parameter `i`.
train : ℕ → Parser (Unit {0})
unfolding spaces number
train i = do spaces; tr ← number; require (known tr); set_param i tr

-- `tr`, after its letters; SP_REVERSE is 15 and LIGHTS 16.
parse_tr : Parser (Unit {0})
unfolding train
parse_tr = do
  train 0
  spaces
  spd ← number
  require (leb spd (15 + 16))
  set_param 1 spd
  set_kind cmd_tr

parse_rv : Parser (Unit {0})
unfolding train
parse_rv = do train 0; set_kind cmd_rv

parse_run : Parser (Unit {0})
unfolding spaces number
parse_run = do
  c ← next_char
  require (c == b'n')
  spaces
  num ← number
  set_param 0 num
  set_kind cmd_run

-- STRT is 33 and CRV 34.
parse_sw : Parser (Unit {0})
unfolding spaces number
parse_sw = do
  spaces
  sw ← number
  set_param 0 sw
  require (is_switch0 sw || is_switch1 sw)
  spaces
  dir ← next_char
  require (((dir == b'S') || (dir == b's')) || ((dir == b'C') || (dir == b'c')))
  set_param 1 (if (dir == b'S') || (dir == b's') then 33 else 34)
  set_kind cmd_sw

parse_st : Parser (Unit {0})
unfolding train
parse_st = do train 0; set_kind cmd_st

parse_r : Parser (Unit {0})
unfolding parse_rv parse_run
parse_r = do d ← next_char; if d == b'v' then parse_rv else do require (d == b'u'); parse_run

parse_s : Parser (Unit {0})
unfolding parse_sw parse_st
parse_s = do d ← next_char; if d == b'w' then parse_sw else do require (d == b't'); parse_st

parse_go : Parser (Unit {0})
parse_go = do d ← next_char; require (d == b'o'); set_kind cmd_go

parse_hlt : Parser (Unit {0})
parse_hlt = do
  d ← next_char
  require (d == b'l')
  e ← next_char
  require (e == b't')
  set_kind cmd_hlt

-- An optional minus.
sign : Parser Bool
sign s =
    if deque_front s.input == b'-'
    then accept true (record s { input = (deque_pop_front s.input).1 })
    else accept false s

-- SPD_LO is 7 and SPD_MED 9.
low : Parser (Unit {0})
low = do o ← next_int; require (o == b'o'); set_param 2 7

medium : Parser (Unit {0})
medium = do e ← next_int; require (e == b'e'); d ← next_int; require (d == b'd'); set_param 2 9

speed_name : Parser (Unit {0})
unfolding low medium
speed_name = do c ← next_char; if c == b'l' then low else do require (c == b'm'); medium

module _ (n_sen_per_mod : ℕ) where
  node : ℕ → Parser (Unit {0})
  node i s =
      let (found, q) = parse_path_node n_sen_per_mod s.input in
      elim found [
        | none ↦ ret_err (record s { input = q })
        | some n ↦
            accept tt (record s { input = q; out = record s.out { path = update s.out.path i n } })
      ]

  parse_tc : Parser (Unit {0})
  unfolding spaces number train sign speed_name
  parse_tc = do
    spaces
    node 0
    spaces
    node 1
    spaces
    minus ← sign
    offset ← number
    set_param 0 (if minus then 2 ^ 32 - offset else offset)
    train 1
    spaces
    speed_name
    set_kind cmd_tc

  parse_t : Parser (Unit {0})
  unfolding parse_tr parse_tc
  parse_t = do d ← next_char; if d == b'r' then parse_tr else do require (d == b'c'); parse_tc

  -- By the first letter of the command.
  by_letter : ℕ → Parser (Unit {0})
  unfolding parse_t parse_r parse_s parse_go parse_hlt
  by_letter c =
      if c == b't'
      then parse_t
      else if c == b'r'
      then parse_r
      else if c == b's'
      then parse_s
      else if c == b'g'
      then parse_go
      else if c == b'h'
      then parse_hlt
      else do require (c == b'q'); set_kind cmd_q

  parse_letters : Parser (Unit {0})
  unfolding by_letter
  parse_letters = do c ← next_char; by_letter c

  -- The input that is left, and the command.
  unfoldable pub parse_cmd : Deque → CmdS → State
  unfolding parse_letters node
  parse_cmd q out =
      let s : State = record { input = (strip_ws q).1; out = out } in
      elim (parse_letters s) [
        | reject s' ↦ s'
        | accept _ s' ↦
            let (_, rest) = strip_ws s'.input in
            record {
              input = rest;
              out = if not (deque_empty rest) then record s'.out { kind = err } else s'.out;
            }
      ]
