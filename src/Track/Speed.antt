-- ===== src/Track/Speed.antt =====
-- track-control/include/speed.h and track-control/src/speed.c: the trains' numbers and speeds. The
-- int8_t of a speed is its bit pattern; it is negative from 128 on.
pub mod Laws
mod Tests
use cs452_kernel.Base.{
  ℕ, ◌+◌, ◌-◌, ◌%◌, Bool, true, false, ◌||◌, ltb, leb, ◌==◌, if◌then◌else◌, update, ℤ, pos, negsuc,
  minus_one,
}

abbrev pub n_trns : ℕ
n_trns = 3

abbrev pub err_no_trn : ℕ
err_no_trn = 50

abbrev pub lights : ℕ
lights = 16

pub record SpeedT : Type 0 where
  pub trns : ℕ → ℕ

-- The index of a train, or -1. The number is taken as a uint8_t.
unfoldable pub trn_hash : ℕ → ℤ
trn_hash n =
    let tr = n % 256 in
    if tr == 24 then pos 0 else if tr == 58 then pos 1 else if tr == 77 then pos 2 else minus_one

pub trn_hash_reverse : ℕ → ℤ
trn_hash_reverse n =
    let tr = n % 256 in
    if tr == 0 then pos 24 else if tr == 1 then pos 58 else if tr == 2 then pos 77 else minus_one

pub speed_t_init : SpeedT → SpeedT
speed_t_init spd_t = record spd_t { trns = λ i. if ltb i n_trns then 0 else spd_t.trns i }

abbrev pub is_negative : ℕ → Bool
is_negative x = leb 128 x

-- The pattern of `-1 * x`, and of `x`, as an int8_t or a uint8_t.
abbrev pub negate : ℕ → ℕ
negate x = (256 - x % 256) % 256

pub speed_set : SpeedT → ℕ → ℕ → SpeedT
unfolding trn_hash
speed_set spd_t n s = elim (trn_hash n) as (λ _. SpeedT) [
  | pos i ↦ record spd_t {
    trns = update spd_t.trns i (if is_negative (spd_t.trns i) then negate s else s % 256);
  }
  | negsuc _ ↦ spd_t
]

pub speed_is_rv : SpeedT → ℕ → Bool
speed_is_rv spd_t n = elim (trn_hash n) as (λ _. Bool) [
  | pos i ↦ is_negative (spd_t.trns i)
  | negsuc _ ↦ false
]

pub speed_get : SpeedT → ℕ → ℕ
unfolding speed_is_rv
speed_get spd_t n = elim (trn_hash n) as (λ _. ℕ) [
  | pos i ↦ if speed_is_rv spd_t n then negate (spd_t.trns i) else spd_t.trns i % 256
  | negsuc _ ↦ err_no_trn
]

pub speed_display_get : SpeedT → ℕ → ℕ
unfolding speed_get
speed_display_get spd_t n = elim (trn_hash n) as (λ _. ℕ) [
  | pos _ ↦
      let abs_spd = speed_get spd_t n in if leb lights abs_spd then abs_spd - lights else abs_spd
  | negsuc _ ↦ err_no_trn
]

pub speed_is_stopped : SpeedT → ℕ → Bool
speed_is_stopped spd_t n = elim (trn_hash n) as (λ _. Bool) [
  | pos i ↦ (spd_t.trns i == 0) || (spd_t.trns i == lights)
  | negsuc _ ↦ false
]

pub speed_flip : SpeedT → ℕ → SpeedT
speed_flip spd_t n = elim (trn_hash n) as (λ _. SpeedT) [
  | pos i ↦ record spd_t { trns = update spd_t.trns i (negate (spd_t.trns i)) }
  | negsuc _ ↦ spd_t
]
