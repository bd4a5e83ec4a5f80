-- ===== src/Time.antt =====
-- include/time.h and src/time.c: minutes, seconds and tenths of a second from the ticks of the system
-- timer (1 MHz) and of the clock server (10 ms).
pub mod Laws
mod Tests
use cs452_kernel.Base.{ℕ, ◌*◌, ◌/◌, ◌%◌}

pub record Time : Type 0 where
  pub min : ℕ
  pub sec : ℕ
  pub tsec : ℕ

abbrev pub systicks_tsec_unit : ℕ
systicks_tsec_unit = 1000 * 100

abbrev pub systicks_sec_unit : ℕ
systicks_sec_unit = systicks_tsec_unit * 10

abbrev pub systicks_min_unit : ℕ
systicks_min_unit = systicks_sec_unit * 60

abbrev pub clocktick_tsec_unit : ℕ
clocktick_tsec_unit = 10

abbrev pub clocktick_sec_unit : ℕ
clocktick_sec_unit = clocktick_tsec_unit * 10

abbrev pub clocktick_min_unit : ℕ
clocktick_min_unit = clocktick_sec_unit * 60

unfoldable pub time_from_sys_ticks : ℕ → Time
time_from_sys_ticks ticks =
    let sec_ctr = ticks % systicks_min_unit in
    let tsec_ctr = sec_ctr % systicks_sec_unit in
    record {
      min = ticks / systicks_min_unit;
      sec = sec_ctr / systicks_sec_unit;
      tsec = tsec_ctr / systicks_tsec_unit;
    }

unfoldable pub time_from_clock_ticks : ℕ → Time
time_from_clock_ticks ticks =
    let sec_ctr = ticks % clocktick_min_unit in
    let tsec_ctr = sec_ctr % clocktick_sec_unit in
    record {
      min = ticks / clocktick_min_unit;
      sec = sec_ctr / clocktick_sec_unit;
      tsec = tsec_ctr / clocktick_tsec_unit;
    }
