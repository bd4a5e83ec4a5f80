-- ===== src/Time/Laws.antt =====
-- The parts of a time are in range, and together the whole number of tenths of a second.
use cs452_kernel.Base.{ℕ, ◌+◌, ◌*◌, ◌/◌, ◌<◌, ◌≡◌, arith}
use cs452_kernel.Time.{
  Time, time_from_sys_ticks, time_from_clock_ticks, systicks_tsec_unit, clocktick_tsec_unit,
}

-- The tenths of a second that a time stands for.
abbrev pub tenths : Time → ℕ
tenths t = (t.min * 60 + t.sec) * 10 + t.tsec

-- Both conversions give seconds below 60 and tenths below 10, and minutes, seconds and tenths add up
-- to the whole tenths of a second that have passed.
pub time_lem :
    (ticks : ℕ)
    → (let t = time_from_sys_ticks ticks in
        (t.sec < 60) × (t.tsec < 10) × (tenths t ≡ ticks / systicks_tsec_unit))
      × (let t = time_from_clock_ticks ticks in
          (t.sec < 60) × (t.tsec < 10) × (tenths t ≡ ticks / clocktick_tsec_unit))
unfolding time_from_sys_ticks time_from_clock_ticks
time_lem ticks = ((omega arith, omega arith, omega arith), (omega arith, omega arith, omega arith))
