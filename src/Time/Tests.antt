-- ===== src/Time/Tests.antt =====
-- A time of 61.25 seconds.
use cs452_kernel.Base.{◌≡◌, refl}
use cs452_kernel.Time.{time_from_clock_ticks}

clock_run : time_from_clock_ticks 6125 ≡ record { min = 1; sec = 1; tsec = 2 }
unfolding time_from_clock_ticks
clock_run = refl
