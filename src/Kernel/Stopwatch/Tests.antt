-- ===== src/Kernel/Stopwatch/Tests.antt =====
-- A lap from 5 to 12.
use cs452_kernel.Base.{◌+◌, ◌-◌, ◌^◌, ◌<◌, arith, false}
use cs452_kernel.Kernel.Stopwatch.{Stopwatch, stopwatch_get_total_ticks}

abbrev running : Stopwatch
running _ = record { total_ticks = 100; start_tick = 0; started = false }

hundred : stopwatch_get_total_ticks running 1 + (12 - 5) < 2 ^ 64
unfolding stopwatch_get_total_ticks
hundred = omega arith
