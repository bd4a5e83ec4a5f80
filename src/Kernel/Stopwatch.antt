-- ===== src/Kernel/Stopwatch.antt =====
-- kernel/include/stopwatch.h and kernel/src/stopwatch.c. The time of a call, which the source reads
-- from the system timer, is an argument, a uint64_t.
pub mod Laws
mod Tests
use cs452_kernel.Base.{ℕ, ◌+◌, ◌-◌, ◌%◌, ◌^◌, Bool, true, false, not, if◌then◌else◌, update}

pub record StopwatchEntry : Type 0 where
  pub total_ticks : ℕ
  pub start_tick : ℕ
  pub started : Bool

abbrev pub Stopwatch : Type 0
Stopwatch = ℕ → StopwatchEntry

-- enum STPWS
abbrev pub stpw_idle_task : ℕ
stpw_idle_task = 0

abbrev pub stpw_user_task : ℕ
stpw_user_task = 1

unfoldable pub stopwatch_init : Stopwatch → Stopwatch
stopwatch_init stpw _ = record { total_ticks = 0; start_tick = 0; started = false }

unfoldable pub stopwatch_start : Stopwatch → ℕ → ℕ → Stopwatch
stopwatch_start stpw n now = update stpw n (record (stpw n) { started = true; start_tick = now })

unfoldable pub stopwatch_end : Stopwatch → ℕ → ℕ → Stopwatch
stopwatch_end stpw n end_tick =
    if not (stpw n).started
    then stpw
    else update stpw n (record (stpw n) {
      started = false;
      total_ticks = ((stpw n).total_ticks + (end_tick + 2 ^ 64 - (stpw n).start_tick)) % 2 ^ 64;
    })

unfoldable pub stopwatch_get_total_ticks : Stopwatch → ℕ → ℕ
stopwatch_get_total_ticks stpw n = (stpw n).total_ticks
