-- ===== src/Kernel/Stopwatch/Laws.antt =====
-- A lap of the stopwatch.
use cs452_kernel.Base.{ℕ, ◌+◌, ◌-◌, ◌^◌, ◌≤◌, ◌<◌, ◌≡◌, ◌≢◌, fun_ext, arith}
use cs452_kernel.Kernel.Stopwatch.{
  Stopwatch, stopwatch_start, stopwatch_end, stopwatch_get_total_ticks,
}

-- A start and a later end add the ticks between to the total of the entry, whatever it was doing, and
-- leave the others; a second end adds nothing. The total fits a uint64_t.
pub lap_lem :
    (w : Stopwatch) (n start end : ℕ)
    → start ≤ end
    → end < 2 ^ 64
    → stopwatch_get_total_ticks w n + (end - start) < 2 ^ 64
    → let w' = stopwatch_end (stopwatch_start w n start) n end in
      (stopwatch_get_total_ticks w' n ≡ stopwatch_get_total_ticks w n + (end - start))
      × ((i : ℕ) → n ≢ i → w' i ≡ w i)
      × ((later : ℕ) → stopwatch_end w' n later ≡ w')
unfolding stopwatch_start stopwatch_end stopwatch_get_total_ticks
lap_lem w n start end le small fits =
    (ground arith, λ i ne. ground arith, λ later. fun_ext λ i. ground arith)
