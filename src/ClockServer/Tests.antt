-- ===== src/ClockServer/Tests.antt =====
-- Runs of the clock queue and its server.
use cs452_kernel.Base.{
  ℕ, ◌≤◌, ◌≡◌, refl, List, [], ◌∷◌, ◌++◌, none, some, Outcome, ok, ℤ, pos, negsuc, arith,
}
use cs452_kernel.Base.Lists.{All}
use cs452_kernel.ClockQueue.{ClockQueue, clock_queue_add}
use cs452_kernel.ClockQueue.Order.{tick_of}
use cs452_kernel.ClockQueue.Holds.{Holds, waiting}
use cs452_kernel.ClockQueue.Add.{queued_lem, put}
use cs452_kernel.ClockServer.{
  MsgClockserver, clock_reply, clockserver_notify, clockserver_ok, clockserver_handle, time, delay,
  delay_until,
}
use cs452_kernel.ClockServer.Laws.{wake, due, not_due, notify_lem}

-- One task waits in the entry 0, for the tick 100, and the entry 1 is free.
abbrev one_waits : ClockQueue
one_waits = record {
  storage = λ _. record { tid = 5; clock_tick = 100; next = none };
  freelist = some 1;
  head = some 0;
}

one_waits-Holds : Holds one_waits (0 ∷ []) (1 ∷ [])
one_waits-Holds = record {
  queue = (refl, refl);
  frees = (refl, refl);
  distinct = (tt, tt);
  distinct_free = (tt, tt);
  apart = (((λ e. omega (arith, e)), tt), tt);
  sorted = (tt, tt);
  total = omega arith;
}

abbrev tick : MsgClockserver
tick = record { type = clockserver_notify; requester_tid = 3; clock_tick = 0 }

abbrev answered : ℕ → MsgClockserver → ℕ → Outcome (ℕ × ℤ × MsgClockserver)
answered tid m s = ok (s, pos 16, record m { clock_tick = 70000 })

time_7 : time tick answered 5 2 0 ≡ ok (0, pos 7)
unfolding time
time_7 = refl

delay_negative : delay tick answered 5 2 (negsuc 3) 0 ≡ ok (0, negsuc 1)
unfolding delay
delay_negative = refl

delay_until_past : delay_until tick answered 5 2 (pos 3) 30001 0 ≡ ok (0, negsuc 1)
unfolding delay_until
delay_until_past = refl

queued_lem_example :
    (cq' : ClockQueue) × (es' : List ℕ) × (clock_queue_add 257 one_waits 6 90 ≡ ok cq')
    × Holds cq' es' []
    × (waiting cq' es' ≡ put (6, 90) (waiting one_waits (0 ∷ [])))
queued_lem_example = queued_lem one_waits (0 ∷ []) [] 1 6 90 one_waits-Holds 257 (omega arith)

notify_lem_example :
    (cq' : ClockQueue) × (es' : List ℕ) × (free' : List ℕ) × (clockserver_handle 2 one_waits 3 tick
        101 101
      ≡ ok (
        cq',
        wake 101 (due 101 (waiting one_waits (0 ∷ []))) ++ clock_reply clockserver_ok 3 101 ∷ [],
      ))
    × Holds cq' es' free'
    × (waiting cq' es' ≡ not_due 101 (waiting one_waits (0 ∷ [])))
    × All (λ e. 101 ≤ tick_of cq' e) es'
notify_lem_example =
    notify_lem (0 ∷ []) 2 one_waits (1 ∷ []) 3 tick 101 101 refl (omega arith) one_waits-Holds
      ((λ e. omega (arith, e)), tt)
