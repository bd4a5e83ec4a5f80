-- ===== src/Track/SensorQueue/Tests.antt =====
-- Two entries of train 24 wait for the first sensor; the entry 2 is free.
use cs452_kernel.Base.{
  ℕ, ◌≡◌, ◌≢◌, refl, true, Option, none, some, [], ◌∷◌, arith, Outcome, ok, fault, panic, pos, ◌==◌,
  if◌then◌else◌,
}
use cs452_kernel.Track.SensorQueue
use cs452_kernel.Track.SensorQueue.{
  SensorData, SensorEntry, SensorQueue, SensorResult, zero_entry, found, timeout, free_list,
  sensor_queue_get_waiting_tid,
}
use cs452_kernel.Track.SensorQueue.Laws.{free_list_skips}

abbrev waiting : ℕ → SensorData
waiting t = record { tid = t; trn = 24; expected_time = pos 100; pos_rqst = true }

abbrev queue : SensorQueue
queue = record {
  storage = λ e.
      if e == 0
      then record { data_ = waiting 60; next = some 1 }
      else if e == 1
      then record { data_ = waiting 61; next = none }
      else zero_entry;
  freelist = some 2;
  sensors = λ smod snr. if smod == 0 then (if snr == 0 then some 0 else none) else none;
}

free_list_skips_example :
    (sq' : SensorQueue) × (free_list 3 queue 0 0 24 none (some 0) ≡ ok sq')
    × (sq'.sensors 0 0 ≡ some 1)
    × ((e : ℕ) → 0 ≢ e → sq'.storage e ≡ queue.storage e)
free_list_skips_example =
    free_list_skips 0 0 24 queue 0 refl (2 ∷ []) 2 (refl, refl)
      (((λ e. absurd (omega (arith, e))), (λ e. absurd (omega (arith, e)))), tt) (omega arith)

abbrev result_of : Outcome (SensorResult × SensorData × SensorQueue) → Option SensorResult
result_of (ok (r, _, _)) = some r
result_of (fault f) = none

in_time : result_of (sensor_queue_get_waiting_tid queue 1 1 115 (waiting 0)) ≡ some found
unfolding sensor_queue_get_waiting_tid
in_time = refl

late : result_of (sensor_queue_get_waiting_tid queue 1 1 121 (waiting 0)) ≡ some timeout
unfolding sensor_queue_get_waiting_tid
late = refl

abbrev head_of : Outcome SensorQueue → Option ℕ
head_of (ok sq) = sq.sensors 0 0
head_of (fault f) = none

orders :
    (head_of (
        SensorQueue.sensor_queue_add_waiting_tid 3 queue 1 1
          (record (waiting 62) { expected_time = pos 50 }))
      ≡ some 2)
    × (head_of (SensorQueue.sensor_queue_adjust_waiting_tid 3 queue 1 1 61 (pos 50)) ≡ some 1)
    × (SensorQueue.sensor_queue_add_waiting_tid 3 queue 6 1 (waiting 62) ≡ fault panic)
unfolding SensorQueue.sensor_queue_add_waiting_tid SensorQueue.sensor_queue_adjust_waiting_tid
orders = (refl, refl, refl)

-- The second entry of the train is left behind.
left_behind : head_of (SensorQueue.sensor_queue_free_train 4 queue 24) ≡ some 1
unfolding SensorQueue.sensor_queue_free_train
left_behind = refl

starts : (SensorQueue.sensor_queue_init queue).freelist ≡ some 7
unfolding SensorQueue.sensor_queue_init
starts = refl
