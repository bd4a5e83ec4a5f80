-- ===== src/Track/Server/Tests.antt =====
-- The track server on concrete states.
use cs452_kernel.Base.{
  ℕ, ◌+◌, Outcome, ◌>>=◌, ◌<◌, ◌≡◌, ◌≢◌, refl, arith, update, some, [], ◌∷◌, true, false, ok, ◌⊎◌,
}
use cs452_kernel.Track.Messages.{
  TsMsg, error, notif, free_segments, request_segments_all_timeout, request_success,
}
use cs452_kernel.Track.Server.{
  timed_out, Server, LockTable, TrainLocking, train_idle, train_blocked_two, lock_all_safe, handle,
  handle_type, request_all, check_all_free, check_from, lock_all_unsafe, lock_from, reply,
}
use cs452_kernel.Track.Speed.{trn_hash}
use cs452_kernel.Track.Server.Locks.{lock_all_lem, IsFreeFor, Keeps}
use cs452_kernel.Track.Server.Safety.{handle_safe}
use cs452_kernel.Track.Server.Start.{track_server_start, notifier_boot, notifier_round}

-- Train 24 holds segment 3, and train 58 the segments 5 and 6.
abbrev locks : LockTable
locks = update (update (update (λ _. 0) 3 24) 5 58) 6 58

abbrev junk : TsMsg
junk = record {
  type = error;
  train_no = 0;
  segment_ids = λ _. 0;
  second_segment_ids = λ _. 0;
  no_segments = 0;
  second_no_segments = 0;
  timeout = 0;
}

abbrev idle : TrainLocking
idle = record {
  t_state = train_idle;
  train_no = 58;
  requester_tid = 0;
  segment_ids = λ _. 0;
  no_segments = 0;
  second_segment_ids = λ _. 0;
  second_no_segments = 0;
  all_segments_required = false;
  notifier_tid = 40;
  timeout = 0;
}

-- Train 24 waits for segment 5, or for segment 6.
abbrev waiting : TrainLocking
waiting = record idle {
  t_state = train_blocked_two;
  train_no = 24;
  requester_tid = 7;
  segment_ids = λ _. 5;
  no_segments = 1;
  second_segment_ids = λ _. 6;
  second_no_segments = 1;
  all_segments_required = true;
}

abbrev server : Server
server = record { lock_sectors = locks; train_data = update (λ _. idle) 0 waiting; replies = [] }

-- Train 58 frees its segments 5 and 6.
abbrev frees : TsMsg
frees = record junk {
  type = free_segments;
  train_no = 58;
  segment_ids = update (update (λ _. 0) 0 5) 1 6;
  no_segments = 2;
}

-- Train 58 asks for the segments 5 and 9.
abbrev asks : TsMsg
asks = record frees {
  type = request_segments_all_timeout;
  segment_ids = update (update (λ _. 0) 0 5) 1 9;
}

lock_all_lem_example :
    let (success, locks') = lock_all_safe locks asks.segment_ids 2 58 in
    ((success ≡ true)
      × ((k : ℕ)
          → k < 2
          → IsFreeFor 58 locks (asks.segment_ids k) × (locks' (asks.segment_ids k) ≡ 58))
      × ((segment : ℕ)
          → ((k : ℕ) → k < 2 → asks.segment_ids k ≢ segment)
          → locks' segment ≡ locks segment))
    ⊎ ((lock_all_safe locks asks.segment_ids 2 58 ≡ (false, locks))
        × ((k : ℕ) × (k < 2)
            × (locks (asks.segment_ids k) ≢ 0)
            × (locks (asks.segment_ids k) ≢ 58)))
lock_all_lem_example = lock_all_lem locks asks.segment_ids 2 58

-- The server after `asks`, which came from task 31: the segments are locked and the train is idle.
abbrev granted : Server
granted = record server {
  lock_sectors = update (update locks 5 58) 9 58;
  train_data = update server.train_data 1 idle;
  replies = (31, some (record junk { type = request_success })) ∷ [];
}

handled : handle junk server 31 asks ≡ ok granted
unfolding handle handle_type request_all lock_all_safe check_all_free check_from lock_all_unsafe
    lock_from reply trn_hash
handled = refl

handle_safe_example : Keeps 24 locks granted.lock_sectors
handle_safe_example =
    handle_safe junk 24 (λ e. absurd (omega (arith, e))) server granted 31 asks tt handled

-- The notifier of train 58 on a server as it starts, where the delay does nothing: its number is sent
-- back after the timeout, and the idle train is left as it is.
abbrev boot : Server
boot = track_server_start (λ i. 40 + i)

abbrev deliver : ℕ → TsMsg → Server → Outcome (Server × TsMsg)
deliver tid m s = handle junk s 41 m >>= λ s'. ok (s', m)

starts : (boot.train_data 1).notifier_tid ≡ 41
unfolding track_server_start
starts = refl

boots :
    notifier_boot (λ clock ticks s. ok s) deliver 3 9 junk boot
    ≡ ok (boot, record junk { type = notif })
unfolding notifier_boot handle handle_type
boots = refl

abbrev timed : TsMsg
timed = record junk { type = notif; train_no = 58; timeout = 200 }

ends : notifier_round (λ clock ticks s. ok s) deliver 3 9 timed boot ≡ ok (boot, timed)
unfolding notifier_round handle handle_type timed_out trn_hash track_server_start
ends = refl
