-- ===== src/Track/Server.antt =====
-- track-control/src/track-server.c: the server that locks the segments of the track for the trains.
-- One message is one step, `handle`. The messages that the server sends are kept in `replies`, the
-- newest first; an empty one is `none`. `junk` is what a message that is not yet filled in holds. The
-- display of the locks is left out.
pub mod Table
pub mod Start
pub mod Locks
pub mod Safety
pub mod Retry
mod Tests
unfoldable pub use cs452_kernel.Track.Server.Table.*
use cs452_kernel.Base.{
  ℕ, zero, suc, ◌+◌, ◌-◌, ◌%◌, ◌^◌, Bool, true, false, not, ◌&&◌, ◌||◌, Option, none, some, List,
  [], ◌∷◌, ◌==◌, if◌then◌else◌, update, Outcome, ok, fault, out_of_bounds, ℤ, pos, negsuc,
  minus_one,
}
use cs452_kernel.Track.Speed.{trn_hash, n_trns}
use cs452_kernel.Track.Messages.{
  TsMsg, TsMsgType, request_segments_all_timeout, request_segments_one_timeout,
  request_segments_all_no_timeout, request_segments_one_no_timeout, request_segments_and_or_timeout,
  request_segments_and_or_no_timeout, free_segments, ask_segment_free, train_register,
  request_success, request_fail, free_all, error, notif, n_segments,
}

module _ (junk : TsMsg) where
  abbrev pub send : Server → ℕ → Option TsMsg → Server
  send s tid m = record s { replies = (tid, m) ∷ s.replies }

  unfoldable pub reply : Server → ℕ → Bool → Server
  reply s tid success =
      send s tid (some (record junk { type = if success then request_success else request_fail }))

  -- The segment is stored as a uint16_t.
  unfoldable pub reply_segment : Server → ℕ → ℤ → Server
  reply_segment s tid (pos segment) = send s tid (
      some (record junk {
        type = request_success;
        segment_ids = update junk.segment_ids 0 (segment % 2 ^ 16);
        no_segments = 1;
      }))
  reply_segment s tid (negsuc n) = send s tid (
      some (record junk {
        type = if n == 0 then request_fail else request_success;
        segment_ids = update junk.segment_ids 0 ((2 ^ 16 - 1) - n % 2 ^ 16);
        no_segments = 1;
      }))

  unfoldable pub reply_error : Server → ℕ → Server
  reply_error s tid = send s tid (some (record junk { type = error }))

  unfoldable pub reply_notifier : Server → ℕ → ℕ → ℕ → Server
  reply_notifier s tid train timeout =
      send s tid (some (record junk { type = notif; timeout = timeout % 2 ^ 16; train_no = train }))

  -- The reply to the notifier of train `i`, which starts its timeout.
  abbrev start_notifier : Server → ℕ → Server
  start_notifier s i =
      let d = s.train_data i in reply_notifier s d.notifier_tid d.train_no d.timeout

  -- MSG_TS_REQUEST_SEGMENTS_ALL_TIMEOUT and _NO_TIMEOUT.
  unfoldable pub request_all : Bool → Server → ℕ → TsMsg → ℕ → Server
  unfolding reply reply_notifier store_request
  request_all timed s sender m i =
      let (success, locks) = lock_all_safe s.lock_sectors m.segment_ids m.no_segments m.train_no in
      let s₁ : Server = record s { lock_sectors = locks } in
      if success
      then reply (set_state s₁ i train_idle) sender true
      else if timed
      then start_notifier (store_request s₁ i train_blocked_timeout true sender m) i
      else store_request s₁ i train_blocked true sender m

  -- MSG_TS_REQUEST_SEGMENTS_ONE_TIMEOUT and _NO_TIMEOUT.
  unfoldable pub request_one : Bool → Server → ℕ → TsMsg → ℕ → Server
  unfolding reply_segment reply_notifier store_request
  request_one timed s sender m i =
      let (locked, locks) = lock_one_safe s.lock_sectors m.segment_ids m.no_segments m.train_no in
      let s₁ : Server = record s { lock_sectors = locks } in
      let waiting =
        if timed
        then start_notifier (store_request s₁ i train_blocked_timeout false sender m) i
        else store_request s₁ i train_blocked false sender m in
      elim locked [
        | pos segment ↦ reply_segment (set_state s₁ i train_idle) sender (pos segment)
        | negsuc _ ↦ waiting
      ]

  -- MSG_TS_REQUEST_SEGMENTS_AND_OR_TIMEOUT and _NO_TIMEOUT.
  unfoldable pub request_and_or : Bool → Server → ℕ → TsMsg → ℕ → Server
  unfolding reply_segment reply_notifier store_request
  request_and_or timed s sender m i =
      let (first, locks) = lock_all_safe s.lock_sectors m.segment_ids m.no_segments m.train_no in
      let (second, locks₂) =
        lock_all_safe locks m.second_segment_ids m.second_no_segments m.train_no in
      let s₁ : Server = record s { lock_sectors = locks } in
      let s₂ : Server = record s { lock_sectors = locks₂ } in
      if first
      then reply_segment (set_state s₁ i train_idle) sender (pos 0)
      else if second
      then reply_segment (set_state s₂ i train_idle) sender (pos 1)
      else if timed
      then start_notifier (store_request s₂ i train_blocked_timeout_two true sender m) i
      else store_request s₂ i train_blocked_two true sender m

  -- The locks of a request that waits, tried again: `reply` only on success.
  unfoldable pub retry_blocked : Server → ℕ → Server
  unfolding reply reply_segment
  retry_blocked s i =
      let d = s.train_data i in
      let (success, all) = lock_all_safe s.lock_sectors d.segment_ids d.no_segments d.train_no in
      let (locked, one) = lock_one_safe s.lock_sectors d.segment_ids d.no_segments d.train_no in
      let granted : Server = elim locked [
        | pos segment ↦
            reply_segment (set_state (record s { lock_sectors = one }) i train_idle) d.requester_tid
              (pos segment)
        | negsuc _ ↦ s
      ] in
      if d.all_segments_required
      then (if success
          then reply (set_state (record s { lock_sectors = all }) i train_idle) d.requester_tid true
          else s)
      else granted

  -- The same for a train that waits for one of two requests. It is the message `m` of the train that
  -- frees its segments which is tried, with that train's number.
  unfoldable pub retry_blocked_two : Server → TsMsg → ℕ → Server
  unfolding reply_segment
  retry_blocked_two s m i =
      let d = s.train_data i in
      let (first, locks) = lock_all_safe s.lock_sectors m.segment_ids m.no_segments m.train_no in
      let (second, locks₂) =
        lock_all_safe locks m.second_segment_ids m.second_no_segments m.train_no in
      if first
      then reply_segment (set_state (record s { lock_sectors = locks }) i train_idle)
          d.requester_tid (pos 0)
      else if second
      then reply_segment (set_state (record s { lock_sectors = locks₂ }) i train_idle)
          d.requester_tid (pos 1)
      else s

  unfoldable pub retry : Server → TsMsg → ℕ → Server
  unfolding retry_blocked retry_blocked_two
  retry s m i =
      let d = s.train_data i in
      if not (d.train_no == m.train_no) && is_blocked d.t_state
      then retry_blocked s i
      else if not (d.train_no == m.train_no) && is_blocked_two d.t_state
      then retry_blocked_two s m i
      else s

  -- `for (int i = 0; i < N_TRNS; i++)`, from train `i` on with `n` trains left.
  unfoldable pub retry_from : Server → TsMsg → ℕ → ℕ → Server
  retry_from s m zero i = s
  retry_from s m (suc n) i = retry_from (retry s m i) m n (i + 1)

  -- MSG_TS_FREE_SEGMENTS
  unfoldable pub free : Server → ℕ → TsMsg → Server
  unfolding retry_from
  free s sender m =
      let freed = free_from s.lock_sectors m.segment_ids m.train_no m.no_segments 0 in
      retry_from (reply (record s { lock_sectors = freed }) sender true) m n_trns 0

  -- The three retries of MSG_TS_NOTIF. The first looks at the segments of the notifier's message.
  unfoldable pub expire : Server → TsMsg → ℕ → Server
  unfolding reply reply_segment
  expire s m i =
      let d = s.train_data i in
      let tid = d.requester_tid in
      let (first, locks) = lock_all_safe s.lock_sectors m.segment_ids m.no_segments m.train_no in
      let (second, locks₂) =
        lock_all_safe locks m.second_segment_ids m.second_no_segments m.train_no in
      let (success, all) = lock_all_safe s.lock_sectors d.segment_ids d.no_segments d.train_no in
      let (locked, one) = lock_one_safe s.lock_sectors d.segment_ids d.no_segments d.train_no in
      if is_timeout_two d.t_state
      then (if first
          then reply_segment (record s { lock_sectors = locks }) tid (pos 0)
          else if second
          then reply_segment (record s { lock_sectors = locks₂ }) tid (pos 1)
          else reply (record s { lock_sectors = locks₂ }) tid false)
      else if d.all_segments_required
      then reply (record s { lock_sectors = all }) tid success
      else reply_segment (record s { lock_sectors = one }) tid locked

  unfoldable pub timed_out : Server → TsMsg → ℕ → Server
  unfolding expire
  timed_out s m i =
      if is_idle (s.train_data i).t_state then s else set_state (expire s m i) i train_idle

  -- MSG_TS_FREE_ALL
  unfoldable pub free_all_segments : Server → ℕ → TsMsg → ℕ → Server
  free_all_segments s sender m i =
      let curr = if m.no_segments == 1 then pos (m.segment_ids 0) else minus_one in
      let freed = free_all_from s.lock_sectors m.train_no curr n_segments 0 in
      send (set_state (record s { lock_sectors = freed }) i train_idle) sender none

  -- MSG_TS_TRAIN_REGISTER
  unfoldable pub register : Server → ℕ → TsMsg → Server
  register s sender m =
      send (record s { lock_sectors = update s.lock_sectors (m.segment_ids 0) m.train_no }) sender
        none

  -- A handler that indexes `train_data` by the hash of the train, which is -1 for an unknown one.
  abbrev pub at_train : TsMsg → (ℕ → Server) → Outcome Server
  at_train m handler = elim (trn_hash m.train_no) as (λ _. Outcome Server) [
    | pos i ↦ ok (handler i)
    | negsuc _ ↦ fault out_of_bounds
  ]

  unfoldable pub handle_type : TsMsgType → Server → ℕ → TsMsg → Outcome Server
  unfolding request_all request_one request_and_or free timed_out free_all_segments register
  handle_type ask_segment_free s sender m =
      ok (reply s sender (s.lock_sectors (m.segment_ids 0) == 0))
  handle_type request_segments_all_timeout s sender m = at_train m (request_all true s sender m)
  handle_type request_segments_all_no_timeout s sender m = at_train m (request_all false s sender m)
  handle_type request_segments_one_timeout s sender m = at_train m (request_one true s sender m)
  handle_type request_segments_one_no_timeout s sender m = at_train m (request_one false s sender m)
  handle_type request_segments_and_or_timeout s sender m =
      at_train m (request_and_or true s sender m)
  handle_type request_segments_and_or_no_timeout s sender m =
      at_train m (request_and_or false s sender m)
  handle_type free_segments s sender m = ok (free s sender m)
  handle_type notif s sender m = if not (m.train_no == 0) then at_train m (timed_out s m) else ok s
  handle_type free_all s sender m = at_train m (free_all_segments s sender m)
  handle_type train_register s sender m = ok (register s sender m)
  handle_type request_success s sender m = ok (reply_error s sender)
  handle_type request_fail s sender m = ok (reply_error s sender)
  handle_type error s sender m = ok (reply_error s sender)

  -- One round of the loop of `track_server_main`.
  unfoldable pub handle : Server → ℕ → TsMsg → Outcome Server
  unfolding handle_type
  handle s sender m = handle_type m.type s sender m
