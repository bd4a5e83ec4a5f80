-- ===== src/Track/Locking.antt =====
-- track-control/src/track-segment-locking.c: the calls that a train makes of the track server. `junk` is
-- what a message holds before it is filled in, and `send` is the Send of the kernel: it takes the state
-- of the rest of the system to the next, with the reply.
pub mod Copy
pub mod Timeout
pub mod Serve
mod Tests
use cs452_kernel.Base.{
  ℕ, zero, suc, ◌+◌, ◌-◌, ◌%◌, ◌^◌, Bool, true, false, ltb, ◌==◌, if◌then◌else◌, update, Outcome,
  ok, fault, out_of_bounds, ◌>>=◌, ℤ, pos, negsuc, minus_one,
}
use cs452_kernel.Deque.{Deque, deque_size, deque_begin, deque_itr_get, deque_itr_next}
use cs452_kernel.Track.Messages.{
  TsMsg, TsMsgType, request_segments_all_timeout, request_segments_one_timeout,
  request_segments_all_no_timeout, request_segments_one_no_timeout, request_segments_and_or_timeout,
  free_segments, ask_segment_free, train_register, free_all, is_success, max_segments_msg,
}

-- The loop of `copySegmentIDs`, with `places` cells of the array left.
unfoldable pub copy_from : Deque → ℕ → ℕ → TsMsg → Outcome TsMsg
copy_from segments zero it m =
    if ltb m.no_segments (deque_size segments) then fault out_of_bounds else ok m
copy_from segments (suc places) it m =
    let value = deque_itr_get segments it in
    let rest = copy_from segments places (deque_itr_next it) (record m {
      segment_ids = update m.segment_ids m.no_segments (value % 2 ^ 16);
      no_segments = (m.no_segments + 1) % 256;
    }) in
    if ltb m.no_segments (deque_size segments) then rest else ok m

unfoldable pub copy_segment_ids : TsMsg → Deque → Outcome TsMsg
unfolding copy_from
copy_segment_ids m segments =
    copy_from segments max_segments_msg (deque_begin segments) (record m { no_segments = 0 })

-- The loop of `copySecondSegmentIDs`.
unfoldable pub copy_second_from : Deque → ℕ → ℕ → TsMsg → Outcome TsMsg
copy_second_from segments zero it m =
    if ltb m.second_no_segments (deque_size segments) then fault out_of_bounds else ok m
copy_second_from segments (suc places) it m =
    let value = deque_itr_get segments it in
    let rest = copy_second_from segments places (deque_itr_next it) (record m {
      second_segment_ids = update m.second_segment_ids m.second_no_segments (value % 2 ^ 16);
      second_no_segments = (m.second_no_segments + 1) % 256;
    }) in
    if ltb m.second_no_segments (deque_size segments) then rest else ok m

unfoldable pub copy_second_segment_ids : TsMsg → Deque → Outcome TsMsg
unfolding copy_second_from
copy_second_segment_ids m segments =
    copy_second_from segments max_segments_msg (deque_begin segments)
      (record m { second_no_segments = 0 })

-- What the calls make of the reply.
abbrev pub segment_of : TsMsg → ℤ
segment_of reply = if is_success reply.type then pos (reply.segment_ids 0) else minus_one

module _ {S : Type 0} (junk : TsMsg) (send : ℕ → TsMsg → S → Outcome (S × TsMsg)) where
  -- The head of every request, before its segments.
  abbrev request : TsMsgType → ℕ → ℕ → TsMsg
  request type timeout train = record junk { type = type; timeout = timeout; train_no = train }

  abbrev one_segment : TsMsg → ℕ → TsMsg
  one_segment m segment = record m { segment_ids = update m.segment_ids 0 segment; no_segments = 1 }

  pub track_server_lock_segment_timeout : ℕ → ℕ → ℕ → ℕ → S → Outcome (S × Bool)
  track_server_lock_segment_timeout tid segment train timeout_ticks s =
      send tid (one_segment (request request_segments_all_timeout timeout_ticks train) segment) s
      >>= λ (s', r). ok (s', is_success r.type)

  pub track_server_lock_segment : ℕ → ℕ → ℕ → S → Outcome S
  track_server_lock_segment tid segment train s =
      send tid (one_segment (request request_segments_all_no_timeout 0 train) segment) s
      >>= λ (s', r). ok s'

  pub track_server_lock_all_segments_timeout : ℕ → Deque → ℕ → ℕ → S → Outcome (S × Bool)
  track_server_lock_all_segments_timeout tid segments train timeout_ticks s =
      copy_segment_ids (request request_segments_all_timeout timeout_ticks train) segments >>= λ m.
      send tid m s >>= λ (s', r). ok (s', is_success r.type)

  pub track_server_lock_all_segments : ℕ → Deque → ℕ → S → Outcome S
  track_server_lock_all_segments tid segments train s =
      copy_segment_ids (request request_segments_all_no_timeout 0 train) segments >>= λ m.
      send tid m s >>= λ (s', r). ok s'

  pub track_server_lock_one_segment_timeout : ℕ → Deque → ℕ → ℕ → S → Outcome (S × ℤ)
  track_server_lock_one_segment_timeout tid segments train timeout_ticks s =
      copy_segment_ids (request request_segments_one_timeout timeout_ticks train) segments >>= λ m.
      send tid m s >>= λ (s', r). ok (s', segment_of r)

  pub track_server_lock_one_segment : ℕ → Deque → ℕ → S → Outcome (S × ℤ)
  track_server_lock_one_segment tid segments train s =
      copy_segment_ids (request request_segments_one_no_timeout 0 train) segments >>= λ m.
      send tid m s >>= λ (s', r). ok (s', segment_of r)

  pub track_server_free_segments : ℕ → Deque → ℕ → S → Outcome S
  track_server_free_segments tid segments train s =
      copy_segment_ids (request free_segments 0 train) segments >>= λ m.
      send tid m s >>= λ (s', r). ok s'

  -- The segment is an int in two's complement, stored as a uint16_t.
  pub track_server_segment_is_locked : ℕ → ℕ → ℕ → S → Outcome (S × Bool)
  track_server_segment_is_locked tid segment train s =
      send tid (one_segment (request ask_segment_free 0 train) (segment % 2 ^ 16)) s >>= λ (s', r).
      ok (s', is_success r.type)

  -- The request of both calls for one of two routes.
  abbrev lock_two : ℕ → Deque → Deque → ℕ → ℕ → S → Outcome (S × TsMsg)
  lock_two tid segments second train timeout s =
      copy_segment_ids (request request_segments_and_or_timeout timeout train) segments >>= λ m.
      copy_second_segment_ids m second >>= λ m. send tid m s

  pub track_server_lock_two_all_segments_timeout : ℕ → Deque → Deque → ℕ → ℕ → S → Outcome (S × ℤ)
  track_server_lock_two_all_segments_timeout tid segments second train timeout_ticks s =
      lock_two tid segments second train timeout_ticks s >>= λ (s', r). ok (s', segment_of r)

  pub track_server_lock_two_all_segments : ℕ → Deque → Deque → ℕ → S → Outcome (S × ℤ)
  track_server_lock_two_all_segments tid segments second train s =
      lock_two tid segments second train 0 s >>= λ (s', r). ok (s', pos (r.segment_ids 0))

  -- `segment` is an int16_t; -1 stands for none. The request is also the buffer of the reply.
  pub track_server_free_all : ℕ → ℤ → ℕ → S → Outcome S
  track_server_free_all tid segment train s =
      let m : TsMsg = record junk { type = free_all; train_no = train } in
      let sent : TsMsg = elim segment [
        | pos n ↦ one_segment m n
        | negsuc n ↦
            if n == 0
            then record m { no_segments = 0 }
            else one_segment m ((2 ^ 16 - 1) - n % 2 ^ 16)
      ] in
      send tid sent s >>= λ (s', r). ok s'

  pub track_server_free_segment : ℕ → ℕ → ℕ → S → Outcome S
  track_server_free_segment tid segment train s =
      send tid (one_segment (request free_segments 0 train) segment) s >>= λ (s', r). ok s'

  pub track_server_register_train : ℕ → ℕ → ℕ → S → Outcome S
  track_server_register_train tid segment train s =
      let m : TsMsg = record junk { type = train_register; train_no = train } in
      send tid (one_segment m segment) s >>= λ (s', r). ok s'
