-- ===== src/Track/Locking/Tests.antt =====
-- The calls of a train on a concrete server, and on a Send that only records what is sent.
use cs452_kernel.Base.{
  ℕ, ◌≤◌, ◌<◌, ◌≡◌, refl, ◌⊎◌, arith, update, List, [], ◌∷◌, true, false, Outcome, ok, fault,
  out_of_bounds, pos, minus_one,
}
use cs452_kernel.Base.Lists.{All}
use cs452_kernel.Deque.{Deque, deque_size}
use cs452_kernel.Deque.Inv.{IsValid}
use cs452_kernel.Track.Speed.{trn_hash}
use cs452_kernel.Track.Messages.{
  TsMsg, TsMsgType, error, free_segments, train_register, free_all, request_success,
  request_segments_all_no_timeout, request_segments_one_timeout, request_segments_one_no_timeout,
  request_segments_and_or_timeout, request_segments_all_timeout,
}
use cs452_kernel.Track.Server.{Server, TrainLocking, train_idle}
use cs452_kernel.Track.Server.Locks.{IsFreeFor}
use cs452_kernel.Track.Locking
use cs452_kernel.Track.Locking.Copy.{cells, segments_of, copy_lem}
use cs452_kernel.Track.Locking.Serve.{serve, IsRefused, is_locked_lem, lock_queue_lem}

-- The segments 5 and 9.
abbrev segments : Deque
segments = record {
  size = 2;
  max_size = 8;
  front = 7;
  back = 1;
  buf = update (update (λ _. 0) 7 5) 0 9;
}

segments-IsValid : IsValid segments
segments-IsValid = record {
  exponent = 3;
  small = omega arith;
  power = refl;
  front_in = omega arith;
  fits = omega arith;
  back_at = refl;
}

abbrev junk : TsMsg
junk = record {
  type = error;
  train_no = 0;
  segment_ids = λ _. 0;
  second_segment_ids = λ _. 0;
  no_segments = 0;
  second_no_segments = 0;
  timeout = 0;
}

abbrev idle : TrainLocking
idle = record {
  t_state = train_idle;
  train_no = 58;
  requester_tid = 0;
  segment_ids = λ _. 0;
  no_segments = 0;
  second_segment_ids = λ _. 0;
  second_no_segments = 0;
  all_segments_required = false;
  notifier_tid = 40;
  timeout = 0;
}

-- Train 24 holds segment 3.
abbrev server : Server
server = record { lock_sectors = update (λ _. 0) 3 24; train_data = λ _. idle; replies = [] }

copy_lem_example :
    (2 ≤ 8
      → (f : ℕ → ℕ) × (g : ℕ → ℕ) × (Locking.copy_segment_ids junk segments
          ≡ ok (record junk { segment_ids = f; no_segments = 2 }))
        × (cells f 0 2 ≡ segments_of segments)
        × (Locking.copy_second_segment_ids junk segments
            ≡ ok (record junk { second_segment_ids = g; second_no_segments = 2 }))
        × (cells g 0 2 ≡ segments_of segments))
    × (8 < 2
        → (Locking.copy_segment_ids junk segments ≡ fault out_of_bounds)
          × (Locking.copy_second_segment_ids junk segments ≡ fault out_of_bounds))
copy_lem_example = copy_lem segments-IsValid junk

is_locked_lem_example :
    (s' : Server) × (Locking.track_server_segment_is_locked junk (serve junk 31) 12 3 58 server
      ≡ ok (s', false))
    × (s'.lock_sectors ≡ server.lock_sectors)
is_locked_lem_example = is_locked_lem junk server 31 12 3 58 (omega arith)

lock_queue_lem_example :
    (All (IsFreeFor 58 server.lock_sectors) (segments_of segments)
      × ((s' : Server) × (Locking.track_server_lock_all_segments_timeout junk
              (serve junk 31)
              12
              segments
              58
              200
              server
            ≡ ok (s', true))
          × All (λ x. s'.lock_sectors x ≡ 58) (segments_of segments)))
    ⊎ (¬ All (IsFreeFor 58 server.lock_sectors) (segments_of segments)
        × IsRefused junk server 31 12 1 58 200 segments)
unfolding trn_hash
lock_queue_lem_example =
    lock_queue_lem junk server 31 12 1 58 200 segments-IsValid (omega arith) (omega arith) refl
      (λ e. absurd (omega (arith, e)))

-- The state is the list of the types sent; every call succeeds, with segment 9.
abbrev record_send : ℕ → TsMsg → List TsMsgType → Outcome (List TsMsgType × TsMsg)
record_send tid m sent =
    ok (m.type ∷ sent, record junk { type = request_success; segment_ids = λ _. 9 })

segment_calls :
    (Locking.track_server_lock_segment_timeout junk record_send 12 9 58 200 []
      ≡ ok (request_segments_all_timeout ∷ [], true))
    × (Locking.track_server_lock_segment junk record_send 12 9 58 []
        ≡ ok (request_segments_all_no_timeout ∷ []))
    × (Locking.track_server_free_segment junk record_send 12 9 58 [] ≡ ok (free_segments ∷ []))
    × (Locking.track_server_register_train junk record_send 12 9 58 [] ≡ ok (train_register ∷ []))
    × (Locking.track_server_free_all junk record_send 12 minus_one 58 [] ≡ ok (free_all ∷ []))
unfolding Locking.track_server_lock_segment_timeout Locking.track_server_lock_segment
    Locking.track_server_free_segment Locking.track_server_register_train
    Locking.track_server_free_all
segment_calls = (refl, refl, refl, refl, refl)

queue_calls :
    (Locking.track_server_lock_all_segments junk record_send 12 segments 58 []
      ≡ ok (request_segments_all_no_timeout ∷ []))
    × (Locking.track_server_lock_one_segment_timeout junk record_send 12 segments 58 200 []
        ≡ ok (request_segments_one_timeout ∷ [], pos 9))
    × (Locking.track_server_lock_one_segment junk record_send 12 segments 58 []
        ≡ ok (request_segments_one_no_timeout ∷ [], pos 9))
    × (Locking.track_server_free_segments junk record_send 12 segments 58 []
        ≡ ok (free_segments ∷ []))
unfolding Locking.track_server_lock_all_segments Locking.track_server_lock_one_segment_timeout
    Locking.track_server_lock_one_segment Locking.track_server_free_segments
    Locking.copy_segment_ids Locking.copy_from deque_size
queue_calls = (refl, refl, refl, refl)

-- The call without a timeout for one of two routes sends the request with a timeout.
two_calls :
    (Locking.track_server_lock_two_all_segments_timeout junk record_send 12 segments segments 58 200
        []
      ≡ ok (request_segments_and_or_timeout ∷ [], pos 9))
    × (Locking.track_server_lock_two_all_segments junk record_send 12 segments segments 58 []
        ≡ ok (request_segments_and_or_timeout ∷ [], pos 9))
unfolding Locking.track_server_lock_two_all_segments_timeout
    Locking.track_server_lock_two_all_segments Locking.copy_segment_ids Locking.copy_from
    Locking.copy_second_segment_ids Locking.copy_second_from deque_size
two_calls = (refl, refl)
