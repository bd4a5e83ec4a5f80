-- ===== src/Track/Server/Start.antt =====
-- The start of the track server, and the notifier of its timeouts: track_server_main before its loop
-- and track_server_timeout_notifier of track-control/src/track-server.c.
use cs452_kernel.Base.{ℕ, ◌%◌, ◌^◌, false, [], Outcome, ◌>>=◌}
use cs452_kernel.Track.Messages.{TsMsg, notif}
use cs452_kernel.Track.Server.Table.{Server, TrainLocking, train_idle}

-- What memset leaves of the data of a train.
abbrev zero_train : TrainLocking
zero_train = record {
  t_state = train_idle;
  train_no = 0;
  requester_tid = 0;
  segment_ids = λ _. 0;
  no_segments = 0;
  second_segment_ids = λ _. 0;
  second_no_segments = 0;
  all_segments_required = false;
  notifier_tid = 0;
  timeout = 0;
}

-- The server before its loop: `created` has the notifiers that Create gives. Their first messages are
-- received and not looked at.
unfoldable pub track_server_start : (ℕ → ℕ) → Server
track_server_start created = record {
  lock_sectors = λ _. 0;
  train_data = λ i. record zero_train { notifier_tid = created i % 2 ^ 16 };
  replies = [];
}

-- The notifier, over the Delay and the Send of the kernel.
module _ {S : Type 0} (delay : ℕ → ℕ → S → Outcome S) (send : ℕ → TsMsg → S → Outcome (S × TsMsg))
    (clock parent : ℕ) where
  -- The first message, where `junk` is what it holds before it is filled in.
  unfoldable pub notifier_boot : TsMsg → S → Outcome (S × TsMsg)
  notifier_boot junk s = send parent (record junk { type = notif; train_no = 0 }) s

  -- One round of the loop, which sends the reply of the last round back.
  unfoldable pub notifier_round : TsMsg → S → Outcome (S × TsMsg)
  notifier_round m s = delay clock m.timeout s >>= λ s'. send parent m s'
