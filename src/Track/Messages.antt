-- ===== src/Track/Messages.antt =====
-- The messages of the track server, track-control/include/track-server.h.
use cs452_kernel.Base.{ℕ, Bool, true, false}

abbrev pub n_segments : ℕ
n_segments = 31

abbrev pub max_segments_msg : ℕ
max_segments_msg = 8

pub data TsMsgType : Type 0 where
  request_segments_all_timeout request_segments_one_timeout request_segments_all_no_timeout
        request_segments_one_no_timeout request_segments_and_or_timeout
        request_segments_and_or_no_timeout free_segments ask_segment_free train_register
        request_success request_fail free_all error notif :
      TsMsgType

abbrev pub is_success : TsMsgType → Bool
is_success request_success = true
is_success _ = false

pub record TsMsg : Type 0 where
  pub type : TsMsgType
  pub train_no : ℕ
  pub segment_ids : ℕ → ℕ
  pub second_segment_ids : ℕ → ℕ
  pub no_segments : ℕ
  pub second_no_segments : ℕ
  pub timeout : ℕ
