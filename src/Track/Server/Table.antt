-- ===== src/Track/Server/Table.antt =====
-- The locks and the waiting requests of the track server, and the routines of
-- track-control/src/track-server.c that lock and free segments.
use cs452_kernel.Base.{
  ℕ, zero, suc, ◌+◌, ◌%◌, ◌^◌, Bool, true, false, not, ◌&&◌, ◌||◌, Option, List, ◌==◌,
  if◌then◌else◌, update, ℤ, pos, negsuc, minus_one,
}
use cs452_kernel.Track.Messages.{TsMsg}

pub data TrainState : Type 0 where
  train_idle train_blocked train_blocked_timeout train_blocked_two train_blocked_timeout_two :
      TrainState

abbrev pub is_idle : TrainState → Bool
is_idle train_idle = true
is_idle _ = false

abbrev pub is_blocked : TrainState → Bool
is_blocked train_blocked = true
is_blocked _ = false

abbrev pub is_blocked_two : TrainState → Bool
is_blocked_two train_blocked_two = true
is_blocked_two _ = false

abbrev pub is_timeout_two : TrainState → Bool
is_timeout_two train_blocked_timeout_two = true
is_timeout_two _ = false

pub record TrainLocking : Type 0 where
  pub t_state : TrainState
  pub train_no : ℕ
  pub requester_tid : ℕ
  pub segment_ids : ℕ → ℕ
  pub no_segments : ℕ
  pub second_segment_ids : ℕ → ℕ
  pub second_no_segments : ℕ
  pub all_segments_required : Bool
  pub notifier_tid : ℕ
  pub timeout : ℕ

-- A lock is the number of the train that holds the segment, or 0.
abbrev pub LockTable : Type 0
LockTable = ℕ → ℕ

pub record Server : Type 0 where
  pub lock_sectors : LockTable
  pub train_data : ℕ → TrainLocking
  pub replies : List (ℕ × Option TsMsg)

-- The loop of `checkAllFree`, from place `i` on with `n` places left.
unfoldable pub check_from : LockTable → (ℕ → ℕ) → ℕ → ℕ → ℕ → Bool
check_from locks requested train zero i = true
check_from locks requested train (suc n) i =
    let segment = requested i in
    let rest = check_from locks requested train n (i + 1) in
    if not (locks segment == 0) && not (locks segment == train) then false else rest

unfoldable pub check_all_free : LockTable → (ℕ → ℕ) → ℕ → ℕ → Bool
check_all_free locks requested n train = check_from locks requested train n 0

-- The loop of `lockAll_Unsafe`.
unfoldable pub lock_from : LockTable → (ℕ → ℕ) → ℕ → ℕ → ℕ → LockTable
lock_from locks requested train zero i = locks
lock_from locks requested train (suc n) i =
    lock_from (update locks (requested i) train) requested train n (i + 1)

unfoldable pub lock_all_unsafe : LockTable → (ℕ → ℕ) → ℕ → ℕ → LockTable
lock_all_unsafe locks requested n train = lock_from locks requested train n 0

-- The loop of `lockOne_Safe`.
unfoldable pub lock_one_from : LockTable → (ℕ → ℕ) → ℕ → ℕ → ℕ → ℤ × LockTable
lock_one_from locks requested train zero i = (minus_one, locks)
lock_one_from locks requested train (suc n) i =
    let segment = requested i in
    let rest = lock_one_from locks requested train n (i + 1) in
    if (locks segment == 0) || (locks segment == train)
    then (pos segment, update locks segment train)
    else rest

unfoldable pub lock_one_safe : LockTable → (ℕ → ℕ) → ℕ → ℕ → ℤ × LockTable
lock_one_safe locks requested n train = lock_one_from locks requested train n 0

unfoldable pub lock_all_safe : LockTable → (ℕ → ℕ) → ℕ → ℕ → Bool × LockTable
lock_all_safe locks requested n train =
    if check_all_free locks requested n train
    then (true, lock_all_unsafe locks requested n train)
    else (false, locks)

-- `train_data[i].t_state = state`
abbrev pub set_state : Server → ℕ → TrainState → Server
set_state s i state = record s {
  train_data = update s.train_data i (record (s.train_data i) { t_state = state });
}

-- `copyTrainData`, with the writes before it: the request of a train that has to wait.
unfoldable pub store_request : Server → ℕ → TrainState → Bool → ℕ → TsMsg → Server
store_request s i state all_required sender m = record s {
  train_data = update s.train_data i (record (s.train_data i) {
    all_segments_required = all_required;
    t_state = state;
    requester_tid = sender;
    no_segments = m.no_segments;
    second_no_segments = m.second_no_segments;
    train_no = m.train_no % 256;
    timeout = m.timeout % 2 ^ 16;
    segment_ids = m.segment_ids;
    second_segment_ids = m.second_segment_ids;
  });
}

-- The loop of MSG_TS_FREE_SEGMENTS over the segments of the message.
unfoldable pub free_from : LockTable → (ℕ → ℕ) → ℕ → ℕ → ℕ → LockTable
free_from locks freed train zero i = locks
free_from locks freed train (suc n) i =
    free_from (if locks (freed i) == train then update locks (freed i) 0 else locks) freed train n
      (i + 1)

-- The loop of MSG_TS_FREE_ALL, from segment `i` on with `n` segments left; `curr` is kept.
unfoldable pub free_all_from : LockTable → ℕ → ℤ → ℕ → ℕ → LockTable
free_all_from locks train curr zero i = locks
free_all_from locks train curr (suc n) i =
    let other = elim curr as (λ _. Bool) [ pos c ↦ not (i == c) | negsuc _ ↦ true ] in
    free_all_from (if (locks i == train) && other then update locks i 0 else locks) train curr n
      (i + 1)
