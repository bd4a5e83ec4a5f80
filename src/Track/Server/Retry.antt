-- ===== src/Track/Server/Retry.antt =====
-- What freed segments are given to a train that waits for one of two requests.
use cs452_kernel.Base.{ℕ, ◌<◌, ◌≡◌, ◌≢◌, Bool, true, pos}
use cs452_kernel.Track.Messages.{TsMsg, free_segments}
use cs452_kernel.Track.Server.{
  Server, LockTable, train_idle, train_blocked_two, free_from, lock_all_safe, reply, reply_segment,
  set_state,
}

module _ (junk : TsMsg) (s : Server) (sender : ℕ) (m : TsMsg) (frees : m.type ≡ free_segments)
    (other : (s.train_data 0).train_no ≢ m.train_no)
    (waits : (s.train_data 0).t_state ≡ train_blocked_two)
    (idle₁ : (s.train_data 1).t_state ≡ train_idle) (idle₂ : (s.train_data 2).t_state ≡ train_idle)
    (own : (k : ℕ) → k < m.no_segments → s.lock_sectors (m.segment_ids k) ≡ m.train_no) where
  abbrev freed : LockTable
  freed = free_from s.lock_sectors m.segment_ids m.train_no m.no_segments 0

  abbrev locked : Bool × LockTable
  locked = lock_all_safe freed m.segment_ids m.no_segments m.train_no

  abbrev replied : Server
  replied = reply junk (record s { lock_sectors = freed }) sender true

  -- The server after the retry.
  abbrev pub undone : Server
  undone =
      reply_segment junk (set_state (record replied { lock_sectors = locked.1 }) 0 train_idle)
        (s.train_data 0).requester_tid (pos 0)
