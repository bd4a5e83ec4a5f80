-- ===== src/Track/Locking/Timeout.antt =====
-- A request for several segments that the track server refuses, and the end of its timeout.
use cs452_kernel.Base.{
  ℕ, ◌%◌, ◌^◌, ◌<◌, ◌≡◌, refl, ap, ◌∙◌, true, false, not, arith, ◌==◌, if◌then◌else◌, update_self,
  [], Outcome, ok, fault, ℤ, pos, negsuc, out_of_bounds,
}
use native.Mathlib.Nat.{mod-eq_of_lt}
use cs452_kernel.Track.Speed.{trn_hash}
use cs452_kernel.Track.Messages.{TsMsg, request_segments_all_timeout, notif}
use cs452_kernel.Track.Server.{
  Server, TrainLocking, handle, handle_type, request_all, lock_all_safe, reply, reply_notifier,
  store_request, set_state, train_idle, is_idle, train_blocked_timeout, timed_out, expire,
}

answer_lem :
    (junk : TsMsg) (s : Server) (n : TsMsg) (i : ℕ)
    → (s.train_data i).t_state ≡ train_blocked_timeout
    → (s.train_data i).all_segments_required ≡ true
    → lock_all_safe s.lock_sectors
        (s.train_data i).segment_ids
        (s.train_data i).no_segments
        (s.train_data i).train_no
      ≡ (false, s.lock_sectors)
    → expire junk s n i ≡ reply junk s (s.train_data i).requester_tid false
unfolding expire
answer_lem junk s n i state all refused = rw (state, all, refused) refl

-- A train that waits for all its segments is told no at its timeout, if it still cannot have them.
expiry_lem :
    (junk : TsMsg) (s : Server) (n : TsMsg) (i : ℕ)
    → (s.train_data i).t_state ≡ train_blocked_timeout
    → (s.train_data i).all_segments_required ≡ true
    → lock_all_safe s.lock_sectors
        (s.train_data i).segment_ids
        (s.train_data i).no_segments
        (s.train_data i).train_no
      ≡ (false, s.lock_sectors)
    → timed_out junk s n i
      ≡ set_state (reply junk s (s.train_data i).requester_tid false) i train_idle
unfolding timed_out
expiry_lem junk s n i state all refused =
    ap (λ t. if is_idle t then s else set_state (expire junk s n i) i train_idle) state
    ∙ ap (λ (k : Server). set_state k i train_idle) (answer_lem junk s n i state all refused)

trn_hash-zero : (train i : ℕ) → trn_hash train ≡ pos i → (train == 0) ≡ false
unfolding trn_hash
trn_hash-zero train i index = ground (arith, index)

module _ (junk : TsMsg) (s : Server) (me i : ℕ) (m : TsMsg) (index : trn_hash m.train_no ≡ pos i)
    (refused : lock_all_safe s.lock_sectors m.segment_ids m.no_segments m.train_no
      ≡ (false, s.lock_sectors)) where
  abbrev stored : Server
  stored = store_request (record s { replies = [] }) i train_blocked_timeout true me m

  -- The server when it has refused: the request is stored, and the notifier of the train is answered.
  abbrev pub blocked : Server
  blocked =
      reply_notifier junk stored (s.train_data i).notifier_tid (m.train_no % 256)
        (m.timeout % 2 ^ 16)

  at_blocked : TrainLocking
  at_blocked = record (s.train_data i) {
    all_segments_required = true;
    t_state = train_blocked_timeout;
    requester_tid = me;
    no_segments = m.no_segments;
    second_no_segments = m.second_no_segments;
    train_no = m.train_no % 256;
    timeout = m.timeout % 2 ^ 16;
    segment_ids = m.segment_ids;
    second_segment_ids = m.second_segment_ids;
  }

  blocked_at : blocked.train_data i ≡ at_blocked
  unfolding reply_notifier store_request at_blocked
  blocked_at = update_self s.train_data i at_blocked

  request_lem : request_all junk true (record s { replies = [] }) me m i ≡ blocked
  unfolding request_all reply_notifier store_request
  request_lem = rw (refused, update_self s.train_data i) refl

  pub refused_lem :
      m.type ≡ request_segments_all_timeout
      → handle junk (record s { replies = [] }) me m ≡ ok blocked
  unfolding handle handle_type
  refused_lem type =
      ap (λ ty. handle_type junk ty (record s { replies = [] }) me m) type
      ∙ ap
          (λ (z : ℤ). elim z as (λ _. Outcome Server) [
            | pos j ↦ ok (request_all junk true (record s { replies = [] }) me m j)
            | negsuc _ ↦ fault out_of_bounds
          ])
          index
      ∙ ap ok request_lem

  -- The server when the timeout has ended with the locks as they were.
  abbrev pub expired : Server
  expired = set_state (reply junk (record blocked { replies = [] }) me false) i train_idle

  pub expired_lem :
      (sender : ℕ) (n : TsMsg)
      → m.train_no < 256
      → n.type ≡ notif
      → n.train_no ≡ m.train_no
      → handle junk (record blocked { replies = [] }) sender n ≡ ok expired
  unfolding handle handle_type reply_notifier store_request at_blocked
  expired_lem sender n small type train =
      let s₁ : Server = record blocked { replies = [] } in
      let byte : m.train_no % 256 ≡ m.train_no = mod-eq_of_lt small in
      ap (λ ty. handle_type junk ty s₁ sender n) type
      ∙ ap
          (λ (t : ℕ).
            if not (t == 0)
            then (elim (trn_hash t) as (λ _. Outcome Server) [
              | pos j ↦ ok (timed_out junk s₁ n j)
              | negsuc _ ↦ fault out_of_bounds
            ])
            else ok s₁)
          train
      ∙ rw (trn_hash-zero m.train_no i index, index) refl
      ∙ ap ok (
          expiry_lem junk s₁ n i (ap (λ (d : TrainLocking). d.t_state) blocked_at)
            (ap (λ (d : TrainLocking). d.all_segments_required) blocked_at)
            (ap
                (λ (d : TrainLocking).
                  lock_all_safe s.lock_sectors d.segment_ids d.no_segments d.train_no)
                blocked_at
              ∙ ap (lock_all_safe s.lock_sectors m.segment_ids m.no_segments) byte
              ∙ refused)
          ∙ ap (λ (d : TrainLocking). set_state (reply junk s₁ d.requester_tid false) i train_idle)
              blocked_at)
