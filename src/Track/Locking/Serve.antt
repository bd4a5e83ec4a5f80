-- ===== src/Track/Locking/Serve.antt =====
-- The calls of a train together with the server that they are sent to.
use cs452_kernel.Base.{
  ℕ, zero, suc, ◌+◌, ◌%◌, ◌^◌, ◌≤◌, ◌<◌, ◌≡◌, ◌≢◌, refl, ap, ap₂, subst, ◌∙◌, inl, inr, ◌⊎◌, Bool,
  true, false, arith, ◌==◌, if◌then◌else◌, update_self, Option, some, none, List, [], ◌∷◌, Outcome,
  ok, fault, hang, ◌>>=◌, ℤ, pos, negsuc, out_of_bounds, Bool-cases,
}
use native.Mathlib.Decide.{ℕ_discrete}
use native.Mathlib.Nat.{mod-eq_of_lt}
use cs452_kernel.Base.Lists.{All}
use cs452_kernel.Deque.{Deque}
use cs452_kernel.Deque.Inv.{IsValid}
use cs452_kernel.Track.Speed.{trn_hash}
use cs452_kernel.Track.Messages.{
  TsMsg, notif, request_segments_all_timeout, request_success, is_success,
}
use cs452_kernel.Track.Server.{
  Server, LockTable, handle, handle_type, request_all, lock_all_safe, reply, reply_notifier,
  store_request, set_state, train_idle,
}
use cs452_kernel.Track.Server.Locks.{IsFreeFor, lock_all_lem}
use cs452_kernel.Track.Locking.{
  track_server_segment_is_locked, track_server_lock_all_segments_timeout, copy_segment_ids,
}
use cs452_kernel.Track.Locking.Timeout.{blocked, expired, refused_lem, expired_lem}
use cs452_kernel.Track.Locking.Copy.{cells, segments_of, copy_lem}

-- The newest reply to task `me`; an empty one leaves the buffer of the reply as it was.
unfoldable reply_to : ℕ → TsMsg → Server → List (ℕ × Option TsMsg) → Outcome (Server × TsMsg)
reply_to me junk s [] = fault hang
reply_to me junk s ((tid, m) ∷ rest) =
    let older = reply_to me junk s rest in
    let buffer : TsMsg = elim m [ none ↦ junk | some r ↦ r ] in
    if tid == me then ok (s, buffer) else older

-- A Send of task `me` to the server, which is ready for it, with the round of the server for this
-- message alone. If the server does not answer in it, the Send is still blocked; that is the fault
-- `hang` here.
unfoldable pub serve : TsMsg → ℕ → ℕ → TsMsg → Server → Outcome (Server × TsMsg)
unfolding reply_to
serve junk me tid m s =
    handle junk (record s { replies = [] }) me m >>= λ s'. reply_to me junk s' s'.replies

-- A Send of task `me` that is answered in the round after its own, in which the server receives the
-- message `n` of `other`.
unfoldable pub serve_late : TsMsg → ℕ → ℕ → TsMsg → ℕ → TsMsg → Server → Outcome (Server × TsMsg)
unfolding reply_to
serve_late junk me other n tid m s = handle junk (record s { replies = [] }) me m >>= λ s₁.
    handle junk (record s₁ { replies = [] }) other n >>= λ s₂. reply_to me junk s₂ s₂.replies

-- The call that asks whether a segment, of 16 bits, is locked answers yes exactly if no train holds it,
-- and changes no lock.
pub is_locked_lem :
    (junk : TsMsg) (s : Server) (me tid segment train : ℕ)
    → segment < 2 ^ 16
    → (s' : Server) × (track_server_segment_is_locked junk (serve junk me) tid segment train s
        ≡ ok (s', s.lock_sectors segment == 0))
      × (s'.lock_sectors ≡ s.lock_sectors)
unfolding track_server_segment_is_locked serve handle handle_type reply
is_locked_lem junk s me tid segment train lt =
    let short : segment % 2 ^ 16 ≡ segment = mod-eq_of_lt lt in
    let here : (me == me) ≡ true = ground arith in
    (
      reply junk (record s { replies = [] }) me (s.lock_sectors segment == 0),
      elim (Bool-cases (s.lock_sectors segment == 0)) [
        | inl free ↦ rw (short, here, free) refl
        | inr held ↦ rw (short, here, held) refl
      ],
      refl,
    )

module _ (P : ℕ → Type 0) (f : ℕ → ℕ) where
  All-cells : (i n : ℕ) → ((k : ℕ) → k < i + n → P (f k)) → All P (cells f i n)
  All-cells i zero h = tt
  All-cells i (suc n) h = (h i (omega arith), All-cells (i + 1) n λ k lt. h k (omega arith))

  cell_of : (i n k : ℕ) → All P (cells f i n) → i ≤ k → k < i + n → P (f k)
  cell_of i zero k h lo hi = absurd (omega arith)
  cell_of i (suc n) k h lo hi = elim (ℕ_discrete i k) [
    | yes e ↦ subst (λ j. P (f j)) e h.0
    | no ne ↦ cell_of (i + 1) n k h.1 (omega arith) (omega arith)
  ]

module _ (junk : TsMsg) (s : Server) (me i : ℕ) (m : TsMsg)
    (notifier : (s.train_data i).notifier_tid ≢ me) where
  -- What the server and the caller make of a request for all the segments of `m`.
  served : Outcome (Server × TsMsg)
  served =
      let s' = request_all junk true (record s { replies = [] }) me m i in
      reply_to me junk s' s'.replies

  abbrev outcome : Bool × LockTable
  outcome = lock_all_safe s.lock_sectors m.segment_ids m.no_segments m.train_no

  served_all :
      outcome.0 ≡ true
      → (s' : Server) × (served ≡ ok (s', record junk { type = request_success }))
        × (s'.lock_sectors ≡ outcome.1)
  unfolding served request_all reply reply_to
  served_all e =
      let here : (me == me) ≡ true = ground arith in
      (
        reply junk (set_state (record s { lock_sectors = outcome.1; replies = [] }) i train_idle) me
            true,
        rw (e, here) refl,
        refl,
      )

  served_none : outcome.0 ≡ false → served ≡ fault hang
  unfolding served request_all reply_notifier store_request reply_to
  served_none e =
      let apart : ((s.train_data i).notifier_tid == me) ≡ false = ground arith in
      rw (e, update_self s.train_data i, apart) refl

  serve_lem :
      (tid : ℕ)
      → m.type ≡ request_segments_all_timeout
      → trn_hash m.train_no ≡ pos i
      → serve junk me tid m s ≡ served
  unfolding serve served handle handle_type
  serve_lem tid type index =
      ap
        (λ ty. handle_type junk ty (record s { replies = [] }) me m >>= λ s'.
          reply_to me junk s' s'.replies)
        type
      ∙ ap
          (λ (z : ℤ).
            (elim z as (λ _. Outcome Server) [
              | pos j ↦ ok (request_all junk true (record s { replies = [] }) me m j)
              | negsuc _ ↦ fault out_of_bounds
            ])
            >>= λ s'. reply_to me junk s' s'.replies)
          index

-- The message that starts the timeout of a train, and comes back at its end.
abbrev pub expiry : TsMsg → ℕ → ℕ → TsMsg
expiry junk train ticks = record junk { type = notif; timeout = ticks % 2 ^ 16; train_no = train }

-- The request of a train is refused. In its round the server answers the train's notifier alone, with
-- the timeout, and changes no lock; when the notifier's message comes back with the locks as they
-- were, the call returns false, and no lock has changed.
abbrev pub IsRefused : TsMsg → Server → ℕ → ℕ → ℕ → ℕ → ℕ → Deque → Type 0
IsRefused junk s me tid i train ticks q =
    let notifier = (s.train_data i).notifier_tid in
    (track_server_lock_all_segments_timeout junk (serve junk me) tid q train ticks s ≡ fault hang)
    × ((m : TsMsg) × (s₁ : Server) × (copy_segment_ids
            (record junk { type = request_segments_all_timeout; timeout = ticks; train_no = train })
            q
          ≡ ok m)
        × (handle junk (record s { replies = [] }) me m ≡ ok s₁)
        × (s₁.replies ≡ (notifier, some (expiry junk train ticks)) ∷ [])
        × (s₁.lock_sectors ≡ s.lock_sectors))
    × ((s₂ : Server) × (track_server_lock_all_segments_timeout junk
            (serve_late junk me notifier (expiry junk train ticks)) tid q train ticks s
          ≡ ok (s₂, false))
        × (s₂.lock_sectors ≡ s.lock_sectors))

module _ (junk : TsMsg) (s : Server) (me tid i train ticks : ℕ) (q : Deque) (f : ℕ → ℕ)
    (small : train < 256) (index : trn_hash train ≡ pos i)
    (notifier : (s.train_data i).notifier_tid ≢ me) where
  abbrev request : TsMsg
  request = record junk { type = request_segments_all_timeout; timeout = ticks; train_no = train }

  abbrev sent : TsMsg
  sent = record request { segment_ids = f; no_segments = q.size }

  abbrev call : Outcome (Server × Bool)
  call = track_server_lock_all_segments_timeout junk (serve junk me) tid q train ticks s

  abbrev success_of : Outcome (Server × TsMsg) → Outcome (Server × Bool)
  success_of o = o >>= λ (s', r). ok (s', is_success r.type)

  module _ (copied : copy_segment_ids request q ≡ ok sent) where
    call_lem : call ≡ success_of (served junk s me i sent notifier)
    unfolding track_server_lock_all_segments_timeout
    call_lem =
        ap (λ o. o >>= λ m. success_of (serve junk me tid m s)) copied
        ∙ ap success_of (serve_lem junk s me i sent notifier tid refl index)

    module _ (refused : lock_all_safe s.lock_sectors f q.size train ≡ (false, s.lock_sectors)) where
      blocked_replies :
          (blocked junk s me i sent index refused).replies
          ≡ ((s.train_data i).notifier_tid, some (expiry junk train ticks)) ∷ []
      unfolding reply_notifier store_request
      blocked_replies =
          let ticks_mod : ticks % 2 ^ 16 % 2 ^ 16 ≡ ticks % 2 ^ 16 = omega arith in
          let byte : train % 256 ≡ train = mod-eq_of_lt small in
          ap₂
            (λ (t n : ℕ).
              (
                (s.train_data i).notifier_tid,
                some (record junk { type = notif; timeout = t; train_no = n }),
              )
              ∷ [])
            ticks_mod byte

      blocked_locks : (blocked junk s me i sent index refused).lock_sectors ≡ s.lock_sectors
      unfolding reply_notifier store_request
      blocked_locks = refl

      late_lem :
          track_server_lock_all_segments_timeout junk
            (serve_late junk me (s.train_data i).notifier_tid (expiry junk train ticks))
            tid
            q
            train
            ticks
            s
          ≡ ok (expired junk s me i sent index refused, false)
      unfolding track_server_lock_all_segments_timeout serve_late reply_to reply
      late_lem =
          let here : (me == me) ≡ true = ground arith in
          ap
            (λ o. o >>= λ m.
              success_of (
                serve_late junk me (s.train_data i).notifier_tid (expiry junk train ticks) tid m s))
            copied
          ∙ ap
              (λ o. success_of (
                o >>= λ s₁.
                handle junk (record s₁ { replies = [] }) (s.train_data i).notifier_tid
                  (expiry junk train ticks)
                >>= λ s₂. reply_to me junk s₂ s₂.replies))
              (refused_lem junk s me i sent index refused refl)
          ∙ ap (λ o. success_of (o >>= λ s₂. reply_to me junk s₂ s₂.replies))
              (expired_lem junk s me i sent index refused (s.train_data i).notifier_tid
                (expiry junk train ticks) small refl refl)
          ∙ rw here refl

      expired_locks : (expired junk s me i sent index refused).lock_sectors ≡ s.lock_sectors
      unfolding reply reply_notifier store_request
      expired_locks = refl

      is_refused : IsRefused junk s me tid i train ticks q
      is_refused = (
        call_lem ∙ ap success_of (served_none junk s me i sent notifier (ap (λ r. r.0) refused)),
        (
          sent,
          blocked junk s me i sent index refused,
          copied,
          refused_lem junk s me i sent index refused refl,
          blocked_replies,
          blocked_locks,
        ),
        (expired junk s me i sent index refused, late_lem, expired_locks),
      )

    queue_lem :
        (All (IsFreeFor train s.lock_sectors) (cells f 0 q.size)
          × ((s' : Server) × (call ≡ ok (s', true))
              × All (λ x. s'.lock_sectors x ≡ train) (cells f 0 q.size)))
        ⊎ (¬ All (IsFreeFor train s.lock_sectors) (cells f 0 q.size)
            × IsRefused junk s me tid i train ticks q)
    queue_lem = elim (lock_all_lem s.lock_sectors f q.size train) [
      | inl (success, all, _) ↦
          let (s', e, locks) = served_all junk s me i sent notifier success in
          inl (
            All-cells (IsFreeFor train s.lock_sectors) f 0 q.size (λ k lt. (all k (omega arith)).0),
            (
              s',
              call_lem ∙ ap success_of e,
              All-cells (λ x. s'.lock_sectors x ≡ train) f 0 q.size
                  (λ k lt. ap (λ l. l (f k)) locks ∙ (all k (omega arith)).1),
            ),
          )
      | inr (e, (k, lt, taken, other)) ↦ inr (
        (λ all.
            elim (cell_of (IsFreeFor train s.lock_sectors) f 0 q.size k all (omega arith)
              (omega arith)) [ inl z ↦ taken z | inr z ↦ other z ]),
        is_refused e,
      )
    ]

-- A known train, of a number below 256, asks for all segments of a valid queue, of 8 at most, by a task
-- that is not its own notifier. Either each segment is free or the train's, the call returns true, and
-- then all of them are locked for the train. Or one of them is another train's: then the round of the
-- server ends without an answer to the call, which is still blocked; the server's one reply starts the
-- timeout at the train's notifier; and when that message comes back with the locks as they were, the
-- call returns false. No lock changes in either round.
pub lock_queue_lem :
    (junk : TsMsg) (s : Server) (me tid i train ticks : ℕ) {q : Deque}
    → IsValid q
    → q.size ≤ 8
    → train < 256
    → trn_hash train ≡ pos i
    → (s.train_data i).notifier_tid ≢ me
    → (All (IsFreeFor train s.lock_sectors) (segments_of q)
        × ((s' : Server) × (track_server_lock_all_segments_timeout junk
                (serve junk me)
                tid
                q
                train
                ticks
                s
              ≡ ok (s', true))
            × All (λ x. s'.lock_sectors x ≡ train) (segments_of q)))
      ⊎ (¬ All (IsFreeFor train s.lock_sectors) (segments_of q)
          × IsRefused junk s me tid i train ticks q)
lock_queue_lem junk s me tid i train ticks {q} v room small index notifier =
    let (f, _, copied, same, _, _) =
      (copy_lem v (request junk s me tid i train ticks q (λ x. x) small index notifier)).0 room in
    subst
      (λ segments.
        (All (IsFreeFor train s.lock_sectors) segments
          × ((s' : Server) × (track_server_lock_all_segments_timeout junk (serve junk me) tid q
                  train ticks s
                ≡ ok (s', true))
              × All (λ x. s'.lock_sectors x ≡ train) segments))
        ⊎ (¬ All (IsFreeFor train s.lock_sectors) segments
            × IsRefused junk s me tid i train ticks q))
      same (queue_lem junk s me tid i train ticks q f small index notifier copied)
