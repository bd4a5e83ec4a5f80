-- ===== src/Track/Server/Safety.antt =====
-- No message takes a segment from another train.
use cs452_kernel.Base.{
  ℕ, zero, suc, ◌+◌, ◌≡◌, ◌≢◌, refl, sym, subst, inl, inr, Bool, true, false, not, ◌&&◌, arith,
  ◌==◌, ℤ, pos, negsuc, Bool-cases, Outcome, ok, fault, out_of_bounds, ◌⊎◌,
}
use cs452_kernel.Track.Speed.{trn_hash, n_trns}
use cs452_kernel.Track.Messages.{
  TsMsg, TsMsgType, request_segments_all_timeout, request_segments_one_timeout,
  request_segments_all_no_timeout, request_segments_one_no_timeout, request_segments_and_or_timeout,
  request_segments_and_or_no_timeout, free_segments, ask_segment_free, train_register,
  request_success, request_fail, free_all, error, notif, n_segments,
}
use cs452_kernel.Track.Server.{
  Server, lock_all_safe, lock_one_safe, free_from, reply, reply_segment, reply_error, request_all,
  request_one, request_and_or, retry_blocked, retry_blocked_two, retry, retry_from, free, expire,
  timed_out, free_all_segments, register, handle_type, handle, is_blocked, is_blocked_two, is_idle,
  is_timeout_two,
}
use cs452_kernel.Track.Server.Locks.{
  Keeps, Keeps-trans, lock_all-Keeps, lock_one-Keeps, free-Keeps, free_all-Keeps,
}

cases : (z : ℤ) → ((n : ℕ) × (z ≡ pos n)) ⊎ ((n : ℕ) × (z ≡ negsuc n))
cases (pos n) = inl (n, refl)
cases (negsuc n) = inr (n, refl)

module _ (junk : TsMsg) (u : ℕ) (nz : u ≢ 0) where
  abbrev KeepsIn : Server → Server → Type 0
  KeepsIn s s' = Keeps u s.lock_sectors s'.lock_sectors

  reply_segment_locks :
      (s : Server) (tid : ℕ) (z : ℤ) → (reply_segment junk s tid z).lock_sectors ≡ s.lock_sectors
  unfolding reply_segment
  reply_segment_locks s tid (pos n) = refl
  reply_segment_locks s tid (negsuc n) = refl

  all_Keeps :
      (s : Server) (requested : ℕ → ℕ) (n train : ℕ)
      → Keeps u s.lock_sectors (lock_all_safe s.lock_sectors requested n train).1
  all_Keeps s requested n train = lock_all-Keeps s.lock_sectors requested n train u nz

  request_all_Keeps :
      (timed : Bool) (s : Server) (sender : ℕ) (m : TsMsg) (i : ℕ)
      → KeepsIn s (request_all junk timed s sender m i)
  unfolding request_all
  request_all_Keeps timed s sender m i =
      elim (Bool-cases (lock_all_safe s.lock_sectors m.segment_ids m.no_segments m.train_no).0) [
        | inl e ↦ rw e (all_Keeps s m.segment_ids m.no_segments m.train_no)
        | inr e ↦ elim (Bool-cases timed) [
          | inl t ↦ rw (e, t) (all_Keeps s m.segment_ids m.no_segments m.train_no)
          | inr t ↦ rw (e, t) (all_Keeps s m.segment_ids m.no_segments m.train_no)
        ]
      ]

  request_one_Keeps :
      (timed : Bool) (s : Server) (sender : ℕ) (m : TsMsg) (i : ℕ)
      → KeepsIn s (request_one junk timed s sender m i)
  unfolding request_one
  request_one_Keeps timed s sender m i =
      let r = lock_one_safe s.lock_sectors m.segment_ids m.no_segments m.train_no in
      let kept = lock_one-Keeps s.lock_sectors m.segment_ids m.no_segments m.train_no u nz in
      elim (cases r.0) [
        | inl (g, e) ↦ rw (e, request_one) kept
        | inr (n, e) ↦ elim (Bool-cases timed) [
          | inl t ↦ rw (e, request_one, t) kept
          | inr t ↦ rw (e, request_one, t) kept
        ]
      ]

  -- Two requests for all, one after the other.
  two_Keeps :
      (s : Server) (a b : ℕ → ℕ) (n k train : ℕ)
      → Keeps u s.lock_sectors
          (lock_all_safe (lock_all_safe s.lock_sectors a n train).1 b k train).1
  two_Keeps s a b n k train =
      let first = (lock_all_safe s.lock_sectors a n train).1 in
      Keeps-trans u s.lock_sectors first (lock_all_safe first b k train).1 (all_Keeps s a n train)
        (lock_all-Keeps first b k train u nz)

  request_and_or_Keeps :
      (timed : Bool) (s : Server) (sender : ℕ) (m : TsMsg) (i : ℕ)
      → KeepsIn s (request_and_or junk timed s sender m i)
  unfolding request_and_or
  request_and_or_Keeps timed s sender m i =
      let r = lock_all_safe s.lock_sectors m.segment_ids m.no_segments m.train_no in
      let both =
        two_Keeps s m.segment_ids m.second_segment_ids m.no_segments m.second_no_segments
          m.train_no in
      elim (Bool-cases r.0) [
        | inl e ↦ rw e (all_Keeps s m.segment_ids m.no_segments m.train_no)
        | inr e ↦
            elim (Bool-cases
              (lock_all_safe r.1 m.second_segment_ids m.second_no_segments m.train_no).0) [
                | inl e₂ ↦ rw (e, e₂) both
                | inr e₂ ↦ elim (Bool-cases timed) [
                  | inl t ↦ rw (e, e₂, t) both
                  | inr t ↦ rw (e, e₂, t) both
                ]
              ]
      ]

  retry_blocked_Keeps : (s : Server) (i : ℕ) → KeepsIn s (retry_blocked junk s i)
  unfolding retry_blocked
  retry_blocked_Keeps s i =
      let d = s.train_data i in
      let kept = lock_one-Keeps s.lock_sectors d.segment_ids d.no_segments d.train_no u nz in
      elim (Bool-cases d.all_segments_required) [
        | inl a ↦
            elim (Bool-cases
              (lock_all_safe s.lock_sectors d.segment_ids d.no_segments d.train_no).0) [
                | inl e ↦ rw (a, e) (all_Keeps s d.segment_ids d.no_segments d.train_no)
                | inr e ↦ rw (a, e) (λ segment k. k)
              ]
        | inr a ↦
            elim (cases (lock_one_safe s.lock_sectors d.segment_ids d.no_segments d.train_no).0) [
              | inl (g, e) ↦ rw (a, e) kept
              | inr (n, e) ↦ rw (a, e) (λ segment k. k)
            ]
      ]

  retry_blocked_two_Keeps :
      (s : Server) (m : TsMsg) (i : ℕ) → KeepsIn s (retry_blocked_two junk s m i)
  unfolding retry_blocked_two
  retry_blocked_two_Keeps s m i =
      let r = lock_all_safe s.lock_sectors m.segment_ids m.no_segments m.train_no in
      let both =
        two_Keeps s m.segment_ids m.second_segment_ids m.no_segments m.second_no_segments
          m.train_no in
      elim (Bool-cases r.0) [
        | inl e ↦ rw e (all_Keeps s m.segment_ids m.no_segments m.train_no)
        | inr e ↦
            elim (Bool-cases
              (lock_all_safe r.1 m.second_segment_ids m.second_no_segments m.train_no).0) [
                | inl e₂ ↦ rw (e, e₂) both
                | inr e₂ ↦ rw (e, e₂) (λ segment k. k)
              ]
      ]

  retry_Keeps : (s : Server) (m : TsMsg) (i : ℕ) → KeepsIn s (retry junk s m i)
  unfolding retry
  retry_Keeps s m i =
      let d = s.train_data i in
      elim (Bool-cases (not (d.train_no == m.train_no) && is_blocked d.t_state)) [
        | inl e ↦ rw e (retry_blocked_Keeps s i)
        | inr e ↦ elim (Bool-cases (not (d.train_no == m.train_no) && is_blocked_two d.t_state)) [
          | inl e₂ ↦ rw (e, e₂) (retry_blocked_two_Keeps s m i)
          | inr e₂ ↦ rw (e, e₂) (λ segment k. k)
        ]
      ]

  pub retry_from-Keeps : (s : Server) (m : TsMsg) (n i : ℕ) → KeepsIn s (retry_from junk s m n i)
  unfolding retry_from
  retry_from-Keeps s m zero i = λ segment k. k
  retry_from-Keeps s m (suc n) i =
      Keeps-trans u s.lock_sectors (retry junk s m i).lock_sectors
        (retry_from junk (retry junk s m i) m n (i + 1)).lock_sectors (retry_Keeps s m i)
        (retry_from-Keeps (retry junk s m i) m n (i + 1))

  free_Keeps :
      (s : Server) (sender : ℕ) (m : TsMsg) → m.train_no ≢ u → KeepsIn s (free junk s sender m)
  unfolding free reply
  free_Keeps s sender m ne =
      let freed = free_from s.lock_sectors m.segment_ids m.train_no m.no_segments 0 in
      let replied = reply junk (record s { lock_sectors = freed }) sender true in
      Keeps-trans u s.lock_sectors freed (retry_from junk replied m n_trns 0).lock_sectors
        (free-Keeps m.segment_ids m.train_no m.no_segments 0 u s.lock_sectors ne)
        (retry_from-Keeps replied m n_trns 0)

  expire_Keeps : (s : Server) (m : TsMsg) (i : ℕ) → KeepsIn s (expire junk s m i)
  unfolding expire
  expire_Keeps s m i =
      let d = s.train_data i in
      let r = lock_all_safe s.lock_sectors m.segment_ids m.no_segments m.train_no in
      let both =
        two_Keeps s m.segment_ids m.second_segment_ids m.no_segments m.second_no_segments
          m.train_no in
      let one = lock_one_safe s.lock_sectors d.segment_ids d.no_segments d.train_no in
      elim (Bool-cases (is_timeout_two d.t_state)) [
        | inl t ↦ elim (Bool-cases r.0) [
          | inl e ↦ rw (t, e) (all_Keeps s m.segment_ids m.no_segments m.train_no)
          | inr e ↦
              elim (Bool-cases
                (lock_all_safe r.1 m.second_segment_ids m.second_no_segments m.train_no).0) [
                  | inl e₂ ↦ rw (t, e, e₂) both
                  | inr e₂ ↦ rw (t, e, e₂) both
                ]
        ]
        | inr t ↦ elim (Bool-cases d.all_segments_required) [
          | inl a ↦ rw (t, a) (all_Keeps s d.segment_ids d.no_segments d.train_no)
          | inr a ↦
              rw (t, a)
                (subst (Keeps u s.lock_sectors)
                  (sym
                    (reply_segment_locks (record s { lock_sectors = one.1 }) d.requester_tid one.0))
                  (lock_one-Keeps s.lock_sectors d.segment_ids d.no_segments d.train_no u nz))
        ]
      ]

  timed_out_Keeps : (s : Server) (m : TsMsg) (i : ℕ) → KeepsIn s (timed_out junk s m i)
  unfolding timed_out
  timed_out_Keeps s m i = elim (Bool-cases (is_idle (s.train_data i).t_state)) [
    | inl e ↦ rw e (λ segment k. k)
    | inr e ↦ rw e (expire_Keeps s m i)
  ]

  -- What a message may take from train `u`: it frees the train's own segments, or registers a train on
  -- one of them.
  abbrev pub Spares : TsMsgType → Server → TsMsg → Type 0
  Spares free_segments s m = m.train_no ≢ u
  Spares free_all s m = m.train_no ≢ u
  Spares train_register s m = s.lock_sectors (m.segment_ids 0) ≢ u
  Spares _ s m = Unit

  abbrev OkKeeps : Server → Outcome Server → Type 0
  OkKeeps s (ok s') = KeepsIn s s'
  OkKeeps s (fault f) = Unit

  at_train_Keeps :
      (s : Server) (z : ℤ) (handler : ℕ → Server)
      → ((i : ℕ) → KeepsIn s (handler i))
      → OkKeeps s (elim z as (λ _. Outcome Server) [
        | pos i ↦ ok (handler i)
        | negsuc _ ↦ fault out_of_bounds
      ])
  at_train_Keeps s (pos i) handler h = h i
  at_train_Keeps s (negsuc n) handler h = tt

  type_Keeps :
      (t : TsMsgType) (s : Server) (sender : ℕ) (m : TsMsg)
      → Spares t s m
      → OkKeeps s (handle_type junk t s sender m)
  unfolding handle_type free_all_segments register reply reply_error
  type_Keeps ask_segment_free s sender m spares = λ segment k. k
  type_Keeps request_segments_all_timeout s sender m spares =
      at_train_Keeps s (trn_hash m.train_no) (request_all junk true s sender m)
        (request_all_Keeps true s sender m)
  type_Keeps request_segments_all_no_timeout s sender m spares =
      at_train_Keeps s (trn_hash m.train_no) (request_all junk false s sender m)
        (request_all_Keeps false s sender m)
  type_Keeps request_segments_one_timeout s sender m spares =
      at_train_Keeps s (trn_hash m.train_no) (request_one junk true s sender m)
        (request_one_Keeps true s sender m)
  type_Keeps request_segments_one_no_timeout s sender m spares =
      at_train_Keeps s (trn_hash m.train_no) (request_one junk false s sender m)
        (request_one_Keeps false s sender m)
  type_Keeps request_segments_and_or_timeout s sender m spares =
      at_train_Keeps s (trn_hash m.train_no) (request_and_or junk true s sender m)
        (request_and_or_Keeps true s sender m)
  type_Keeps request_segments_and_or_no_timeout s sender m spares =
      at_train_Keeps s (trn_hash m.train_no) (request_and_or junk false s sender m)
        (request_and_or_Keeps false s sender m)
  type_Keeps free_segments s sender m spares = free_Keeps s sender m spares
  type_Keeps notif s sender m spares = elim (Bool-cases (not (m.train_no == 0))) [
    | inl e ↦
        rw e (at_train_Keeps s (trn_hash m.train_no) (timed_out junk s m) (timed_out_Keeps s m))
    | inr e ↦ rw e (λ segment k. k)
  ]
  type_Keeps free_all s sender m spares =
      at_train_Keeps s (trn_hash m.train_no) (free_all_segments junk s sender m)
        (λ i. free_all-Keeps n_segments 0 u m.train_no _ s.lock_sectors spares)
  type_Keeps train_register s sender m spares = λ segment k. ground (arith, spares)
  type_Keeps request_success s sender m spares = λ segment k. k
  type_Keeps request_fail s sender m spares = λ segment k. k
  type_Keeps error s sender m spares = λ segment k. k

  -- Whatever message the server handles, a segment that train `u`, not 0, holds it still holds, if
  -- the message neither frees segments for `u` nor registers a train on a segment of `u`. So a request
  -- and a retry, with a timeout or without, never takes a segment from another train.
  pub handle_safe :
      (s s' : Server) (sender : ℕ) (m : TsMsg)
      → Spares m.type s m
      → handle junk s sender m ≡ ok s'
      → Keeps u s.lock_sectors s'.lock_sectors
  unfolding handle
  handle_safe s s' sender m spares e = subst (OkKeeps s) e (type_Keeps m.type s sender m spares)
