-- ===== src/MarklinServer/Branches.antt =====
-- What the branches of the Marklin server do that send bytes, read them or wait.
use cs452_kernel.Base.{
  ℕ, ◌+◌, ◌-◌, ◌%◌, ◌^◌, ◌<◌, ◌≡◌, ◌≢◌, refl, ap, sym, ◌∙◌, Bool, true, false, not, ◌&&◌, List, [],
  ◌∷◌, ◌++◌, ◌==◌, if◌then◌else◌, Bool-cases, inl, inr, Outcome, ok, ◌>>=◌, arith,
}
use cs452_kernel.Deque.{deque_empty, deque_push_back, deque_pop_front}
use cs452_kernel.Deque.Bounded.{add, push_lem, pop_lem, empty_lem}
use cs452_kernel.Uart.{MsgUartserver, Effect, send_success_msg, reply_marklin_character}
use cs452_kernel.MarklinServer.{
  MarklinServer, MarklinState, marklin_ready, marklin_cmd_sent, marklin_server_busy,
  marklin_receiving_sensor, is_ready, advance_state, and_send, handle_getc, handle_read,
}
use cs452_kernel.MarklinServer.Spec.{Box, Steady, send, read, get, wait, step, advanced}
use cs452_kernel.MarklinServer.Spec
use cs452_kernel.MarklinServer.Laws.{Shows, send_lem, nothing_sent}

pub advance_lem :
    (state : MarklinState) (cts : ℕ)
    → state ≢ marklin_receiving_sensor
    → advance_state state cts ≡ ok (advanced state cts)
unfolding advance_state advanced
advance_lem marklin_ready cts known = refl
advance_lem marklin_cmd_sent cts known = elim (Bool-cases (cts == 0)) [
  | inl low ↦ rw low
  | inr high ↦ rw high
]
advance_lem marklin_server_busy cts known = elim (Bool-cases (cts == 1)) [
  | inl high ↦ rw high
  | inr low ↦ rw low
]
advance_lem marklin_receiving_sensor cts known = absurd (known refl)

module _ (junk : MsgUartserver) (fuel : ℕ) (enough : 32 < fuel) where
  -- What a call of the server comes to, against a pair of the contract.
  abbrev pub EndsIn : Outcome (MarklinServer × List Effect) → Box × List Effect → Type 0
  EndsIn o p = (s' : MarklinServer) × (o ≡ ok (s', p.1)) × Shows s' p.0

  after_send :
      (first : List Effect) (t : MarklinServer) (b : Box)
      → Shows t b
      → EndsIn (and_send junk fuel first t) (Spec.and_send junk first b)
  after_send first t b h =
      let (s', run, shows) = send_lem junk fuel enough t b h in
      (
        s',
        ap (λ (o : Outcome (MarklinServer × List Effect)). o >>= λ (u, es). ok (u, first ++ es))
            run,
        shows,
      )

  -- A server that is not ready sends nothing, so the test before the call changes nothing.
  guard_lem :
      (e : Effect) (t : MarklinServer)
      → (if is_ready t.state then and_send junk fuel (e ∷ []) t else ok (t, e ∷ []))
        ≡ and_send junk fuel (e ∷ []) t
  guard_lem e t = elim (Bool-cases (is_ready t.state)) [
    | inl ready ↦ rw ready
    | inr busy ↦
        let quiet =
          nothing_sent junk fuel enough t
            (still (is_ready t.state) (not (deque_empty t.fifo_write)) busy) in
        ap (λ r. if r then and_send junk fuel (e ∷ []) t else ok (t, e ∷ [])) busy
        ∙ sym (
            ap
              (λ (o : Outcome (MarklinServer × List Effect)).
                o >>= λ (u, es). ok (u, (e ∷ []) ++ es))
              quiet)
  ]
    where
      still : (a x : Bool) → a ≡ false → (a && x) ≡ false
      still a x h = grind arith

  pub guarded :
      (e : Effect) (t : MarklinServer) (b : Box)
      → Shows t b
      → EndsIn
          (if is_ready t.state then and_send junk fuel (e ∷ []) t else ok (t, e ∷ []))
          (Spec.and_send junk (e ∷ []) b)
  guarded e t b h =
      let (s', run, shows) = after_send (e ∷ []) t b h in (s', guard_lem e t ∙ run, shows)

  abbrev one_less : ℕ → ℕ
  one_less n = (n + (2 ^ 32 - 1)) % 2 ^ 32

  -- The server after a byte that no task, or that a task, waits for.
  abbrev kept : MarklinServer → ℕ → MarklinServer
  kept s c = record s {
    fifo_read = deque_push_back s.fifo_read c;
    outstanding_bytes = one_less s.outstanding_bytes;
  }

  abbrev given : MarklinServer → MarklinServer
  given s = record s {
    waiting_readers = (deque_pop_front s.waiting_readers).1;
    outstanding_bytes = one_less s.outstanding_bytes;
  }

  -- The sending after the last byte of an answer.
  abbrev and_last : List Effect → MarklinServer → ℕ → Outcome (MarklinServer × List Effect)
  and_last first t less = if less == 0 then and_send junk fuel first t else ok (t, first)

  kept_run :
      (s : MarklinServer) (sender c : ℕ)
      → deque_empty s.waiting_readers ≡ true
      → handle_read junk fuel s sender c
        ≡ and_last (send_success_msg junk sender ∷ []) (kept s c) (one_less s.outstanding_bytes)
  unfolding handle_read
  kept_run s sender c e = rw e

  given_run :
      (s : MarklinServer) (sender c t : ℕ)
      → deque_empty s.waiting_readers ≡ false
      → (deque_pop_front s.waiting_readers).0 ≡ t
      → handle_read junk fuel s sender c
        ≡ and_last
            (send_success_msg junk sender ∷ reply_marklin_character junk t c ∷ [])
            (given s)
            (one_less s.outstanding_bytes)
  unfolding handle_read
  given_run s sender c t e at_t = rw (e, at_t)

  and_last_lem :
      (first : List Effect) (t : MarklinServer) (b : Box) (less : ℕ)
      → Shows t b
      → EndsIn
          (and_last first t less)
          (if less == 0 then Spec.and_send junk first b else (b, first))
  and_last_lem first t b less h = elim (Bool-cases (less == 0)) [
    | inl last ↦ rw last (after_send first t b h)
    | inr more ↦ rw more (t, refl, h)
  ]

  pub read_lem :
      (readers : List ℕ) (s : MarklinServer) (b : Box) (sender c : ℕ)
      → Shows s (record b { readers = readers })
      → EndsIn
          (handle_read junk fuel s sender c)
          (read junk (record b { readers = readers }) sender c)
  unfolding read
  read_lem [] s b sender c h =
      let less = ap one_less h.outstanding in
      let (s', run, shows) =
        and_last_lem (send_success_msg junk sender ∷ []) (kept s c)
          (record b {
            readers = [];
            chars = add 256 b.chars c;
            outstanding = one_less b.outstanding;
          })
          (one_less b.outstanding)
          (record {
            pend = h.pend;
            empties = h.empties;
            chars = push_lem c h.chars;
            readers = h.readers;
            state = h.state;
            outstanding = less;
          }) in
      (
        s',
        kept_run s sender c (empty_lem [] h.readers)
            ∙ ap (and_last (send_success_msg junk sender ∷ []) (kept s c)) less
            ∙ run,
        shows,
      )
  read_lem (t ∷ ts) s b sender c h =
      let less = ap one_less h.outstanding in
      let (at_t, rest) = pop_lem h.readers in
      let first : List Effect =
        send_success_msg junk sender ∷ reply_marklin_character junk t c ∷ [] in
      let (s', run, shows) =
        and_last_lem first (given s)
          (record b { readers = ts; outstanding = one_less b.outstanding }) (one_less b.outstanding)
          (record {
            pend = h.pend;
            empties = h.empties;
            chars = h.chars;
            readers = rest;
            state = h.state;
            outstanding = less;
          }) in
      (
        s',
        given_run s sender c t (empty_lem (t ∷ ts) h.readers) at_t
            ∙ ap (and_last first (given s)) less
            ∙ run,
        shows,
      )

  pub get_lem :
      (chars : List ℕ) (s : MarklinServer) (b : Box) (tid : ℕ)
      → Shows s (record b { chars = chars })
      → EndsIn (ok (handle_getc junk s tid)) (get junk (record b { chars = chars }) tid)
  unfolding handle_getc get
  get_lem [] s b tid h =
      let no_char = empty_lem [] h.chars in
      (
        record s { waiting_readers = deque_push_back s.waiting_readers tid },
        rw no_char,
        record {
          pend = h.pend;
          empties = h.empties;
          chars = h.chars;
          readers = push_lem tid h.readers;
          state = h.state;
          outstanding = h.outstanding;
        },
      )
  get_lem (c ∷ cs) s b tid h =
      let has_char = empty_lem (c ∷ cs) h.chars in
      let (at_c, rest) = pop_lem h.chars in
      (
        record s { fifo_read = (deque_pop_front s.fifo_read).1 },
        rw (has_char, at_c),
        record {
          pend = h.pend;
          empties = h.empties;
          chars = rest;
          readers = h.readers;
          state = h.state;
          outstanding = h.outstanding;
        },
      )

  abbrev waits : MarklinServer → ℕ → Outcome (MarklinServer × List Effect)
  waits s sender =
      if deque_empty s.fifo_write
      then ok (s, send_success_msg junk sender ∷ [])
      else ok (record s { waiting_for_empty = deque_push_back s.waiting_for_empty sender }, [])

  pub wait_lem :
      (pend : List ℕ) (s : MarklinServer) (b : Box) (sender : ℕ)
      → Shows s (record b { pend = pend })
      → EndsIn (waits s sender) (wait junk (record b { pend = pend }) sender)
  unfolding wait
  wait_lem [] s b sender h = let no_byte = empty_lem [] h.pend in (s, rw no_byte, h)
  wait_lem (c ∷ cs) s b sender h =
      let has_byte = empty_lem (c ∷ cs) h.pend in
      (
        record s { waiting_for_empty = deque_push_back s.waiting_for_empty sender },
        rw has_byte,
        record {
          pend = h.pend;
          empties = push_lem sender h.empties;
          chars = h.chars;
          readers = h.readers;
          state = h.state;
          outstanding = h.outstanding;
        },
      )
