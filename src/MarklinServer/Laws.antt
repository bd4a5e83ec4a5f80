-- ===== src/MarklinServer/Laws.antt =====
-- The Marklin server does with its deques what its contract does with lists.
use cs452_kernel.Base.{
  ℕ, zero, suc, ◌+◌, ◌%◌, ◌<◌, ◌≡◌, refl, ap, sym, subst, Bool, true, false, not, ◌&&◌, List, [],
  ◌∷◌, map, ◌==◌, if◌then◌else◌, Bool-cases, inl, inr, ok, arith,
}
use cs452_kernel.Base.Lists.{length}
use cs452_kernel.Text.Strings.{text_from, Ends, text_step}
use cs452_kernel.Deque.{Deque, deque_empty, deque_push_back, deque_pop_front}
use cs452_kernel.Deque.Bounded.{Queued, add, is_nil, push_lem, pop_lem, empty_lem, room_lem}
use cs452_kernel.ConsoleServer.Laws.{adds}
use cs452_kernel.Uart.{MsgUartserver, Effect, put_byte}
use cs452_kernel.MarklinServer.{
  MarklinServer, marklin_cmd_sent, is_ready, push_string, reply_empty, reply_waiting_for_empty,
  handle_sending, on_line, answer_bytes,
}
use cs452_kernel.MarklinServer.Spec.{Box, send}

pub record Shows (s : MarklinServer) (b : Box) : Type 0 where
  pub pend : Queued s.fifo_write 256 b.pend
  pub empties : Queued s.waiting_for_empty 32 b.empties
  pub chars : Queued s.fifo_read 256 b.chars
  pub readers : Queued s.waiting_readers 32 b.readers
  pub state : s.state ≡ b.state
  pub outstanding : s.outstanding_bytes ≡ b.outstanding

pub string_pushed :
    (n i : ℕ) (buffer : ℕ → ℕ) (q : Deque) (xs : List ℕ)
    → Ends n buffer i
    → Queued q 256 xs
    → (q' : Deque) × (push_string n i buffer q ≡ ok q')
      × Queued q' 256 (adds 256 xs (text_from n buffer i))
unfolding push_string text_from
string_pushed zero i buffer q xs ends h = absurd (omega (arith, ends))
string_pushed (suc n) i buffer q xs ends h = elim (Bool-cases (buffer i == 0)) [
  | inl stop ↦ (q, rw stop, rw stop h)
  | inr go ↦
      let (q', run, h') =
        string_pushed n (i + 1) buffer (deque_push_back q (buffer i)) (add 256 xs (buffer i))
          (let e = ap length (text_step n buffer i go) in omega (arith, e, ends))
          (push_lem (buffer i) h) in
      (q', rw go run, rw go h')
]

module _ (junk : MsgUartserver) where
  woken_lem :
      (tids : List ℕ) (fuel : ℕ) (q : Deque)
      → length tids < fuel
      → Queued q 32 tids
      → (q' : Deque) × (reply_waiting_for_empty junk fuel q ≡ ok (q', map (reply_empty junk) tids))
        × Queued q' 32 []
  unfolding reply_waiting_for_empty
  woken_lem tids zero q lt h = absurd (omega (arith, lt))
  woken_lem [] (suc fuel) q lt h = let none_waits = empty_lem [] h in (q, rw none_waits, h)
  woken_lem (t ∷ tids) (suc fuel) q lt h =
      let waits = empty_lem (t ∷ tids) h in
      let (at_t, h') = pop_lem h in
      let (q', run, rest) = woken_lem tids fuel (deque_pop_front q).1 (omega (arith, lt)) h' in
      (q', rw (waits, run, at_t), rest)

  module _ (fuel : ℕ) (enough : 32 < fuel) where
    abbrev pub Sends : MarklinServer → Box → Type 0
    Sends s b =
        (s' : MarklinServer) × (handle_sending junk fuel s ≡ ok (s', (send junk b).1))
        × Shows s' (send junk b).0

    -- The state and the char_count of the box are those of the server.
    abbrev view : MarklinServer → List ℕ → List ℕ → List ℕ → List ℕ → Box
    view s pend empties chars readers = record {
      pend = pend;
      empties = empties;
      chars = chars;
      readers = readers;
      state = s.state;
      outstanding = s.outstanding_bytes;
    }

    pub nothing_sent :
        (s : MarklinServer)
        → (is_ready s.state && not (deque_empty s.fifo_write)) ≡ false
        → handle_sending junk fuel s ≡ ok (s, [])
    unfolding handle_sending
    nothing_sent s e = rw e

    idle : (a e : Bool) → e ≡ true → (a && not e) ≡ false
    idle a e same = grind arith

    -- The server without its first byte.
    abbrev sent : MarklinServer → ℕ → MarklinServer
    sent s c = record s {
      fifo_write = (deque_pop_front s.fifo_write).1;
      state = marklin_cmd_sent;
      outstanding_bytes = answer_bytes (c % 256) s.outstanding_bytes;
    }

    sent_run :
        (s : MarklinServer) (c : ℕ)
        → is_ready s.state ≡ true
        → deque_empty s.fifo_write ≡ false
        → (deque_pop_front s.fifo_write).0 ≡ c
        → deque_empty (deque_pop_front s.fifo_write).1 ≡ false
        → handle_sending junk fuel s ≡ ok (sent s c, put_byte (on_line (c % 256)) ∷ [])
    unfolding handle_sending
    sent_run s c ready has at_c more = rw (ready, has, more, at_c)

    last_run :
        (s : MarklinServer) (c : ℕ) (q : Deque) (effects : List Effect)
        → is_ready s.state ≡ true
        → deque_empty s.fifo_write ≡ false
        → (deque_pop_front s.fifo_write).0 ≡ c
        → deque_empty (deque_pop_front s.fifo_write).1 ≡ true
        → reply_waiting_for_empty junk fuel s.waiting_for_empty ≡ ok (q, effects)
        → handle_sending junk fuel s
          ≡ ok (record (sent s c) { waiting_for_empty = q }, put_byte (on_line (c % 256)) ∷ effects)
    unfolding handle_sending
    last_run s c q effects ready has at_c last run = rw (ready, has, last, run, at_c)

    -- A ready server sends the byte `c`, and wakes the tasks that wait if it is the last one.
    byte_sent :
        (c : ℕ) (cs : List ℕ) (s : MarklinServer) (empties chars readers : List ℕ)
        → is_ready s.state ≡ true
        → Shows s (view s (c ∷ cs) empties chars readers)
        → (s' : MarklinServer) × (handle_sending junk fuel s
            ≡ ok (
              s',
              put_byte (on_line (c % 256))
                  ∷ (if is_nil cs then map (reply_empty junk) empties else []),
            ))
          × Shows s' (record {
            pend = cs;
            empties = if is_nil cs then [] else empties;
            chars = chars;
            readers = readers;
            state = marklin_cmd_sent;
            outstanding = answer_bytes (c % 256) s.outstanding_bytes;
          })
    byte_sent c [] s empties chars readers ready h =
        let (at_c, rest) = pop_lem h.pend in
        let most = room_lem h.empties in
        let (q, run, none_left) =
          woken_lem empties fuel s.waiting_for_empty (omega (arith, most, enough)) h.empties in
        (
          record (sent s c) { waiting_for_empty = q },
          last_run s c q (map (reply_empty junk) empties) ready (empty_lem (c ∷ []) h.pend) at_c
              (empty_lem [] rest) run,
          record {
            pend = rest;
            empties = none_left;
            chars = h.chars;
            readers = h.readers;
            state = refl;
            outstanding = refl;
          },
        )
    byte_sent c (d ∷ cs) s empties chars readers ready h =
        let (at_c, rest) = pop_lem h.pend in
        (
          sent s c,
          sent_run s c ready (empty_lem (c ∷ d ∷ cs) h.pend) at_c (empty_lem (d ∷ cs) rest),
          record {
            pend = rest;
            empties = h.empties;
            chars = h.chars;
            readers = h.readers;
            state = refl;
            outstanding = refl;
          },
        )

    sending_lem :
        (pend : List ℕ) (s : MarklinServer) (empties chars readers : List ℕ)
        → Shows s (view s pend empties chars readers)
        → Sends s (view s pend empties chars readers)
    unfolding send
    sending_lem [] s empties chars readers h =
        let no_byte = empty_lem [] h.pend in
        (s, nothing_sent s (idle (is_ready s.state) (deque_empty s.fifo_write) no_byte), h)
    sending_lem (c ∷ cs) s empties chars readers h = elim (Bool-cases (is_ready s.state)) [
      | inl ready ↦ rw ready (byte_sent c cs s empties chars readers ready h)
      | inr busy ↦ rw busy (s, nothing_sent s (rw busy), h)
    ]

    -- Any box of the server will do.
    pub send_lem : (s : MarklinServer) (b : Box) → Shows s b → Sends s b
    send_lem s b h =
        let at : view s b.pend b.empties b.chars b.readers ≡ b =
          λ i. record b { state = h.state i; outstanding = h.outstanding i } in
        subst (Sends s) at
          (sending_lem b.pend s b.empties b.chars b.readers (subst (Shows s) (sym at) h))
