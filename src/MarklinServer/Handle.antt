-- ===== src/MarklinServer/Handle.antt =====
-- Each message to the Marklin server against its contract.
use cs452_kernel.Base.{
  ℕ, ◌<◌, ◌≡◌, ◌≢◌, refl, ap, ◌∙◌, [], ◌∷◌, if◌then◌else◌, Outcome, ok, ◌>>=◌, arith,
}
use cs452_kernel.Base.Lists.{length}
use cs452_kernel.Text.Strings.{text}
use cs452_kernel.Deque.{Deque}
use cs452_kernel.Deque.Bounded.{start_lem}
use cs452_kernel.ConsoleServer.Laws.{adds}
use cs452_kernel.Uart.{
  MsgUartserver, UartMsgType, uart_puts, uart_getc, uart_notify_read, uart_notify_cts, uart_error,
  uart_success, uart_block_for_empty_sending, uart_max, send_success_msg,
}
use cs452_kernel.MarklinServer.{
  MarklinServer, MarklinState, marklin_ready, marklin_receiving_sensor, is_ready, advance_state,
  and_send, marklin_server_handle, marklin_server_init,
}
use cs452_kernel.MarklinServer.Spec.{Box, Steady, step, advanced}
use cs452_kernel.MarklinServer.Steady.{step-Steady}
use cs452_kernel.MarklinServer.Laws.{Shows, string_pushed}
use cs452_kernel.MarklinServer.Branches.{EndsIn, advance_lem, guarded, read_lem, get_lem, wait_lem}

module _ (junk : MsgUartserver) (fuel : ℕ) (enough : 32 < fuel) where
  abbrev pub Handles : MarklinServer → Box → ℕ → MsgUartserver → Type 0
  Handles s b sender msg =
      EndsIn junk fuel enough (marklin_server_handle junk fuel s sender msg)
        (step junk b sender msg)

  puts_lem :
      (s : MarklinServer) (b : Box) (sender : ℕ) (msg : MsgUartserver)
      → length (text 256 msg.buffer) < 256
      → Shows s b
      → Handles s b sender (record msg { type = uart_puts })
  unfolding marklin_server_handle step text
  puts_lem s b sender msg ends h =
      let (q, pushes, pend) = string_pushed 256 0 msg.buffer s.fifo_write b.pend ends h.pend in
      let t : MarklinServer = record s { fifo_write = q } in
      let (s', run, shows) =
        guarded junk fuel enough (send_success_msg junk sender) t
          (record b { pend = adds 256 b.pend (text 256 msg.buffer) })
          (record {
            pend = pend;
            empties = h.empties;
            chars = h.chars;
            readers = h.readers;
            state = h.state;
            outstanding = h.outstanding;
          }) in
      (
        s',
        ap
              (λ (o : Outcome Deque). o >>= λ r.
                let u : MarklinServer = record s { fifo_write = r } in
                if is_ready s.state
                then and_send junk fuel (send_success_msg junk sender ∷ []) u
                else ok (u, send_success_msg junk sender ∷ []))
              pushes
            ∙ run,
        shows,
      )

  cts_lem :
      (s : MarklinServer) (b : Box) (sender : ℕ) (msg : MsgUartserver)
      → b.state ≢ marklin_receiving_sensor
      → Shows s b
      → Handles s b sender (record msg { type = uart_notify_cts })
  unfolding marklin_server_handle step
  cts_lem s b sender msg known h =
      let next = advanced b.state (msg.buffer 0) in
      let t : MarklinServer = record s { state = next } in
      let (s', run, shows) =
        guarded junk fuel enough (send_success_msg junk sender) t (record b { state = next })
          (record {
            pend = h.pend;
            empties = h.empties;
            chars = h.chars;
            readers = h.readers;
            state = refl;
            outstanding = h.outstanding;
          }) in
      (
        s',
        ap
              (λ (o : Outcome MarklinState). o >>= λ st.
                let u : MarklinServer = record s { state = st } in
                if is_ready st
                then and_send junk fuel (send_success_msg junk sender ∷ []) u
                else ok (u, send_success_msg junk sender ∷ []))
              (ap (λ st. advance_state st (msg.buffer 0)) h.state
                ∙ advance_lem b.state (msg.buffer 0) known)
            ∙ run,
        shows,
      )

  typed_lem :
      (type : UartMsgType) (s : MarklinServer) (b : Box) (sender : ℕ) (msg : MsgUartserver)
      → length (text 256 msg.buffer) < 256
      → b.state ≢ marklin_receiving_sensor
      → Shows s b
      → Handles s b sender (record msg { type = type })
  unfolding marklin_server_handle step
  typed_lem uart_getc s b sender msg ends known h =
      get_lem junk fuel enough b.chars s b msg.requester_tid h
  typed_lem uart_puts s b sender msg ends known h = puts_lem s b sender msg ends h
  typed_lem uart_notify_cts s b sender msg ends known h = cts_lem s b sender msg known h
  typed_lem uart_notify_read s b sender msg ends known h =
      read_lem junk fuel enough b.readers s b sender (msg.buffer 0) h
  typed_lem uart_block_for_empty_sending s b sender msg ends known h =
      wait_lem junk fuel enough b.pend s b sender h
  typed_lem uart_error s b sender msg ends known h = (s, refl, h)
  typed_lem uart_success s b sender msg ends known h = (s, refl, h)
  typed_lem uart_max s b sender msg ends known h = (s, refl, h)

  -- The Marklin server does with its four deques what `step` does with lists of 256 bytes to and from
  -- the box and 32 waiting tasks of each kind: the bytes go out in order, one each time the box is ready,
  -- with the last one the tasks that wait for it are woken, and the loop that does so ends. The buffer of
  -- the message is a text that ends. What is always so before the message is so after it: a box that is
  -- ready has nothing to be sent, no task waits for an empty queue that is empty, and the server is in
  -- one of its three states.
  pub marklin_refines :
      (s : MarklinServer) (b : Box) (sender : ℕ) (msg : MsgUartserver)
      → length (text 256 msg.buffer) < 256
      → Shows s b
      → Steady b
      → ((s' : MarklinServer) × (marklin_server_handle junk fuel s sender msg
            ≡ ok (s', (step junk b sender msg).1))
          × Shows s' (step junk b sender msg).0)
        × Steady (step junk b sender msg).0
  marklin_refines s b sender msg ends h steady =
      (typed_lem msg.type s b sender msg ends steady.known h, step-Steady junk b sender msg steady)

-- The server starts with empty lists and a box that is ready.
abbrev pub start_box : Box
start_box = record {
  pend = [];
  empties = [];
  chars = [];
  readers = [];
  state = marklin_ready;
  outstanding = 0;
}

pub init-Shows : (q : Deque) → Shows (marklin_server_init q) start_box
unfolding marklin_server_init
init-Shows q = record {
  pend = start_lem q 8 (omega arith);
  empties = start_lem q 5 (omega arith);
  chars = start_lem q 8 (omega arith);
  readers = start_lem q 5 (omega arith);
  state = refl;
  outstanding = refl;
}
