-- ===== src/MarklinServer.antt =====
-- src/marklin-server.c: the server of the line to the Marklin box, which sends a byte when the box has
-- taken the one before. A char is a byte, and an int the pattern of its 32 bits.
pub mod Spec
pub mod Steady
pub mod Laws
pub mod Branches
pub mod Handle
mod Tests
use cs452_kernel.Base.{
  ℕ, zero, suc, ◌+◌, ◌-◌, ◌%◌, ◌^◌, Bool, true, false, not, ◌&&◌, List, [], ◌∷◌, ◌++◌, ltb, leb,
  ◌==◌, if◌then◌else◌, Outcome, ok, fault, hang, panic, out_of_bounds, ◌>>=◌, ℤ, pos,
}
use cs452_kernel.Deque.{Deque, deque_init, deque_empty, deque_push_back, deque_pop_front}
use cs452_kernel.Uart.{
  MsgUartserver, UartMsgType, uart_puts, uart_getc, uart_notify_read, uart_notify_cts, uart_error,
  uart_success, uart_block_for_empty_sending, uart_max, Effect, send_reply, put_byte,
  send_error_msg, send_success_msg, reply_marklin_character, max_string_length,
}

pub data MarklinState : Type 0 where
  marklin_ready marklin_cmd_sent marklin_server_busy marklin_receiving_sensor : MarklinState

pub record MarklinServer : Type 0 where
  pub fifo_read : Deque
  pub fifo_write : Deque
  pub waiting_readers : Deque
  pub waiting_for_empty : Deque
  pub state : MarklinState
  pub outstanding_bytes : ℕ

pub marklin_server_init : Deque → MarklinServer
marklin_server_init q = record {
  fifo_read = (deque_init q 8).1;
  fifo_write = (deque_init q 8).1;
  waiting_readers = (deque_init q 5).1;
  waiting_for_empty = (deque_init q 5).1;
  state = marklin_ready;
  outstanding_bytes = 0;
}

-- ZERO_BYTE, S88_BASE, N_S88 and S88_RESET.
abbrev pub zero_byte : ℕ
zero_byte = 255

abbrev pub s88_base : ℕ
s88_base = 128

abbrev pub n_s88 : ℕ
n_s88 = 5

abbrev pub s88_reset : ℕ
s88_reset = 192

-- The byte on the line.
abbrev pub on_line : ℕ → ℕ
on_line c = if c == zero_byte then 0 else c

-- The bytes that the box answers a command with.
abbrev pub answer_bytes : ℕ → ℕ → ℕ
answer_bytes c outstanding =
    if leb s88_base c && leb c (s88_base + n_s88)
    then c - s88_base
    else if leb s88_reset c && leb c (s88_reset + n_s88)
    then 2
    else outstanding

abbrev pub is_ready : MarklinState → Bool
is_ready marklin_ready = true
is_ready _ = false

-- The switch; a state outside of it ends the system.
unfoldable pub advance_state : MarklinState → ℕ → Outcome MarklinState
advance_state marklin_ready cts_state = ok marklin_ready
advance_state marklin_cmd_sent cts_state =
    if cts_state == 0 then ok marklin_server_busy else ok marklin_cmd_sent
advance_state marklin_server_busy cts_state =
    if cts_state == 1 then ok marklin_ready else ok marklin_server_busy
advance_state marklin_receiving_sensor cts_state = fault panic

-- The loop of `MSG_UART_PUTS`, with `places` bytes of the buffer left.
unfoldable pub push_string : ℕ → ℕ → (ℕ → ℕ) → Deque → Outcome Deque
push_string zero i buffer q = fault out_of_bounds
push_string (suc places) i buffer q =
    let more = push_string places (i + 1) buffer (deque_push_back q (buffer i)) in
    if buffer i == 0 then ok q else more

module _ (junk : MsgUartserver) where
  abbrev pub reply_empty : ℕ → Effect
  reply_empty tid = send_reply tid (record junk {
    type = uart_block_for_empty_sending;
    requester_tid = tid % 2 ^ 16;
    length = pos 0;
  })

  unfoldable pub reply_waiting_for_empty : ℕ → Deque → Outcome (Deque × List Effect)
  reply_waiting_for_empty zero q = fault hang
  reply_waiting_for_empty (suc fuel) q =
      let (tid, rest) = deque_pop_front q in
      let further =
        reply_waiting_for_empty fuel rest >>= λ (q', effects). ok (q', reply_empty tid ∷ effects) in
      if deque_empty q then ok (q, []) else further

  unfoldable pub handle_sending : ℕ → MarklinServer → Outcome (MarklinServer × List Effect)
  unfolding reply_waiting_for_empty
  handle_sending fuel s =
      let (x, rest) = deque_pop_front s.fifo_write in
      let c = x % 256 in
      let sent : MarklinServer = record s {
        fifo_write = rest;
        state = marklin_cmd_sent;
        outstanding_bytes = answer_bytes c s.outstanding_bytes;
      } in
      let woken = reply_waiting_for_empty fuel s.waiting_for_empty >>= λ (q, effects).
      ok (record sent { waiting_for_empty = q }, put_byte (on_line c) ∷ effects) in
      if is_ready s.state && not (deque_empty s.fifo_write)
      then (if deque_empty rest then woken else ok (sent, put_byte (on_line c) ∷ []))
      else ok (s, [])

  -- What is done before, and then the sending.
  abbrev pub and_send : ℕ → List Effect → MarklinServer → Outcome (MarklinServer × List Effect)
  and_send fuel first s = handle_sending fuel s >>= λ (s', effects). ok (s', first ++ effects)

  unfoldable pub handle_getc : MarklinServer → ℕ → MarklinServer × List Effect
  handle_getc s tid =
      let (response, chars) = deque_pop_front s.fifo_read in
      if deque_empty s.fifo_read
      then (record s { waiting_readers = deque_push_back s.waiting_readers tid }, [])
      else (record s { fifo_read = chars }, reply_marklin_character junk tid (response % 256) ∷ [])

  unfoldable pub handle_read : ℕ → MarklinServer → ℕ → ℕ → Outcome (MarklinServer × List Effect)
  unfolding handle_sending
  handle_read fuel s sender c =
      let (response_tid, readers) = deque_pop_front s.waiting_readers in
      let kept : MarklinServer = record s { fifo_read = deque_push_back s.fifo_read c } in
      let given : MarklinServer = record s { waiting_readers = readers } in
      let less = (s.outstanding_bytes + (2 ^ 32 - 1)) % 2 ^ 32 in
      let t : MarklinServer = record (if deque_empty s.waiting_readers then kept else given) {
        outstanding_bytes = less;
      } in
      let done : List Effect =
        send_success_msg junk sender
        ∷ (if deque_empty s.waiting_readers
            then []
            else reply_marklin_character junk response_tid c ∷ []) in
      let sending = and_send fuel done t in if less == 0 then sending else ok (t, done)

  -- One round of `marklin_server_main`: the state after a message, and what is done.
  unfoldable pub marklin_server_handle :
      ℕ → MarklinServer → ℕ → MsgUartserver → Outcome (MarklinServer × List Effect)
  unfolding handle_sending handle_getc handle_read push_string advance_state
  marklin_server_handle fuel s sender msg =
      let success = send_success_msg junk sender ∷ [] in
      elim (msg.type) as (λ _. Outcome (MarklinServer × List Effect)) [
        | uart_getc ↦ ok (handle_getc s msg.requester_tid)
        | uart_puts ↦ push_string max_string_length 0 msg.buffer s.fifo_write >>= λ q.
            let t : MarklinServer = record s { fifo_write = q } in
            let sending = and_send fuel success t in
            if is_ready s.state then sending else ok (t, success)
        | uart_notify_cts ↦ advance_state s.state (msg.buffer 0) >>= λ state.
            let t : MarklinServer = record s { state = state } in
            let sending = and_send fuel success t in
            if is_ready state then sending else ok (t, success)
        | uart_notify_read ↦ handle_read fuel s sender (msg.buffer 0)
        | uart_block_for_empty_sending ↦
            if deque_empty s.fifo_write
            then ok (s, success)
            else ok
                (record s { waiting_for_empty = deque_push_back s.waiting_for_empty sender }, [])
        | _ ↦ ok (s, send_error_msg junk sender ∷ [])
      ]
