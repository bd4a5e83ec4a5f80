-- ===== src/ConsoleServer.antt =====
-- src/console-server.c: the server of the console, which pairs the characters that are typed with the
-- tasks that wait for one.
pub mod Laws
mod Tests
use cs452_kernel.Base.{
  ℕ, zero, suc, ◌+◌, ◌-◌, ◌%◌, ◌^◌, Bool, not, ◌&&◌, leb, List, [], ◌∷◌, ltb, ◌==◌, if◌then◌else◌,
  update, Outcome, ok, fault, hang, out_of_bounds, ◌>>=◌, ℤ, pos, negsuc,
}
use cs452_kernel.Deque.{Deque, deque_init, deque_empty, deque_push_back, deque_pop_front}
use cs452_kernel.Uart.{
  MsgUartserver, UartMsgType, uart_puts, uart_getc, uart_notify_read, uart_notify_cts, uart_error,
  uart_success, uart_block_for_empty_sending, uart_max, Effect, put_string, send_error_msg,
  send_success_msg, reply_character, max_string_length,
}

pub record ConsoleServer : Type 0 where
  pub fifo_read : Deque
  pub waiting_readers : Deque

pub console_server_init : Deque → Deque → ConsoleServer
console_server_init q r = record {
  fifo_read = (deque_init q 4).1;
  waiting_readers = (deque_init r 3).1;
}

-- `for (int i = 0; i < msg_received.length; i++)`, with `n` characters left.
unfoldable pub push_bytes : ℕ → ℕ → (ℕ → ℕ) → Deque → Outcome Deque
push_bytes zero i buffer q = ok q
push_bytes (suc n) i buffer q =
    let more = push_bytes n (i + 1) buffer (deque_push_back q (buffer i)) in
    if ltb i max_string_length then more else fault out_of_bounds

abbrev char_count : ℤ → ℕ
char_count (pos n) = n
char_count (negsuc n) = 0

module _ (junk : MsgUartserver) where
  -- The loop that answers the tasks that wait.
  unfoldable pub answer_waiting : ℕ → ConsoleServer → Outcome (ConsoleServer × List Effect)
  answer_waiting zero s = fault hang
  answer_waiting (suc fuel) s =
      let (response_tid, readers) = deque_pop_front s.waiting_readers in
      let (c, chars) = deque_pop_front s.fifo_read in
      let further =
        answer_waiting fuel (record { fifo_read = chars; waiting_readers = readers })
        >>= λ (s', effects). ok (s', reply_character junk response_tid (c % 256) ∷ effects) in
      if not (deque_empty s.waiting_readers) && not (deque_empty s.fifo_read)
      then further
      else ok (s, [])

  -- One round of `console_server_main`: the state after a message, and what is done.
  unfoldable pub console_server_handle :
      ℕ → ConsoleServer → ℕ → MsgUartserver → Outcome (ConsoleServer × List Effect)
  unfolding push_bytes answer_waiting
  console_server_handle fuel s sender_tid msg =
      elim (msg.type) as (λ _. Outcome (ConsoleServer × List Effect)) [
        | uart_getc ↦
            let (response, chars) = deque_pop_front s.fifo_read in
            if deque_empty s.fifo_read
            then ok (
              record s { waiting_readers = deque_push_back s.waiting_readers msg.requester_tid },
              [],
            )
            else ok (
              record s { fifo_read = chars },
              reply_character junk msg.requester_tid (response % 256) ∷ [],
            )
        | uart_puts ↦ ok (s, send_success_msg junk sender_tid ∷ put_string msg.buffer ∷ [])
        | uart_notify_read ↦ push_bytes (char_count msg.length) 0 msg.buffer s.fifo_read >>= λ q.
            answer_waiting fuel (record s { fifo_read = q }) >>= λ (s', effects).
            ok (s', send_success_msg junk sender_tid ∷ effects)
        | _ ↦ ok (s, send_error_msg junk sender_tid ∷ [])
      ]

-- The arrow keys are 128 to 131, in the order of the letters 'A' (65) to 'D' of their sequences; 27 is
-- escape and 91 is '['.
abbrev arrow_up : ℕ
arrow_up = 128

-- One character of `console_read_notifer_main`, put into the message that is collected: the buffer and
-- its length.
unfoldable pub collect_char : (ℕ → ℕ) → ℕ → ℕ → Outcome ((ℕ → ℕ) × ℕ)
collect_char buffer length c =
    let arrow : (ℕ → ℕ) × ℕ = (update buffer (length - 2) (arrow_up + c - 65), length - 2 + 1) in
    if (leb 65 c && leb c 68)
      && (leb 2 length && (buffer (length - 2) == 27 && buffer (length - 1) == 91))
    then ok arrow
    else if ltb length max_string_length
    then ok (update buffer length c, length + 1)
    else fault out_of_bounds
