-- ===== src/Uart.antt =====
-- include/uart-server.h and src/uart-server.c: the messages of the two servers of the serial lines, and
-- the calls of their clients. A char is a byte.
pub mod Laws
mod Tests
use cs452_kernel.Base.{
  ℕ, zero, suc, ◌+◌, ◌%◌, ◌^◌, Bool, true, false, ◌||◌, ltb, ◌==◌, if◌then◌else◌, update, Outcome,
  ok, fault, out_of_bounds, ◌>>=◌, ℤ, pos, negsuc, minus_one,
}

abbrev pub max_string_length : ℕ
max_string_length = 256

pub data UartMsgType : Type 0 where
  uart_puts uart_getc uart_notify_read uart_notify_cts uart_error uart_success : UartMsgType
  uart_block_for_empty_sending uart_max : UartMsgType

pub record MsgUartserver : Type 0 where
  pub type : UartMsgType
  pub requester_tid : ℕ
  pub buffer : ℕ → ℕ
  pub length : ℤ

-- What a server does to the rest of the system, in order: a Reply, a string on the console, a byte on
-- the line of the Marklin box.
pub data Effect : Type 0 where
  send_reply : ℕ → MsgUartserver → Effect
  put_string : (ℕ → ℕ) → Effect
  put_byte : ℕ → Effect

-- `junk` is what a message holds before it is filled in.
module _ (junk : MsgUartserver) where
  abbrev pub send_error_msg : ℕ → Effect
  send_error_msg tid = send_reply tid (record junk {
    type = uart_error;
    requester_tid = tid % 2 ^ 16;
    buffer = update junk.buffer 0 0;
  })

  abbrev pub send_success_msg : ℕ → Effect
  send_success_msg tid = send_reply tid (record junk {
    type = uart_success;
    requester_tid = tid % 2 ^ 16;
    buffer = update junk.buffer 0 0;
  })

  -- The console server's, which ends the string.
  abbrev pub reply_character : ℕ → ℕ → Effect
  reply_character tid c = send_reply tid (record junk {
    type = uart_getc;
    requester_tid = tid % 2 ^ 16;
    buffer = update (update junk.buffer 0 c) 1 0;
  })

  -- The Marklin server's.
  abbrev pub reply_marklin_character : ℕ → ℕ → Effect
  reply_marklin_character tid c = send_reply tid (record junk {
    type = uart_getc;
    requester_tid = tid % 2 ^ 16;
    buffer = update junk.buffer 0 c;
  })

abbrev store_byte : (ℕ → ℕ) → ℕ → ℕ → Outcome (ℕ → ℕ)
store_byte buffer i c =
    if ltb i max_string_length then ok (update buffer i c) else fault out_of_bounds

-- The loop of `Putl`, with `n` bytes left.
unfoldable pub putl_from : ℕ → ℕ → (ℕ → ℕ) → (ℕ → ℕ) → Outcome (ℕ → ℕ)
putl_from zero i buffer buf = store_byte buffer i 0
putl_from (suc n) i buffer buf = store_byte buffer i (buf i) >>= λ b. putl_from n (i + 1) b buf

-- The loop of `Puts`, with room for `n` bytes.
unfoldable pub puts_from : ℕ → ℕ → (ℕ → ℕ) → (ℕ → ℕ) → Outcome (ℕ → ℕ)
puts_from zero i buffer buf = store_byte buffer i 0
puts_from (suc n) i buffer buf =
    let further = store_byte buffer i (buf i) >>= λ b. puts_from n (i + 1) b buf in
    if buf i == 0 then store_byte buffer i 0 else further

abbrev failed : ℤ → MsgUartserver → Bool
failed (pos ret) msg = elim (msg.type) as (λ _. Bool) [ uart_error ↦ true | _ ↦ false ]
failed (negsuc ret) msg = true

-- `send` is the Send of the kernel, with the code that it returns and the buffer of the message.
module _ {S : Type 0} (junk : MsgUartserver)
    (send : ℕ → MsgUartserver → S → Outcome (S × ℤ × MsgUartserver)) (my_tid : ℕ) where
  abbrev pub uart_request : UartMsgType → MsgUartserver
  uart_request type = record junk { type = type; requester_tid = my_tid % 2 ^ 16 }

  -- The end of the calls that return no value.
  abbrev pub send_string : ℕ → MsgUartserver → S → Outcome (S × ℤ)
  send_string tid m s =
      send tid m s >>= λ (s', ret, msg). ok (s', (if failed ret msg then minus_one else pos 0))

  unfoldable pub putc : ℕ → ℕ → S → Outcome (S × ℤ)
  putc tid ch s =
      send_string tid
        (record (uart_request uart_puts) { buffer = update (update junk.buffer 0 ch) 1 0 }) s

  unfoldable pub getc : ℕ → S → Outcome (S × ℤ)
  getc tid s = send tid (uart_request uart_getc) s >>= λ (s', ret, msg).
      ok (s', (if failed ret msg then minus_one else pos (msg.buffer 0)))

  unfoldable pub putl : ℕ → (ℕ → ℕ) → ℕ → S → Outcome (S × ℤ)
  unfolding putl_from
  putl tid buf blen s =
      let filled = putl_from blen 0 junk.buffer buf >>= λ b.
      send_string tid (record (uart_request uart_puts) { buffer = b }) s in
      if ltb max_string_length blen then ok (s, minus_one) else filled

  unfoldable pub puts : ℕ → (ℕ → ℕ) → S → Outcome (S × ℤ)
  unfolding puts_from
  puts tid buf s = puts_from max_string_length 0 junk.buffer buf >>= λ b.
      send_string tid (record (uart_request uart_puts) { buffer = b }) s

  unfoldable pub wait_output_empty : ℕ → S → Outcome (S × ℤ)
  wait_output_empty tid s = send_string tid (uart_request uart_block_for_empty_sending) s
