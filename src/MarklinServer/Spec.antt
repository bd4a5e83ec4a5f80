-- ===== src/MarklinServer/Spec.antt =====
-- The contract of the Marklin server: lists in place of its deques, one function for each message.
use cs452_kernel.Base.{
  ℕ, ◌+◌, ◌-◌, ◌%◌, ◌^◌, ◌≡◌, ◌≢◌, true, List, [], ◌∷◌, ◌++◌, map, ◌==◌, if◌then◌else◌,
}
use cs452_kernel.Text.Strings.{text}
use cs452_kernel.Deque.Bounded.{add, is_nil}
use cs452_kernel.ConsoleServer.Laws.{adds}
use cs452_kernel.Uart.{
  MsgUartserver, uart_puts, uart_getc, uart_notify_read, uart_notify_cts,
  uart_block_for_empty_sending, Effect, put_byte, send_error_msg, send_success_msg,
  reply_marklin_character,
}
use cs452_kernel.MarklinServer.{
  MarklinState, marklin_ready, marklin_cmd_sent, marklin_server_busy, marklin_receiving_sensor,
  on_line, answer_bytes, is_ready, reply_empty,
}

-- `pend` are the bytes to be sent, `empties` the tasks that wait until all are sent, `chars` the bytes
-- from the box, and `readers` the tasks that wait for one.
pub record Box : Type 0 where
  pub pend : List ℕ
  pub empties : List ℕ
  pub chars : List ℕ
  pub readers : List ℕ
  pub state : MarklinState
  pub outstanding : ℕ

-- The states of a box that takes bytes.
unfoldable pub advanced : MarklinState → ℕ → MarklinState
advanced marklin_cmd_sent cts = if cts == 0 then marklin_server_busy else marklin_cmd_sent
advanced marklin_server_busy cts = if cts == 1 then marklin_ready else marklin_server_busy
advanced marklin_ready cts = marklin_ready
advanced marklin_receiving_sensor cts = marklin_receiving_sensor

module _ (junk : MsgUartserver) where
  -- A box that is ready gets the next byte; with the last one the tasks that wait for it are woken.
  unfoldable pub send : Box → Box × List Effect
  send b = elim (b.pend) as (λ _. Box × List Effect) [
    | [] ↦ (b, [])
    | c ∷ cs ↦
        let sent : Box = record b {
          pend = cs;
          empties = if is_nil cs then [] else b.empties;
          state = marklin_cmd_sent;
          outstanding = answer_bytes (c % 256) b.outstanding;
        } in
        if is_ready b.state
        then (
          sent,
          put_byte (on_line (c % 256))
              ∷ (if is_nil cs then map (reply_empty junk) b.empties else []),
        )
        else (b, [])
  ]

  abbrev pub and_send : List Effect → Box → Box × List Effect
  and_send first b = let (b', effects) = send b in (b', first ++ effects)

  unfoldable pub read : Box → ℕ → ℕ → Box × List Effect
  unfolding send
  read b sender c =
      let less = (b.outstanding + (2 ^ 32 - 1)) % 2 ^ 32 in
      let taken : Box × List Effect = elim (b.readers) as (λ _. Box × List Effect) [
        | [] ↦ (
          record b { chars = add 256 b.chars c; outstanding = less },
          send_success_msg junk sender ∷ [],
        )
        | t ∷ ts ↦ (
          record b { readers = ts; outstanding = less },
          send_success_msg junk sender ∷ reply_marklin_character junk t c ∷ [],
        )
      ] in
      if less == 0 then and_send taken.1 taken.0 else taken

  unfoldable pub get : Box → ℕ → Box × List Effect
  get b tid = elim (b.chars) as (λ _. Box × List Effect) [
    | [] ↦ (record b { readers = add 32 b.readers tid }, [])
    | c ∷ cs ↦ (record b { chars = cs }, reply_marklin_character junk tid (c % 256) ∷ [])
  ]

  unfoldable pub wait : Box → ℕ → Box × List Effect
  wait b sender = elim (b.pend) as (λ _. Box × List Effect) [
    | [] ↦ (b, send_success_msg junk sender ∷ [])
    | c ∷ cs ↦ (record b { empties = add 32 b.empties sender }, [])
  ]

  unfoldable pub step : Box → ℕ → MsgUartserver → Box × List Effect
  unfolding send read get wait advanced
  step b sender msg =
      let success = send_success_msg junk sender ∷ [] in
      elim (msg.type) as (λ _. Box × List Effect) [
        | uart_getc ↦ get b msg.requester_tid
        | uart_puts ↦ and_send success (record b { pend = adds 256 b.pend (text 256 msg.buffer) })
        | uart_notify_cts ↦ and_send success (record b { state = advanced b.state (msg.buffer 0) })
        | uart_notify_read ↦ read b sender (msg.buffer 0)
        | uart_block_for_empty_sending ↦ wait b sender
        | _ ↦ (b, send_error_msg junk sender ∷ [])
      ]

-- A ready box has nothing to be sent, no task waits for an empty queue that is empty, and the state is
-- one that the server gets into.
pub record Steady (b : Box) : Type 0 where
  pub prompt : is_ready b.state ≡ true → b.pend ≡ []
  pub woken : b.pend ≡ [] → b.empties ≡ []
  pub known : b.state ≢ marklin_receiving_sensor
