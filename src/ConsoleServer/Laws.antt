-- ===== src/ConsoleServer/Laws.antt =====
-- The console server against two lists: the tasks that wait, and the characters that no task has.
use cs452_kernel.Base.{
  ℕ, zero, suc, ◌+◌, ◌%◌, ◌<◌, ◌≤◌, ◌≡◌, refl, ◌⊎◌, inl, inr, true, false, not, ◌&&◌, List, [], ◌∷◌,
  ltb, ok, ℤ, arith,
}
use cs452_kernel.Base.Lists.{length}
use cs452_kernel.Deque.{Deque, deque_empty, deque_push_back, deque_pop_front}
use cs452_kernel.Deque.Bounded.{Queued, add, push_lem, pop_lem, empty_lem, start_lem, room_lem}
use cs452_kernel.Uart.{
  MsgUartserver, UartMsgType, uart_puts, uart_getc, uart_notify_read, uart_notify_cts, uart_error,
  uart_success, uart_block_for_empty_sending, uart_max, Effect, put_string, send_error_msg,
  send_success_msg, reply_character,
}
use cs452_kernel.ConsoleServer.{
  ConsoleServer, console_server_init, push_bytes, char_count, answer_waiting, console_server_handle,
}

-- The first `n` characters of a message from `i` on.
abbrev pub bytes : ℕ → ℕ → (ℕ → ℕ) → List ℕ
bytes zero i buffer = []
bytes (suc n) i buffer = buffer i ∷ bytes n (i + 1) buffer

abbrev pub adds : ℕ → List ℕ → List ℕ → List ℕ
adds room xs [] = xs
adds room xs (y ∷ ys) = adds room (add room xs y) ys

-- What is left of one list when its items are paired with those of another.
abbrev pub left_over : List ℕ → List ℕ → List ℕ
left_over [] ys = []
left_over (x ∷ xs) [] = x ∷ xs
left_over (x ∷ xs) (y ∷ ys) = left_over xs ys

abbrev pub Shows : ConsoleServer → List ℕ → List ℕ → Type 0
Shows s tids chars = Queued s.waiting_readers 8 tids × Queued s.fifo_read 16 chars

pushed :
    (n i : ℕ) (buffer : ℕ → ℕ) (q : Deque) (xs : List ℕ)
    → i + n ≤ 256
    → Queued q 16 xs
    → (q' : Deque) × (push_bytes n i buffer q ≡ ok q')
      × Queued q' 16 (adds 16 xs (bytes n i buffer))
unfolding push_bytes
pushed zero i buffer q xs le h = (q, refl, h)
pushed (suc n) i buffer q xs le h =
    let inside : ltb i 256 ≡ true = ground arith in
    let (q', run, h') =
      pushed n (i + 1) buffer (deque_push_back q (buffer i)) (add 16 xs (buffer i))
        (omega (arith, le)) (push_lem (buffer i) h) in
    (q', rw (inside, run), h')

module _ (junk : MsgUartserver) where
  -- The replies to waiting tasks, a character for each.
  abbrev pub pairs : List ℕ → List ℕ → List Effect
  pairs [] cs = []
  pairs (t ∷ ts) [] = []
  pairs (t ∷ ts) (c ∷ cs) = reply_character junk t (c % 256) ∷ pairs ts cs

  abbrev Delivers : ℕ → ConsoleServer → List ℕ → List ℕ → Type 0
  Delivers fuel s tids chars =
      (s' : ConsoleServer) × (answer_waiting junk fuel s ≡ ok (s', pairs tids chars))
      × Shows s' (left_over tids chars) (left_over chars tids)

  answer_waiting_stop :
      (fuel : ℕ) (s : ConsoleServer)
      → (not (deque_empty s.waiting_readers) && not (deque_empty s.fifo_read)) ≡ false
      → answer_waiting junk (suc fuel) s ≡ ok (s, [])
  unfolding answer_waiting
  answer_waiting_stop fuel s e = rw e

  answer_waiting_go :
      (fuel t c : ℕ) (s s' : ConsoleServer) (effects : List Effect)
      → (not (deque_empty s.waiting_readers) && not (deque_empty s.fifo_read)) ≡ true
      → (deque_pop_front s.waiting_readers).0 ≡ t
      → (deque_pop_front s.fifo_read).0 ≡ c
      → answer_waiting junk fuel (record {
        fifo_read = (deque_pop_front s.fifo_read).1;
        waiting_readers = (deque_pop_front s.waiting_readers).1;
      })
        ≡ ok (s', effects)
      → answer_waiting junk (suc fuel) s ≡ ok (s', reply_character junk t (c % 256) ∷ effects)
  unfolding answer_waiting
  answer_waiting_go fuel t c s s' effects e at_t at_c run = rw (e, run, at_t, at_c)

  answer_waiting_lem :
      (tids chars : List ℕ) (fuel : ℕ) (s : ConsoleServer)
      → length tids < fuel
      → Shows s tids chars
      → Delivers fuel s tids chars
  answer_waiting_lem tids chars zero s lt h = absurd (omega (arith, lt))
  answer_waiting_lem [] [] (suc fuel) s lt (w, f) =
      let none_waits = empty_lem [] w in (s, answer_waiting_stop fuel s (rw none_waits), (w, f))
  answer_waiting_lem [] (c ∷ chars) (suc fuel) s lt (w, f) =
      let none_waits = empty_lem [] w in (s, answer_waiting_stop fuel s (rw none_waits), (w, f))
  answer_waiting_lem (t ∷ tids) [] (suc fuel) s lt (w, f) =
      let waits = empty_lem (t ∷ tids) w in
      let no_char = empty_lem [] f in (s, answer_waiting_stop fuel s (rw (waits, no_char)), (w, f))
  answer_waiting_lem (t ∷ tids) (c ∷ chars) (suc fuel) s lt (w, f) =
      let waits = empty_lem (t ∷ tids) w in
      let has_char = empty_lem (c ∷ chars) f in
      let (at_t, w') = pop_lem w in
      let (at_c, f') = pop_lem f in
      let (s', run, after) = answer_waiting_lem tids chars fuel _ (omega (arith, lt)) (w', f') in
      (
        s',
        answer_waiting_go fuel t c s s' (pairs tids chars) (rw (waits, has_char)) at_t at_c run,
        after,
      )

  -- A message on the two lists: the tasks and the characters that are left, and what is done.
  unfoldable pub spec : List ℕ → List ℕ → ℕ → MsgUartserver → List ℕ × List ℕ × List Effect
  spec tids chars sender msg =
      let all = adds 16 chars (bytes (char_count msg.length) 0 msg.buffer) in
      elim (msg.type) as (λ _. List ℕ × List ℕ × List Effect) [
        | uart_getc ↦ elim chars as (λ _. List ℕ × List ℕ × List Effect) [
          | [] ↦ (add 8 tids msg.requester_tid, [], [])
          | c ∷ cs ↦ (tids, cs, reply_character junk msg.requester_tid (c % 256) ∷ [])
        ]
        | uart_puts ↦ (tids, chars, send_success_msg junk sender ∷ put_string msg.buffer ∷ [])
        | uart_notify_read ↦
            (left_over tids all, left_over all tids, send_success_msg junk sender ∷ pairs tids all)
        | _ ↦ (tids, chars, send_error_msg junk sender ∷ [])
      ]

  abbrev pub Handles : ℕ → ConsoleServer → List ℕ → List ℕ → ℕ → MsgUartserver → Type 0
  Handles fuel s tids chars sender msg =
      (s' : ConsoleServer) × (console_server_handle junk fuel s sender msg
        ≡ ok (s', (spec tids chars sender msg).2))
      × Shows s' (spec tids chars sender msg).0 (spec tids chars sender msg).1

  module _ (fuel : ℕ) (s : ConsoleServer) (sender tid : ℕ) (buffer : ℕ → ℕ) (len : ℤ) where
    abbrev message : UartMsgType → MsgUartserver
    message type = record { type = type; requester_tid = tid; buffer = buffer; length = len }

    getc_lem :
        (tids chars : List ℕ)
        → Shows s tids chars
        → Handles fuel s tids chars sender (message uart_getc)
    unfolding console_server_handle spec
    getc_lem tids [] (w, f) =
        let no_char = empty_lem [] f in
        (
          record s { waiting_readers = deque_push_back s.waiting_readers tid },
          rw no_char,
          (push_lem tid w, f),
        )
    getc_lem tids (c ∷ chars) (w, f) =
        let has_char = empty_lem (c ∷ chars) f in
        let (at_c, f') = pop_lem f in
        (record s { fifo_read = (deque_pop_front s.fifo_read).1 }, rw (has_char, at_c), (w, f'))

    read_lem :
        (tids chars : List ℕ)
        → char_count len ≤ 256
        → length tids < fuel
        → Shows s tids chars
        → Handles fuel s tids chars sender (message uart_notify_read)
    unfolding console_server_handle spec
    read_lem tids chars few lt (w, f) =
        let (q, pushes, f') =
          pushed (char_count len) 0 buffer s.fifo_read chars (omega (arith, few)) f in
        let (s', run, after) =
          answer_waiting_lem tids (adds 16 chars (bytes (char_count len) 0 buffer)) fuel
            (record s { fifo_read = q }) lt (w, f') in
        (s', rw (pushes, run), after)

-- No task waits while there is a character.
abbrev pub Idle : List ℕ → List ℕ → Type 0
Idle tids chars = (tids ≡ []) ⊎ (chars ≡ [])

left_over-Idle : (xs ys : List ℕ) → Idle (left_over xs ys) (left_over ys xs)
left_over-Idle [] ys = inl refl
left_over-Idle (x ∷ xs) [] = inr refl
left_over-Idle (x ∷ xs) (y ∷ ys) = left_over-Idle xs ys

-- The server starts with two empty lists.
pub init-Shows : (q r : Deque) → Shows (console_server_init q r) [] []
unfolding console_server_init
init-Shows q r = (start_lem r 3 (omega arith), start_lem q 4 (omega arith))

module _ (junk : MsgUartserver) (fuel : ℕ) (enough : 8 < fuel) where
  getc-Idle :
      (sender tid : ℕ) (buffer : ℕ → ℕ) (len : ℤ) (tids chars : List ℕ)
      → Idle tids chars
      → let (tids', chars', _) =
          spec junk tids chars sender
            (record { type = uart_getc; requester_tid = tid; buffer = buffer; length = len }) in
        Idle tids' chars'
  unfolding spec
  getc-Idle sender tid buffer len tids [] idle = inr refl
  getc-Idle sender tid buffer len tids (c ∷ chars) (inl none_waits) = inl none_waits
  getc-Idle sender tid buffer len tids (c ∷ chars) (inr no_char) =
      absurd (let wrong : ⊥ = cc in wrong)

  typed_lem :
      (type : UartMsgType) (s : ConsoleServer) (tids chars : List ℕ) (sender tid : ℕ)
      (buffer : ℕ → ℕ) (len : ℤ)
      → char_count len ≤ 256
      → Shows s tids chars
      → Idle tids chars
      → let msg : MsgUartserver = record {
        type = type;
        requester_tid = tid;
        buffer = buffer;
        length = len;
      } in
        let (tids', chars', _) = spec junk tids chars sender msg in
        Handles junk fuel s tids chars sender msg × Idle tids' chars'
  unfolding console_server_handle spec
  typed_lem uart_getc s tids chars sender tid buffer len few shows idle = (
    getc_lem junk fuel s sender tid buffer len tids chars shows,
    getc-Idle sender tid buffer len tids chars idle,
  )
  typed_lem uart_notify_read s tids chars sender tid buffer len few (w, f) idle =
      let most = room_lem w in
      (
        read_lem junk fuel s sender tid buffer len tids chars few (omega (arith, most, enough))
            (w, f),
        left_over-Idle tids (adds 16 chars (bytes (char_count len) 0 buffer)),
      )
  typed_lem uart_puts s tids chars sender tid buffer len few shows idle = ((s, refl, shows), idle)
  typed_lem uart_notify_cts s tids chars sender tid buffer len few shows idle =
      ((s, refl, shows), idle)
  typed_lem uart_error s tids chars sender tid buffer len few shows idle = ((s, refl, shows), idle)
  typed_lem uart_success s tids chars sender tid buffer len few shows idle =
      ((s, refl, shows), idle)
  typed_lem uart_block_for_empty_sending s tids chars sender tid buffer len few shows idle =
      ((s, refl, shows), idle)
  typed_lem uart_max s tids chars sender tid buffer len few shows idle = ((s, refl, shows), idle)

  -- The console server does with its two deques what `spec` does with a list of 8 tasks and one of 16
  -- characters: a character goes to the task that has waited longest, or is kept for the next one to
  -- ask; what does not fit is dropped. After each message no task waits while there is a character, if
  -- that was so before, and the loop that answers them ends.
  pub console_lem :
      (s : ConsoleServer) (tids chars : List ℕ) (sender : ℕ) (msg : MsgUartserver)
      → char_count msg.length ≤ 256
      → Shows s tids chars
      → Idle tids chars
      → let (tids', chars', _) = spec junk tids chars sender msg in
        Handles junk fuel s tids chars sender msg × Idle tids' chars'
  console_lem s tids chars sender msg few shows idle =
      typed_lem msg.type s tids chars sender msg.requester_tid msg.buffer msg.length few shows idle
