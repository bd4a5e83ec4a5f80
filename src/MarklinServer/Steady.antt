-- ===== src/MarklinServer/Steady.antt =====
-- Each message keeps what is always so of the Marklin server.
use cs452_kernel.Base.{
  ℕ, ◌+◌, ◌-◌, ◌%◌, ◌^◌, ◌≡◌, ◌≢◌, refl, ap, sym, ◌∙◌, Bool, true, false, List, [], ◌∷◌, ◌++◌, ◌==◌,
  if◌then◌else◌, Bool-cases, inl, inr,
}
use cs452_kernel.Base.Lists.{length}
use cs452_kernel.Text.Strings.{text}
use cs452_kernel.Deque.Bounded.{add, is_nil}
use cs452_kernel.ConsoleServer.Laws.{adds}
use cs452_kernel.Uart.{
  MsgUartserver, UartMsgType, uart_puts, uart_getc, uart_notify_read, uart_notify_cts, uart_error,
  uart_success, uart_block_for_empty_sending, uart_max,
}
use cs452_kernel.MarklinServer.{
  MarklinState, marklin_ready, marklin_cmd_sent, marklin_server_busy, marklin_receiving_sensor,
  is_ready,
}
use cs452_kernel.MarklinServer.Spec.{Box, Steady, send, read, get, wait, step, advanced}

not_cons : {x : ℕ} {xs : List ℕ} → x ∷ xs ≡ [] → ⊥
not_cons h = cc

not_true : false ≡ true → ⊥
not_true h = cc

woken_rest : (cs empties : List ℕ) → cs ≡ [] → (if is_nil cs then [] else empties) ≡ []
woken_rest [] empties e = refl
woken_rest (c ∷ cs) empties e = absurd (not_cons e)

not_receiving : marklin_cmd_sent ≢ marklin_receiving_sensor
not_receiving e = absurd (not_true (ap receiving (sym e) ∙ refl))
  where
    receiving : MarklinState → Bool
    receiving marklin_receiving_sensor = false
    receiving _ = true

module _ (junk : MsgUartserver) where
  send-Steady :
      (pend empties chars readers : List ℕ) (state : MarklinState) (outstanding : ℕ)
      → (pend ≡ [] → empties ≡ [])
      → state ≢ marklin_receiving_sensor
      → Steady
          (send junk (record {
            pend = pend;
            empties = empties;
            chars = chars;
            readers = readers;
            state = state;
            outstanding = outstanding;
          })).0
  unfolding send
  send-Steady [] empties chars readers state outstanding woken known = record {
    prompt = λ _. refl;
    woken = woken;
    known = known;
  }
  send-Steady (c ∷ cs) empties chars readers state outstanding woken known =
      elim (Bool-cases (is_ready state)) [
        | inl ready ↦ rw ready record {
          prompt = λ e. absurd (not_true e);
          woken = woken_rest cs empties;
          known = not_receiving;
        }
        | inr busy ↦ rw busy record {
          prompt = λ e. absurd (not_true (sym busy ∙ e));
          woken = λ e. absurd (not_cons e);
          known = known;
        }
      ]

add-nil : (room : ℕ) (xs : List ℕ) (x : ℕ) → add room xs x ≡ [] → xs ≡ []
add-nil room [] x e = refl
add-nil room (y ∷ xs) x e = elim (Bool-cases (length (y ∷ xs) == room)) [
  | inl full ↦ sym (rw full) ∙ e
  | inr space ↦ absurd (not_cons (sym (ap (λ t. if t then y ∷ xs else y ∷ xs ++ x ∷ []) space) ∙ e))
]

adds-nil : (room : ℕ) (ys xs : List ℕ) → adds room xs ys ≡ [] → xs ≡ []
adds-nil room [] xs e = e
adds-nil room (y ∷ ys) xs e = add-nil room xs y (adds-nil room ys (add room xs y) e)

abbrev ready_or_busy : MarklinState → Bool
ready_or_busy marklin_receiving_sensor = false
ready_or_busy _ = true

knows : (state : MarklinState) → ready_or_busy state ≡ true → state ≢ marklin_receiving_sensor
knows state h e = not_true (sym (ap ready_or_busy e) ∙ h)

advanced_known :
    (state : MarklinState) (cts : ℕ)
    → state ≢ marklin_receiving_sensor
    → advanced state cts ≢ marklin_receiving_sensor
unfolding advanced
advanced_known marklin_ready cts known = knows marklin_ready refl
advanced_known marklin_cmd_sent cts known = elim (Bool-cases (cts == 0)) [
  | inl low ↦ rw low (knows marklin_server_busy refl)
  | inr high ↦ rw high (knows marklin_cmd_sent refl)
]
advanced_known marklin_server_busy cts known = elim (Bool-cases (cts == 1)) [
  | inl high ↦ rw high (knows marklin_ready refl)
  | inr low ↦ rw low (knows marklin_server_busy refl)
]
advanced_known marklin_receiving_sensor cts known = absurd (known refl)

module _ (junk : MsgUartserver) where
  -- The fields that the read and the send_reply leave.
  abbrev box : List ℕ → List ℕ → List ℕ → List ℕ → MarklinState → ℕ → Box
  box pend empties chars readers state outstanding = record {
    pend = pend;
    empties = empties;
    chars = chars;
    readers = readers;
    state = state;
    outstanding = outstanding;
  }

  read-Steady :
      (readers pend empties chars : List ℕ) (state : MarklinState) (outstanding sender c : ℕ)
      → Steady (box pend empties chars readers state outstanding)
      → Steady (read junk (box pend empties chars readers state outstanding) sender c).0
  unfolding read
  read-Steady [] pend empties chars state outstanding sender c h =
      elim (Bool-cases ((outstanding + (2 ^ 32 - 1)) % 2 ^ 32 == 0)) [
        | inl last ↦
            rw last (send-Steady junk pend empties (add 256 chars c) [] state _ h.woken h.known)
        | inr more ↦ rw more record { prompt = h.prompt; woken = h.woken; known = h.known }
      ]
  read-Steady (t ∷ ts) pend empties chars state outstanding sender c h =
      elim (Bool-cases ((outstanding + (2 ^ 32 - 1)) % 2 ^ 32 == 0)) [
        | inl last ↦ rw last (send-Steady junk pend empties chars ts state _ h.woken h.known)
        | inr more ↦ rw more record { prompt = h.prompt; woken = h.woken; known = h.known }
      ]

  get-Steady :
      (chars pend empties readers : List ℕ) (state : MarklinState) (outstanding tid : ℕ)
      → Steady (box pend empties chars readers state outstanding)
      → Steady (get junk (box pend empties chars readers state outstanding) tid).0
  unfolding get
  get-Steady [] pend empties readers state outstanding tid h = record {
    prompt = h.prompt;
    woken = h.woken;
    known = h.known;
  }
  get-Steady (c ∷ cs) pend empties readers state outstanding tid h = record {
    prompt = h.prompt;
    woken = h.woken;
    known = h.known;
  }

  wait-Steady :
      (pend empties chars readers : List ℕ) (state : MarklinState) (outstanding sender : ℕ)
      → Steady (box pend empties chars readers state outstanding)
      → Steady (wait junk (box pend empties chars readers state outstanding) sender).0
  unfolding wait
  wait-Steady [] empties chars readers state outstanding sender h = h
  wait-Steady (c ∷ cs) empties chars readers state outstanding sender h = record {
    prompt = h.prompt;
    woken = λ e. absurd (not_cons e);
    known = h.known;
  }

  typed-Steady :
      (type : UartMsgType) (b : Box) (sender : ℕ) (msg : MsgUartserver)
      → Steady b
      → Steady (step junk b sender (record msg { type = type })).0
  unfolding step
  typed-Steady uart_getc b sender msg h =
      get-Steady b.chars b.pend b.empties b.readers b.state b.outstanding msg.requester_tid h
  typed-Steady uart_puts b sender msg h =
      send-Steady junk (adds 256 b.pend (text 256 msg.buffer)) b.empties b.chars b.readers b.state
        b.outstanding (λ e. h.woken (adds-nil 256 (text 256 msg.buffer) b.pend e)) h.known
  typed-Steady uart_notify_cts b sender msg h =
      send-Steady junk b.pend b.empties b.chars b.readers (advanced b.state (msg.buffer 0))
        b.outstanding h.woken (advanced_known b.state (msg.buffer 0) h.known)
  typed-Steady uart_notify_read b sender msg h =
      read-Steady b.readers b.pend b.empties b.chars b.state b.outstanding sender (msg.buffer 0) h
  typed-Steady uart_block_for_empty_sending b sender msg h =
      wait-Steady b.pend b.empties b.chars b.readers b.state b.outstanding sender h
  typed-Steady uart_error b sender msg h = h
  typed-Steady uart_success b sender msg h = h
  typed-Steady uart_max b sender msg h = h

  pub step-Steady :
      (b : Box) (sender : ℕ) (msg : MsgUartserver) → Steady b → Steady (step junk b sender msg).0
  step-Steady b sender msg h = typed-Steady msg.type b sender msg h
