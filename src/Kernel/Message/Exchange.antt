-- ===== src/Kernel/Message/Exchange.antt =====
-- The two orders of Send and Receive, and what the receiver then has.
use cs452_kernel.Base.{
  ℕ, ◌+◌, suc, ◌%◌, ◌^◌, ◌<◌, ◌≡◌, ◌≢◌, ap, ap₂, ◌∙◌, fun_ext, Option, none, some, arith, true,
  false, update_self, ok, ◌>>=◌,
}
use cs452_kernel.Memory.{Mem, memcpy, write_bytes, write_outside, memcpy_inside}
use cs452_kernel.Kernel.Task.{
  Task, Tasks, state_ready, state_send_wait, state_rply_wait, state_rcv_wait, is_rcv_wait,
  set_ready_state, set_waiting_senders_next, set_x,
}
use cs452_kernel.Kernel.TaskQueue.{task_queue_get}
use cs452_kernel.Kernel.State.{KernelData, reg}
use cs452_kernel.Kernel.Message.{shorter, send_to_waiting, sys_send, receive_from, sys_receive}
use cs452_kernel.Kernel.Message.Laws.{Names, get_same, shorter_comm, first_sender_lem}

-- The memory after the message of one descriptor is handed to another.
abbrev pub handed : Mem → Task → Task → ℕ → Mem
handed m from to len = write_bytes (memcpy m (to.x 2) (from.x 2) len) (to.x 1) from.tid 4

handed_same :
    (m : Mem) (from to from' to' : Task) (len len' : ℕ)
    → from'.x ≡ from.x
    → to'.x ≡ to.x
    → from'.tid ≡ from.tid
    → len' ≡ len
    → handed m from' to' len' ≡ handed m from to len
handed_same m from to from' to' len len' a b c d = rw (a, b, c, d)

handed_lem :
    (m : Mem) (from to : Task) (len i : ℕ)
    → i < len
    → to.x 2 ≢ 0
    → from.x 2 ≢ 0
    → ((a b : ℕ) → a < len → b < len → to.x 2 + a ≢ from.x 2 + b)
    → ((a b : ℕ) → a < len → b < 4 → to.x 2 + a ≢ to.x 1 + b)
    → handed m from to len (to.x 2 + i) ≡ m (from.x 2 + i)
handed_lem m from to len i lt to_there from_there apart away =
    write_outside 4 (memcpy m (to.x 2) (from.x 2) len) (to.x 1) from.tid (to.x 2 + i)
      (λ k lt4. away i k lt lt4)
    ∙ memcpy_inside m (to.x 2) (from.x 2) len i lt to_there from_there apart

module _ (fuel : ℕ) (k : KernelData) (snd rcv : ℕ) (apart : snd ≢ rcv)
    (named : Names (suc fuel) k snd (some rcv)) (ready : (k.tasks rcv).ready_state ≡ state_ready)
    (no_sender : (k.tasks rcv).waiting_senders_next ≡ none)
    (unlinked : (k.tasks snd).waiting_senders_next ≡ none) (room : (k.tasks snd).x 3 < 2 ^ 64)
    (size : (k.tasks rcv).x 3 < 2 ^ 64) where
  busy : is_rcv_wait (k.tasks rcv).ready_state ≡ false
  busy = ap is_rcv_wait ready

  abbrev waiting : Tasks
  waiting = set_ready_state k.tasks rcv state_rcv_wait

  abbrev pub message_len : ℕ
  message_len = shorter ((k.tasks snd).x 3) ((k.tasks rcv).x 3)

  -- Both tasks after the exchange.
  abbrev pub exchanged : Tasks
  exchanged = set_x (set_ready_state k.tasks snd state_rply_wait) rcv 0 message_len

  -- The memory after it.
  abbrev pub delivered : Mem
  delivered =
      write_bytes (memcpy k.mem ((k.tasks rcv).x 2) ((k.tasks snd).x 2) message_len)
        ((k.tasks rcv).x 1) (k.tasks snd).tid 4

  abbrev Exchanged : KernelData → Type 0
  Exchanged k' = k' ≡ record k { mem = delivered; tasks = exchanged }

  receive_first : sys_receive k rcv ≡ record k { tasks = waiting }
  unfolding sys_receive
  receive_first = ap (λ w. receive_by w) no_sender
    where
      receive_by : Option ℕ → KernelData
      receive_by w = elim w [
        | none ↦ record k { tasks = set_ready_state k.tasks rcv state_rcv_wait }
        | some s ↦ receive_from k rcv s
      ]

  still_named : Names (suc fuel) (record k { tasks = waiting }) snd (some rcv)
  still_named =
      let same_regs : reg (record k { tasks = waiting }) snd 1 ≡ reg k snd 1 = ground arith in
      ap (λ n. task_queue_get (suc fuel) waiting k.tq (n % 2 ^ 16)) same_regs
      ∙ get_same k.tasks waiting (λ t. ground arith) (suc fuel) k.tq (reg k snd 1 % 2 ^ 16)
      ∙ named

  send_second :
      sys_send (suc fuel) (record k { tasks = waiting }) snd
      ≡ ok (send_to_waiting (record k { tasks = waiting }) snd rcv)
  unfolding sys_send
  send_second =
      let waits : is_rcv_wait (waiting rcv).ready_state ≡ true =
        ap (λ (d : Task). is_rcv_wait d.ready_state) (update_self k.tasks rcv _) in
      rw (still_named, waits)

  tasks_first : (send_to_waiting (record k { tasks = waiting }) snd rcv).tasks ≡ exchanged
  unfolding send_to_waiting
  tasks_first = fun_ext λ u. ground (arith, ready)

  mem_first : (send_to_waiting (record k { tasks = waiting }) snd rcv).mem ≡ delivered
  unfolding send_to_waiting
  mem_first =
      let s₁ = set_ready_state waiting snd state_rply_wait in
      let from_x : (s₁ snd).x ≡ (k.tasks snd).x = ground arith in
      let to_x : (s₁ rcv).x ≡ (k.tasks rcv).x = ground arith in
      let from_tid : (s₁ snd).tid ≡ (k.tasks snd).tid = ground arith in
      handed_same k.mem (k.tasks snd) (k.tasks rcv) (s₁ snd) (s₁ rcv) message_len
        (shorter ((s₁ snd).x 3) ((s₁ rcv).x 3)) from_x to_x from_tid
        (ap₂ (λ (a b : ℕ → ℕ). shorter (a 3) (b 3)) from_x to_x)

  sent_first :
      sys_send (suc fuel) k snd
      ≡ ok (record k {
        tasks =
            set_waiting_senders_next (set_ready_state k.tasks snd state_send_wait) rcv (some snd);
      })
  sent_first = first_sender_lem fuel k snd rcv named busy no_sender

  abbrev queued : KernelData
  queued = record k {
    tasks = set_waiting_senders_next (set_ready_state k.tasks snd state_send_wait) rcv (some snd);
  }

  received_second : sys_receive queued rcv ≡ receive_from queued rcv snd
  unfolding sys_receive
  received_second =
      let linked : (queued.tasks rcv).waiting_senders_next ≡ some snd = ground arith in
      rw (linked, sys_receive)

  -- The descriptors when the receiver has taken the sender off its list.
  abbrev taken : Tasks
  taken =
      let s₁ = set_waiting_senders_next queued.tasks rcv (queued.tasks snd).waiting_senders_next in
      set_ready_state (set_waiting_senders_next s₁ snd none) snd state_rply_wait

  taken_x : (t : ℕ) → (taken t).x ≡ (k.tasks t).x
  taken_x t = ground arith

  taken_tid : (taken snd).tid ≡ (k.tasks snd).tid
  taken_tid = ground arith

  taken_len : shorter ((taken rcv).x 3) ((taken snd).x 3) ≡ message_len
  taken_len =
      ap₂ (λ (a b : ℕ → ℕ). shorter (a 3) (b 3)) (taken_x rcv) (taken_x snd)
      ∙ shorter_comm ((k.tasks rcv).x 3) ((k.tasks snd).x 3) size room

  taken_lem : taken ≡ set_ready_state k.tasks snd state_rply_wait
  taken_lem = fun_ext λ u. ground (arith, no_sender, unlinked)

  tasks_second : (receive_from queued rcv snd).tasks ≡ exchanged
  unfolding receive_from
  tasks_second = ap₂ (λ (s : Tasks) (n : ℕ). set_x s rcv 0 n) taken_lem taken_len

  mem_second : (receive_from queued rcv snd).mem ≡ delivered
  unfolding receive_from
  mem_second =
      handed_same k.mem (k.tasks snd) (k.tasks rcv) (taken snd) (taken rcv) message_len
        (shorter ((taken rcv).x 3) ((taken snd).x 3)) (taken_x snd) (taken_x rcv) taken_tid
        taken_len

  result_first :
      send_to_waiting (record k { tasks = waiting }) snd rcv
      ≡ record k { mem = delivered; tasks = exchanged }
  unfolding send_to_waiting
  result_first = ap₂ (λ m s. record k { mem = m; tasks = s }) mem_first tasks_first

  result_second : receive_from queued rcv snd ≡ record k { mem = delivered; tasks = exchanged }
  unfolding receive_from
  result_second = ap₂ (λ m s. record k { mem = m; tasks = s }) mem_second tasks_second

  -- A message is handed over in the same way whether the receiver or the sender calls first: the
  -- memory has the message and the sender's id, the receiver is ready with the length in x0, the sender
  -- waits for the reply, and nothing else has changed. The receiver is another task, ready and found
  -- by the id in the sender's x1, no sender waits at it, and none waits at the sender; both lengths are
  -- 64-bit patterns.
  pub exchange_lem :
      (sys_send (suc fuel) (sys_receive k rcv) snd
        ≡ ok (record k { mem = delivered; tasks = exchanged }))
      × ((sys_send (suc fuel) k snd >>= λ k'. ok (sys_receive k' rcv))
          ≡ ok (record k { mem = delivered; tasks = exchanged }))
  exchange_lem = (
    ap (λ k'. sys_send (suc fuel) k' snd) receive_first ∙ send_second ∙ ap ok result_first,
    ap (λ r. r >>= λ k'. ok (sys_receive k' rcv)) sent_first
        ∙ ap ok (received_second ∙ result_second),
  )

  -- After the exchange the receiver's buffer has the sender's bytes, as many as the shorter of the two
  -- lengths, if neither buffer is NULL, the buffers do not overlap, and the place for the sender's id
  -- lies outside the receiver's buffer. The exchange has the conditions of the one above.
  pub delivered_lem :
      (i : ℕ)
      → i < message_len
      → reg k rcv 2 ≢ 0
      → reg k snd 2 ≢ 0
      → ((a b : ℕ) → a < message_len → b < message_len → reg k rcv 2 + a ≢ reg k snd 2 + b)
      → ((a b : ℕ) → a < message_len → b < 4 → reg k rcv 2 + a ≢ reg k rcv 1 + b)
      → (k' : KernelData) × ((sys_send (suc fuel) k snd >>= λ q. ok (sys_receive q rcv)) ≡ ok k')
        × (k'.mem (reg k rcv 2 + i) ≡ k.mem (reg k snd 2 + i))
        × (reg k' rcv 0 ≡ message_len)
  delivered_lem i lt to_there from_there apart_bytes away = (
    record k { mem = delivered; tasks = exchanged },
    exchange_lem.1,
    handed_lem k.mem (k.tasks snd) (k.tasks rcv) message_len i lt to_there from_there apart_bytes
        away,
    ground arith,
  )
