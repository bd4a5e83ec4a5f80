-- ===== src/Kernel/Message/Laws.antt =====
-- What the message calls do: the two orders of Send and Receive, and Reply.
use cs452_kernel.Base.{
  ◌+◌, ℕ, zero, suc, ◌%◌, ◌^◌, ◌<◌, ◌≡◌, ◌≢◌, refl, ap₂, Option, none, some, arith, false, Outcome,
  ok, fault, hang,
}
use cs452_kernel.Kernel.TaskQueue.Holds.{Holds}
use cs452_kernel.Kernel.Task.{
  Tasks, state_ready, state_send_wait, is_rcv_wait, set_ready_state, set_waiting_senders_next,
  n_priority,
}
use cs452_kernel.Kernel.TaskQueue.{TaskQueue, get_scan, get_from, task_queue_get}
use cs452_kernel.Kernel.State.{KernelData, reg}
use cs452_kernel.Kernel.Message.{shorter, last_sender, send_and_wait, sys_send}

-- The search for a task reads ids and links alone.
module _ (s s' : Tasks)
    (same : (t : ℕ) → ((s' t).tid ≡ (s t).tid) × ((s' t).next ≡ (s t).next)) where
  scan_same : (fuel tid : ℕ) (cur : Option ℕ) → get_scan fuel s' tid cur ≡ get_scan fuel s tid cur
  unfolding get_scan
  scan_same zero tid cur = refl
  scan_same (suc fuel) tid none = refl
  scan_same (suc fuel) tid (some c) = rw ((same c).0, (same c).1, scan_same fuel tid (s c).next)

  from_same :
      (fuel n : ℕ) (tq : TaskQueue) (tid : ℕ) → get_from fuel n s' tq tid ≡ get_from fuel n s tq tid
  unfolding get_from
  from_same fuel zero tq tid = refl
  from_same fuel (suc n) tq tid =
      ap₂
        (λ (here lower : Outcome (Option ℕ)). elim here as (λ _. Outcome (Option ℕ)) [
          | ok none ↦ lower
          | ok (some t) ↦ ok (some t)
          | fault e ↦ fault e
        ])
        (scan_same fuel tid (tq.front n)) (from_same fuel n tq tid)

  pub get_same :
      (fuel : ℕ) (tq : TaskQueue) (tid : ℕ)
      → task_queue_get fuel s' tq tid ≡ task_queue_get fuel s tq tid
  unfolding task_queue_get
  get_same fuel tq tid = from_same fuel n_priority tq tid

-- The task that a call names.
abbrev pub Names : ℕ → KernelData → ℕ → Option ℕ → Type 0
Names fuel k t target = task_queue_get fuel k.tasks k.tq (reg k t 1 % 2 ^ 16) ≡ ok target

walk_hangs :
    (fuel : ℕ) (s : Tasks) (rcv c : ℕ) (prev : Option ℕ) (cur : ℕ)
    → (s rcv).waiting_senders_next ≡ some c
    → last_sender fuel s rcv prev (some cur) ≡ fault hang
unfolding last_sender
walk_hangs zero s rcv c prev cur e = refl
walk_hangs (suc fuel) s rcv c prev cur e = rw e (walk_hangs fuel s rcv c (some cur) c e)

-- A Send to a task that is not in Receive and at which a sender waits already does not return,
-- whatever the fuel: the walk over the senders reads the link of the receiver again at each step.
pub second_sender-hangs :
    (fuel : ℕ) (k : KernelData) (t rcv c : ℕ)
    → Names fuel k t (some rcv)
    → is_rcv_wait (k.tasks rcv).ready_state ≡ false
    → (k.tasks rcv).waiting_senders_next ≡ some c
    → sys_send fuel k t ≡ fault hang
unfolding sys_send
second_sender-hangs fuel k t rcv c named busy waits =
    let s₁ = set_ready_state k.tasks t state_send_wait in
    let kept : (s₁ rcv).waiting_senders_next ≡ some c = ground (arith, waits) in
    rw (named, busy, send_and_wait, kept, walk_hangs fuel s₁ rcv c none c kept)

-- The shorter of two lengths does not depend on their order.
pub shorter_comm : (a b : ℕ) → a < 2 ^ 64 → b < 2 ^ 64 → shorter a b ≡ shorter b a
shorter_comm a b ha hb = ground arith

-- The only sender is put at the receiver's link.
pub first_sender_lem :
    (fuel : ℕ) (k : KernelData) (t rcv : ℕ)
    → Names (suc fuel) k t (some rcv)
    → is_rcv_wait (k.tasks rcv).ready_state ≡ false
    → (k.tasks rcv).waiting_senders_next ≡ none
    → sys_send (suc fuel) k t
      ≡ ok (record k {
        tasks = set_waiting_senders_next (set_ready_state k.tasks t state_send_wait) rcv (some t);
      })
unfolding sys_send last_sender
first_sender_lem fuel k t rcv named busy empty =
    let s₁ = set_ready_state k.tasks t state_send_wait in
    let kept : (s₁ rcv).waiting_senders_next ≡ none = ground (arith, empty) in
    rw (named, busy, send_and_wait, kept)

-- The number of bytes of a reply: the shorter of the reply and the room for it.
abbrev pub reply_len : KernelData → ℕ → ℕ → ℕ
reply_len k t snd = shorter (reg k snd 5) (reg k t 3)

-- Task `t` has replied to `snd`: that is ready, both have the number of bytes in x0, and the bytes are
-- in its buffer, if neither buffer is NULL and they do not overlap. No other byte, no other register
-- and no other task has changed.
pub record IsReplied (k k' : KernelData) (t snd : ℕ) : Type 0 where
  pub ready : (k'.tasks snd).ready_state ≡ state_ready
  pub sender_value : reg k' snd 0 ≡ reply_len k t snd
  pub caller_value : reg k' t 0 ≡ reply_len k t snd
  pub bytes :
      (i : ℕ)
      → i < reply_len k t snd
      → reg k snd 4 ≢ 0
      → reg k t 2 ≢ 0
      → ((a b : ℕ)
          → a < reply_len k t snd
          → b < reply_len k t snd
          → reg k snd 4 + a ≢ reg k t 2 + b)
      → k'.mem (reg k snd 4 + i) ≡ k.mem (reg k t 2 + i)
  pub elsewhere :
      (a : ℕ) → ((i : ℕ) → i < reply_len k t snd → a ≢ reg k snd 4 + i) → k'.mem a ≡ k.mem a
  pub registers : (u i : ℕ) → 0 ≢ i → reg k' u i ≡ reg k u i
  pub others : (u : ℕ) → t ≢ u → snd ≢ u → k'.tasks u ≡ k.tasks u
