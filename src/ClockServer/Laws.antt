-- ===== src/ClockServer/Laws.antt =====
-- The clock server wakes exactly the tasks that are due, in the order of their ticks.
use cs452_kernel.Base.{
  ℕ, zero, suc, ◌<◌, ◌≤◌, ◌≡◌, ◌≢◌, refl, ap, sym, ◌∙◌, subst, true, false, ltb, ◌==◌,
  if◌then◌else◌, none, some, List, [], ◌∷◌, ◌++◌, Bool-cases, inl, inr, Outcome, ok, ◌>>=◌, arith,
}
use cs452_kernel.Base.Lists.{length, All, All-mono, All-mono₂}
use cs452_kernel.Kernel.Links.{NotIn}
use cs452_kernel.ClockQueue.{ClockQueue, ClockQueueEntry, clock_queue_ready, clock_queue_get}
use cs452_kernel.ClockQueue.Order.{tick_of}
use cs452_kernel.ClockQueue.Holds.{Holds, waiting}
use cs452_kernel.ClockQueue.Get.{popped, pop_lem, ready_lem, get_lem}
use cs452_kernel.ClockServer.{
  ClockReply, clock_reply, clockserver_awake, clockserver_notify, clockserver_ok, MsgClockserver,
  dequeue_all_ready, clockserver_handle,
}

-- The tasks at the front with a tick before `now`, and the others.
abbrev pub due : ℕ → List (ℕ × ℕ) → List (ℕ × ℕ)
due now [] = []
due now (w ∷ ws) = let more = due now ws in if ltb w.1 now then w ∷ more else []

abbrev pub not_due : ℕ → List (ℕ × ℕ) → List (ℕ × ℕ)
not_due now [] = []
not_due now (w ∷ ws) = let more = not_due now ws in if ltb w.1 now then more else w ∷ ws

-- The replies that wake them.
abbrev pub wake : ℕ → List (ℕ × ℕ) → List ClockReply
wake now [] = []
wake now (w ∷ ws) = clock_reply clockserver_awake w.0 now ∷ wake now ws

stop_lem :
    (fuel : ℕ) (cq : ClockQueue) (now : ℕ)
    → clock_queue_ready cq now ≡ false
    → dequeue_all_ready (suc fuel) cq now ≡ ok (cq, [])
unfolding dequeue_all_ready
stop_lem fuel cq now e = rw e

go_lem :
    (fuel : ℕ) (cq cq' cq'' : ClockQueue) (now tid : ℕ) (replies : List ClockReply)
    → clock_queue_ready cq now ≡ true
    → clock_queue_get cq now ≡ (tid, cq')
    → (tid == 0) ≡ false
    → dequeue_all_ready fuel cq' now ≡ ok (cq'', replies)
    → dequeue_all_ready (suc fuel) cq now
      ≡ ok (cq'', clock_reply clockserver_awake tid now ∷ replies)
unfolding dequeue_all_ready
go_lem fuel cq cq' cq'' now tid replies ready got id run = rw (ready, got, id, run)

-- The tasks that are left have not been due.
abbrev pub Woken : ℕ → ClockQueue → ℕ → List (ℕ × ℕ) → Type 0
Woken fuel cq now ws =
    (cq' : ClockQueue) × (es' : List ℕ) × (free' : List ℕ) × (dequeue_all_ready fuel cq now
      ≡ ok (cq', wake now (due now ws)))
    × Holds cq' es' free'
    × (waiting cq' es' ≡ not_due now ws)
    × All (λ e. now ≤ tick_of cq' e) es'

abbrev task : ClockQueue → ℕ → ℕ × ℕ
task cq e = ((cq.storage e).tid, (cq.storage e).clock_tick)

kept_ids :
    (cq : ClockQueue) (h : ℕ) (es : List ℕ)
    → NotIn h es
    → All (λ e. (cq.storage e).tid ≢ 0) es
    → All (λ e. ((popped cq h).storage e).tid ≢ 0) es
kept_ids cq h es =
    All-mono₂ (λ e. h ≢ e) (λ e. (cq.storage e).tid ≢ 0) (λ e. ((popped cq h).storage e).tid ≢ 0) es
      λ e ne id.
        let same : (popped cq h).storage e ≡ cq.storage e = ground arith in
        subst (λ (x : ClockQueueEntry). x.tid ≢ 0) (sym same) id

wake_step :
    (es : List ℕ) (fuel : ℕ) (cq : ClockQueue) (e now : ℕ)
    → clock_queue_ready cq now ≡ true
    → clock_queue_get cq now ≡ ((cq.storage e).tid, popped cq e)
    → ((cq.storage e).tid == 0) ≡ false
    → ltb (tick_of cq e) now ≡ true
    → waiting (popped cq e) es ≡ waiting cq es
    → Woken fuel (popped cq e) now (waiting (popped cq e) es)
    → Woken (suc fuel) cq now (waiting cq (e ∷ es))
wake_step es fuel cq e now ready got named before same
      (cq', es', free', run, holds, left, none_due) =
    (
      cq',
      es',
      free',
      go_lem fuel cq (popped cq e) cq' now (cq.storage e).tid
            (wake now (due now (waiting (popped cq e) es))) ready got named run
          ∙ ap (λ ws. ok (cq', wake now (task cq e ∷ due now ws))) same
          ∙ ap (λ b. ok (cq', wake now (if b then task cq e ∷ due now (waiting cq es) else [])))
              (sym before),
      holds,
      left
          ∙ ap (not_due now) same
          ∙ ap (λ b. if b then not_due now (waiting cq es) else task cq e ∷ waiting cq es)
              (sym before),
      none_due,
    )

-- The loop ends, with fuel for the queue. It wakes the tasks with a tick before `now`, in the order of
-- the queue, each once; the others stay in their order, and none of them has such a tick, since the queue
-- is sorted.
pub dequeue_lem :
    (es : List ℕ) (fuel : ℕ) (cq : ClockQueue) (free : List ℕ) (now : ℕ)
    → length es < fuel
    → Holds cq es free
    → All (λ e. (cq.storage e).tid ≢ 0) es
    → Woken fuel cq now (waiting cq es)
dequeue_lem es zero cq free now lt h ids = absurd (omega (arith, lt))
dequeue_lem [] (suc fuel) cq free now lt h ids =
    (cq, [], free, stop_lem fuel cq now (ready_lem cq none now h.queue), h, refl, tt)
dequeue_lem (e ∷ es) (suc fuel) cq free now lt h (id, ids) =
    let at = h.queue.0 in
    let ready = ready_lem cq (some e) now at in
    elim (Bool-cases (ltb (tick_of cq e) now)) [
      | inr later ↦
          let from : now ≤ tick_of cq e = ground arith in
          let least = h.sorted.0 in
          (
            cq,
            e ∷ es,
            free,
            stop_lem fuel cq now (ready ∙ later)
                ∙ ap
                    (λ b. ok (cq, wake now (if b then task cq e ∷ due now (waiting cq es) else [])))
                    (sym later),
            h,
            ap (λ b. if b then not_due now (waiting cq es) else task cq e ∷ waiting cq es)
                (sym later),
            (
              from,
              All-mono (λ y. tick_of cq e ≤ tick_of cq y) (λ y. now ≤ tick_of cq y) es
                  (λ y le. omega (arith, from, le)) least,
            ),
          )
      | inl before ↦
          let past : tick_of cq e ≤ now = ground arith in
          let (rest, same) = pop_lem cq e es free h in
          let named : ((cq.storage e).tid == 0) ≡ false = ground arith in
          wake_step es fuel cq e now (ready ∙ before) (get_lem cq e now at past) named before same (
            dequeue_lem es fuel (popped cq e) (e ∷ free) now (omega (arith, lt)) rest
              (kept_ids cq e es h.distinct.0 ids))
    ]

-- The message of the notifier, which comes at each clock tick: the tasks with a tick before `now` are woken,
-- in the order of the queue, each once, and then the notifier gets its reply. The others stay in their
-- order, none of them has such a tick, and the queue stays well formed. Every waiting task has an id, and
-- the fuel is more than the length of the queue, so the loop ends.
pub notify_lem :
    (es : List ℕ) (fuel : ℕ) (cq : ClockQueue) (free : List ℕ) (sender : ℕ) (msg : MsgClockserver)
    (now later : ℕ)
    → msg.type ≡ clockserver_notify
    → length es < fuel
    → Holds cq es free
    → All (λ e. (cq.storage e).tid ≢ 0) es
    → (cq' : ClockQueue) × (es' : List ℕ) × (free' : List ℕ) × (clockserver_handle fuel cq sender
          msg now later
        ≡ ok (
          cq',
          wake now (due now (waiting cq es)) ++ clock_reply clockserver_ok sender later ∷ [],
        ))
      × Holds cq' es' free'
      × (waiting cq' es' ≡ not_due now (waiting cq es))
      × All (λ e. now ≤ tick_of cq' e) es'
unfolding clockserver_handle
notify_lem es fuel cq free sender msg now later type lt h ids =
    let (cq', es', free', run, holds, left, none_due) = dequeue_lem es fuel cq free now lt h ids in
    (
      cq',
      es',
      free',
      rw type (
          ap
            (λ (o : Outcome (ClockQueue × List ClockReply)).
              o >>= λ (q, replies). ok (q, replies ++ clock_reply clockserver_ok sender later ∷ []))
            run),
      holds,
      left,
      none_due,
    )
