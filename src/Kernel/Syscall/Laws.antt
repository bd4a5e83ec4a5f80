-- ===== src/Kernel/Syscall/Laws.antt =====
-- What `task_svc_handle` does for SYS_AWAIT.
use cs452_kernel.Base.{ℕ, ◌^◌, ◌<◌, ◌≤◌, ◌≡◌, ap, ◌∙◌, List, [], ◌∷◌, arith, ok, pos}
use cs452_kernel.Base.Lists.{All}
use cs452_kernel.Kernel.Task.{Tasks, set_x}
use cs452_kernel.Kernel.EventQueue.{EventQueue, n_events, event_queue_block}
use cs452_kernel.Kernel.EventQueue.Waits.{Waits, IsWaitQueue-same, IsLoose, wait_list, block_lem}
use cs452_kernel.Kernel.State.{KernelData, code_1, reg, set_x0}
use cs452_kernel.Kernel.Syscall.{answer, task_svc_handle, svc_await, int_of, trigger_interrupt}

-- The answer in x0 is not seen by the wait queues.
set_x0-Waits :
    (s : Tasks) (eq : EventQueue) (ws : ℕ → List ℕ) (t v : ℕ)
    → Waits s eq ws
    → Waits (set_x s t 0 v) eq ws
set_x0-Waits s eq ws t v h = record {
  queue = λ e.
      IsWaitQueue-same s (set_x s t 0 v) (eq.front e) (eq.back e) (ws e) (everywhere (ws e))
        (h.queue e);
  apart = h.apart;
}
  where
    everywhere :
        (ts : List ℕ)
        → All
            (λ u.
              ((set_x s t 0 v u).event_wait_next ≡ (s u).event_wait_next)
              × ((set_x s t 0 v u).ready_state ≡ (s u).ready_state))
            ts
    everywhere [] = tt
    everywhere (u ∷ us) = ((ground arith, ground arith), everywhere us)

int_of_small : (e : ℕ) → e < 2 ^ 31 → int_of e ≡ pos e
int_of_small e lt = ground arith

-- SYS_AWAIT by a task that waits for nothing, with a number that is no negative int: for one of the
-- four events the task waits behind the others with the answer 0, and for any other number the answer
-- is -1 and nothing else changes.
pub await_lem :
    (user_start now depth fuel : ℕ) (k : KernelData) (ws : ℕ → List ℕ) (t e : ℕ)
    → reg k t 0 ≡ 12
    → reg k t 1 ≡ e
    → e < 2 ^ 31
    → Waits k.tasks k.eq ws
    → IsLoose k.tasks ws t
    → (e < n_events
        → (k' : KernelData) × (task_svc_handle user_start now depth fuel k t ≡ ok k')
          × Waits k'.tasks k'.eq (wait_list ws e t)
          × (reg k' t 0 ≡ 0))
      × (n_events ≤ e → task_svc_handle user_start now depth fuel k t ≡ ok (set_x0 k t code_1))
unfolding task_svc_handle svc_await
await_lem user_start now depth fuel k ws t e code arg small h loose =
    let blocked = block_lem k.tasks k.eq ws t e h loose in
    let as_int : int_of (reg k t 1) ≡ pos e = ap int_of arg ∙ int_of_small e small in
    (
      (λ lt.
          let r = event_queue_block k.tasks k.eq t (pos e) in
          (
            set_x0
                (record k {
                  tasks = r.1;
                  eq = r.2;
                  timer_cmp = trigger_interrupt now k.timer_cmp (pos e);
                })
                t 0,
            rw (code, answer, as_int, (blocked.0 lt).0),
            set_x0-Waits r.1 r.2 (wait_list ws e t) t 0 (blocked.0 lt).1,
            ground arith,
          )),
      (λ le. rw (code, answer, as_int, blocked.1 le)),
    )
