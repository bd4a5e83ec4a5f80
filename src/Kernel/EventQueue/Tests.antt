-- ===== src/Kernel/EventQueue/Tests.antt =====
-- The theorems of the event queue at a concrete queue.
use native.Mathlib.Decide.{ℕ_discrete}
use cs452_kernel.Base.{
  ℕ, zero, suc, ◌<◌, ◌≤◌, ◌≡◌, ◌≢◌, refl, sym, subst, List, [], ◌∷◌, Option, none, some, arith,
  update, update_ne, true, false, ok, pos, negsuc,
}
use cs452_kernel.Base.Lists.{All}
use cs452_kernel.Kernel.Task.{Task, Tasks, ReadyState, state_ready, state_event_wait}
use cs452_kernel.Kernel.Links.{NotIn}
use cs452_kernel.Kernel.EventQueue.{
  EventQueue, timer_tick, n_events, event_queue_block, event_queue_unblock_one,
  event_queue_unblock_all,
}
use cs452_kernel.Kernel.EventQueue.Waits.{IsWaitQueue, Waits, IsLoose, wait_list, block_lem}
use cs452_kernel.Kernel.EventQueue.Unblock.{IsUnblocked, one_lem, all_lem}

abbrev task_with : ReadyState → Option ℕ → Task
task_with r q = record {
  x = λ _. 0;
  pc = 0;
  sp = 0;
  pstate = 0;
  tid = 60;
  parent = none;
  ready_state = r;
  priority = 8;
  next = none;
  waiting_senders_next = none;
  event_wait_next = q;
  slab_index = 0;
  stack_base = 0;
}

-- Tasks 0 and 1 wait for the timer, every other task for nothing.
abbrev tasks : Tasks
tasks zero = task_with state_event_wait (some 1)
tasks (suc zero) = task_with state_event_wait none
tasks (suc (suc t)) = task_with state_ready none

abbrev no_task : ℕ → Option ℕ
no_task _ = none

abbrev no_list : ℕ → List ℕ
no_list _ = []

abbrev eq : EventQueue
eq = record {
  front = update no_task timer_tick (some 0);
  back = update no_task timer_tick (some 1);
}

abbrev ws : ℕ → List ℕ
ws = update no_list timer_tick (0 ∷ 1 ∷ [])

others_empty : (e : ℕ) → 0 ≢ e → ws e ≡ []
others_empty e ne = update_ne no_list 0 e (0 ∷ 1 ∷ []) ne

waiting : Waits tasks eq ws
waiting = record {
  queue = λ e. elim (ℕ_discrete 0 e) [
    | yes same ↦
        subst (λ n. IsWaitQueue tasks (eq.front n) (eq.back n) (ws n)) same
          (record {
            links = (refl, (refl, refl));
            ends = refl;
            distinct = (((λ k. absurd (omega (arith, k))), tt), (tt, tt));
            blocked = (refl, (refl, tt));
          })
    | no ne ↦
        rw (update_ne no_task 0 e (some 0) ne, update_ne no_task 0 e (some 1) ne, others_empty e ne)
          (record { links = refl; ends = refl; distinct = tt; blocked = tt })
  ];
  apart = λ e f ne. elim (ℕ_discrete 0 e) [
    | yes same ↦
        let other : ws f ≡ [] = others_empty f (subst (λ n. n ≢ f) (sym same) ne) in
        subst (λ n. All (λ t. NotIn t (ws f)) (ws n)) same (rw other (tt, (tt, tt)))
    | no other ↦ subst (All (λ t. NotIn t (ws f))) (sym (others_empty e other)) tt
  ];
}

loose : IsLoose tasks ws 2
loose = record {
  unlinked = refl;
  nowhere = λ e. elim (ℕ_discrete 0 e) [
    | yes same ↦
        subst (λ n. NotIn 2 (ws n)) same
          ((λ k. absurd (omega (arith, k))), ((λ k. absurd (omega (arith, k))), tt))
    | no ne ↦ subst (NotIn 2) (sym (others_empty e ne)) tt
  ];
}

block_lem_example :
    (0 < n_events
      → let (r, s', eq') = event_queue_block tasks eq 2 (pos 0) in
        (r ≡ true) × Waits s' eq' (wait_list ws 0 2))
    × (n_events ≤ 0 → event_queue_block tasks eq 2 (pos 0) ≡ (false, tasks, eq))
    × ((n : ℕ) → event_queue_block tasks eq 2 (negsuc n) ≡ (false, tasks, eq))
block_lem_example = block_lem tasks eq ws 2 0 waiting loose

one_lem_example :
    (ws 0 ≡ [] → event_queue_unblock_one tasks eq 0 (pos 7) ≡ (false, tasks, eq))
    × ((t : ℕ) (ts : List ℕ)
        → ws 0 ≡ t ∷ ts
        → let (r, s', eq') = event_queue_unblock_one tasks eq 0 (pos 7) in
          (r ≡ true)
          × Waits s' eq' (update ws 0 ts)
          × IsUnblocked s' t (pos 7)
          × ((u : ℕ) → t ≢ u → s' u ≡ tasks u))
one_lem_example = one_lem 0 (pos 7) tasks eq ws waiting

all_lem_example :
    (s' : Tasks) × (eq' : EventQueue) × (event_queue_unblock_all 3 tasks eq 0 (pos 7)
      ≡ ok (true, s', eq'))
    × Waits s' eq' (update ws 0 [])
    × All (λ t. IsUnblocked s' t (pos 7)) (ws 0)
    × ((u : ℕ) → NotIn u (ws 0) → s' u ≡ tasks u)
all_lem_example = all_lem 0 (pos 7) 3 tasks eq ws waiting (omega arith)
