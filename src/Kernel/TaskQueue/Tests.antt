-- ===== src/Kernel/TaskQueue/Tests.antt =====
-- The theorems of the task queue at a concrete queue.
use native.Mathlib.Decide.{ℕ_discrete}
use cs452_kernel.Base.{
  ℕ, zero, suc, ◌-◌, ◌^◌, ◌<◌, ◌≤◌, ◌≡◌, refl, subst, ◌⊎◌, List, [], ◌∷◌, Option, none, some, arith,
  update, update_ne, ok, fault, negsuc, minus_one, null_deref,
}
use cs452_kernel.Base.Lists.{All, length}
use cs452_kernel.Kernel.Task.{
  Task, Tasks, ReadyState, state_ready, state_running, state_rcv_wait, n_priority,
}
use cs452_kernel.Kernel.Links.{NotIn}
use cs452_kernel.Kernel.TaskQueue.{
  TaskQueue, task_queue_push, task_queue_schedule, task_queue_get, task_queue_get_tid,
  task_queue_add, uint16_max,
}
use cs452_kernel.Kernel.TaskQueue.Holds.{Holds, IsQueue, SameButNext}
use cs452_kernel.Kernel.TaskQueue.Push.{push-Holds}
use cs452_kernel.Kernel.TaskQueue.Schedule.{schedule_lem, Blocked, Picked}
use cs452_kernel.Kernel.TaskQueue.Lookup.{
  get_lem, get_tid_lem, IsFree, IsMissed, IsTaken, Found, Searched, first_tid, IsChosen,
}
use cs452_kernel.Kernel.TaskQueue.Add.{Added, add_new_lem, readied-Holds}
use cs452_kernel.Kernel.TaskQueue.{readied, task_queue_free_tid}
use cs452_kernel.Kernel.TaskQueue.Orphans.{IsFreed, IsOrphaned, free_tid_lem, orphan_faults}

abbrev task_with : ReadyState → ℕ → ℕ → Option ℕ → Task
task_with r p n q = record {
  x = λ _. 0;
  pc = 0;
  sp = 0;
  pstate = 0;
  tid = n;
  parent = none;
  ready_state = r;
  priority = p;
  next = q;
  waiting_senders_next = none;
  event_wait_next = none;
  slab_index = 0;
  stack_base = 0;
}

-- Priority 8 holds task 0, which waits in Receive, and task 1, which is ready; task 2 runs and every
-- other descriptor is without an id.
abbrev tasks : Tasks
tasks zero = task_with state_rcv_wait 8 51 (some 1)
tasks (suc zero) = task_with state_ready 8 52 none
tasks (suc (suc zero)) = task_with state_running 8 53 none
tasks (suc (suc (suc t))) = task_with state_ready 8 0 none

abbrev no_task : ℕ → Option ℕ
no_task _ = none

abbrev no_list : ℕ → List ℕ
no_list _ = []

abbrev tq : TaskQueue
tq = record { front = update no_task 8 (some 0); back = update no_task 8 (some 1); global_tid = 53 }

abbrev qs : ℕ → List ℕ
qs = update no_list 8 (0 ∷ 1 ∷ [])

queue_at : (p : ℕ) → IsQueue tasks (tq.front p) (tq.back p) p (qs p)
queue_at p = elim (ℕ_discrete 8 p) [
  | yes same ↦
      subst (λ n. IsQueue tasks (tq.front n) (tq.back n) n (qs n)) same
        (record {
          links = (refl, (refl, refl));
          ends = refl;
          distinct = (((λ e. absurd (omega (arith, e))), tt), (tt, tt));
          level = (refl, (refl, tt));
        })
  | no ne ↦
      rw
        (
          update_ne no_task 8 p (some 0) ne,
          update_ne no_task 8 p (some 1) ne,
          update_ne no_list 8 p (0 ∷ 1 ∷ []) ne,
        )
        (record { links = refl; ends = refl; distinct = tt; level = tt })
]

held : Holds tasks tq qs
held = record {
  queue = queue_at;
  in_range = λ p le. update_ne no_list 8 p (0 ∷ 1 ∷ []) λ e. absurd (omega (arith, e));
}

enough : (p : ℕ) → length (qs p) < 3
enough p = elim (ℕ_discrete 8 p) [
  | yes same ↦ subst (λ n. length (qs n) < 3) same (omega arith)
  | no ne ↦ rw (update_ne no_list 8 p (0 ∷ 1 ∷ []) ne) (omega arith)
]

away : (t : ℕ) → 2 ≤ t → NotIn t (qs 8)
away t le = ((λ e. absurd (omega (arith, e))), ((λ e. absurd (omega (arith, e))), tt))

push-Holds_example :
    let (s', tq') = task_queue_push tasks tq 2 in
    Holds s' tq' (update qs 8 (0 ∷ 1 ∷ 2 ∷ [])) × SameButNext tasks s'
push-Holds_example = push-Holds tasks tq qs 2 held (omega arith) (away 2 (omega arith))

schedule_lem_example :
    let r = task_queue_schedule 3 tasks tq in
    ((r ≡ ok none) × ((p : ℕ) → p < n_priority → All (Blocked tasks) (qs p)))
    ⊎ ((p : ℕ) × (p < n_priority)
        × ((q : ℕ) → p < q → q < n_priority → All (Blocked tasks) (qs q))
        × Picked tasks qs p r)
schedule_lem_example = schedule_lem tasks tq qs held 3 enough

get_lem_example :
    ((task_queue_get 3 tasks tq 52 ≡ ok none) × IsFree tasks qs 52)
    ⊎ ((t : ℕ) × (p : ℕ) × (task_queue_get 3 tasks tq 52 ≡ ok (some t))
        × Found tasks qs 52 p t
        × IsMissed tasks tq qs held 52 p n_priority)
get_lem_example = get_lem tasks tq qs held 3 52 enough

get_tid_lem_example :
    Searched tasks tq qs held (first_tid tasks tq qs held) (task_queue_get_tid 3 tasks tq)
get_tid_lem_example = get_tid_lem tasks tq qs held 3 enough (omega arith)

-- A task that gets the id 54.
abbrev fresh : Tasks
fresh = update tasks 2 (record (tasks 2) { tid = 0 })

abbrev room : 8 < n_priority
room = omega arith

queued_unchanged : (p : ℕ) → IsQueue fresh (tq.front p) (tq.back p) p (qs p)
queued_unchanged p = elim (ℕ_discrete 8 p) [
  | yes same ↦
      subst (λ n. IsQueue fresh (tq.front n) (tq.back n) n (qs n)) same
        (record {
          links = (refl, (refl, refl));
          ends = refl;
          distinct = (((λ e. absurd (omega (arith, e))), tt), (tt, tt));
          level = (refl, (refl, tt));
        })
  | no ne ↦
      rw
        (
          update_ne no_task 8 p (some 0) ne,
          update_ne no_task 8 p (some 1) ne,
          update_ne no_list 8 p (0 ∷ 1 ∷ []) ne,
        )
        (record { links = refl; ends = refl; distinct = tt; level = tt })
]

fresh_held : Holds fresh tq qs
fresh_held = record { queue = queued_unchanged; in_range = held.in_range }

abbrev fresh_away : NotIn 2 (qs 8)
fresh_away = away 2 (omega arith)

add_new_lem_example :
    ((tid : ℕ) × IsChosen
        (readied fresh 2)
        tq
        qs
        (readied-Holds fresh tq qs 2 fresh_held room fresh_away)
        (first_tid (readied fresh 2) tq qs (readied-Holds fresh tq qs 2 fresh_held room fresh_away))
        tid
      × (tid < 2 ^ 15
          → Added fresh tq qs 2 fresh_held room fresh_away tid (task_queue_add 3 fresh tq 2))
      × (2 ^ 15 ≤ tid
          → (task_queue_add 3 fresh tq 2
              ≡ ok (negsuc (2 ^ 16 - tid - 1), readied fresh 2, record tq { global_tid = tid }))
            × Holds (readied fresh 2) (record tq { global_tid = tid }) qs))
    ⊎ ((task_queue_add 3 fresh tq 2 ≡ ok (minus_one, readied fresh 2, tq))
        × ((k : ℕ)
            → first_tid
                (readied fresh 2)
                tq
                qs
                (readied-Holds fresh tq qs 2 fresh_held room fresh_away)
              ≤ k
            → k ≤ uint16_max
            → IsTaken
                (readied fresh 2)
                tq
                qs
                (readied-Holds fresh tq qs 2 fresh_held room fresh_away)
                k))
add_new_lem_example =
    add_new_lem fresh tq qs 2 fresh_held room fresh_away 3 refl enough (omega arith)

free_tid_lem_example :
    ((task_queue_free_tid 3 tasks tq 51 ≡ fault null_deref) × IsOrphaned tasks qs n_priority)
    ⊎ ((s' : Tasks) × (task_queue_free_tid 3 tasks tq 51 ≡ ok s')
        × IsFreed tasks s' qs 51 n_priority)
free_tid_lem_example = free_tid_lem tasks tq qs held 3 51 enough

orphan_faults_example : task_queue_free_tid 3 tasks tq 53 ≡ fault null_deref
orphan_faults_example = orphan_faults tasks tq qs held 3 53 8 1 (0 ∷ []) [] enough room refl refl
