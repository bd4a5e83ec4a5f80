-- ===== src/Kernel/TaskQueue.antt =====
-- kernel/include/task-queue.h and kernel/src/task-queue.c: one intrusive FIFO of descriptors for each
-- priority, and the assignment of task ids.
-- A loop over a list takes fuel, the number of its tests; running out is the fault `hang`. A loop over
-- the priorities recurs on the priorities that are left.
pub mod Holds
pub mod Push
pub mod Scan
pub mod Schedule
pub mod Lookup
pub mod Add
pub mod Orphans
mod Tests
use cs452_kernel.Base.{
  ℕ, zero, suc, ◌+◌, ◌-◌, ◌%◌, ◌^◌, Bool, true, false, ◌&&◌, Option, none, some, ltb, ◌==◌,
  if◌then◌else◌, update, is_none, same_ptr, Outcome, ok, fault, hang, null_deref, ◌>>=◌, ℤ, pos,
  negsuc, minus_one,
}
use cs452_kernel.Kernel.Task.{
  Task, Tasks, ReadyState, state_ready, state_killed, p_idle, n_priority, n_server_priority,
  is_ready_or_killed, is_running, set_next, set_ready_state, set_tid, set_parent,
}

pub record TaskQueue : Type 0 where
  pub front : ℕ → Option ℕ
  pub back : ℕ → Option ℕ
  pub global_tid : ℕ

abbrev pub wrap_around_tid : ℕ
wrap_around_tid = 300

abbrev pub uint16_max : ℕ
uint16_max = 65535

unfoldable pub task_queue_priority_is_empty : TaskQueue → ℕ → Bool
task_queue_priority_is_empty tq p = is_none (tq.front p) && is_none (tq.back p)

unfoldable pub task_queue_push : Tasks → TaskQueue → ℕ → Tasks × TaskQueue
task_queue_push s₀ tq task =
    let p = (s₀ task).priority in
    let s = set_next s₀ task none in
    elim (tq.back p) [
      | none ↦ (
        s,
        record tq { front = update tq.front p (some task); back = update tq.back p (some task) },
      )
      | some b ↦ (set_next s b (some task), record tq { back = update tq.back p (some task) })
    ]

unfoldable pub task_queue_init : TaskQueue → TaskQueue
task_queue_init tq = record { front = λ _. none; back = λ _. none; global_tid = 50 }

-- The inner loop of `task_queue_get`.
unfoldable pub get_scan : ℕ → Tasks → ℕ → Option ℕ → Outcome (Option ℕ)
get_scan zero s tid cur = fault hang
get_scan (suc fuel) s tid none = ok none
get_scan (suc fuel) s tid (some cur) =
    let rest = get_scan fuel s tid (s cur).next in
    if (s cur).tid == tid then ok (some cur) else rest

-- The outer loop, with `n` priorities left.
unfoldable pub get_from : ℕ → ℕ → Tasks → TaskQueue → ℕ → Outcome (Option ℕ)
get_from fuel zero s tq tid = ok none
get_from fuel (suc p) s tq tid =
    let lower = get_from fuel p s tq tid in
    elim (get_scan fuel s tid (tq.front p)) [
      | ok none ↦ lower
      | ok (some t) ↦ ok (some t)
      | fault e ↦ fault e
    ]

unfoldable pub task_queue_get : ℕ → Tasks → TaskQueue → ℕ → Outcome (Option ℕ)
unfolding get_from
task_queue_get fuel s tq tid = get_from fuel n_priority s tq tid

-- The search for a free id from `tid` on, with `n` ids left up to UINT16_MAX.
unfoldable pub get_tid_from : ℕ → ℕ → Tasks → TaskQueue → ℕ → Outcome (ℤ × TaskQueue)
get_tid_from fuel zero s tq tid = ok (minus_one, tq)
get_tid_from fuel (suc n) s tq tid =
    let higher = get_tid_from fuel n s tq (tid + 1) in
    elim (task_queue_get fuel s tq tid) [
      | ok none ↦ ok (pos tid, record tq { global_tid = tid })
      | ok (some dup) ↦ higher
      | fault e ↦ fault e
    ]

unfoldable pub task_queue_get_tid : ℕ → Tasks → TaskQueue → Outcome (ℤ × TaskQueue)
task_queue_get_tid fuel s tq =
    let tid = if tq.global_tid == uint16_max then wrap_around_tid else tq.global_tid + 1 in
    get_tid_from fuel (uint16_max + 1 - tid) s tq tid

-- The last two writes of a removal: the back pointer, if it was `current`, and the cleared link.
unfoldable pub clear_link : Tasks → TaskQueue → ℕ → Option ℕ → ℕ → Tasks × TaskQueue
clear_link s tq p last current = (
  set_next s current none,
  if same_ptr (some current) (tq.back p) then record tq { back = update tq.back p last } else tq,
)

-- The descriptor `current` behind `last` is taken out of its queue.
unfoldable pub unlink : Tasks → TaskQueue → ℕ → Option ℕ → ℕ → Outcome (Tasks × TaskQueue)
unfolding clear_link
unlink s tq p last current =
    let after = (s current).next in
    if same_ptr (some current) (tq.front p)
    then ok (clear_link s (record tq { front = update tq.front p after }) p last current)
    else (elim last [
      | none ↦ fault null_deref
      | some l ↦ ok (clear_link (set_next s l after) tq p (some l) current)
    ])

-- The inner loop of `task_queue_schedule`.
unfoldable pub schedule_scan :
    ℕ → Tasks → TaskQueue → ℕ → Option ℕ → Option ℕ → Outcome (Option (ℕ × Tasks × TaskQueue))
schedule_scan zero s tq p last current = fault hang
schedule_scan (suc fuel) s tq p last none = ok none
schedule_scan (suc fuel) s tq p last (some c) =
    let further = schedule_scan fuel s tq p (some c) (s c).next in
    if is_ready_or_killed (s c).ready_state
    then unlink s tq p last c >>= (λ r. ok (some (c, r.0, r.1)))
    else further

unfoldable pub schedule_from : ℕ → ℕ → Tasks → TaskQueue → Outcome (Option (ℕ × Tasks × TaskQueue))
schedule_from fuel zero s tq = ok none
schedule_from fuel (suc p) s tq =
    let lower = schedule_from fuel p s tq in
    if task_queue_priority_is_empty tq p
    then lower
    else elim (schedule_scan fuel s tq p none (tq.front p)) [
      | ok none ↦ lower
      | ok (some r) ↦ ok (some r)
      | fault e ↦ fault e
    ]

pub task_queue_schedule : ℕ → Tasks → TaskQueue → Outcome (Option (ℕ × Tasks × TaskQueue))
unfolding schedule_from
task_queue_schedule fuel s tq = schedule_from fuel n_priority s tq

-- An int32_t kept in an int16_t.
abbrev pub to_int16 : ℤ → ℤ
to_int16 (pos n) =
    if ltb (n % 2 ^ 16) (2 ^ 15) then pos (n % 2 ^ 16) else negsuc (2 ^ 16 - n % 2 ^ 16 - 1)
to_int16 (negsuc n) =
    if ltb (n % 2 ^ 16) (2 ^ 15) then negsuc (n % 2 ^ 16) else pos (2 ^ 16 - n % 2 ^ 16 - 1)

-- The end of `task_queue_add`, once the task has an id.
abbrev pub add_with_tid : Tasks → TaskQueue → ℕ → ℤ × Tasks × TaskQueue
add_with_tid s tq task = let (s', tq') = task_queue_push s tq task in (pos (s' task).tid, s', tq')

-- The branch of `task_queue_add` for a task without an id, with the int16_t that it was given.
unfoldable pub add_new : Tasks → TaskQueue → ℕ → ℤ → Outcome (ℤ × Tasks × TaskQueue)
add_new s tq task (pos tid) = ok (add_with_tid (set_tid s task tid) tq task)
add_new s tq task (negsuc n) = ok (negsuc n, s, tq)

-- The first statement of `task_queue_add`: a running task is made ready.
unfoldable pub readied : Tasks → ℕ → Tasks
readied s task = if is_running (s task).ready_state then set_ready_state s task state_ready else s

-- What is returned, and the descriptors and the queue after the call.
unfoldable pub task_queue_add : ℕ → Tasks → TaskQueue → ℕ → Outcome (ℤ × Tasks × TaskQueue)
unfolding add_new
task_queue_add fuel s₀ tq task =
    let s = readied s₀ task in
    if (s task).tid == 0
    then task_queue_get_tid fuel s tq >>= (λ r. add_new s r.1 task (to_int16 r.0))
    else ok (add_with_tid s tq task)

-- The loop of `task_queue_empty` from priority `p` on, with `n` priorities left.
unfoldable pub empty_from : ℕ → ℕ → TaskQueue → Bool
empty_from zero p tq = true
empty_from (suc n) p tq = task_queue_priority_is_empty tq p && empty_from n (p + 1) tq

unfoldable pub task_queue_empty : TaskQueue → Bool
unfolding empty_from
task_queue_empty tq = empty_from (n_priority - n_server_priority - (p_idle + 1)) (p_idle + 1) tq

-- The inner loop of `task_queue_free_tid`. `current_element->parent->tid` is read with no test for NULL.
unfoldable pub free_scan : ℕ → Tasks → ℕ → Option ℕ → Outcome Tasks
free_scan zero s tid cur = fault hang
free_scan (suc fuel) s tid none = ok s
free_scan (suc fuel) s tid (some cur) = elim ((s cur).parent) [
  | none ↦ fault null_deref
  | some parent ↦
      free_scan fuel (if (s parent).tid == tid then set_parent s cur none else s) tid (s cur).next
]

unfoldable pub free_from : ℕ → ℕ → Tasks → TaskQueue → ℕ → Outcome Tasks
free_from fuel zero s tq tid = ok s
free_from fuel (suc p) s tq tid =
    free_scan fuel s tid (tq.front p) >>= λ s'. free_from fuel p s' tq tid

unfoldable pub task_queue_free_tid : ℕ → Tasks → TaskQueue → ℕ → Outcome Tasks
unfolding free_from
task_queue_free_tid fuel s tq tid = free_from fuel n_priority s tq tid

-- The inner loop of `task_queue_kill_children`; `kill` is the recursive call.
unfoldable pub kill_scan : ℕ → (Tasks → ℕ → Outcome Tasks) → Tasks → ℕ → Option ℕ → Outcome Tasks
kill_scan zero kill s ptid cur = fault hang
kill_scan (suc fuel) kill s ptid none = ok s
kill_scan (suc fuel) kill s ptid (some cur) = elim ((s cur).parent) [
  | none ↦ fault null_deref
  | some parent ↦
      (if (s parent).tid == ptid
        then kill (set_ready_state s cur state_killed) (s cur).tid
        else ok s)
      >>= λ s'. kill_scan fuel kill s' ptid (s' cur).next
]

unfoldable pub kill_from :
    ℕ → (Tasks → ℕ → Outcome Tasks) → ℕ → ℕ → Tasks → TaskQueue → ℕ → Outcome Tasks
kill_from fuel kill zero p s tq ptid = ok s
kill_from fuel kill (suc n) p s tq ptid =
    kill_scan fuel kill s ptid (tq.front p) >>= λ s'. kill_from fuel kill n (p + 1) s' tq ptid

-- The first number is the fuel for the depth of the recursion, the second that of each loop.
unfoldable pub task_queue_kill_children : ℕ → ℕ → Tasks → TaskQueue → ℕ → Outcome Tasks
unfolding kill_from
task_queue_kill_children zero fuel s tq ptid = fault hang
task_queue_kill_children (suc depth) fuel s tq ptid =
    kill_from fuel (λ s' tid. task_queue_kill_children depth fuel s' tq tid)
      (n_priority - n_server_priority - (p_idle + 1)) (p_idle + 1) s tq ptid
