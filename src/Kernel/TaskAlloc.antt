-- ===== src/Kernel/TaskAlloc.antt =====
-- kernel/include/task-alloc.h and kernel/src/task-alloc.c, with `task_clear` of
-- kernel/src/task-state.c: slabs of descriptors with a free list in the order of the slabs.
-- `&slabs[i][j]` is the index `i * N_TASK_T + j`. The loops over the free list take fuel.
use cs452_kernel.Base.{
  ℕ, zero, suc, ◌+◌, ◌*◌, ◌%◌, Option, none, some, ltb, ◌==◌, if◌then◌else◌, update, same_ptr,
  Outcome, ok, fault, hang, null_deref, ◌>>=◌,
}
use cs452_kernel.Kernel.Task.{Tasks, state_killed, set_next, set_ready_state}

abbrev pub n_task_t : ℕ
n_task_t = 8

abbrev pub n_slabs : ℕ
n_slabs = 128

pub record TaskAlloc : Type 0 where
  pub free_list : Option ℕ
  pub active_slabs : ℕ → ℕ
  pub task_count_in_slab : ℕ → ℕ

-- The counts of the slabs are left as they are.
pub task_alloc_init : TaskAlloc → TaskAlloc
task_alloc_init a = record a { free_list = none; active_slabs = λ _. 0 }

unfoldable pub task_clear : Tasks → ℕ → Tasks
task_clear s t =
    update s t
      (record (s t) { next = none; waiting_senders_next = none; event_wait_next = none; tid = 0 })

-- The loop that looks for the place of a descriptor of `slab`: what `last` and `current` end as.
unfoldable pub place_loop : ℕ → Tasks → ℕ → Option ℕ → Option ℕ → Outcome (Option ℕ × Option ℕ)
place_loop zero s slab last current = fault hang
place_loop (suc fuel) s slab last none = ok (last, none)
place_loop (suc fuel) s slab last (some c) =
    let further = place_loop fuel s slab (some c) (s c).next in
    if ltb (s c).slab_index slab then further else ok (last, some c)

-- The writes at the place that was found.
unfoldable pub insert_at : Tasks → TaskAlloc → ℕ → Option ℕ → Option ℕ → Outcome (Tasks × TaskAlloc)
insert_at s a task last current =
    if same_ptr current a.free_list
    then ok (set_next s task current, record a { free_list = some task })
    else (elim last [
      | none ↦ fault null_deref
      | some l ↦ ok (set_next (set_next s l (some task)) task current, a)
    ])

unfoldable pub task_alloc_add_to_free_list : ℕ → Tasks → TaskAlloc → ℕ → Outcome (Tasks × TaskAlloc)
unfolding place_loop insert_at
task_alloc_add_to_free_list fuel s₀ a task =
    let s = set_next s₀ task none in
    elim (a.free_list) [
      | none ↦ ok (s, record a { free_list = some task })
      | some head ↦
          place_loop fuel s (s task).slab_index none (some head) >>= λ r. insert_at s a task r.0 r.1
    ]

-- `for (int j = 0; j < N_TASK_T; j++)`, from `j` on with `n` rounds left.
unfoldable pub fill_slab : ℕ → ℕ → ℕ → ℕ → Tasks → TaskAlloc → Outcome (Tasks × TaskAlloc)
unfolding task_clear
fill_slab fuel i zero j s a = ok (s, a)
fill_slab fuel i (suc n) j s a =
    let t = i * n_task_t + j in
    let cleared = task_clear s t in
    task_alloc_add_to_free_list fuel (update cleared t (record (cleared t) { slab_index = i })) a t
    >>= λ r. fill_slab fuel i n (j + 1) r.0 r.1

-- The loop that brings the first inactive slab into use, from slab `i` on with `n` slabs left.
unfoldable pub activate_slab : ℕ → ℕ → ℕ → Tasks → TaskAlloc → Outcome (Tasks × TaskAlloc)
unfolding fill_slab
activate_slab fuel zero i s a = ok (s, a)
activate_slab fuel (suc n) i s a =
    let further = activate_slab fuel n (i + 1) s a in
    if a.active_slabs i == 0
    then (fill_slab fuel i n_task_t 0 s a >>= λ r. ok (
      r.0,
      record (r.1) {
        active_slabs = update (r.1).active_slabs i 1;
        task_count_in_slab = update (r.1).task_count_in_slab i 0;
      },
    ))
    else further

-- The end of `task_alloc_new`, where the free list has been refilled if it could be.
unfoldable pub take_free : Tasks → TaskAlloc → Option ℕ × Tasks × TaskAlloc
unfolding task_clear
take_free s a = elim (a.free_list) [
  | none ↦ (none, s, a)
  | some t ↦ (
    some t,
    task_clear s t,
    record a {
      free_list = (s t).next;
      task_count_in_slab =
          update a.task_count_in_slab (s t).slab_index
            ((a.task_count_in_slab (s t).slab_index + 1) % 256);
    },
  )
]

unfoldable pub task_alloc_new : ℕ → Tasks → TaskAlloc → Outcome (Option ℕ × Tasks × TaskAlloc)
unfolding take_free
task_alloc_new fuel s a = elim (a.free_list) [
  | none ↦ activate_slab fuel n_slabs 0 s a >>= λ r. ok (take_free r.0 r.1)
  | some t ↦ ok (take_free s a)
]

-- The loop that takes the descriptors of a slab off the free list.
unfoldable pub purge_loop :
    ℕ → Tasks → TaskAlloc → ℕ → Option ℕ → Option ℕ → Outcome (Tasks × TaskAlloc)
purge_loop zero s a slab prev current = fault hang
purge_loop (suc fuel) s a slab prev none = ok (s, a)
purge_loop (suc fuel) s a slab prev (some c) =
    let after = (s c).next in
    let (s', a') : Tasks × TaskAlloc = elim prev [
      | none ↦ (s, record a { free_list = after })
      | some p ↦ (set_next s p after, a)
    ] in
    let removed = purge_loop fuel (set_next s' c none) a' slab prev (s' c).next in
    let kept = purge_loop fuel s a slab (some c) after in
    if (s c).slab_index == slab then removed else kept

-- `--` on a uint8_t.
abbrev pub minus_minus : ℕ → ℕ
minus_minus n = (n + 255) % 256

unfoldable pub task_alloc_free : ℕ → Tasks → TaskAlloc → Option ℕ → Outcome (Tasks × TaskAlloc)
unfolding purge_loop
task_alloc_free fuel s a none = ok (s, a)
task_alloc_free fuel s a (some task) =
    task_alloc_add_to_free_list fuel (set_ready_state s task state_killed) a task >>= λ r.
    let (s₁, a₁) = r in
    let slab = (s₁ task).slab_index in
    let count = minus_minus (a₁.task_count_in_slab slab) in
    let a₂ : TaskAlloc = record a₁ {
      task_count_in_slab = update a₁.task_count_in_slab slab count;
    } in
    let emptied = purge_loop fuel s₁ a₂ slab none a₂.free_list >>= λ q.
    ok (q.0, record (q.1) { active_slabs = update (q.1).active_slabs slab 0 }) in
    if count == 0 then emptied else ok (s₁, a₂)
