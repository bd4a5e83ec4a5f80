-- ===== src/Kernel/TaskQueue/Add.antt =====
-- `task_queue_add`: a new task gets an id, and every task goes behind the others of its priority.
use cs452_kernel.Base.{
  ℕ, ◌-◌, ◌^◌, ◌<◌, ◌≤◌, ◌≡◌, refl, sym, ap, subst, ◌∙◌, ◌≢◌, inl, inr, ◌⊎◌, List, [], ◌∷◌, ◌++◌,
  arith, ◌==◌, true, false, Outcome, ok, update, update_self, ◌>>=◌, ℤ, pos, negsuc, minus_one,
}
use cs452_kernel.Base.Lists.{All-mono, length}
use cs452_kernel.Kernel.Task.{Task, Tasks, n_priority, is_running, set_tid}
use cs452_kernel.Kernel.Links.{Links-congr, NotIn}
use cs452_kernel.Kernel.TaskQueue.{
  TaskQueue, task_queue_push, task_queue_add, add_with_tid, add_new, readied, task_queue_get_tid,
  uint16_max, to_int16,
}
use cs452_kernel.Kernel.TaskQueue.Holds.{Holds, IsQueue}
use cs452_kernel.Kernel.TaskQueue.Push.{push-Holds}
use cs452_kernel.Kernel.TaskQueue.Lookup.{IsChosen, IsTaken, first_tid, get_tid_lem}

-- The queues see priorities and links alone.
pub Holds_same :
    (s s' : Tasks) (tq tq' : TaskQueue) (qs : ℕ → List ℕ)
    → ((t : ℕ) → ((s' t).priority ≡ (s t).priority) × ((s' t).next ≡ (s t).next))
    → tq'.front ≡ tq.front
    → tq'.back ≡ tq.back
    → Holds s tq qs
    → Holds s' tq' qs
Holds_same s s' tq tq' qs same fronts backs h = record {
  queue = λ p.
      let k = h.queue p in
      subst (λ f. IsQueue s' (f p) (tq'.back p) p (qs p)) (sym fronts)
        (subst (λ b. IsQueue s' (tq.front p) (b p) p (qs p)) (sym backs)
          (record {
            links =
                Links-congr (λ t. (s t).next) (λ t. (s' t).next) (tq.front p) (qs p)
                  (All-mono (λ t. (s t).priority ≡ p) (λ t. (s' t).next ≡ (s t).next) (qs p)
                    (λ t e. (same t).1) k.level)
                  k.links;
            ends = k.ends;
            distinct = k.distinct;
            level =
                All-mono (λ t. (s t).priority ≡ p) (λ t. (s' t).priority ≡ p) (qs p)
                  (λ t e. (same t).0 ∙ e) k.level;
          }));
  in_range = h.in_range;
}

pub readied_same :
    (s : Tasks) (task t : ℕ)
    → ((readied s task t).priority ≡ (s t).priority)
      × ((readied s task t).next ≡ (s t).next)
      × ((readied s task t).tid ≡ (s t).tid)
unfolding readied
readied_same s task t = ground arith

readied_ready : (s : Tasks) (task : ℕ) → is_running (readied s task task).ready_state ≡ false
unfolding readied
readied_ready s task = ground arith

to_int16_small : (n : ℕ) → n < 2 ^ 15 → to_int16 (pos n) ≡ pos n
to_int16_small n h = ground arith

to_int16_large : (n : ℕ) → 2 ^ 15 ≤ n → n ≤ uint16_max → to_int16 (pos n) ≡ negsuc (2 ^ 16 - n - 1)
to_int16_large n h k = ground arith

module _ (s : Tasks) (tq : TaskQueue) (qs : ℕ → List ℕ) (task : ℕ) (h : Holds s tq qs)
    (room : (s task).priority < n_priority) (out : NotIn task (qs (s task).priority)) where
  pub readied-Holds : Holds (readied s task) tq qs
  readied-Holds =
      Holds_same s (readied s task) tq tq qs (λ t. let e = readied_same s task t in (e.0, e.1)) refl
        refl h

  -- The call returns `tid`, and the task, which has that id and is not running, stands behind the
  -- others of its priority.
  abbrev pub Added : ℕ → Outcome (ℤ × Tasks × TaskQueue) → Type 0
  Added tid r =
      (s' : Tasks) × (tq' : TaskQueue) × (r ≡ ok (pos tid, s', tq'))
      × Holds s' tq' (update qs (s task).priority (qs (s task).priority ++ task ∷ []))
      × ((s' task).tid ≡ tid)
      × (is_running (s' task).ready_state ≡ false)

  -- The push at the end, for descriptors that queue as those of `s` do.
  add_lem :
      (s₁ : Tasks) (tq₁ : TaskQueue) (tid : ℕ)
      → ((t : ℕ) → ((s₁ t).priority ≡ (s t).priority) × ((s₁ t).next ≡ (s t).next))
      → tq₁.front ≡ tq.front
      → tq₁.back ≡ tq.back
      → (s₁ task).tid ≡ tid
      → is_running (s₁ task).ready_state ≡ false
      → Added tid (ok (add_with_tid s₁ tq₁ task))
  add_lem s₁ tq₁ tid same fronts backs at_tid at_state =
      let pushed = task_queue_push s₁ tq₁ task in
      let level = (same task).0 in
      let (holds, kept) =
        push-Holds s₁ tq₁ qs task (Holds_same s s₁ tq tq₁ qs same fronts backs h)
          (subst (λ (p : ℕ). p < n_priority) (sym level) room)
          (subst (λ (p : ℕ). NotIn task (qs p)) (sym level) out) in
      let tid_after : (pushed.0 task).tid ≡ tid = ap (λ (d : Task). d.tid) (kept task) ∙ at_tid in
      (
        pushed.0,
        pushed.1,
        ap (λ (n : ℕ). ok (pos n, pushed.0, pushed.1)) tid_after,
        subst (λ (p : ℕ). Holds pushed.0 pushed.1 (update qs p (qs p ++ task ∷ []))) level holds,
        tid_after,
        ap (λ (d : Task). is_running d.ready_state) (kept task) ∙ at_state,
      )

  fields :
      (t : ℕ)
      → ((readied s task t).priority ≡ (s t).priority) × ((readied s task t).next ≡ (s t).next)
  fields t = let e = readied_same s task t in (e.0, e.1)

  known_eq :
      (fuel : ℕ)
      → (s task).tid ≢ 0
      → task_queue_add fuel s tq task ≡ ok (add_with_tid (readied s task) tq task)
  unfolding task_queue_add
  known_eq fuel ne =
      let other : ((readied s task task).tid == 0) ≡ false =
        ground (arith, readied_same s task task) in
      rw other

  -- A task that has an id, of a priority in range and not on its queue, keeps the id: the call returns
  -- it and queues the task.
  pub add_known_lem :
      (fuel : ℕ) → (s task).tid ≢ 0 → Added (s task).tid (task_queue_add fuel s tq task)
  add_known_lem fuel ne = rw (known_eq fuel ne) (
      add_lem (readied s task) tq (s task).tid fields refl refl (readied_same s task task).2
        (readied_ready s task))

  new_eq :
      (fuel : ℕ)
      → (s task).tid ≡ 0
      → task_queue_add fuel s tq task ≡ (
          task_queue_get_tid fuel (readied s task) tq
          >>= (λ r. add_new (readied s task) r.1 task (to_int16 r.0)))
  unfolding task_queue_add
  new_eq fuel e =
      let hit : ((readied s task task).tid == 0) ≡ true =
        ground (arith, readied_same s task task) in
      rw hit

  -- A free id that fits an int16_t is set, and the task is queued with it.
  add_small :
      (fuel tid : ℕ)
      → (s task).tid ≡ 0
      → task_queue_get_tid fuel (readied s task) tq ≡ ok (pos tid, record tq { global_tid = tid })
      → tid < 2 ^ 15
      → Added tid (task_queue_add fuel s tq task)
  unfolding add_new
  add_small fuel tid e found lt =
      rw (new_eq fuel e, found)
        (subst (λ z. Added tid (add_new (readied s task) (record tq { global_tid = tid }) task z))
          (sym (to_int16_small tid lt))
          (add_lem (set_tid (readied s task) task tid) (record tq { global_tid = tid }) tid
            set_fields refl refl (ap (λ (d : Task). d.tid) (update_self (readied s task) task _))
            (ap (λ (d : Task). is_running d.ready_state) (update_self (readied s task) task _)
              ∙ readied_ready s task)))
    where
      set_fields :
          (t : ℕ)
          → ((set_tid (readied s task) task tid t).priority ≡ (s t).priority)
            × ((set_tid (readied s task) task tid t).next ≡ (s t).next)
      set_fields t = ground (arith, readied_same s task t, readied_same s task task)

  -- One that does not is lost, and the task is not queued.
  add_large :
      (fuel tid : ℕ)
      → (s task).tid ≡ 0
      → task_queue_get_tid fuel (readied s task) tq ≡ ok (pos tid, record tq { global_tid = tid })
      → 2 ^ 15 ≤ tid
      → tid ≤ uint16_max
      → (task_queue_add fuel s tq task
          ≡ ok (negsuc (2 ^ 16 - tid - 1), readied s task, record tq { global_tid = tid }))
        × Holds (readied s task) (record tq { global_tid = tid }) qs
  unfolding add_new
  add_large fuel tid e found le small = (
    rw (new_eq fuel e, found)
        (ap (add_new (readied s task) (record tq { global_tid = tid }) task)
          (to_int16_large tid le small)),
    record { queue = readied-Holds.queue; in_range = h.in_range },
  )

  -- A task without an id gets the id that `task_queue_get_tid` chooses, if that is below 2 ^ 15. From
  -- 2 ^ 15 on the id does not fit the int16_t it is kept in: the call returns a negative number, and
  -- the task stands in no queue, though the id is free. When every id from the first one
  -- searched up to UINT16_MAX is taken it returns -1, and but for a running state made ready nothing
  -- changes. The task's queue is its priority's, it is not on it,
  -- and the fuel is enough for the longest queue.
  pub add_new_lem :
      (fuel : ℕ)
      → (s task).tid ≡ 0
      → ((p : ℕ) → length (qs p) < fuel)
      → tq.global_tid ≤ uint16_max
      → ((tid : ℕ) × IsChosen
            (readied s task)
            tq
            qs
            readied-Holds
            (first_tid (readied s task) tq qs readied-Holds)
            tid
          × (tid < 2 ^ 15 → Added tid (task_queue_add fuel s tq task))
          × (2 ^ 15 ≤ tid
              → (task_queue_add fuel s tq task
                  ≡ ok (negsuc (2 ^ 16 - tid - 1), readied s task, record tq { global_tid = tid }))
                × Holds (readied s task) (record tq { global_tid = tid }) qs))
        ⊎ ((task_queue_add fuel s tq task ≡ ok (minus_one, readied s task, tq))
            × ((k : ℕ)
                → first_tid (readied s task) tq qs readied-Holds ≤ k
                → k ≤ uint16_max
                → IsTaken (readied s task) tq qs readied-Holds k))
  unfolding add_new
  add_new_lem fuel e enough small =
      elim (get_tid_lem (readied s task) tq qs readied-Holds fuel enough small) [
        | inl (none_left, all) ↦ inr ((new_eq fuel e ∙ rw none_left), all)
        | inr (tid, found, chosen) ↦ inl (
          tid,
          chosen,
          (λ lt. add_small fuel tid e found lt),
          (λ le. add_large fuel tid e found le chosen.small),
        )
      ]
