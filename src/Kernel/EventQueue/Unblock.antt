-- ===== src/Kernel/EventQueue/Unblock.antt =====
-- `event_queue_unblock_one` and `event_queue_unblock_all`.
use cs452_kernel.Base.{
  ℕ, zero, suc, ◌<◌, ◌≡◌, refl, sym, ap, subst, ◌∙◌, ◌≢◌, inl, inr, List, [], ◌∷◌, Option, none,
  some, arith, update, update_self, update_same, update-update, not, update_ne, Option-cases,
  if◌then◌else◌, true, false, is_none, ℤ, ok,
}
use cs452_kernel.Base.Lists.{All, All-mono, length}
use cs452_kernel.Kernel.Task.{Task, Tasks, state_ready}
use cs452_kernel.Kernel.Links.{Links, last?, NotIn}
use cs452_kernel.Kernel.EventQueue.{
  EventQueue, int_pattern, unblock_head, event_queue_unblock_one, unblock_loop,
  event_queue_unblock_all,
}
use cs452_kernel.Kernel.EventQueue.Waits.{IsWaitQueue, Waits, Waits_at, SameWaits, IsWaitQueue-same}

-- A task that was unblocked: ready, with the value in x0, and in no queue.
pub record IsUnblocked (s : Tasks) (t : ℕ) (retval : ℤ) : Type 0 where
  pub ready : (s t).ready_state ≡ state_ready
  pub value : (s t).x 0 ≡ int_pattern retval
  pub unlinked : (s t).event_wait_next ≡ none

module _ (s : Tasks) (eq : EventQueue) (e : ℕ) (v : ℤ) (t : ℕ) where
  head_others : (u : ℕ) → t ≢ u → (unblock_head s eq e v t).0 u ≡ s u
  unfolding unblock_head
  head_others u ne = ground arith

  head-IsUnblocked : IsUnblocked (unblock_head s eq e v t).0 t v
  unfolding unblock_head
  head-IsUnblocked = record { ready = ground arith; value = ground arith; unlinked = ground arith }

  head_front : (unblock_head s eq e v t).1.front ≡ update eq.front e (s t).event_wait_next
  unfolding unblock_head
  head_front = ground arith

  head_back :
      (unblock_head s eq e v t).1.back e
      ≡ (if is_none (s t).event_wait_next then none else eq.back e)
  unfolding unblock_head
  head_back = ground arith

  head_back_others : (f : ℕ) → e ≢ f → (unblock_head s eq e v t).1.back f ≡ eq.back f
  unfolding unblock_head
  head_back_others f ne = ground arith

pub still-IsUnblocked :
    {v : ℤ} (s s' : Tasks) (t : ℕ) → s' t ≡ s t → IsUnblocked s t v → IsUnblocked s' t v
still-IsUnblocked s s' t same h = record {
  ready = ap (λ (d : Task). d.ready_state) same ∙ h.ready;
  value = ap (λ (d : Task). d.x 0) same ∙ h.value;
  unlinked = ap (λ (d : Task). d.event_wait_next) same ∙ h.unlinked;
}

module _ (e : ℕ) (v : ℤ) where
  -- What is left of the wait queues when the head `t` has gone.
  head-Waits :
      (s : Tasks) (eq : EventQueue) (ws : ℕ → List ℕ) (t : ℕ) (ts : List ℕ)
      → Waits s eq ws
      → ws e ≡ t ∷ ts
      → let (s', eq') = unblock_head s eq e v t in Waits s' eq' (update ws e ts)
  head-Waits s eq ws t ts h split =
      let r = unblock_head s eq e v t in
      let q = subst (IsWaitQueue s (eq.front e) (eq.back e)) split (h.queue e) in
      let others : (l : List ℕ) → NotIn t l → SameWaits s r.0 l = λ l out.
        All-mono (λ u. t ≢ u) _ l
          (λ u ne. (
            ap (λ (d : Task). d.event_wait_next) (head_others s eq e v t u ne),
            ap (λ (d : Task). d.ready_state) (head_others s eq e v t u ne),
          ))
          out in
      let away =
        λ (f : ℕ) (ne : e ≢ f). subst (λ l. All (λ u. NotIn u (ws f)) l) split (h.apart e f ne) in
      Waits_at r.1 e ts h
        (IsWaitQueue-same s r.0 (r.1.front e) (r.1.back e) ts (others ts q.distinct.0) (record {
          links =
              subst (λ p. Links (λ u. (s u).event_wait_next) p ts)
                (sym (
                  ap (λ (g : ℕ → Option ℕ). g e) (head_front s eq e v t)
                  ∙ update_self eq.front e (s t).event_wait_next))
                q.links.1;
          ends =
              head_back s eq e v t
              ∙ back_left (s t).event_wait_next (eq.back e) t ts q.links.1 q.ends;
          distinct = q.distinct.1;
          blocked = q.blocked.1;
        }))
        (λ f ne. (
          ap (λ (g : ℕ → Option ℕ). g f) (head_front s eq e v t) ∙ update_ne eq.front e f _ ne,
          head_back_others s eq e v t f ne,
          others (ws f) (away f ne).0,
        ))
        (λ f ne. (
          (away f ne).1,
          All-mono (λ u. NotIn u (ws e)) (λ u. NotIn u ts) (ws f)
              (λ u out. (subst (NotIn u) split out).1) (h.apart f e (λ k. ne (sym k))),
        ))
    where
      back_left :
          (next back : Option ℕ) (t : ℕ) (ts : List ℕ)
          → Links (λ u. (s u).event_wait_next) next ts
          → back ≡ last? (t ∷ ts)
          → (if is_none next then none else back) ≡ last? ts
      back_left next back t [] links ends = rw links
      back_left next back t (u ∷ ts) links ends = rw (links.0, ends)

  -- `event_queue_unblock_one` wakes the task that has waited longest: it becomes ready with the value
  -- in x0, the others keep waiting in their order, and no other descriptor changes. With no task
  -- waiting it returns false and changes nothing.
  pub one_lem :
      (s : Tasks) (eq : EventQueue) (ws : ℕ → List ℕ)
      → Waits s eq ws
      → (ws e ≡ [] → event_queue_unblock_one s eq e v ≡ (false, s, eq))
        × ((t : ℕ) (ts : List ℕ)
            → ws e ≡ t ∷ ts
            → let (r, s', eq') = event_queue_unblock_one s eq e v in
              (r ≡ true)
              × Waits s' eq' (update ws e ts)
              × IsUnblocked s' t v
              × ((u : ℕ) → t ≢ u → s' u ≡ s u))
  unfolding event_queue_unblock_one
  one_lem s eq ws h = (
    λ empty.
        let at_front : eq.front e ≡ none =
          (subst (IsWaitQueue s (eq.front e) (eq.back e)) empty (h.queue e)).links in
        rw (at_front, event_queue_unblock_one),
    λ t ts split.
        let at_front : eq.front e ≡ some t =
          (subst (IsWaitQueue s (eq.front e) (eq.back e)) split (h.queue e)).links.0 in
        rw (at_front, event_queue_unblock_one)
          (
            refl,
            head-Waits s eq ws t ts h split,
            head-IsUnblocked s eq e v t,
            head_others s eq e v t,
          ),
  )

  -- What the loop of `event_queue_unblock_all` leaves of the tasks that waited.
  abbrev Emptied : Tasks → (ℕ → List ℕ) → List ℕ → Tasks × EventQueue → Type 0
  Emptied s ws ts r =
      Waits r.0 r.1 (update ws e [])
      × All (λ t. IsUnblocked r.0 t v) ts
      × ((u : ℕ) → NotIn u ts → r.0 u ≡ s u)

  loop_lem :
      (fuel : ℕ) (ts : List ℕ) (s : Tasks) (eq : EventQueue) (ws : ℕ → List ℕ)
      → Waits s eq ws
      → ws e ≡ ts
      → length ts < fuel
      → (r : Tasks × EventQueue) × (unblock_loop fuel s eq e v ≡ ok r) × Emptied s ws ts r
  unfolding unblock_loop
  loop_lem zero ts s eq ws h split enough = absurd (omega arith)
  loop_lem (suc fuel) [] s eq ws h split enough = (
    (s, eq),
    rw ((one_lem s eq ws h).0 split),
    (subst (Waits s eq) (sym (update_same ws e [] split)) h, tt, λ u out. refl),
  )
  loop_lem (suc fuel) (t ∷ ts) s eq ws h split enough =
      let woken = event_queue_unblock_one s eq e v in
      let first = (one_lem s eq ws h).1 t ts split in
      let later =
        loop_lem fuel ts woken.1 woken.2 (update ws e ts) first.1 (update_self ws e ts)
          (omega arith) in
      let out = (subst (IsWaitQueue s (eq.front e) (eq.back e)) split (h.queue e)).distinct.0 in
      let kept : later.0.0 t ≡ woken.1 t = later.2.2 t out in
      (
        later.0,
        rw first.0 later.1,
        (
          subst (Waits later.0.0 later.0.1) (update-update ws e ts []) later.2.0,
          (still-IsUnblocked woken.1 later.0.0 t kept first.2, later.2.1),
          (λ u away. later.2.2 u away.1 ∙ first.3 u (λ k. away.0 (sym k))),
        ),
      )

  -- `event_queue_unblock_all` ends, with fuel for the tasks that wait and one more call. It returns
  -- whether any task waited; all that did are woken with the value, and no other descriptor changes.
  pub all_lem :
      (fuel : ℕ) (s : Tasks) (eq : EventQueue) (ws : ℕ → List ℕ)
      → Waits s eq ws
      → length (ws e) < fuel
      → (s' : Tasks) × (eq' : EventQueue) × (event_queue_unblock_all fuel s eq e v
          ≡ ok (not (is_none (eq.front e)), s', eq'))
        × Waits s' eq' (update ws e [])
        × All (λ t. IsUnblocked s' t v) (ws e)
        × ((u : ℕ) → NotIn u (ws e) → s' u ≡ s u)
  unfolding event_queue_unblock_all
  all_lem fuel s eq ws h enough = elim (Option-cases (eq.front e)) [
    | inl at_front ↦
        let empty : ws e ≡ [] = none_waits (eq.front e) (ws e) (h.queue e).links at_front in
        (
          s,
          eq,
          rw (at_front, event_queue_unblock_all),
          subst (Waits s eq) (sym (update_same ws e [] empty)) h,
          subst (All (λ t. IsUnblocked s t v)) (sym empty) tt,
          (λ u out. refl),
        )
    | inr (t, at_front) ↦
        let (r, returned, emptied) = loop_lem fuel (ws e) s eq ws h refl enough in
        (
          r.0,
          r.1,
          rw (at_front, event_queue_unblock_all) (rw returned),
          emptied.0,
          emptied.1,
          emptied.2,
        )
  ]
    where
      none_waits :
          (p : Option ℕ) (ts : List ℕ)
          → Links (λ u. (s u).event_wait_next) p ts
          → p ≡ none
          → ts ≡ []
      none_waits p [] links at_front = refl
      none_waits p (t ∷ ts) links at_front =
          let wrong : none ≡ some t = sym at_front ∙ links.0 in cc
