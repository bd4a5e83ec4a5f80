-- ===== src/Kernel/TaskQueue/Push.antt =====
-- `task_queue_init` and `task_queue_push`.
use cs452_kernel.Base.{
  ℕ, ◌<◌, ◌≡◌, refl, sym, ap, subst, ◌∙◌, ◌≢◌, inl, inr, List, [], ◌∷◌, ◌++◌, none, some, update,
  update_self, update_ne, Option-cases,
}
use cs452_kernel.Base.Lists.{All-append}
use cs452_kernel.Kernel.Task.{Task, Tasks, n_priority, set_next}
use cs452_kernel.Kernel.Links.{
  Links-snoc, last?, last?-snoc, last?-none, NotIn-last?, All-last?, NotIn, Distinct-snoc,
}
use cs452_kernel.Kernel.TaskQueue.{TaskQueue, task_queue_init, task_queue_push}
use cs452_kernel.Kernel.TaskQueue.Holds.{
  IsQueue, Holds, SameButNext, level_same, IsQueue_frame, NotIn_level, Holds_at,
  set_next-SameButNext, SameButNext-trans,
}

-- The fresh queue holds nothing.
pub init-Holds : (s : Tasks) (tq : TaskQueue) → Holds s (task_queue_init tq) (λ _. [])
unfolding task_queue_init
init-Holds s tq = record {
  queue = λ p. record { links = refl; ends = refl; distinct = tt; level = tt };
  in_range = λ p h. refl;
}

-- The two cases of a push, without and with a descriptor at the back.
unfoldable pub pushed_first : Tasks → TaskQueue → ℕ → Tasks × TaskQueue
pushed_first s tq t = (
  set_next s t none,
  record tq {
    front = update tq.front (s t).priority (some t);
    back = update tq.back (s t).priority (some t);
  },
)

unfoldable pub pushed_behind : Tasks → TaskQueue → ℕ → ℕ → Tasks × TaskQueue
pushed_behind s tq t b = (
  set_next (set_next s t none) b (some t),
  record tq { back = update tq.back (s t).priority (some t) },
)

pub push_none_lem :
    (s : Tasks) (tq : TaskQueue) (t : ℕ)
    → tq.back (s t).priority ≡ none
    → task_queue_push s tq t ≡ pushed_first s tq t
unfolding task_queue_push pushed_first
push_none_lem s tq t e = rw (e, task_queue_push)

pub push_some_lem :
    (s : Tasks) (tq : TaskQueue) (t b : ℕ)
    → tq.back (s t).priority ≡ some b
    → task_queue_push s tq t ≡ pushed_behind s tq t b
unfolding task_queue_push pushed_behind
push_some_lem s tq t b e = rw (e, task_queue_push)

module _ (s : Tasks) (tq : TaskQueue) (qs : ℕ → List ℕ) (t : ℕ) (h : Holds s tq qs)
    (room : (s t).priority < n_priority) (out : NotIn t (qs (s t).priority)) where
  cleared : Tasks
  cleared = set_next s t none

  -- The other queues do not see the cleared link.
  elsewhere : (r : ℕ) → (s t).priority ≢ r → IsQueue cleared (tq.front r) (tq.back r) r (qs r)
  unfolding cleared
  elsewhere r ne =
      IsQueue_frame s t none (tq.front r) (tq.back r) r (qs r)
        (NotIn_level s t r (qs r) ne (h.queue r).level) (h.queue r)

  here :
      IsQueue cleared
        (tq.front (s t).priority)
        (tq.back (s t).priority)
        (s t).priority
        (qs (s t).priority)
  unfolding cleared
  here = IsQueue_frame s t none _ _ (s t).priority (qs (s t).priority) out (h.queue (s t).priority)

  abbrev Pushed : Tasks × TaskQueue → Type 0
  Pushed r =
      Holds r.0 r.1 (update qs (s t).priority (qs (s t).priority ++ t ∷ [])) × SameButNext s r.0

  push_first : tq.back (s t).priority ≡ none → Pushed (pushed_first s tq t)
  unfolding pushed_first cleared
  push_first e =
      let p = (s t).priority in
      let empty : qs p ≡ [] = last?-none (qs p) (sym (h.queue p).ends ∙ e) in
      (
        Holds_at _ p (qs p ++ t ∷ []) h room
            (subst
              (λ l.
                IsQueue cleared (update tq.front p (some t) p) (update tq.back p (some t) p) p
                  (l ++ t ∷ []))
              (sym empty)
              (record {
                links = (
                  update_self tq.front p (some t),
                  ap (λ (d : Task). d.next) (update_self s t _),
                );
                ends = update_self tq.back p (some t);
                distinct = (tt, tt);
                level = (ap (λ (d : Task). d.priority) (update_self s t _), tt);
              }))
            (λ r ne. (update_ne tq.front p r (some t) ne, update_ne tq.back p r (some t) ne))
            elsewhere,
        set_next-SameButNext s t none,
      )

  push_behind : (b : ℕ) → tq.back (s t).priority ≡ some b → Pushed (pushed_behind s tq t b)
  unfolding pushed_behind cleared
  push_behind b e =
      let p = (s t).priority in
      let last : last? (qs p) ≡ some b = sym (h.queue p).ends ∙ e in
      let linked = set_next cleared b (some t) in
      let apart : t ≢ b = NotIn-last? t b (qs p) out last in
      let same : SameButNext s linked =
        SameButNext-trans s cleared linked (set_next-SameButNext s t none)
          (set_next-SameButNext cleared b (some t)) in
      let at_p : (cleared b).priority ≡ p =
        ap (λ (d : Task). d.priority) (set_next-SameButNext s t none b)
        ∙ All-last? (λ u. (s u).priority ≡ p) b (qs p) (h.queue p).level last in
      (
        Holds_at _ p (qs p ++ t ∷ []) h room
            (record {
              links =
                  Links-snoc (λ u. (cleared u).next) (λ u. (linked u).next) (tq.front p) (qs p) b t
                    here.links here.distinct last
                    (λ u ne. ap (λ (d : Task). d.next) (update_ne cleared b u _ ne))
                    (ap (λ (d : Task). d.next) (update_self cleared b _))
                    (ap (λ (d : Task). d.next) (update_ne cleared b t _ (λ f. apart (sym f)))
                      ∙ ap (λ (d : Task). d.next) (update_self s t _));
              ends = update_self tq.back p (some t) ∙ sym (last?-snoc (qs p) t);
              distinct = Distinct-snoc (qs p) t (h.queue p).distinct out;
              level = level_same s linked p (qs p ++ t ∷ []) same (
                  All-append (λ u. (s u).priority ≡ p) (qs p) (t ∷ []) (h.queue p).level
                    (refl, tt));
            })
            (λ r ne. (refl, update_ne tq.back p r (some t) ne))
            (λ r ne.
              IsQueue_frame cleared b (some t) (tq.front r) (tq.back r) r (qs r)
                (NotIn_level cleared b r (qs r) (λ f. ne (sym at_p ∙ f)) (elsewhere r ne).level)
                (elsewhere r ne)),
        same,
      )

-- `task_queue_push` of a task of a priority in range that is not on its queue puts it behind the others
-- of its priority; every other queue is as before, and of the descriptors only links change.
pub push-Holds :
    (s : Tasks) (tq : TaskQueue) (qs : ℕ → List ℕ) (t : ℕ)
    → Holds s tq qs
    → (s t).priority < n_priority
    → NotIn t (qs (s t).priority)
    → let (s', tq') = task_queue_push s tq t in
      Holds s' tq' (update qs (s t).priority (qs (s t).priority ++ t ∷ [])) × SameButNext s s'
push-Holds s tq qs t h room out = elim (Option-cases (tq.back (s t).priority)) [
  | inl e ↦ rw (push_none_lem s tq t e) (push_first s tq qs t h room out e)
  | inr (b, e) ↦ rw (push_some_lem s tq t b e) (push_behind s tq qs t h room out b e)
]
