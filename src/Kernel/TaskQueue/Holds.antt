-- ===== src/Kernel/TaskQueue/Holds.antt =====
-- What the queues hold: for each priority the list of its descriptors, in order.
use cs452_kernel.Base.{
  ℕ, ◌≤◌, ◌<◌, ◌≡◌, ◌≢◌, Option, List, [], none, ◌∙◌, ap, sym, subst, arith, update, update_ne,
  update_cases,
}
use cs452_kernel.Base.Lists.{All, All-mono}
use cs452_kernel.Kernel.Task.{Task, Tasks, n_priority, set_next}
use cs452_kernel.Kernel.Links.{Links, Links-frame, last?, Distinct, NotIn}
use cs452_kernel.Kernel.TaskQueue.{TaskQueue}

-- One queue: the links from its front go through the list to NULL, its back is the last of the list,
-- no descriptor stands twice, and all are of priority `p`.
pub record IsQueue (s : Tasks) (front back : Option ℕ) (p : ℕ) (ts : List ℕ) : Type 0 where
  pub links : Links (λ t. (s t).next) front ts
  pub ends : back ≡ last? ts
  pub distinct : Distinct ts
  pub level : All (λ t. (s t).priority ≡ p) ts

pub record Holds (s : Tasks) (tq : TaskQueue) (qs : ℕ → List ℕ) : Type 0 where
  pub queue : (p : ℕ) → IsQueue s (tq.front p) (tq.back p) p (qs p)
  pub in_range : (p : ℕ) → n_priority ≤ p → qs p ≡ []

-- A descriptor but for its link.
abbrev pub but_next : Task → Task
but_next t = record t { next = none }

-- Two states of the descriptors agree but for the links.
abbrev pub SameButNext : Tasks → Tasks → Type 0
SameButNext s s' = (t : ℕ) → but_next (s' t) ≡ but_next (s t)

pub level_same :
    (s s' : Tasks) (p : ℕ) (ts : List ℕ)
    → SameButNext s s'
    → All (λ t. (s t).priority ≡ p) ts
    → All (λ t. (s' t).priority ≡ p) ts
level_same s s' p ts same =
    All-mono (λ t. (s t).priority ≡ p) (λ t. (s' t).priority ≡ p) ts
      λ t h. ap (λ (d : Task). d.priority) (same t) ∙ h

pub set_next-SameButNext : (s : Tasks) (u : ℕ) (q : Option ℕ) → SameButNext s (set_next s u q)
set_next-SameButNext s u q t = ground arith

pub SameButNext-trans :
    (s s' s'' : Tasks) → SameButNext s s' → SameButNext s' s'' → SameButNext s s''
SameButNext-trans s s' s'' h k t = k t ∙ h t

-- A list that `u` is not on does not see a write to its link.
pub IsQueue_frame :
    (s : Tasks) (u : ℕ) (q : Option ℕ) (front back : Option ℕ) (p : ℕ) (ts : List ℕ)
    → NotIn u ts
    → IsQueue s front back p ts
    → IsQueue (set_next s u q) front back p ts
IsQueue_frame s u q front back p ts out h = record {
  links =
      Links-frame (λ t. (s t).next) (λ t. (set_next s u q t).next) u front ts
        (λ t ne. ap (λ (d : Task). d.next) (update_ne s u t _ ne)) out h.links;
  ends = h.ends;
  distinct = h.distinct;
  level = level_same s (set_next s u q) p ts (set_next-SameButNext s u q) h.level;
}

-- The descriptors of another priority are other descriptors.
pub NotIn_level :
    (s : Tasks) (u p : ℕ) (ts : List ℕ)
    → (s u).priority ≢ p
    → All (λ t. (s t).priority ≡ p) ts
    → NotIn u ts
NotIn_level s u p ts ne =
    All-mono (λ t. (s t).priority ≡ p) (λ t. u ≢ t) ts
      λ t e same. ne (ap (λ v. (s v).priority) same ∙ e)

-- One queue changed, and the others seen as before.
pub Holds_at :
    {s s' : Tasks} {tq : TaskQueue} {qs : ℕ → List ℕ} (tq' : TaskQueue) (p : ℕ) (ts : List ℕ)
    → Holds s tq qs
    → p < n_priority
    → IsQueue s' (tq'.front p) (tq'.back p) p ts
    → ((r : ℕ) → p ≢ r → (tq'.front r ≡ tq.front r) × (tq'.back r ≡ tq.back r))
    → ((r : ℕ) → p ≢ r → IsQueue s' (tq.front r) (tq.back r) r (qs r))
    → Holds s' tq' (update qs p ts)
Holds_at {s} {s'} {tq} {qs} tq' p ts h room here pointers there = record {
  queue =
      update_cases (λ r l. IsQueue s' (tq'.front r) (tq'.back r) r l) qs p ts here
        λ r ne.
          subst (λ f. IsQueue s' f (tq'.back r) r (qs r)) (sym (pointers r ne).0)
            (subst (λ b. IsQueue s' (tq.front r) b r (qs r)) (sym (pointers r ne).1) (there r ne));
  in_range = λ r le. update_ne qs p r ts (λ e. absurd (omega (arith, e))) ∙ h.in_range r le;
}
