-- ===== src/Kernel/EventQueue/Waits.antt =====
-- What the event queue holds: for each event its waiting tasks, longest wait first; and blocking.
use cs452_kernel.Base.{
  ℕ, ◌<◌, ◌≤◌, ◌≡◌, refl, sym, ap, subst, ◌∙◌, ◌≢◌, inl, inr, List, [], ◌∷◌, ◌++◌, Option, none,
  some, arith, update, update_self, update_ne, update_cases, Option-cases, true, false, pos, negsuc,
  lt→ltb,
}
use cs452_kernel.Base.Lists.{All, All-mono, All-mono₂, All-append}
use cs452_kernel.Kernel.Task.{
  Task, Tasks, ReadyState, state_event_wait, set_event_wait_next, set_ready_state,
}
use cs452_kernel.Kernel.Links.{
  Links, Links-congr, Links-snoc, last?, last?-snoc, last?-none, NotIn, NotIn-last?, All-last?,
  Distinct, Distinct-snoc,
}
use cs452_kernel.Kernel.EventQueue.{
  EventQueue, n_events, event_queue_init, event_queue_block, block_valid,
}

-- One event's queue: its links go through the list to NULL, its back is the last of the list, no
-- task stands twice, and every task of the list is blocked on an event.
pub record IsWaitQueue (s : Tasks) (front back : Option ℕ) (ts : List ℕ) : Type 0 where
  pub links : Links (λ t. (s t).event_wait_next) front ts
  pub ends : back ≡ last? ts
  pub distinct : Distinct ts
  pub blocked : All (λ t. (s t).ready_state ≡ state_event_wait) ts

-- No task waits for two events.
pub record Waits (s : Tasks) (eq : EventQueue) (ws : ℕ → List ℕ) : Type 0 where
  pub queue : (e : ℕ) → IsWaitQueue s (eq.front e) (eq.back e) (ws e)
  pub apart : (e f : ℕ) → e ≢ f → All (λ t. NotIn t (ws f)) (ws e)

pub init-Waits : (s : Tasks) (eq : EventQueue) → Waits s (event_queue_init eq) (λ _. [])
unfolding event_queue_init
init-Waits s eq = record {
  queue = λ e. record { links = refl; ends = refl; distinct = tt; blocked = tt };
  apart = λ e f ne. tt;
}

-- Two states agree on the wait links and states of the tasks of a list.
abbrev pub SameWaits : Tasks → Tasks → List ℕ → Type 0
SameWaits s s' = All (λ t.
    ((s' t).event_wait_next ≡ (s t).event_wait_next) × ((s' t).ready_state ≡ (s t).ready_state))

pub IsWaitQueue-same :
    (s s' : Tasks) (front back : Option ℕ) (ts : List ℕ)
    → SameWaits s s' ts
    → IsWaitQueue s front back ts
    → IsWaitQueue s' front back ts
IsWaitQueue-same s s' front back ts same h = record {
  links =
      Links-congr (λ t. (s t).event_wait_next) (λ t. (s' t).event_wait_next) front ts
        (All-mono _ (λ t. (s' t).event_wait_next ≡ (s t).event_wait_next) ts (λ t e. e.0) same)
        h.links;
  ends = h.ends;
  distinct = h.distinct;
  blocked =
      All-mono₂ _ (λ t. (s t).ready_state ≡ state_event_wait)
        (λ t. (s' t).ready_state ≡ state_event_wait) ts (λ t e b. e.1 ∙ b) same h.blocked;
}

-- What a task must be to be blocked: in no queue, and with its wait link cleared.
pub record IsLoose (s : Tasks) (ws : ℕ → List ℕ) (t : ℕ) : Type 0 where
  pub unlinked : (s t).event_wait_next ≡ none
  pub nowhere : (e : ℕ) → NotIn t (ws e)

abbrev pub wait_list : (ℕ → List ℕ) → ℕ → ℕ → ℕ → List ℕ
wait_list ws e t = update ws e (ws e ++ t ∷ [])

-- One queue changed, and the others seen as before.
pub Waits_at :
    {s s' : Tasks} {eq : EventQueue} {ws : ℕ → List ℕ} (eq' : EventQueue) (e : ℕ) (ts : List ℕ)
    → Waits s eq ws
    → IsWaitQueue s' (eq'.front e) (eq'.back e) ts
    → ((f : ℕ)
        → e ≢ f
        → (eq'.front f ≡ eq.front f) × (eq'.back f ≡ eq.back f) × SameWaits s s' (ws f))
    → ((f : ℕ) → e ≢ f → All (λ t. NotIn t (ws f)) ts × All (λ t. NotIn t ts) (ws f))
    → Waits s' eq' (update ws e ts)
Waits_at {s} {s'} {eq} {ws} eq' e ts h here there away = record {
  queue =
      update_cases (λ f l. IsWaitQueue s' (eq'.front f) (eq'.back f) l) ws e ts here
        λ f ne.
          subst (λ p. IsWaitQueue s' p (eq'.back f) (ws f)) (sym (there f ne).0)
            (subst (λ p. IsWaitQueue s' (eq.front f) p (ws f)) (sym (there f ne).1)
              (IsWaitQueue-same s s' (eq.front f) (eq.back f) (ws f) (there f ne).2 (h.queue f)));
  apart = λ f g.
      update_cases (λ f' l. f' ≢ g → All (λ t. NotIn t (update ws e ts g)) l) ws e ts
        (λ ne. subst (λ l. All (λ t. NotIn t l) ts) (sym (update_ne ws e g ts ne)) (away g ne).0)
        (λ f' ne ne'.
          update_cases (λ g' l. f' ≢ g' → All (λ t. NotIn t l) (ws f')) ws e ts
            (λ _. (away f' ne).1) (λ g' _ ne''. h.apart f' g' ne'') g ne')
        f;
}

-- Looked at from the other side: no task of the list is `t`.
NotIn_sym : (t : ℕ) (ts : List ℕ) → NotIn t ts → All (λ u. u ≢ t) ts
NotIn_sym t ts = All-mono (λ u. t ≢ u) (λ u. u ≢ t) ts λ u ne e. ne (sym e)

All-and {ℓ κ} :
    (P : ℕ → Type ℓ) (Q : ℕ → Type κ) (ts : List ℕ) → All P ts → All Q ts → All (λ t. P t × Q t) ts
All-and P Q ts = All-mono₂ P Q (λ t. P t × Q t) ts λ t p q. (p, q)

link_state :
    (s : Tasks) (t u : ℕ) (r : ReadyState)
    → (set_ready_state s t r u).event_wait_next ≡ (s u).event_wait_next
link_state s t u r = ground arith

still_blocked :
    (s : Tasks) (b u t : ℕ)
    → (s u).ready_state ≡ state_event_wait
    → (set_ready_state (set_event_wait_next s b (some t)) t state_event_wait u).ready_state
      ≡ state_event_wait
still_blocked s b u t k = ground arith

-- A write to a descriptor is not seen by a list that it is not on.
pub frame :
    (s : Tasks) (t : ℕ) (d : Task) (ts : List ℕ) → NotIn t ts → SameWaits s (update s t d) ts
frame s t d ts =
    All-mono (λ u. t ≢ u) _ ts
      λ u ne. (
        ap (λ (k : Task). k.event_wait_next) (update_ne s t u d ne),
        ap (λ (k : Task). k.ready_state) (update_ne s t u d ne),
      )

pub SameWaits-trans :
    (s s' s'' : Tasks) (ts : List ℕ) → SameWaits s s' ts → SameWaits s' s'' ts → SameWaits s s'' ts
SameWaits-trans s s' s'' ts = All-mono₂ _ _ _ ts λ t h k. (k.0 ∙ h.0, k.1 ∙ h.1)

module _ (s : Tasks) (eq : EventQueue) (ws : ℕ → List ℕ) (t : ℕ) (h : Waits s eq ws)
    (loose : IsLoose s ws t) where
  -- The new last task of a queue is in no other.
  block_away :
      (e f : ℕ)
      → e ≢ f
      → All (λ u. NotIn u (ws f)) (ws e ++ t ∷ []) × All (λ u. NotIn u (ws e ++ t ∷ [])) (ws f)
  block_away e f ne = (
    All-append (λ u. NotIn u (ws f)) (ws e) (t ∷ []) (h.apart e f ne) (loose.nowhere f, tt),
    All-mono₂ (λ u. NotIn u (ws e)) (λ u. u ≢ t) (λ u. NotIn u (ws e ++ t ∷ [])) (ws f)
        (λ u out other. All-append (λ v. u ≢ v) (ws e) (t ∷ []) out (other, tt))
        (h.apart f e (λ k. ne (sym k))) (NotIn_sym t (ws f) (loose.nowhere f)),
  )

  abbrev Blocks : ℕ → Tasks × EventQueue → Type 0
  Blocks e r = Waits r.0 r.1 (wait_list ws e t)

  block_first : (e : ℕ) → eq.back e ≡ none → Blocks e (block_valid s eq t e)
  unfolding block_valid
  block_first e at_back =
      let empty : ws e ≡ [] = last?-none (ws e) (sym (h.queue e).ends ∙ at_back) in
      rw (at_back, block_valid)
        (Waits_at _ e (ws e ++ t ∷ []) h
          (subst
            (λ l.
              IsWaitQueue (set_ready_state s t state_event_wait) (update eq.front e (some t) e)
                (update eq.back e (some t) e) (l ++ t ∷ []))
            (sym empty)
            (record {
              links = (
                update_self eq.front e (some t),
                link_state s t t state_event_wait ∙ loose.unlinked,
              );
              ends = update_self eq.back e (some t);
              distinct = (tt, tt);
              blocked = (ap (λ (d : Task). d.ready_state) (update_self s t _), tt);
            }))
          (λ f ne. (
            update_ne eq.front e f (some t) ne,
            update_ne eq.back e f (some t) ne,
            frame s t _ (ws f) (loose.nowhere f),
          ))
          (block_away e))

  block_behind : (e b : ℕ) → eq.back e ≡ some b → Blocks e (block_valid s eq t e)
  unfolding block_valid
  block_behind e b at_back =
      let last : last? (ws e) ≡ some b = sym (h.queue e).ends ∙ at_back in
      let apart : t ≢ b = NotIn-last? t b (ws e) (loose.nowhere e) last in
      let s₁ = set_event_wait_next s b (some t) in
      let s₂ = set_ready_state s₁ t state_event_wait in
      rw (at_back, block_valid)
        (Waits_at _ e (ws e ++ t ∷ []) h
          (record {
            links =
                Links-snoc (λ u. (s u).event_wait_next) (λ u. (s₂ u).event_wait_next) (eq.front e)
                  (ws e) b t (h.queue e).links (h.queue e).distinct last
                  (λ u ne.
                    link_state s₁ t u state_event_wait
                    ∙ ap (λ (d : Task). d.event_wait_next) (update_ne s b u _ ne))
                  (link_state s₁ t b state_event_wait
                    ∙ ap (λ (d : Task). d.event_wait_next) (update_self s b _))
                  (link_state s₁ t t state_event_wait
                    ∙ ap (λ (d : Task). d.event_wait_next) (update_ne s b t _ (λ k. apart (sym k)))
                    ∙ loose.unlinked);
            ends = update_self eq.back e (some t) ∙ sym (last?-snoc (ws e) t);
            distinct = Distinct-snoc (ws e) t (h.queue e).distinct (loose.nowhere e);
            blocked =
                All-append (λ u. (s₂ u).ready_state ≡ state_event_wait) (ws e) (t ∷ [])
                  (All-mono (λ u. (s u).ready_state ≡ state_event_wait)
                    (λ u. (s₂ u).ready_state ≡ state_event_wait) (ws e)
                    (λ u k. still_blocked s b u t k) (h.queue e).blocked)
                  (ap (λ (d : Task). d.ready_state) (update_self s₁ t _), tt);
          })
          (λ f ne. (
            refl,
            update_ne eq.back e f (some t) ne,
            SameWaits-trans s s₁ s₂ (ws f)
                (frame s b _ (ws f)
                  (All-last? (λ u. NotIn u (ws f)) b (ws e) (h.apart e f ne) last))
                (frame s₁ t _ (ws f) (loose.nowhere f)),
          ))
          (block_away e))

-- `event_queue_block` accepts exactly the four events. A task that is in no queue then waits behind
-- the others of the event; for any other number, a negative one included, it returns false and nothing
-- changes.
pub block_lem :
    (s : Tasks) (eq : EventQueue) (ws : ℕ → List ℕ) (t e : ℕ)
    → Waits s eq ws
    → IsLoose s ws t
    → (e < n_events
        → let (r, s', eq') = event_queue_block s eq t (pos e) in
          (r ≡ true) × Waits s' eq' (wait_list ws e t))
      × (n_events ≤ e → event_queue_block s eq t (pos e) ≡ (false, s, eq))
      × ((n : ℕ) → event_queue_block s eq t (negsuc n) ≡ (false, s, eq))
unfolding event_queue_block
block_lem s eq ws t e h loose =
    (λ lt. rw (lt→ltb e n_events lt) (refl, blocked), (λ le. ground arith), λ n. refl)
  where
    blocked : Waits (block_valid s eq t e).0 (block_valid s eq t e).1 (wait_list ws e t)
    blocked = elim (Option-cases (eq.back e)) [
      | inl none_back ↦ block_first s eq ws t h loose e none_back
      | inr (b, some_back) ↦ block_behind s eq ws t h loose e b some_back
    ]
