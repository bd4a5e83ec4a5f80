-- ===== src/Kernel/TaskQueue/Schedule.antt =====
-- `task_queue_schedule` takes the first runnable task of the highest priority that has one.
use native.Mathlib.Decide.{ℕ_discrete}
use cs452_kernel.Base.{
  ℕ, zero, suc, ◌<◌, ◌≤◌, ◌≡◌, refl, sym, subst, ◌∙◌, inl, inr, ◌⊎◌, List, [], ◌∷◌, ◌++◌,
  append-nil, append_assoc, Option, none, some, arith, update, Bool-cases, true, false, Outcome, ok,
}
use cs452_kernel.Base.Lists.{All, All-append, length}
use cs452_kernel.Kernel.Task.{Tasks, n_priority, is_ready_or_killed}
use cs452_kernel.Kernel.Links.{Links, last?, last?-snoc, last?-none}
use cs452_kernel.Kernel.TaskQueue.{
  TaskQueue, schedule_scan, schedule_from, task_queue_schedule, task_queue_priority_is_empty,
}
use cs452_kernel.Kernel.TaskQueue.Holds.{Holds, SameButNext}
use cs452_kernel.Kernel.TaskQueue.Scan.{unlink-Removed}

-- A task that can be picked, and one that is passed over.
abbrev pub Runnable : Tasks → ℕ → Type 0
Runnable s t = is_ready_or_killed (s t).ready_state ≡ true

abbrev pub Blocked : Tasks → ℕ → Type 0
Blocked s t = is_ready_or_killed (s t).ready_state ≡ false

abbrev pub Result : Type 0
Result = Outcome (Option (ℕ × Tasks × TaskQueue))

-- `c` was picked from the queue of `p`, behind blocked tasks alone: it has left the queue, the others
-- stay in their order, and of the descriptors only links have changed.
pub record Picked (s : Tasks) (qs : ℕ → List ℕ) (p : ℕ) (r : Result) : Type 0 where
  pub pre : List ℕ
  pub c : ℕ
  pub post : List ℕ
  pub split : qs p ≡ pre ++ c ∷ post
  pub passed : All (Blocked s) pre
  pub runnable : Runnable s c
  pub s' : Tasks
  pub tq' : TaskQueue
  pub returned : r ≡ ok (some (c, s', tq'))
  pub holds : Holds s' tq' (update qs p (pre ++ post))
  pub same : SameButNext s s'
  pub cleared : (s' c).next ≡ none

module _ (s : Tasks) (tq : TaskQueue) (qs : ℕ → List ℕ) (h : Holds s tq qs) where
  abbrev Scanned : ℕ → Result → Type 0
  Scanned p r = ((r ≡ ok none) × All (Blocked s) (qs p)) ⊎ Picked s qs p r

  scan_lem :
      (fuel p : ℕ) (pre suf : List ℕ) (cur : Option ℕ)
      → p < n_priority
      → qs p ≡ pre ++ suf
      → All (Blocked s) pre
      → Links (λ t. (s t).next) cur suf
      → length suf < fuel
      → Scanned p (schedule_scan fuel s tq p (last? pre) cur)
  unfolding schedule_scan
  scan_lem zero p pre suf cur room split passed links enough = absurd (omega arith)
  scan_lem (suc fuel) p pre [] cur room split passed links enough =
      rw links (inl (refl, subst (All (Blocked s)) (sym (split ∙ append-nil pre)) passed))
  scan_lem (suc fuel) p pre (c ∷ suf) cur room split passed links enough =
      elim (Bool-cases (is_ready_or_killed (s c).ready_state)) [
        | inl run ↦
            let (r, e, removed) = unlink-Removed s tq qs p pre c suf h room split in
            rw links.0 (
              inr (record {
                pre = pre;
                c = c;
                post = suf;
                split = split;
                passed = passed;
                runnable = run;
                s' = r.0;
                tq' = r.1;
                returned = rw (run, e);
                holds = removed.0;
                same = removed.1;
                cleared = removed.2;
              }))
        | inr wait ↦
            rw (links.0, wait)
              (subst (λ l. Scanned p (schedule_scan fuel s tq p l (s c).next)) (last?-snoc pre c)
                (scan_lem fuel p (pre ++ c ∷ []) suf (s c).next room
                  (split ∙ sym (append_assoc pre (c ∷ []) suf))
                  (All-append (Blocked s) pre (c ∷ []) passed (wait, tt)) links.1 (omega arith)))
      ]

  -- What is returned with the `n` lowest priorities left to look at.
  Chosen : ℕ → Result → Type 0
  Chosen n r =
      ((r ≡ ok none) × ((p : ℕ) → p < n → All (Blocked s) (qs p)))
      ⊎ ((p : ℕ) × (p < n) × ((q : ℕ) → p < q → q < n → All (Blocked s) (qs q)) × Picked s qs p r)

  empty_lem : (p : ℕ) → task_queue_priority_is_empty tq p ≡ true → qs p ≡ []
  unfolding task_queue_priority_is_empty
  empty_lem p e =
      let at_back : tq.back p ≡ none = ground arith in
      last?-none (qs p) (sym (h.queue p).ends ∙ at_back)

  -- A priority that has no runnable task is passed over.
  widen : (p : ℕ) (r : Result) → All (Blocked s) (qs p) → Chosen p r → Chosen (suc p) r
  unfolding Chosen
  widen p r blocked (inl (e, all)) = inl (
    e,
    λ q below. elim (ℕ_discrete p q) [
      | yes same ↦ subst (λ k. All (Blocked s) (qs k)) same blocked
      | no ne ↦ all q (omega arith)
    ],
  )
  widen p r blocked (inr (k, lt, above, picked)) = inr (
    k,
    omega arith,
    λ q lo below. elim (ℕ_discrete p q) [
      | yes same ↦ subst (λ k'. All (Blocked s) (qs k')) same blocked
      | no ne ↦ above q lo (omega arith)
    ],
    picked,
  )

  from_lem :
      (fuel n : ℕ)
      → n ≤ n_priority
      → ((p : ℕ) → length (qs p) < fuel)
      → Chosen n (schedule_from fuel n s tq)
  unfolding schedule_from Chosen
  from_lem fuel zero le enough = inl (refl, λ p below. absurd (omega arith))
  from_lem fuel (suc p) le enough = elim (Bool-cases (task_queue_priority_is_empty tq p)) [
    | inl e ↦ rw e (
        widen p _ (subst (All (Blocked s)) (sym (empty_lem p e)) tt)
          (from_lem fuel p (omega arith) enough))
    | inr e ↦
        rw e
          (elim (scan_lem fuel p [] (qs p) (tq.front p) (omega arith) refl tt (h.queue p).links
            (enough p)) [
              | inl (nothing, blocked) ↦
                  rw nothing (widen p _ blocked (from_lem fuel p (omega arith) enough))
              | inr picked ↦ rw picked.returned (
                  inr (
                    p,
                    omega arith,
                    (λ q lo below. absurd (omega arith)),
                    subst (Picked s qs p) picked.returned picked,
                  ))
            ])
  ]

  -- With fuel for the longest queue the scheduler ends without a fault. It picks the first runnable
  -- task of a priority above which every queued task is blocked, or finds every queued task blocked.
  pub schedule_lem :
      (fuel : ℕ)
      → ((p : ℕ) → length (qs p) < fuel)
      → let r = task_queue_schedule fuel s tq in
        ((r ≡ ok none) × ((p : ℕ) → p < n_priority → All (Blocked s) (qs p)))
        ⊎ ((p : ℕ) × (p < n_priority)
            × ((q : ℕ) → p < q → q < n_priority → All (Blocked s) (qs q))
            × Picked s qs p r)
  unfolding task_queue_schedule Chosen
  schedule_lem fuel enough = from_lem fuel n_priority (omega arith) enough
