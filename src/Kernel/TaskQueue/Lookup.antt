-- ===== src/Kernel/TaskQueue/Lookup.antt =====
-- `task_queue_get` and the choice of a free task id.
use cs452_kernel.Base.{
  ℕ, zero, suc, ◌+◌, ◌-◌, ◌<◌, ◌≤◌, ◌≡◌, refl, sym, subst, ◌∙◌, ◌≢◌, inl, inr, ◌⊎◌, List, [], ◌∷◌,
  ◌++◌, append-nil, append_assoc, Option, none, some, arith, ◌==◌, if◌then◌else◌, false, Outcome,
  ok, ==_iff, ℤ, pos, minus_one,
}
use native.Mathlib.Decide.{ℕ_discrete}
use cs452_kernel.Base.Lists.{All, All-append, length}
use cs452_kernel.Kernel.Task.{Tasks, n_priority}
use cs452_kernel.Kernel.Links.{Links}
use cs452_kernel.Kernel.TaskQueue.{
  TaskQueue, get_scan, get_from, task_queue_get, get_tid_from, task_queue_get_tid, uint16_max,
  wrap_around_tid,
}
use cs452_kernel.Kernel.TaskQueue.Holds.{Holds}

abbrev pub OtherTid : Tasks → ℕ → ℕ → Type 0
OtherTid s tid t = (s t).tid ≢ tid

-- No queued task has the id.
abbrev pub IsFree : Tasks → (ℕ → List ℕ) → ℕ → Type 0
IsFree s qs tid = (p : ℕ) → p < n_priority → All (OtherTid s tid) (qs p)

-- The first task of queue `p` that has the id.
pub record Found (s : Tasks) (qs : ℕ → List ℕ) (tid p : ℕ) (t : ℕ) : Type 0 where
  pub level : p < n_priority
  pub pre : List ℕ
  pub post : List ℕ
  pub split : qs p ≡ pre ++ t ∷ post
  pub others : All (OtherTid s tid) pre
  pub has_tid : (s t).tid ≡ tid

module _ (s : Tasks) (tq : TaskQueue) (qs : ℕ → List ℕ) (h : Holds s tq qs) where
  scan_lem :
      (fuel tid p : ℕ) (pre suf : List ℕ) (cur : Option ℕ)
      → p < n_priority
      → qs p ≡ pre ++ suf
      → All (OtherTid s tid) pre
      → Links (λ t. (s t).next) cur suf
      → length suf < fuel
      → ((get_scan fuel s tid cur ≡ ok none) × All (OtherTid s tid) (qs p))
        ⊎ ((t : ℕ) × (get_scan fuel s tid cur ≡ ok (some t)) × Found s qs tid p t)
  unfolding get_scan
  scan_lem zero tid p pre suf cur room split others links enough = absurd (omega arith)
  scan_lem (suc fuel) tid p pre [] cur room split others links enough =
      rw links (inl (refl, subst (All (OtherTid s tid)) (sym (split ∙ append-nil pre)) others))
  scan_lem (suc fuel) tid p pre (c ∷ suf) cur room split others links enough =
      elim (ℕ_discrete (s c).tid tid) [
        | yes same ↦
            rw (links.0, (==_iff (s c).tid tid).1 same)
              (inr (
                c,
                refl,
                record {
                  level = room;
                  pre = pre;
                  post = suf;
                  split = split;
                  others = others;
                  has_tid = same;
                },
              ))
        | no ne ↦
            let miss : ((s c).tid == tid) ≡ false = ground arith in
            rw (links.0, miss)
              (scan_lem fuel tid p (pre ++ c ∷ []) suf (s c).next room
                (split ∙ sym (append_assoc pre (c ∷ []) suf))
                (All-append (OtherTid s tid) pre (c ∷ []) others (ne, tt)) links.1 (omega arith))
      ]

  -- No task of a queue above `p` and below `n` has the id.
  abbrev pub IsMissed : ℕ → ℕ → ℕ → Type 0
  IsMissed tid p n = (q : ℕ) → p < q → q < n → All (OtherTid s tid) (qs q)

  from_lem :
      (fuel tid n : ℕ)
      → n ≤ n_priority
      → ((p : ℕ) → length (qs p) < fuel)
      → ((get_from fuel n s tq tid ≡ ok none) × ((p : ℕ) → p < n → All (OtherTid s tid) (qs p)))
        ⊎ ((t : ℕ) × (p : ℕ) × (get_from fuel n s tq tid ≡ ok (some t))
            × Found s qs tid p t
            × IsMissed tid p n)
  unfolding get_from
  from_lem fuel tid zero le enough = inl (refl, λ p below. absurd (omega arith))
  from_lem fuel tid (suc p) le enough =
      elim (scan_lem fuel tid p [] (qs p) (tq.front p) (omega arith) refl tt (h.queue p).links
        (enough p)) [
          | inr (t, e, found) ↦
              rw (e, get_from) (inr (t, p, refl, found, λ q above below. absurd (omega arith)))
          | inl (e, miss) ↦
              rw (e, get_from)
                (elim (from_lem fuel tid p (omega arith) enough) [
                  | inr (t, q, e', found, higher) ↦ inr (
                    t,
                    q,
                    e',
                    found,
                    λ r above below. elim (ℕ_discrete p r) [
                      | yes same ↦ subst (λ k. All (OtherTid s tid) (qs k)) same miss
                      | no ne ↦ higher r above (omega arith)
                    ],
                  )
                  | inl (e', lower) ↦ inl (
                    e',
                    λ q below. elim (ℕ_discrete p q) [
                      | yes same ↦ subst (λ k. All (OtherTid s tid) (qs k)) same miss
                      | no ne ↦ lower q (omega arith)
                    ],
                  )
                ])
        ]

  -- With fuel for the longest queue the lookup ends without a fault. It returns NULL, and then no
  -- queued task has the id, or the first task with the id of its queue, and then no task of a queue of
  -- a higher priority has it.
  pub get_lem :
      (fuel tid : ℕ)
      → ((p : ℕ) → length (qs p) < fuel)
      → ((task_queue_get fuel s tq tid ≡ ok none) × IsFree s qs tid)
        ⊎ ((t : ℕ) × (p : ℕ) × (task_queue_get fuel s tq tid ≡ ok (some t))
            × Found s qs tid p t
            × IsMissed tid p n_priority)
  unfolding task_queue_get
  get_lem fuel tid enough = from_lem fuel tid n_priority (omega arith) enough

  -- A queued task has the id.
  abbrev pub IsTaken : ℕ → Type 0
  IsTaken tid = (t : ℕ) × (p : ℕ) × Found s qs tid p t

  -- The id `tid` is chosen from `first` on: no queued task has it, and each id before it is taken.
  pub record IsChosen (first tid : ℕ) : Type 0 where
    pub from : first ≤ tid
    pub small : tid ≤ uint16_max
    pub free : IsFree s qs tid
    pub taken : (k : ℕ) → first ≤ k → k < tid → IsTaken k

  -- What a search from `first` on returns.
  abbrev pub Searched : ℕ → Outcome (ℤ × TaskQueue) → Type 0
  Searched first r =
      ((r ≡ ok (minus_one, tq)) × ((k : ℕ) → first ≤ k → k ≤ uint16_max → IsTaken k))
      ⊎ ((tid : ℕ) × (r ≡ ok (pos tid, record tq { global_tid = tid })) × IsChosen first tid)

  -- A search that starts one further on, past an id that is taken.
  step_on :
      (first : ℕ) (r : Outcome (ℤ × TaskQueue))
      → IsTaken first
      → Searched (first + 1) r
      → Searched first r
  step_on first r here (inl (e, all)) = inl (
    e,
    λ k lo hi. elim (ℕ_discrete first k) [
      | yes same ↦ subst IsTaken same here
      | no ne ↦ all k (omega arith) hi
    ],
  )
  step_on first r here (inr (tid, e, chosen)) = inr (
    tid,
    e,
    record {
      from = omega (arith, chosen.from);
      small = chosen.small;
      free = chosen.free;
      taken = λ k lo hi. elim (ℕ_discrete first k) [
        | yes same ↦ subst IsTaken same here
        | no ne ↦ chosen.taken k (omega arith) hi
      ];
    },
  )

  tid_from_lem :
      (fuel n first : ℕ)
      → ((p : ℕ) → length (qs p) < fuel)
      → n + first ≡ uint16_max + 1
      → Searched first (get_tid_from fuel n s tq first)
  unfolding get_tid_from
  tid_from_lem fuel zero first enough total = inl (refl, λ k lo hi. absurd (omega arith))
  tid_from_lem fuel (suc n) first enough total = elim (get_lem fuel first enough) [
    | inl (e, free) ↦
        rw (e, get_tid_from)
          (inr (
            first,
            refl,
            record {
              from = omega arith;
              small = omega arith;
              free = free;
              taken = λ k lo hi. absurd (omega arith);
            },
          ))
    | inr (t, p, e, found, higher) ↦
        rw (e, get_tid_from)
          (step_on first _ (t, p, found) (tid_from_lem fuel n (first + 1) enough (omega arith)))
  ]

  -- The first id that a search looks at.
  abbrev pub first_tid : ℕ
  first_tid = if tq.global_tid == uint16_max then wrap_around_tid else tq.global_tid + 1

  -- `task_queue_get_tid` gives the first id from `first_tid` on that no queued task has, and remembers
  -- it; it gives -1, and leaves the queue, exactly when every such id up to UINT16_MAX is taken.
  pub get_tid_lem :
      (fuel : ℕ)
      → ((p : ℕ) → length (qs p) < fuel)
      → tq.global_tid ≤ uint16_max
      → Searched first_tid (task_queue_get_tid fuel s tq)
  unfolding task_queue_get_tid
  get_tid_lem fuel enough small =
      tid_from_lem fuel (uint16_max + 1 - first_tid) first_tid enough (ground arith)
