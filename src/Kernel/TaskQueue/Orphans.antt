-- ===== src/Kernel/TaskQueue/Orphans.antt =====
-- `task_queue_free_tid`, which reads the parent of every queued task.
use cs452_kernel.Base.{
  ℕ, zero, suc, ◌<◌, ◌≡◌, ◌≢◌, refl, ap, sym, subst, ◌∙◌, inl, inr, ◌⊎◌, List, [], ◌∷◌, ◌++◌,
  Option, none, some, arith, Option-cases, ◌==◌, if◌then◌else◌, Outcome, ok, fault, null_deref,
}
use native.Mathlib.Decide.{ℕ_discrete}
use cs452_kernel.Base.Lists.{All, All-mono, All-mono₂, All-right, length}
use cs452_kernel.Kernel.Task.{Task, Tasks, n_priority, set_parent}
use cs452_kernel.Kernel.Links.{Links, Links-congr, NotIn, Distinct}
use cs452_kernel.Kernel.TaskQueue.{TaskQueue, free_scan, free_from, task_queue_free_tid}
use cs452_kernel.Kernel.TaskQueue.Holds.{Holds}
use cs452_kernel.Kernel.TaskQueue.Add.{Holds_same}

-- A task of the list has no parent.
abbrev pub HasOrphan : Tasks → List ℕ → Type 0
HasOrphan s [] = ⊥
HasOrphan s (t ∷ ts) = ((s t).parent ≡ none) ⊎ HasOrphan s ts

-- From `s` to `s'` a task lost its parent if that has the id, and is else unchanged.
abbrev pub Settled : Tasks → Tasks → ℕ → ℕ → Type 0
Settled s s' tid t =
    (p : ℕ) × ((s t).parent ≡ some p)
    × ((s p).tid ≡ tid → s' t ≡ record (s t) { parent = none })
    × ((s p).tid ≢ tid → s' t ≡ s t)

-- The fields that the routine reads but does not write.
abbrev Reads : Tasks → Tasks → Type 0
Reads s s' =
    (t : ℕ)
    → ((s' t).priority ≡ (s t).priority) × ((s' t).next ≡ (s t).next) × ((s' t).tid ≡ (s t).tid)

Reads-trans : (s s' s'' : Tasks) → Reads s s' → Reads s' s'' → Reads s s''
Reads-trans s s' s'' h k t = ((k t).0 ∙ (h t).0, (k t).1 ∙ (h t).1, (k t).2 ∙ (h t).2)

HasOrphan-before :
    (s s' : Tasks) (ts : List ℕ) → All (λ t. s' t ≡ s t) ts → HasOrphan s' ts → HasOrphan s ts
HasOrphan-before s s' [] same h = h
HasOrphan-before s s' (t ∷ ts) same (inl e) = inl (sym (ap (λ (d : Task). d.parent) same.0) ∙ e)
HasOrphan-before s s' (t ∷ ts) same (inr h) = inr (HasOrphan-before s s' ts same.1 h)

-- A task that was not changed before the step is settled as seen from the start of it.
Settled-before :
    (s s₁ s' : Tasks) (tid t : ℕ)
    → Reads s s₁
    → s₁ t ≡ s t
    → Settled s₁ s' tid t
    → Settled s s' tid t
Settled-before s s₁ s' tid t reads same (p, has, hit, miss) = (
  p,
  sym (ap (λ (d : Task). d.parent) same) ∙ has,
  (λ e. hit ((reads p).2 ∙ e) ∙ ap (λ (d : Task). record d { parent = none }) same),
  (λ ne. miss (λ e. ne (sym (reads p).2 ∙ e)) ∙ same),
)

-- One that is not changed behind the step stays settled.
Settled-after :
    (s s₁ s' : Tasks) (tid t : ℕ) → s' t ≡ s₁ t → Settled s s₁ tid t → Settled s s' tid t
Settled-after s s₁ s' tid t same (p, has, hit, miss) =
    (p, has, (λ e. same ∙ hit e), (λ ne. same ∙ miss ne))

-- What the loop over one queue comes to.
abbrev Swept : Tasks → ℕ → List ℕ → Outcome Tasks → Type 0
Swept s tid ts r =
    ((r ≡ fault null_deref) × HasOrphan s ts)
    ⊎ ((s' : Tasks) × (r ≡ ok s')
        × Reads s s'
        × All (Settled s s' tid) ts
        × ((t : ℕ) → NotIn t ts → s' t ≡ s t))

-- The step for one task.
module _ (s : Tasks) (tid c p : ℕ) (has : (s c).parent ≡ some p) where
  abbrev stepped : Tasks
  stepped = if (s p).tid == tid then set_parent s c none else s

  step_reads : Reads s stepped
  step_reads t = ground arith

  step_others : (t : ℕ) → c ≢ t → stepped t ≡ s t
  step_others t ne = ground arith

  step-Settled : Settled s stepped tid c
  step-Settled = (p, has, (λ e. ground arith), (λ ne. ground arith))

scan_step :
    (fuel : ℕ) (s : Tasks) (tid : ℕ) (cur : Option ℕ) (c p : ℕ)
    → cur ≡ some c
    → (has : (s c).parent ≡ some p)
    → free_scan (suc fuel) s tid cur ≡ free_scan fuel (stepped s tid c p has) tid (s c).next
unfolding free_scan
scan_step fuel s tid cur c p at has = rw (at, free_scan, has) refl

scan_lem :
    (fuel : ℕ) (s : Tasks) (tid : ℕ) (cur : Option ℕ) (ts : List ℕ)
    → Links (λ t. (s t).next) cur ts
    → Distinct ts
    → length ts < fuel
    → Swept s tid ts (free_scan fuel s tid cur)
unfolding free_scan
scan_lem zero s tid cur ts links distinct enough = absurd (omega arith)
scan_lem (suc fuel) s tid cur [] links distinct enough =
    rw links (inr (s, refl, (λ t. (refl, refl, refl)), tt, λ t out. refl))
scan_lem (suc fuel) s tid cur (c ∷ ts) links distinct enough = elim (Option-cases (s c).parent) [
  | inl orphan ↦ inl (rw (links.0, free_scan, orphan), inl orphan)
  | inr (p, has) ↦
      let s₁ : Tasks = stepped s tid c p has in
      let reads : Reads s s₁ = step_reads s tid c p has in
      let others : All (λ t. s₁ t ≡ s t) ts =
        All-mono (λ t. c ≢ t) (λ t. s₁ t ≡ s t) ts (step_others s tid c p has) distinct.0 in
      let links₁ : Links (λ t. (s₁ t).next) (s c).next ts =
        Links-congr (λ t. (s t).next) (λ t. (s₁ t).next) (s c).next ts
          (All-mono (λ t. s₁ t ≡ s t) (λ t. (s₁ t).next ≡ (s t).next) ts (λ t e. (reads t).1)
            others)
          links.1 in
      subst (Swept s tid (c ∷ ts)) (sym (scan_step fuel s tid cur c p links.0 has))
        (elim (scan_lem fuel s₁ tid (s c).next ts links₁ distinct.1 (omega arith)) [
          | inl (null, orphan) ↦ inl (null, inr (HasOrphan-before s s₁ ts others orphan))
          | inr (s', returned, reads', all, kept) ↦ inr (
            s',
            returned,
            Reads-trans s s₁ s' reads reads',
            (
              Settled-after s s₁ s' tid c (kept c distinct.0) (step-Settled s tid c p has),
              All-mono₂ (λ t. s₁ t ≡ s t) (Settled s₁ s' tid) (Settled s s' tid) ts
                  (λ t. Settled-before s s₁ s' tid t reads) others all,
            ),
            λ t out. kept t out.1 ∙ step_others s tid c p has t (λ e. out.0 (sym e)),
          )
        ])
]

-- A queue of the priorities below `n` has a task without a parent.
abbrev pub IsOrphaned : Tasks → (ℕ → List ℕ) → ℕ → Type 0
IsOrphaned s qs n = (p : ℕ) × (p < n) × HasOrphan s (qs p)

-- The tasks of the queues below `n` are settled, and all others unchanged.
abbrev pub IsFreed : Tasks → Tasks → (ℕ → List ℕ) → ℕ → ℕ → Type 0
IsFreed s s' qs tid n =
    ((p : ℕ) → p < n → All (Settled s s' tid) (qs p))
    × ((t : ℕ) → ((p : ℕ) → p < n → NotIn t (qs p)) → s' t ≡ s t)

-- No task is of two queues.
off_queue :
    (s : Tasks) (tq : TaskQueue) (qs : ℕ → List ℕ) (t p : ℕ)
    → Holds s tq qs
    → (s t).priority ≢ p
    → NotIn t (qs p)
off_queue s tq qs t p h ne =
    All-mono (λ u. (s u).priority ≡ p) (λ u. t ≢ u) (qs p)
      (λ u level e. ne (ap (λ (v : ℕ). (s v).priority) e ∙ level)) (h.queue p).level

from_lem :
    (fuel n tid : ℕ) (s : Tasks) (tq : TaskQueue) (qs : ℕ → List ℕ)
    → Holds s tq qs
    → ((p : ℕ) → length (qs p) < fuel)
    → ((free_from fuel n s tq tid ≡ fault null_deref) × IsOrphaned s qs n)
      ⊎ ((s' : Tasks) × (free_from fuel n s tq tid ≡ ok s') × IsFreed s s' qs tid n)
unfolding free_from
from_lem fuel zero tid s tq qs h enough =
    inr (s, refl, ((λ p lt. absurd (omega arith)), λ t out. refl))
from_lem fuel (suc n) tid s tq qs h enough =
    elim (scan_lem fuel s tid (tq.front n) (qs n) (h.queue n).links (h.queue n).distinct
      (enough n)) [
        | inl (null, orphan) ↦ inl (rw (null, free_from), (n, omega arith, orphan))
        | inr (s₂, returned, reads, here, kept) ↦
            let h₂ : Holds s₂ tq qs =
              Holds_same s s₂ tq tq qs (λ t. ((reads t).0, (reads t).1)) refl refl h in
            let same_at : (q : ℕ) → q < n → All (λ t. s₂ t ≡ s t) (qs q) = λ q lt.
              All-mono (λ t. (s t).priority ≡ q) (λ t. s₂ t ≡ s t) (qs q)
                (λ t level.
                  kept t (off_queue s tq qs t n h λ e. absurd (omega (arith, level, e, lt))))
                (h.queue q).level in
            rw (returned, free_from)
              (elim (from_lem fuel n tid s₂ tq qs h₂ enough) [
                | inl (null, (q, lt, orphan)) ↦
                    inl (null, (q, omega arith, HasOrphan-before s s₂ (qs q) (same_at q lt) orphan))
                | inr (s', returned', (all, kept')) ↦ inr (
                  s',
                  returned',
                  (
                    (λ p lt. elim (ℕ_discrete n p) [
                      | yes same ↦
                          subst (λ q. All (Settled s s' tid) (qs q)) same
                            (All-mono₂ (λ t. (s t).priority ≡ n) (Settled s s₂ tid)
                              (Settled s s' tid) (qs n)
                              (λ t level. Settled-after s s₂ s' tid t (
                                kept' t λ q below.
                                  off_queue s tq qs t q h
                                    λ e. absurd (omega (arith, level, e, below))))
                              (h.queue n).level here)
                      | no ne ↦
                          let below : p < n = omega arith in
                          All-mono₂ (λ t. s₂ t ≡ s t) (Settled s₂ s' tid) (Settled s s' tid) (qs p)
                            (λ t. Settled-before s s₂ s' tid t reads) (same_at p below)
                            (all p below)
                    ]),
                    λ t out. kept' t (λ p lt. out p (omega arith)) ∙ kept t (out n (omega arith)),
                  ),
                )
              ])
      ]

module _ (s : Tasks) (tq : TaskQueue) (qs : ℕ → List ℕ) (h : Holds s tq qs) where
  -- `task_queue_free_tid` ends, with fuel for the longest queue. If a queued task has no parent it
  -- reads a field through NULL. Otherwise every queued task had a parent: one whose parent has the id
  -- loses it and keeps its other fields, and every other task, queued or not, is unchanged.
  pub free_tid_lem :
      (fuel tid : ℕ)
      → ((p : ℕ) → length (qs p) < fuel)
      → ((task_queue_free_tid fuel s tq tid ≡ fault null_deref) × IsOrphaned s qs n_priority)
        ⊎ ((s' : Tasks) × (task_queue_free_tid fuel s tq tid ≡ ok s')
            × IsFreed s s' qs tid n_priority)
  unfolding task_queue_free_tid
  free_tid_lem fuel tid enough = from_lem fuel n_priority tid s tq qs h enough

  -- One queued task without a parent, wherever it stands, makes the routine read a field through NULL,
  -- whichever task is freed.
  pub orphan_faults :
      (fuel tid p c : ℕ) (pre post : List ℕ)
      → ((q : ℕ) → length (qs q) < fuel)
      → p < n_priority
      → qs p ≡ pre ++ c ∷ post
      → (s c).parent ≡ none
      → task_queue_free_tid fuel s tq tid ≡ fault null_deref
  orphan_faults fuel tid p c pre post enough room split orphan =
      elim (free_tid_lem fuel tid enough) [
        | inl (null, _) ↦ null
        | inr (s', returned, (all, kept)) ↦
            let (parent, has, _, _) =
              (All-right (Settled s s' tid) pre (c ∷ post)
                (subst (All (Settled s s' tid)) split (all p room))).0 in
            let wrong : none ≡ some parent = sym orphan ∙ has in absurd cc
      ]
