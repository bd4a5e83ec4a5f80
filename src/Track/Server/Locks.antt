-- ===== src/Track/Server/Locks.antt =====
-- The locks: all of a request or none of it, and never those of another train.
use cs452_kernel.Base.{
  ℕ, zero, suc, ◌+◌, ◌<◌, ◌≤◌, ◌≡◌, ◌≢◌, refl, subst, ◌∙◌, inl, inr, ◌⊎◌, Bool, true, false, not,
  ◌&&◌, ◌||◌, arith, ◌==◌, update, update_self, update_ne, ℤ, pos, negsuc, Bool-cases,
}
use native.Mathlib.Decide.{ℕ_discrete}
use cs452_kernel.Track.Server.{
  LockTable, check_from, check_all_free, lock_from, lock_all_unsafe, lock_one_from, lock_one_safe,
  lock_all_safe, free_from, free_all_from,
}

-- A segment that `train` may lock.
abbrev pub IsFreeFor : ℕ → LockTable → ℕ → Type 0
IsFreeFor train locks segment = (locks segment ≡ 0) ⊎ (locks segment ≡ train)

-- What train `u` held it still holds.
abbrev pub Keeps : ℕ → LockTable → LockTable → Type 0
Keeps u before after = (segment : ℕ) → before segment ≡ u → after segment ≡ u

pub Keeps-trans : (u : ℕ) (a b c : LockTable) → Keeps u a b → Keeps u b c → Keeps u a c
Keeps-trans u a b c h k segment e = k segment (h segment e)

-- A lock of a segment that was free, or the train's own, takes no other train's.
pub update-Keeps :
    (u : ℕ) (locks : LockTable) (segment train : ℕ)
    → u ≢ 0
    → IsFreeFor train locks segment
    → Keeps u locks (update locks segment train)
update-Keeps u locks segment train nz free = λ t e. ground arith

module _ (requested : ℕ → ℕ) (train : ℕ) where
  check_lem :
      (n i : ℕ) (locks : LockTable)
      → ((check_from locks requested train n i ≡ true)
          × ((k : ℕ) → i ≤ k → k < i + n → IsFreeFor train locks (requested k)))
        ⊎ ((check_from locks requested train n i ≡ false)
            × ((k : ℕ) × (k < i + n) × (locks (requested k) ≢ 0) × (locks (requested k) ≢ train)))
  unfolding check_from
  check_lem zero i locks = inl (refl, λ k lo hi. absurd (omega arith))
  check_lem (suc n) i locks =
      elim (Bool-cases (not (locks (requested i) == 0) && not (locks (requested i) == train))) [
        | inl held ↦ inr (rw held, (i, omega arith, ground arith, ground arith))
        | inr open_ ↦
            let here : IsFreeFor train locks (requested i) =
              elim (ℕ_discrete (locks (requested i)) 0) [
                | yes e ↦ inl e
                | no ne ↦ inr (ground arith)
              ] in
            rw open_ (elim (check_lem n (i + 1) locks) [
              | inl (e, all) ↦ inl (
                e,
                λ k lo hi. elim (ℕ_discrete i k) [
                  | yes same ↦ subst (λ j. IsFreeFor train locks (requested j)) same here
                  | no ne ↦ all k (omega arith) (omega arith)
                ],
              )
              | inr (e, (k, lt, a, b)) ↦ inr (e, (k, omega arith, a, b))
            ])
      ]

  -- Each requested segment is the train's after the loop, and the others are as they were.
  lock_lem :
      (n i : ℕ) (locks : LockTable)
      → ((k : ℕ) → i ≤ k → k < i + n → lock_from locks requested train n i (requested k) ≡ train)
        × ((segment : ℕ)
            → ((k : ℕ) → i ≤ k → k < i + n → requested k ≢ segment)
            → lock_from locks requested train n i segment ≡ locks segment)
        × ((segment : ℕ)
            → locks segment ≡ train
            → lock_from locks requested train n i segment ≡ train)
  unfolding lock_from
  lock_lem zero i locks =
      ((λ k lo hi. absurd (omega arith)), (λ segment out. refl), (λ segment e. e))
  lock_lem (suc n) i locks =
      let later = lock_lem n (i + 1) (update locks (requested i) train) in
      (
        (λ k lo hi. elim (ℕ_discrete i k) [
          | yes same ↦ later.2 (requested k) (
              subst (λ j. update locks (requested i) train (requested j) ≡ train) same
                (update_self locks (requested i) train))
          | no ne ↦ later.0 k (omega arith) (omega arith)
        ]),
        (λ segment out.
            later.1 segment (λ k lo hi. out k (omega arith) (omega arith))
            ∙ update_ne locks (requested i) segment train (out i (omega arith) (omega arith))),
        (λ segment e. later.2 segment (ground arith)),
      )

  lock-Keeps :
      (n i u : ℕ) (before locks : LockTable)
      → u ≢ 0
      → ((k : ℕ) → i ≤ k → k < i + n → IsFreeFor train before (requested k))
      → Keeps u before locks
      → Keeps u before (lock_from locks requested train n i)
  unfolding lock_from
  lock-Keeps zero i u before locks nz all h = h
  lock-Keeps (suc n) i u before locks nz all h =
      lock-Keeps n (i + 1) u before (update locks (requested i) train) nz
        (λ k lo hi. all k (omega arith) (omega arith))
        (λ segment e. ground (arith, h segment e, all i (omega arith) (omega arith)))

  one-Keeps :
      (n i u : ℕ) (locks : LockTable)
      → u ≢ 0
      → Keeps u locks (lock_one_from locks requested train n i).1
  unfolding lock_one_from
  one-Keeps zero i u locks nz = λ segment e. e
  one-Keeps (suc n) i u locks nz =
      elim (Bool-cases ((locks (requested i) == 0) || (locks (requested i) == train))) [
        | inl free ↦ rw free (λ segment e. ground arith)
        | inr held ↦ rw held (one-Keeps n (i + 1) u locks nz)
      ]

  -- Segments are freed for the train that asks alone.
  pub free-Keeps :
      (n i u : ℕ) (locks : LockTable)
      → train ≢ u
      → Keeps u locks (free_from locks requested train n i)
  unfolding free_from
  free-Keeps zero i u locks ne = λ segment e. e
  free-Keeps (suc n) i u locks ne = elim (Bool-cases (locks (requested i) == train)) [
    | inl own ↦ rw own (
        Keeps-trans u locks (update locks (requested i) 0)
          (free_from (update locks (requested i) 0) requested train n (i + 1))
          (λ segment e. ground arith) (free-Keeps n (i + 1) u (update locks (requested i) 0) ne))
    | inr other ↦ rw other (free-Keeps n (i + 1) u locks ne)
  ]

-- A request for all of its segments gets them all, each of them free or the train's own before, and
-- leaves the others; or one of them is held by another train, and no lock changes.
pub lock_all_lem :
    (locks : LockTable) (requested : ℕ → ℕ) (n train : ℕ)
    → let (success, locks') = lock_all_safe locks requested n train in
      ((success ≡ true)
        × ((k : ℕ) → k < n → IsFreeFor train locks (requested k) × (locks' (requested k) ≡ train))
        × ((segment : ℕ)
            → ((k : ℕ) → k < n → requested k ≢ segment)
            → locks' segment ≡ locks segment))
      ⊎ ((lock_all_safe locks requested n train ≡ (false, locks))
          × ((k : ℕ) × (k < n) × (locks (requested k) ≢ 0) × (locks (requested k) ≢ train)))
unfolding lock_all_safe check_all_free lock_all_unsafe
lock_all_lem locks requested n train =
    let written = lock_lem requested train n 0 locks in
    elim (check_lem requested train n 0 locks) [
      | inl (e, all) ↦ rw e (
          inl (
            refl,
            (λ k lt. (all k (omega arith) (omega arith), written.0 k (omega arith) (omega arith))),
            (λ segment out. written.1 segment (λ k lo hi. out k (omega arith))),
          ))
      | inr (e, (k, lt, a, b)) ↦ rw e (inr (refl, (k, omega arith, a, b)))
    ]

pub lock_all-Keeps :
    (locks : LockTable) (requested : ℕ → ℕ) (n train u : ℕ)
    → u ≢ 0
    → Keeps u locks (lock_all_safe locks requested n train).1
unfolding lock_all_safe check_all_free lock_all_unsafe
lock_all-Keeps locks requested n train u nz = elim (check_lem requested train n 0 locks) [
  | inl (e, all) ↦ rw e (lock-Keeps requested train n 0 u locks locks nz all (λ segment k. k))
  | inr (e, other) ↦ rw e (λ segment k. k)
]

pub lock_one-Keeps :
    (locks : LockTable) (requested : ℕ → ℕ) (n train u : ℕ)
    → u ≢ 0
    → Keeps u locks (lock_one_safe locks requested n train).1
unfolding lock_one_safe
lock_one-Keeps locks requested n train u nz = one-Keeps requested train n 0 u locks nz

pub free_all-Keeps :
    (n i u train : ℕ) (curr : ℤ) (locks : LockTable)
    → train ≢ u
    → Keeps u locks (free_all_from locks train curr n i)
unfolding free_all_from
free_all-Keeps zero i u train curr locks ne = λ segment e. e
free_all-Keeps (suc n) i u train curr locks ne =
    let other = elim curr as (λ _. Bool) [ pos c ↦ not (i == c) | negsuc _ ↦ true ] in
    elim (Bool-cases ((locks i == train) && other)) [
      | inl own ↦ rw own (
          Keeps-trans u locks (update locks i 0)
            (free_all_from (update locks i 0) train curr n (i + 1)) (λ segment e. ground arith)
            (free_all-Keeps n (i + 1) u train curr (update locks i 0) ne))
      | inr kept ↦ rw kept (free_all-Keeps n (i + 1) u train curr locks ne)
    ]
