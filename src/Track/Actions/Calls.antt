-- ===== src/Track/Actions/Calls.antt =====
-- Several calls of the bounded list that a deque refines, one after the other.
use cs452_kernel.Base.{
  ℕ, ◌+◌, ◌≤◌, ◌<◌, ◌≡◌, refl, sym, ap, ◌∙◌, true, false, ◌==◌, List, [], ◌∷◌, ◌++◌, append_assoc,
  append-nil, Option, some, arith,
}
use cs452_kernel.Base.Lists.{length, length-append}
use cs452_kernel.Deque.Spec
use cs452_kernel.Deque.Spec.{
  Op, push_back, push_front, pop_back, pop_front, take_back, take_front, take_back-snoc,
}

abbrev pub push_backs : List ℕ → List Op
push_backs [] = []
push_backs (y ∷ ys) = push_back y ∷ push_backs ys

abbrev pub push_fronts : List ℕ → List Op
push_fronts [] = []
push_fronts (y ∷ ys) = push_front y ∷ push_fronts ys

abbrev pub onto : List ℕ → List ℕ → List ℕ
onto [] xs = xs
onto (y ∷ ys) xs = onto ys (y ∷ xs)

-- Several calls of the bounded list.
module _ (room : ℕ) where
  push_one :
      (xs : List ℕ) (x : ℕ) (ops : List Op)
      → length xs < room
      → ((Spec.run room xs (push_back x ∷ ops)).1 ≡ (Spec.run room (xs ++ x ∷ []) ops).1)
        × ((Spec.run room xs (push_front x ∷ ops)).1 ≡ (Spec.run room (x ∷ xs) ops).1)
  unfolding Spec.run Spec.step
  push_one xs x ops lt =
      let go : (length xs == room) ≡ false = ground arith in (rw go refl, rw go refl)

  drop_one :
      (xs : List ℕ) (x : ℕ) (ops : List Op)
      → length xs ≡ room
      → ((Spec.run room xs (push_back x ∷ ops)).1 ≡ (Spec.run room xs ops).1)
        × ((Spec.run room xs (push_front x ∷ ops)).1 ≡ (Spec.run room xs ops).1)
  unfolding Spec.run Spec.step
  drop_one xs x ops e =
      let full : (length xs == room) ≡ true = ground arith in (rw full refl, rw full refl)

  pop_one :
      (xs : List ℕ) (x : ℕ) (ops : List Op)
      → Spec.run room (xs ++ x ∷ []) (pop_back ∷ ops)
        ≡ (some x ∷ (Spec.run room xs ops).0, (Spec.run room xs ops).1)
  unfolding Spec.run Spec.step
  pop_one xs x ops =
      ap (λ (r : ℕ × List ℕ). (some r.0 ∷ (Spec.run room r.1 ops).0, (Spec.run room r.1 ops).1))
        (take_back-snoc xs x)

  pub room_lem :
      (ys xs : List ℕ)
      → length xs + length ys ≤ room
      → ((Spec.run room xs (push_backs ys)).1 ≡ xs ++ ys)
        × ((Spec.run room xs (push_fronts ys)).1 ≡ onto ys xs)
  unfolding Spec.run
  room_lem [] xs le = (sym (append-nil xs), refl)
  room_lem (y ∷ ys) xs le = (
    (push_one xs y (push_backs ys) (omega arith)).0
        ∙ (room_lem ys (xs ++ y ∷ []) (omega (arith, length-append xs (y ∷ [])))).0
        ∙ append_assoc xs (y ∷ []) ys,
    (push_one xs y (push_fronts ys) (omega arith)).1 ∙ (room_lem ys (y ∷ xs) (omega arith)).1,
  )

  pub full_lem :
      (ys xs : List ℕ)
      → length xs ≡ room
      → ((Spec.run room xs (push_backs ys)).1 ≡ xs) × ((Spec.run room xs (push_fronts ys)).1 ≡ xs)
  unfolding Spec.run
  full_lem [] xs e = (refl, refl)
  full_lem (y ∷ ys) xs e = (
    (drop_one xs y (push_backs ys) e).0 ∙ (full_lem ys xs e).0,
    (drop_one xs y (push_fronts ys) e).1 ∙ (full_lem ys xs e).1,
  )

abbrev pub pops_back : List Op
pops_back = pop_back ∷ pop_back ∷ pop_back ∷ pop_back ∷ []

abbrev snocs : List ℕ → List ℕ → List ℕ
snocs xs [] = xs
snocs xs (y ∷ ys) = snocs (xs ++ y ∷ []) ys

snocs_lem : (xs ys : List ℕ) → snocs xs ys ≡ xs ++ ys
snocs_lem xs [] = sym (append-nil xs)
snocs_lem xs (y ∷ ys) = snocs_lem (xs ++ y ∷ []) ys ∙ append_assoc xs (y ∷ []) ys

-- The four values taken from the back.
pub four_back :
    (room : ℕ) (xs : List ℕ) (a b c d : ℕ)
    → Spec.run room (xs ++ a ∷ b ∷ c ∷ d ∷ []) pops_back
      ≡ (some d ∷ some c ∷ some b ∷ some a ∷ [], xs)
unfolding Spec.run
four_back room xs a b c d =
    let x₁ = xs ++ a ∷ [] in
    let x₂ = x₁ ++ b ∷ [] in
    let then_ : ℕ → List (Option ℕ) × List ℕ → List (Option ℕ) × List ℕ =
      λ x r. (some x ∷ r.0, r.1) in
    ap (λ l. Spec.run room l pops_back) (sym (snocs_lem xs (a ∷ b ∷ c ∷ d ∷ [])))
    ∙ pop_one room (x₂ ++ c ∷ []) d (pop_back ∷ pop_back ∷ pop_back ∷ [])
    ∙ ap (then_ d) (
        pop_one room x₂ c (pop_back ∷ pop_back ∷ [])
        ∙ ap (then_ c) (pop_one room x₁ b (pop_back ∷ []) ∙ ap (then_ b) (pop_one room xs a [])))
