-- ===== src/Track/Parsing/Digits.antt =====
-- The loop that moves digits, against the list of the characters in the input.
use cs452_kernel.Base.{
  ℕ, suc, ◌+◌, ◌≤◌, ◌≡◌, refl, sym, ap, subst, ◌∙◌, inl, inr, false, ◌==◌, if◌then◌else◌, Option,
  none, some, List, [], ◌∷◌, ◌++◌, append-nil, append_assoc, arith, Option-cases,
}
use cs452_kernel.Base.Lists.{length, length-append}
use cs452_kernel.Deque.{Deque, deque_front, deque_pop_front, deque_push_back}
use cs452_kernel.Deque.Inv.{IsValid, pop_front-IsValid, push_back-IsValid}
use cs452_kernel.Deque.Refine.{contents, length-contents, push_back_refines, pop_front_refines}
use cs452_kernel.Deque.Spec.{take_front}
use cs452_kernel.Track.Parsing.Numbers.{to_char, digits_from}

-- A valid deque that is not empty, and what a pop at the front gives and leaves.
front_lem :
    {q : Deque} (v : IsValid q) (x : ℕ) (xs : List ℕ)
    → contents q ≡ x ∷ xs
    → (deque_front q ≡ x) × (contents (deque_pop_front q).1 ≡ xs) × IsValid (deque_pop_front q).1
unfolding take_front deque_pop_front
front_lem {q} v x xs e =
    let size : length (contents q) ≡ q.size = length-contents q in
    let longer : length (contents q) ≡ suc (length xs) = ap length e in
    let some_left : (q.size == 0) ≡ false = ground arith in
    let popped = pop_front_refines v ∙ ap take_front e in
    let front : (deque_pop_front q).0 ≡ deque_front q = rw some_left refl in
    (
      sym front ∙ ap (λ (r : ℕ × List ℕ). r.0) popped,
      ap (λ (r : ℕ × List ℕ). r.1) popped,
      pop_front-IsValid v,
    )

push_room : (q : Deque) (x : ℕ) → (deque_push_back q x).max_size ≡ q.max_size
unfolding deque_push_back
push_room q x = ground arith

module _ (digit_of : ℕ → Option ℕ) where
  -- The digits at the start of a list of characters, and the rest.
  abbrev pub span : List ℕ → List ℕ × List ℕ
  span [] = ([], [])
  span (x ∷ xs) = elim (digit_of (to_char x)) as (λ _. List ℕ × List ℕ) [
    | none ↦ ([], x ∷ xs)
    | some d ↦ (d ∷ (span xs).0, (span xs).1)
  ]

  span-none : (x : ℕ) (xs : List ℕ) → digit_of (to_char x) ≡ none → span (x ∷ xs) ≡ ([], x ∷ xs)
  span-none x xs e = rw (e, span) refl

  span-some :
      (x d : ℕ) (xs : List ℕ)
      → digit_of (to_char x) ≡ some d
      → span (x ∷ xs) ≡ (d ∷ (span xs).0, (span xs).1)
  span-some x d xs e = rw (e, span) refl

  scan_none :
      (n : ℕ) (q stack : Deque)
      → digit_of (to_char (deque_front q)) ≡ none
      → digits_from digit_of (suc n) q stack ≡ (stack, q)
  unfolding digits_from
  scan_none n q stack e = rw (e, digits_from) refl

  scan_some :
      (n d : ℕ) (q stack : Deque)
      → digit_of (to_char (deque_front q)) ≡ some d
      → digits_from digit_of (suc n) q stack
        ≡ digits_from digit_of n (deque_pop_front q).1 (deque_push_back stack d)
  unfolding digits_from
  scan_some n d q stack e = rw (e, digits_from) refl

  -- What the loop leaves of the input, and adds to the stack.
  abbrev pub Scanned : Deque → List ℕ × List ℕ → Deque × Deque → Type 0
  Scanned stack (ds, rest) (stack', q') =
      IsValid q'
      × IsValid stack'
      × (stack'.max_size ≡ stack.max_size)
      × (contents q' ≡ rest)
      × (contents stack' ≡ contents stack ++ ds)

  pub digits_lem :
      (xs : List ℕ) {q stack : Deque}
      → IsValid q
      → IsValid stack
      → contents q ≡ xs
      → length (contents stack) + length (span xs).0 ≤ stack.max_size
      → Scanned stack (span xs) (digits_from digit_of (length xs) q stack)
  unfolding digits_from
  digits_lem [] {q} {stack} v w e room = (v, w, refl, e, sym (append-nil (contents stack)))
  digits_lem (x ∷ xs) {q} {stack} v w e room =
      let (front, left_, valid) = front_lem v x xs e in
      let at = ap (λ c. digit_of (to_char c)) front in
      elim (Option-cases (digit_of (to_char x))) [
        | inl none_ ↦
            subst (λ r. Scanned stack (span (x ∷ xs)) r)
              (sym (scan_none (length xs) q stack (at ∙ none_)))
              (subst (λ s. Scanned stack s (stack, q)) (sym (span-none x xs none_))
                (v, w, refl, e, sym (append-nil (contents stack))))
        | inr (d, some_) ↦
            let spans = span-some x d xs some_ in
            let longer : length (span (x ∷ xs)).0 ≡ suc (length (span xs).0) =
              ap (λ s. length s.0) spans in
            let fits : (length (contents stack) == stack.max_size) ≡ false = ground arith in
            let pushed : contents (deque_push_back stack d) ≡ contents stack ++ d ∷ [] =
              push_back_refines w d
              ∙ ap (λ b. if b then contents stack else contents stack ++ d ∷ []) fits in
            let size : (deque_push_back stack d).max_size ≡ stack.max_size = push_room stack d in
            let next =
              digits_from digit_of (length xs) (deque_pop_front q).1 (deque_push_back stack d) in
            let (v', w', size', rest', digits') =
              digits_lem xs {q = (deque_pop_front q).1} {stack = deque_push_back stack d} valid
                (push_back-IsValid w d) left_
                (omega (
                  arith,
                  size,
                  longer,
                  ap length pushed,
                  length-append (contents stack) (d ∷ []),
                )) in
            subst (λ r. Scanned stack (span (x ∷ xs)) r)
              (sym (scan_some (length xs) d q stack (at ∙ some_)))
              (subst (λ s. Scanned stack s next) (sym spans)
                (
                  v',
                  w',
                  size' ∙ size,
                  rest',
                  digits'
                      ∙ ap (λ l. l ++ (span xs).0) pushed
                      ∙ append_assoc (contents stack) (d ∷ []) (span xs).0,
                ))
      ]
