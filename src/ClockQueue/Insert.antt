-- ===== src/ClockQueue/Insert.antt =====
-- The sorted insertion of the clock queue along its links.
use cs452_kernel.Base.{
  ℕ, zero, suc, ◌<◌, ◌≡◌, ◌≢◌, refl, ap, sym, ◌∙◌, subst, true, false, ltb, if◌then◌else◌, Option,
  none, some, List, [], ◌∷◌, Bool-cases, inl, inr, Outcome, ok, ◌>>=◌, arith,
}
use cs452_kernel.Base.Lists.{length, All-mono, All-mono₂}
use cs452_kernel.Kernel.Links.{Links, Links-congr, NotIn, Distinct}
use cs452_kernel.ClockQueue.{ClockQueue, set_link, place_after, insert_sorted}
use cs452_kernel.ClockQueue.Order.{place, ins, next_of, tick_of, linked, linked_lem}

-- Where the walk ends, and the chain with the entry linked in there. `x ≢ d` for every entry outside.
Places : ℕ → ClockQueue → ℕ → ℕ → List ℕ → Type 0
Places fuel cq e c es =
    (d : ℕ) × (place_after fuel cq (tick_of cq e) c ≡ ok d)
    × Links (next_of (linked cq e d)) (some c) (c ∷ place (tick_of cq) e es)
    × ((x : ℕ) → NotIn x (c ∷ es) → x ≢ d)

module _ (cq : ClockQueue) (e : ℕ) where
  -- The entry goes right behind `c`.
  place_here :
      (fuel c : ℕ) (es : List ℕ)
      → e ≢ c
      → NotIn e es
      → NotIn c es
      → Links (next_of cq) (next_of cq c) es
      → place_after fuel cq (tick_of cq e) c ≡ ok c
      → place (tick_of cq) e es ≡ e ∷ es
      → Places fuel cq e c es
  unfolding Places
  place_here fuel c es ne out_e out_c chain run same =
      let (at_c, at_e, other) = linked_lem cq e c ne in
      (
        c,
        run,
        subst (λ l. Links (next_of (linked cq e c)) (some c) (c ∷ l)) (sym same)
            (
              refl,
              (
                at_c,
                Links-congr (next_of cq) (next_of (linked cq e c)) _ es
                    (All-mono₂ (λ u. e ≢ u) (λ u. c ≢ u)
                      (λ u. next_of (linked cq e c) u ≡ next_of cq u) es (λ u p q. other u p q)
                      out_e out_c)
                    (subst (λ p. Links (next_of cq) p es) (sym at_e) chain),
              ),
            ),
        λ x out. out.0,
      )

  after_none : (fuel c : ℕ) (t : ℕ) → next_of cq c ≡ none → place_after (suc fuel) cq t c ≡ ok c
  unfolding place_after
  after_none fuel c t at = rw (at, place_after)

  after_some :
      (fuel c n t : ℕ)
      → next_of cq c ≡ some n
      → place_after (suc fuel) cq t c
        ≡ (if ltb (tick_of cq n) t then place_after fuel cq t n else ok c)
  unfolding place_after
  after_some fuel c n t at = rw (at, place_after)

  -- The walk goes past `n`, and the entry goes behind `d`, which is not `c`.
  place_further :
      (fuel c n : ℕ) (es : List ℕ)
      → e ≢ c
      → next_of cq c ≡ some n
      → ltb (tick_of cq n) (tick_of cq e) ≡ true
      → NotIn c (n ∷ es)
      → ((d : ℕ) → ((x : ℕ) → NotIn x (n ∷ es) → x ≢ d) → e ≢ d)
      → Places fuel cq e n es
      → Places (suc fuel) cq e c (n ∷ es)
  unfolding place Places
  place_further fuel c n es ne at before out apart (d, run, (_, chain), inside) =
      let ne_d = apart d inside in
      let (at_d, at_e, other) = linked_lem cq e d ne_d in
      (
        d,
        after_some fuel c n (tick_of cq e) at
            ∙ ap (λ b. if b then place_after fuel cq (tick_of cq e) n else ok c) before
            ∙ run,
        subst
            (λ b.
              Links (next_of (linked cq e d)) (some c)
                (c ∷ (if b then n ∷ place (tick_of cq) e es else e ∷ n ∷ es)))
            (sym before) (refl, (other c ne (λ same. inside c out (sym same)) ∙ at, chain)),
        λ x (x_c, x_out). inside x x_out,
      )

  place_lem :
      (es : List ℕ) (fuel c : ℕ)
      → length es < fuel
      → e ≢ c
      → NotIn e es
      → NotIn c es
      → Distinct es
      → Links (next_of cq) (next_of cq c) es
      → Places fuel cq e c es
  unfolding place Places
  place_lem es zero c lt ne out_e out_c d chain = absurd (omega (arith, lt))
  place_lem [] (suc fuel) c lt ne out_e out_c d chain =
      place_here (suc fuel) c [] ne tt tt chain (after_none fuel c (tick_of cq e) chain) refl
  place_lem (n ∷ es) (suc fuel) c lt ne (ne_n, out_e) (c_n, out_c) (apart, d) (at, chain) =
      elim (Bool-cases (ltb (tick_of cq n) (tick_of cq e))) [
        | inl before ↦
            place_further fuel c n es ne at before (c_n, out_c) (λ x inside. inside e (ne_n, out_e))
              (place_lem es fuel n (omega (arith, lt)) ne_n out_e apart d chain)
        | inr here ↦
            place_here (suc fuel) c (n ∷ es) ne (ne_n, out_e) (c_n, out_c) (at, chain)
              (after_some fuel c n (tick_of cq e) at ∙ rw here) (rw here)
      ]

-- The queue with the entry `e`, which is filled in and is in no list, among those of `es`.
pub record Inserted (cq cq' : ClockQueue) (e : ℕ) (es : List ℕ) : Type 0 where
  pub chain : Links (next_of cq') cq'.head (ins (tick_of cq) e es)
  pub free_kept : cq'.freelist ≡ cq.freelist
  pub ticks : (x : ℕ) → tick_of cq' x ≡ tick_of cq x
  pub tids : (x : ℕ) → (cq'.storage x).tid ≡ (cq.storage x).tid
  pub others : (x : ℕ) → e ≢ x → NotIn x es → next_of cq' x ≡ next_of cq x

module _ (cq : ClockQueue) (e : ℕ) (fuel : ℕ) where
  abbrev Inserts : List ℕ → Type 0
  Inserts es = (cq' : ClockQueue) × (insert_sorted fuel cq e ≡ ok cq') × Inserted cq cq' e es

  -- The entry goes to the front.
  front_lem :
      (es : List ℕ)
      → insert_sorted fuel cq e ≡ ok (record (set_link cq e cq.head) { head = some e })
      → NotIn e es
      → Links (next_of cq) cq.head es
      → ins (tick_of cq) e es ≡ e ∷ es
      → Inserts es
  front_lem es run out chain same =
      let cq' : ClockQueue = record (set_link cq e cq.head) { head = some e } in
      let other : (x : ℕ) → e ≢ x → next_of cq' x ≡ next_of cq x = λ x ne. ground arith in
      let at_e : next_of cq' e ≡ cq.head = ground arith in
      (
        cq',
        run,
        record {
          chain = subst (Links (next_of cq') (some e)) (sym same) (
            refl,
            Links-congr (next_of cq) (next_of cq') (next_of cq' e) es
                (All-mono (λ u. e ≢ u) (λ u. next_of cq' u ≡ next_of cq u) es other out)
                (subst (λ p. Links (next_of cq) p es) (sym at_e) chain),
          );
          free_kept = refl;
          ticks = λ x. ground arith;
          tids = λ x. ground arith;
          others = λ x ne _. other x ne;
        },
      )

  -- The branch of the walk.
  abbrev behind : ℕ → Outcome ClockQueue
  behind i =
      if ltb (tick_of cq e) (tick_of cq i)
      then ok (record (set_link cq e (some i)) { head = some e })
      else (place_after fuel cq (tick_of cq e) i >>= λ current. ok (linked cq e current))

  behind_run :
      (h d : ℕ)
      → cq.head ≡ some h
      → ltb (tick_of cq e) (tick_of cq h) ≡ false
      → place_after fuel cq (tick_of cq e) h ≡ ok d
      → insert_sorted fuel cq e ≡ ok (linked cq e d)
  unfolding insert_sorted
  behind_run h d at later run =
      ap
        (λ (o : Option ℕ). elim o as (λ _. Outcome ClockQueue) [
          | none ↦ ok (record (set_link cq e none) { head = some e })
          | some i ↦ behind i
        ])
        at
      ∙ ap
          (λ b.
            if b
            then ok (record (set_link cq e (some h)) { head = some e })
            else (place_after fuel cq (tick_of cq e) h >>= λ current. ok (linked cq e current)))
          later
      ∙ ap (λ o. o >>= λ current. ok (linked cq e current)) run

  behind_lem :
      (h : ℕ) (es : List ℕ)
      → cq.head ≡ some h
      → ltb (tick_of cq e) (tick_of cq h) ≡ false
      → Places fuel cq e h es
      → Inserts (h ∷ es)
  unfolding ins Places
  behind_lem h es at later (d, run, chain, inside) = (
    linked cq e d,
    behind_run h d at later run,
    record {
      chain =
          subst
            (λ b.
              Links (next_of (linked cq e d)) cq.head
                (if b then e ∷ h ∷ es else h ∷ place (tick_of cq) e es))
            (sym later)
            (subst (λ p. Links (next_of (linked cq e d)) p (h ∷ place (tick_of cq) e es)) (sym at)
              chain);
      free_kept = refl;
      ticks = λ x. ground arith;
      tids = λ x. ground arith;
      others = λ x ne out. let apart : x ≢ d = inside x out in ground arith;
    },
  )

  pub insert_lem :
      (es : List ℕ)
      → length es < fuel
      → NotIn e es
      → Distinct es
      → Links (next_of cq) cq.head es
      → Inserts es
  unfolding insert_sorted ins
  insert_lem [] lt out d chain = front_lem [] (rw (chain, insert_sorted)) out chain refl
  insert_lem (h ∷ es) lt (ne, out) (apart, d) (at, chain) =
      elim (Bool-cases (ltb (tick_of cq e) (tick_of cq h))) [
        | inl first ↦
            front_lem (h ∷ es) (rw (at, insert_sorted, first)) (ne, out) (at, chain) (rw first)
        | inr later ↦
            behind_lem h es at later
              (place_lem cq e es fuel h (omega (arith, lt)) ne out apart d chain)
      ]
