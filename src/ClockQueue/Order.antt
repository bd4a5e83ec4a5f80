-- ===== src/ClockQueue/Order.antt =====
-- An insertion into a sorted list of entries, and an entry linked in behind another.
use cs452_kernel.Base.{
  ℕ, ◌≤◌, ◌≡◌, ◌≢◌, sym, ltb, if◌then◌else◌, Option, some, List, [], ◌∷◌, Bool-cases, inl, inr,
  arith,
}
use cs452_kernel.Base.Lists.{All, All-mono}
use cs452_kernel.Kernel.Links.{NotIn, Distinct}
use cs452_kernel.ClockQueue.{ClockQueue, set_link}

-- The list with `e` among the later entries, and with `e` anywhere; `f` is the tick of an entry.
unfoldable pub place : (ℕ → ℕ) → ℕ → List ℕ → List ℕ
place f e [] = e ∷ []
place f e (n ∷ es) = let more = place f e es in if ltb (f n) (f e) then n ∷ more else e ∷ n ∷ es

unfoldable pub ins : (ℕ → ℕ) → ℕ → List ℕ → List ℕ
unfolding place
ins f e [] = e ∷ []
ins f e (h ∷ es) = let more = place f e es in if ltb (f e) (f h) then e ∷ h ∷ es else h ∷ more

abbrev pub Sorted : (ℕ → ℕ) → List ℕ → Type 0
Sorted f [] = Unit {0}
Sorted f (x ∷ xs) = All (λ y. f x ≤ f y) xs × Sorted f xs

module _ (f : ℕ → ℕ) (e : ℕ) where
  All-place : (P : ℕ → Type 0) (es : List ℕ) → P e → All P es → All P (place f e es)
  unfolding place
  All-place P [] h k = (h, tt)
  All-place P (n ∷ es) h (p, ps) = elim (Bool-cases (ltb (f n) (f e))) [
    | inl before ↦ rw before (p, All-place P es h ps)
    | inr here ↦ rw here (h, (p, ps))
  ]

  pub All-ins : (P : ℕ → Type 0) (es : List ℕ) → P e → All P es → All P (ins f e es)
  unfolding ins
  All-ins P [] h k = (h, tt)
  All-ins P (x ∷ es) h (p, ps) = elim (Bool-cases (ltb (f e) (f x))) [
    | inl first ↦ rw first (h, (p, ps))
    | inr later ↦ rw later (p, All-place P es h ps)
  ]

  place-Sorted : (es : List ℕ) → Sorted f es → Sorted f (place f e es)
  unfolding place
  place-Sorted [] s = (tt, tt)
  place-Sorted (n ∷ es) (least, s) = elim (Bool-cases (ltb (f n) (f e))) [
    | inl before ↦
        let lt : f n ≤ f e = ground arith in
        rw before (All-place (λ y. f n ≤ f y) es lt least, place-Sorted es s)
    | inr here ↦
        let le : f e ≤ f n = ground arith in
        rw here (
          (le, All-mono (λ y. f n ≤ f y) (λ y. f e ≤ f y) es (λ y h. omega (arith, le, h)) least),
          (least, s),
        )
  ]

  pub ins-Sorted : (es : List ℕ) → Sorted f es → Sorted f (ins f e es)
  unfolding ins
  ins-Sorted [] s = (tt, tt)
  ins-Sorted (x ∷ es) (least, s) = elim (Bool-cases (ltb (f e) (f x))) [
    | inl first ↦
        let le : f e ≤ f x = ground arith in
        rw first (
          (le, All-mono (λ y. f x ≤ f y) (λ y. f e ≤ f y) es (λ y h. omega (arith, le, h)) least),
          (least, s),
        )
    | inr later ↦
        let le : f x ≤ f e = ground arith in
        rw later (All-place (λ y. f x ≤ f y) es le least, place-Sorted es s)
  ]

  place-Distinct : (es : List ℕ) → NotIn e es → Distinct es → Distinct (place f e es)
  unfolding place
  place-Distinct [] out d = (tt, tt)
  place-Distinct (n ∷ es) (ne, out) (apart, d) = elim (Bool-cases (ltb (f n) (f e))) [
    | inl before ↦
        rw before (All-place (λ y. n ≢ y) es (λ same. ne (sym same)) apart, place-Distinct es out d)
    | inr here ↦ rw here ((ne, out), (apart, d))
  ]

  pub ins-Distinct : (es : List ℕ) → NotIn e es → Distinct es → Distinct (ins f e es)
  unfolding ins
  ins-Distinct [] out d = (tt, tt)
  ins-Distinct (x ∷ es) (ne, out) (apart, d) = elim (Bool-cases (ltb (f e) (f x))) [
    | inl first ↦ rw first ((ne, out), (apart, d))
    | inr later ↦
        rw later (All-place (λ y. x ≢ y) es (λ same. ne (sym same)) apart, place-Distinct es out d)
  ]

abbrev pub next_of : ClockQueue → ℕ → Option ℕ
next_of cq x = (cq.storage x).next

abbrev pub tick_of : ClockQueue → ℕ → ℕ
tick_of cq x = (cq.storage x).clock_tick

-- The entry `e` linked in behind `d`.
abbrev pub linked : ClockQueue → ℕ → ℕ → ClockQueue
linked cq e d = set_link (set_link cq e (cq.storage d).next) d (some e)

pub linked_lem :
    (cq : ClockQueue) (e d : ℕ)
    → e ≢ d
    → (next_of (linked cq e d) d ≡ some e)
      × (next_of (linked cq e d) e ≡ next_of cq d)
      × ((x : ℕ) → e ≢ x → d ≢ x → next_of (linked cq e d) x ≡ next_of cq x)
linked_lem cq e d ne = (ground arith, ground arith, λ x ne_e ne_d. ground arith)
