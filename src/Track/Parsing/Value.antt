-- ===== src/Track/Parsing/Value.antt =====
-- The loop that adds up the digits, against Horner's rule.
use cs452_kernel.Base.{
  ℕ, zero, suc, ◌+◌, ◌*◌, ◌%◌, ◌^◌, ◌<◌, ◌≡◌, refl, sym, ap, ◌∙◌, List, [], ◌∷◌, ◌++◌, append_assoc,
  arith,
}
use native.Mathlib.Nat.{
  mod-eq_of_lt, mod-add-mod, add-mod-mod, mod-lt, mul-add, mul_assoc, mul_comm,
}
use cs452_kernel.Base.Lists.{length, length-append}
use cs452_kernel.Deque.{Deque, deque_pop_back}
use cs452_kernel.Deque.Inv.{IsValid, pop_back-IsValid}
use cs452_kernel.Deque.Refine.{contents, pop_back_refines}
use cs452_kernel.Deque.Spec.{take_back, take_back-snoc}
use cs452_kernel.Track.Parsing.Numbers.{value_from}

-- The number that the digits `ds` write, the first one the highest.
abbrev pub horner : ℕ → ℕ → List ℕ → ℕ
horner base n [] = n
horner base n (d ∷ ds) = horner base (n * base + d) ds

-- The same, from the digits in reverse order.
abbrev pub low : ℕ → List ℕ → ℕ
low base [] = 0
low base (d ∷ ds) = d + base * low base ds

abbrev pub rev : List ℕ → List ℕ
rev [] = []
rev (d ∷ ds) = rev ds ++ d ∷ []

-- A factor may be cut to the word before the product.
mul_cut : (m x a b : ℕ) → (x + (a % m) * b) % m ≡ (x + a * b) % m
mul_cut m x a zero = ap (λ (n : ℕ). n % m) (omega arith)
mul_cut m x a (suc b) =
    ap (λ (n : ℕ). n % m) (step (a % m))
    ∙ mul_cut m (x + a % m) a b
    ∙ ap (λ (n : ℕ). n % m) (swapped (a % m))
    ∙ add-mod-mod (x + a * b) a m
    ∙ ap (λ (n : ℕ). n % m) (sym (swapped a) ∙ sym (step a))
  where
    step : (c : ℕ) → x + c * suc b ≡ x + c + c * b
    step c = omega arith

    swapped : (c : ℕ) → x + c + a * b ≡ x + a * b + c
    swapped c = omega arith

spread : (r g d b l : ℕ) → r + g * d + g * b * l ≡ r + g * (d + b * l)
spread r g d b l = let e₁ = mul-add g d (b * l) in let e₂ = mul_assoc g b l in omega (arith, e₁, e₂)

pub value_lem :
    (base : ℕ) (es : List ℕ) {stack : Deque} (dig res : ℕ)
    → IsValid stack
    → contents stack ≡ rev es
    → res < 2 ^ 32
    → value_from base (length es) stack dig res ≡ (res + dig * low base es) % 2 ^ 32
unfolding value_from
value_lem base [] {stack} dig res v e lt =
    let same : res + dig * 0 ≡ res = omega arith in
    sym (mod-eq_of_lt lt) ∙ ap (λ (n : ℕ). n % 2 ^ 32) (sym same)
value_lem base (d ∷ es) {stack} dig res v e lt =
    let popped = pop_back_refines v ∙ ap take_back e ∙ take_back-snoc (rev es) d in
    let res' : ℕ = (res + dig * (deque_pop_back stack).0) % 2 ^ 32 in
    value_lem base es (dig * base % 2 ^ 32) res' (pop_back-IsValid v)
      (ap (λ (r : ℕ × List ℕ). r.1) popped)
      (mod-lt (res + dig * (deque_pop_back stack).0) (omega arith))
    ∙ mod-add-mod (res + dig * (deque_pop_back stack).0) (2 ^ 32)
        ((dig * base % 2 ^ 32) * low base es)
    ∙ mul_cut (2 ^ 32) (res + dig * (deque_pop_back stack).0) (dig * base) (low base es)
    ∙ ap (λ x. (res + dig * x + dig * base * low base es) % 2 ^ 32)
        (ap (λ (r : ℕ × List ℕ). r.0) popped)
    ∙ ap (λ (n : ℕ). n % 2 ^ 32) (spread res dig d base (low base es))

low_step :
    (base : ℕ) (es : List ℕ) (d n : ℕ)
    → low base (es ++ d ∷ n ∷ []) ≡ low base (es ++ (n * base + d) ∷ [])
low_step base [] d n = let e₁ = mul_comm base n in omega (arith, e₁)
low_step base (e ∷ es) d n = ap (λ l. e + base * l) (low_step base es d n)

pub low_zero : (base : ℕ) (es : List ℕ) → low base (es ++ 0 ∷ []) ≡ low base es
low_zero base [] = omega arith
low_zero base (e ∷ es) = ap (λ l. e + base * l) (low_zero base es)

pub horner-low : (base n : ℕ) (ds : List ℕ) → horner base n ds ≡ low base (rev ds ++ n ∷ [])
horner-low base n [] = omega arith
horner-low base n (d ∷ ds) =
    horner-low base (n * base + d) ds
    ∙ sym (low_step base (rev ds) d n)
    ∙ ap (low base) (sym (append_assoc (rev ds) (d ∷ []) (n ∷ [])))

rev_snoc : (ds : List ℕ) (d : ℕ) → rev (ds ++ d ∷ []) ≡ d ∷ rev ds
rev_snoc [] d = refl
rev_snoc (x ∷ ds) d = ap (λ l. l ++ x ∷ []) (rev_snoc ds d)

pub length-rev : (ds : List ℕ) → length (rev ds) ≡ length ds
length-rev [] = refl
length-rev (d ∷ ds) = omega (arith, length-append (rev ds) (d ∷ []), length-rev ds)

pub rev-rev : (ds : List ℕ) → rev (rev ds) ≡ ds
rev-rev [] = refl
rev-rev (d ∷ ds) = rev_snoc (rev ds) d ∙ ap (λ l. d ∷ l) (rev-rev ds)
