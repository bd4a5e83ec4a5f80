-- ===== src/Text/Strings.antt =====
-- The string routines, told by the text that an array holds.
use cs452_kernel.Base.{
  ℕ, zero, suc, Bool, ◌+◌, ◌<◌, ◌≤◌, ◌≡◌, refl, ap, ◌∙◌, ◌↔◌, inl, inr, true, false, not, ◌&&◌,
  ◌==◌, if◌then◌else◌, ltb, List, [], ◌∷◌, update, update_self, update_ne, ok, fault, out_of_bounds,
  ℤ, pos, negsuc, Bool-cases, arith,
}
use cs452_kernel.Base.Lists.{length}
use cs452_kernel.Text.{strncpy, strncpy_from, strncmp_from, strlen_from, difference}

-- The bytes before the first zero, in `n` places at most from the place `i` on.
unfoldable pub text_from : ℕ → (ℕ → ℕ) → ℕ → List ℕ
text_from zero s i = []
text_from (suc n) s i = let rest = text_from n s (i + 1) in if s i == 0 then [] else s i ∷ rest

unfoldable pub text : ℕ → (ℕ → ℕ) → List ℕ
unfolding text_from
text n s = text_from n s 0

-- A zero is among the `n` bytes from `i` on.
abbrev pub Ends : ℕ → (ℕ → ℕ) → ℕ → Type 0
Ends n s i = length (text_from n s i) < n

abbrev pub is_zero : ℤ → Bool
is_zero (pos a) = a == 0
is_zero (negsuc a) = false

pub text_end : (n : ℕ) (s : ℕ → ℕ) (i : ℕ) → (s i == 0) ≡ true → text_from n s i ≡ []
unfolding text_from
text_end zero s i e = refl
text_end (suc n) s i e = rw e

pub text_step :
    (n : ℕ) (s : ℕ → ℕ) (i : ℕ)
    → (s i == 0) ≡ false
    → text_from (suc n) s i ≡ s i ∷ text_from n s (i + 1)
unfolding text_from
text_step n s i e = rw e

difference_zero : (a b : ℕ) → (is_zero (difference a b) ≡ true) ↔ (a ≡ b)
difference_zero a b = ground arith

pub cons_head : {x y : ℕ} {xs ys : List ℕ} → x ∷ xs ≡ y ∷ ys → x ≡ y
cons_head {x} e = ap (λ (l : List ℕ). elim l [ [] ↦ x | z ∷ zs ↦ z ]) e

pub cons_tail : {x y : ℕ} {xs ys : List ℕ} → x ∷ xs ≡ y ∷ ys → xs ≡ ys
cons_tail {xs} e = ap (λ (l : List ℕ). elim l [ [] ↦ xs | z ∷ zs ↦ zs ]) e

compare_step :
    (a b : ℕ) (ta tb : List ℕ) (r : ℤ)
    → ((is_zero r ≡ true) ↔ (ta ≡ tb))
    → (is_zero (if not (a == 0) && a == b then r else difference a b) ≡ true)
      ↔ ((if a == 0 then [] else a ∷ ta) ≡ (if b == 0 then [] else b ∷ tb))
compare_step a b ta tb r h = grind arith

-- The comparison of two names says whether their texts are equal.
pub strncmp_from_lem :
    (n : ℕ) (s1 s2 : ℕ → ℕ) (i : ℕ)
    → (is_zero (strncmp_from s1 s2 i n) ≡ true) ↔ (text_from n s1 i ≡ text_from n s2 i)
unfolding strncmp_from text_from
strncmp_from_lem zero s1 s2 i = (λ e. refl, λ e. refl)
strncmp_from_lem (suc n) s1 s2 i =
    compare_step (s1 i) (s2 i) (text_from n s1 (i + 1)) (text_from n s2 (i + 1))
      (strncmp_from s1 s2 (i + 1) n) (strncmp_from_lem n s1 s2 (i + 1))

-- A store is within the bounds of its array.
store_ok :
    (size i v : ℕ) (dest : ℕ → ℕ)
    → i < size
    → (if ltb i size then ok (update dest i v) else fault out_of_bounds) ≡ ok (update dest i v)
store_ok size i v dest lt = let e : ltb i size ≡ true = ground arith in rw e

Copied : ℕ → ℕ → (ℕ → ℕ) → (ℕ → ℕ) → ℕ → Type 0
Copied n size dest src i =
    (d : ℕ → ℕ) × (strncpy_from size dest src i n ≡ ok d)
    × (text_from n d i ≡ text_from n src i)
    × ((j : ℕ) → j < i → d j ≡ dest j)

Copied-step :
    (n size : ℕ) (dest src : ℕ → ℕ) (i : ℕ)
    → i < size
    → (src i == 0) ≡ false
    → Copied n size (update dest i (src i)) src (i + 1)
    → Copied (suc n) size dest src i
unfolding strncpy_from text_from Copied
Copied-step n size dest src i room go (d, run, same, kept) =
    let at : d i ≡ src i = kept i (omega arith) ∙ update_self dest i (src i) in
    (
      d,
      rw (go, store_ok size i (src i) dest room) run,
      rw (at, go) (ap (λ t. src i ∷ t) same),
      λ j lt. kept j (omega arith) ∙ update_ne dest i j (src i) (λ e. omega (arith, e, lt)),
    )

copied :
    (n size : ℕ) (dest src : ℕ → ℕ) (i : ℕ) → Ends n src i → i + n ≤ size → Copied n size dest src i
unfolding strncpy_from text_from Copied
copied zero size dest src i ends room = absurd (omega (arith, ends))
copied (suc n) size dest src i ends room = elim (Bool-cases (src i == 0)) [
  | inl stop ↦ (
    update dest i 0,
    rw (stop, store_ok size i 0 dest (omega arith)),
    rw (stop, update_self dest i 0),
    λ j lt. update_ne dest i j 0 (λ e. omega (arith, e, lt)),
  )
  | inr go ↦ Copied-step n size dest src i (omega arith) go (
      copied n size (update dest i (src i)) src (i + 1)
        (let e = ap length (text_step n src i go) in omega (arith, e, ends)) (omega arith))
]

overrun :
    (n size : ℕ) (dest src : ℕ → ℕ) (i : ℕ)
    → length (text_from n src i) ≡ n
    → i + n ≡ size
    → strncpy_from size dest src i n ≡ fault out_of_bounds
unfolding strncpy_from text_from
overrun zero size dest src i full e = let past : ltb i size ≡ false = ground arith in rw past
overrun (suc n) size dest src i full e = elim (Bool-cases (src i == 0)) [
  | inl stop ↦ absurd (let l = ap length (text_end (suc n) src i stop) in omega (arith, l, full))
  | inr go ↦
      rw (go, store_ok size i (src i) dest (omega arith))
        (overrun n size (update dest i (src i)) src (i + 1)
          (let l = ap length (text_step n src i go) in omega (arith, l, full)) (omega arith))
]

-- `strncpy` into an array of `size` bytes with `size` as its bound, which is how the servers call it:
-- a text that ends within the bound is copied whole, and a source without a zero among its first
-- `size` bytes is written one place past the end of the array, since the closing zero is not counted.
pub strncpy_lem :
    (size : ℕ) (dest src : ℕ → ℕ)
    → (length (text size src) < size
        → (d : ℕ → ℕ) × (strncpy size dest src size ≡ ok d) × (text size d ≡ text size src))
      × (length (text size src) ≡ size → strncpy size dest src size ≡ fault out_of_bounds)
unfolding strncpy text Copied
strncpy_lem size dest src = (
  λ ends.
      let (d, run, same, kept) = copied size size dest src 0 ends (omega arith) in (d, run, same),
  λ full. overrun size size dest src 0 full (omega arith),
)

-- `strlen` of a text that ends in its array is one more than the length: it counts the zero.
pub strlen_from_lem :
    (size : ℕ) (s : ℕ → ℕ) (i : ℕ)
    → Ends size s i
    → strlen_from size s i ≡ ok (i + length (text_from size s i) + 1)
unfolding strlen_from text_from
strlen_from_lem zero s i ends = absurd (omega (arith, ends))
strlen_from_lem (suc n) s i ends = elim (Bool-cases (s i == 0)) [
  | inl stop ↦ rw stop (ap ok (omega arith))
  | inr go ↦ rw go (
      strlen_from_lem n s (i + 1) (let e = ap length (text_step n s i go) in omega (arith, e, ends))
      ∙ ap ok (omega arith))
]
