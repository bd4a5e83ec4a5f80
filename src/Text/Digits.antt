-- ===== src/Text/Digits.antt =====
-- The digits that `ui2a` writes are those of the number.
use cs452_kernel.Base.{
  ℕ, zero, suc, ◌+◌, ◌*◌, ◌/◌, ◌%◌, ◌^◌, ◌<◌, ◌≤◌, ◌≡◌, refl, ap, ap₂, sym, ◌∙◌, subst, ◌⊎◌, inl,
  inr, Bool, true, false, not, ◌||◌, List, [], ◌∷◌, map, ltb, ◌==◌, ok, ◌>>=◌, pos, negsuc, arith,
}
use native.Mathlib.Nat.{
  mod-lt, mul_assoc, mul_comm, add-mul, div-add-mod, div-lt_iff_lt-mul, mul-div_cancel, pow-suc,
  pow-zero, mul-le-mul_left, le-div_iff_mul-le,
}
use cs452_kernel.Base.Lists.{All}
use cs452_kernel.Text.Scale.{pow_pos, scale_lem}
use cs452_kernel.Text.Numbers.{a2d, scale, digit_byte, emit, ui2a, i2a}

-- The number that digits write, the first one the highest.
abbrev pub horner : ℕ → ℕ → List ℕ → ℕ
horner base n [] = n
horner base n (d ∷ ds) = horner base (n * base + d) ds

digit_lem : (d : ℕ) → d < 16 → a2d (digit_byte d) ≡ pos d
unfolding a2d digit_byte
digit_lem d lt = ground arith

-- The bytes that are written from the place `d` on are those of the digits `ds`.
abbrev pub Writes : ℕ → ℕ → ℕ → ℕ → ℕ → List ℕ → Type 0
Writes fuel num base d n ds =
    (bytes : List ℕ) × (emit fuel num base d n ≡ ok bytes) × (map a2d bytes ≡ map pos ds)

-- A digit is written if one was written before, or it is not zero, or it is the last.
abbrev IsWritten : ℕ → ℕ → ℕ → ℕ → Type 0
IsWritten num base d n = (not (n == 0) || ltb 0 (num / d) || d / base == 0) ≡ true

module _ (base : ℕ) (big : 1 < base) (few : base ≤ 16) where
  write_lem :
      (fuel num d n : ℕ) (ds : List ℕ)
      → 0 < d
      → num / d < base
      → IsWritten num base d n
      → Writes fuel (num % d) base (d / base) (n + 1) ds
      → Writes (suc fuel) num base d n (num / d ∷ ds)
  unfolding emit
  write_lem fuel num d n ds d_pos small written (bytes, run, same) =
      let go : (d == 0) ≡ false = ground arith in
      (
        digit_byte (num / d) ∷ bytes,
        rw (go, written, run),
        ap₂ (λ x xs. x ∷ xs) (digit_lem (num / d) (omega (arith, small, few))) same,
      )

  end_lem : (fuel num n : ℕ) → Writes (suc fuel) num base 0 n []
  unfolding emit
  end_lem fuel num n = ([], refl, refl)

  -- The digits of a number are written with the value of the number.
  abbrev Spells : ℕ → ℕ → ℕ → ℕ → ℕ → Type 0
  Spells fuel num d n place =
      (ds : List ℕ) × Writes fuel num base d n ds
      × All (λ x. x < base) ds
      × ((m : ℕ) → horner base m ds ≡ m * place + num)

  last_lem : (fuel num n : ℕ) → num < base → Spells (suc (suc fuel)) num 1 n base
  last_lem fuel num n below =
      let less : 1 < 1 * base = omega (arith, big) in
      let base_pos : 0 < base = omega (arith, big) in
      let tiny : 1 / base < 1 = (div-lt_iff_lt-mul base_pos).1 less in
      let gone : 1 / base ≡ 0 = omega (arith, tiny) in
      (
        num / 1 ∷ [],
        write_lem (suc fuel) num 1 n [] (omega arith) (omega (arith, below))
            (at_end (1 / base) gone)
            (subst (λ d. Writes (suc fuel) (num % 1) base d (n + 1) []) (sym gone)
              (end_lem fuel (num % 1) (n + 1))),
        (omega (arith, below), tt),
        λ m. omega arith,
      )
    where
      at_end : (d : ℕ) → d ≡ 0 → (not (n == 0) || ltb 0 (num / 1) || d == 0) ≡ true
      at_end d e = grind arith

  first_lem :
      (fuel num n p : ℕ)
      → 0 < p
      → num < p * base * base
      → IsWritten num base (p * base) n
      → ((r : ℕ) → r < p * base → Spells fuel r p (n + 1) (p * base))
      → Spells (suc fuel) num (p * base) n (p * base * base)
  first_lem fuel num n p p_pos below written rest =
      let base_pos : 0 < base = omega (arith, big) in
      let d_pos : 0 < p * base = let le = mul-le-mul_left p base_pos in omega (arith, le, p_pos) in
      let small : num / (p * base) < base =
        (div-lt_iff_lt-mul d_pos).1
          (let turned = mul_comm base (p * base) in omega (arith, turned, below)) in
      let (ds, writes, each, value) = rest (num % (p * base)) (mod-lt num d_pos) in
      let back : p * base / base ≡ p = mul-div_cancel p base_pos in
      (
        num / (p * base) ∷ ds,
        write_lem fuel num (p * base) n ds d_pos small written
            (subst (λ d. Writes fuel (num % (p * base)) base d (n + 1) ds) (sym back) writes),
        (small, each),
        λ m.
            value (m * base + num / (p * base))
            ∙ sum m (num / (p * base)) (num % (p * base)) (p * base) num
                (div-add-mod num (p * base)),
      )
    where
      sum : (m q r d v : ℕ) → d * q + r ≡ v → (m * base + q) * d + r ≡ m * (d * base) + v
      sum m q r d v e =
          let e₁ = add-mul (m * base) q d in
          let e₂ = mul_assoc m base d in
          let e₃ = ap (λ x. m * x) (mul_comm base d) in
          let e₄ = mul_comm q d in omega (arith, e, e₁, e₂, e₃, e₄)

  -- From the place `base ^ k` on.
  emit_lem :
      (k fuel num n : ℕ)
      → k + 1 < fuel
      → num < base ^ k * base
      → IsWritten num base (base ^ k) n
      → Spells fuel num (base ^ k) n (base ^ k * base)
  emit_lem k zero num n lt below written = absurd (omega (arith, lt))
  emit_lem k (suc zero) num n lt below written = absurd (omega (arith, lt))
  emit_lem zero (suc (suc fuel)) num n lt below written =
      let one = pow-zero base in
      subst (λ d. Spells (suc (suc fuel)) num d n (d * base)) (sym one)
        (subst (Spells (suc (suc fuel)) num 1 n) (omega arith)
          (last_lem fuel num n (let e = ap (λ d. d * base) one in omega (arith, e, below))))
  emit_lem (suc k) (suc fuel) num n lt below written =
      let up = pow-suc base k in
      subst (λ d. Spells (suc fuel) num d n (d * base)) (sym up)
        (first_lem fuel num n (base ^ k) (pow_pos base k big) (subst (λ d. num < d * base) up below)
          (subst (λ d. IsWritten num base d n) up written)
          (λ r r_lt. emit_lem k fuel r (n + 1) (omega (arith, lt)) r_lt (after_first r k n)))
    where
      after_first : (r j i : ℕ) → IsWritten r base (base ^ j) (i + 1)
      after_first r j i = let nonzero : (i + 1 == 0) ≡ false = ground arith in rw nonzero

-- The bytes are the digits of the number, the first one the highest.
abbrev pub IsNumeral : ℕ → ℕ → List ℕ → Type 0
IsNumeral num base bytes =
    (ds : List ℕ) × (map a2d bytes ≡ map pos ds) × All (λ d. d < base) ds × (horner base 0 ds ≡ num)

first-IsWritten :
    (num base j : ℕ) → 1 < base → (j ≡ 0) ⊎ (base ^ j ≤ num) → IsWritten num base (base ^ j) 0
first-IsWritten num base j big (inl none_above) =
    let one : base ^ j ≡ 1 = ap (λ i. base ^ i) none_above ∙ pow-zero base in
    let base_pos : 0 < base = omega (arith, big) in
    let tiny : base ^ j / base < 1 = (div-lt_iff_lt-mul base_pos).1 (omega (arith, one, big)) in
    at_end (base ^ j / base) (ltb 0 (num / base ^ j)) (omega (arith, tiny))
  where
    at_end : (d : ℕ) (b : Bool) → d ≡ 0 → (false || b || d == 0) ≡ true
    at_end d b e = grind arith
first-IsWritten num base j big (inr reached) =
    let some_ : 1 ≤ num / base ^ j =
      (le-div_iff_mul-le (pow_pos base j big)).1 (omega (arith, reached)) in
    by_digit (num / base ^ j) (base ^ j / base == 0) some_
  where
    by_digit : (q : ℕ) (b : Bool) → 1 ≤ q → (false || ltb 0 q || b) ≡ true
    by_digit q b h = grind arith

-- `ui2a` on an unsigned int and a base from 2 to 16 ends, and writes the number: each byte is read by
-- `a2d` as a digit of the base, and by Horner's rule the digits are those of the number.
pub ui2a_lem :
    (num base : ℕ)
    → 1 < base
    → base ≤ 16
    → num < 2 ^ 32
    → (bytes : List ℕ) × (ui2a num base ≡ ok bytes) × IsNumeral num base bytes
unfolding ui2a
ui2a_lem num base big few word =
    let one = pow-zero base in
    let (j, run, room, top, bottom) =
      scale_lem num base big 32 0 word
        (subst (λ d. num / d < 2 ^ 32) (sym one) (omega (arith, word))) (inl refl) in
    let (ds, (bytes, written, same), each, value) =
      emit_lem base big few j 34 num 0 (omega (arith, room)) top
        (first-IsWritten num base j big bottom) in
    (
      bytes,
      ap (λ d. scale 33 num base d >>= λ e. emit 34 num base e 0) (sym one)
          ∙ ap (λ o. o >>= λ e. emit 34 num base e 0) run
          ∙ written,
      (ds, same, each, value 0 ∙ omega arith),
    )

-- `i2a` on an int: the numeral of its absolute value in the base 10, behind a '-' for a negative one,
-- the smallest int included.
pub i2a_lem :
    (n : ℕ)
    → n < 2 ^ 31
    → ((bytes : List ℕ) × (i2a (pos n) ≡ ok bytes) × IsNumeral n 10 bytes)
      × ((bytes : List ℕ) × (i2a (negsuc n) ≡ ok (45 ∷ bytes)) × IsNumeral (n + 1) 10 bytes)
unfolding i2a
i2a_lem n small =
    let (below, run, numeral) =
      ui2a_lem (n + 1) 10 (omega arith) (omega arith) (omega (arith, small)) in
    let word : (n + 1) % 2 ^ 32 ≡ n + 1 = omega (arith, small) in
    (
      ui2a_lem n 10 (omega arith) (omega arith) (omega (arith, small)),
      (
        below,
        ap (λ m. ui2a m 10 >>= λ bytes. ok (45 ∷ bytes)) word
            ∙ ap (λ o. o >>= λ bytes. ok (45 ∷ bytes)) run,
        numeral,
      ),
    )
