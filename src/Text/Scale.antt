-- ===== src/Text/Scale.antt =====
-- The first loop of `ui2a`: the place of the first digit.
use cs452_kernel.Base.{
  ℕ, zero, suc, ◌+◌, ◌*◌, ◌/◌, ◌^◌, ◌<◌, ◌≤◌, ◌≡◌, refl, ap, sym, ◌∙◌, subst, ◌⊎◌, inl, inr, true,
  false, leb, ok, Bool-cases, arith,
}
use native.Mathlib.Nat.{
  mod-eq_of_lt, mul_comm, div-lt_iff_lt-mul, div-div-eq-div-mul, pow-suc, pow-zero, mul-le-mul_left,
  le-div_iff_mul-le,
}
use cs452_kernel.Text.Numbers.{scale}

pub pow_pos : (b k : ℕ) → 1 < b → 0 < b ^ k
pow_pos b zero h = let e = pow-zero b in omega (arith, e)
pow_pos b (suc k) h =
    let one = pow_pos b k h in
    let le = mul-le-mul_left (b ^ k) h in let e = pow-suc b k in omega (arith, one, le, e)

module _ (num base : ℕ) (big : 1 < base) where
  -- The place that is found is a power of the base, at the first digit of the number.
  abbrev pub Scales : ℕ → ℕ → Type 0
  Scales fuel k =
      (j : ℕ) × (scale fuel num base (base ^ k) ≡ ok (base ^ j))
      × (j < k + fuel)
      × (num < base ^ j * base)
      × ((j ≡ 0) ⊎ (base ^ j ≤ num))

  -- The place is found.
  scale_last :
      (f k : ℕ) → leb base (num / base ^ k) ≡ false → (k ≡ 0) ⊎ (base ^ k ≤ num) → Scales (suc f) k
  unfolding scale
  scale_last f k last at =
      let below : num / base ^ k < base = ground arith in
      let top = (div-lt_iff_lt-mul (pow_pos base k big)).0 below in
      let turned = mul_comm base (base ^ k) in
      (k, rw last, omega arith, omega (arith, top, turned), at)

  -- The place goes up by one.
  scale_more :
      (f k : ℕ)
      → base ^ k * base < 2 ^ 32
      → leb base (num / base ^ k) ≡ true
      → Scales f (suc k)
      → Scales (suc f) k
  unfolding scale
  scale_more f k fits more (j, run, room, top, bottom) = (
    j,
    rw more (ap (scale f num base) (mod-eq_of_lt fits ∙ sym (pow-suc base k)) ∙ run),
    omega (arith, room),
    top,
    bottom,
  )

  pub scale_lem :
      (f k : ℕ)
      → num < 2 ^ 32
      → num / base ^ k < 2 ^ f
      → (k ≡ 0) ⊎ (base ^ k ≤ num)
      → Scales (suc f) k
  scale_lem zero k word small at =
      let one : 2 ^ 0 ≡ 1 = refl in
      scale_last 0 k
        (let below : num / base ^ k < base = omega (arith, small, one, big) in ground arith) at
  scale_lem (suc f) k word small at = elim (Bool-cases (leb base (num / base ^ k))) [
    | inr last ↦ scale_last (suc f) k last at
    | inl more ↦
        let above : base ≤ num / base ^ k = ground arith in
        let most = (le-div_iff_mul-le (pow_pos base k big)).0 above in
        let turned = mul_comm base (base ^ k) in
        let fits : base ^ k * base ≤ num = omega (arith, most, turned) in
        let halves : 2 ^ f * 2 ≤ 2 ^ f * base = mul-le-mul_left (2 ^ f) big in
        let two = pow-suc 2 f in
        let up = pow-suc base k in
        let below : num / base ^ k < 2 ^ f * base = omega (arith, small, halves, two) in
        let base_pos : 0 < base = omega (arith, big) in
        let less : num / base ^ k / base < 2 ^ f = (div-lt_iff_lt-mul base_pos).1 below in
        let divided = div-div-eq-div-mul num (base ^ k) base in
        scale_more (suc f) k (omega (arith, fits, word)) more (
          scale_lem f (suc k) word
            (subst (λ d. num / d < 2 ^ f) (sym up) (omega (arith, less, divided)))
            (inr (omega (arith, up, fits))))
  ]
