-- ===== src/Base/Mask.antt =====
-- `x & (2^e - 1)` is the remainder of `x` by `2^e`.
use Prim.Native.Nat.{
  ℕ, zero, suc, ◌+◌, ◌-◌, ◌*◌, ◌/◌, ◌%◌, ◌^◌, ◌≤◌, ◌<◌, min, bit_and, digits, bit_and-bitwise,
}
use native.Mathlib.Nat.{mod-eq_of_lt, mul-add-mod_self_left, div-add-mod, mod-lt, pow-suc}
use mathlib.Core.Path.{◌≡◌, refl, ap}
use native.Mathlib.Omega.{arith}

-- The digits of the meet, with the fuel that the native operation is specified by.
abbrev meet : ℕ → ℕ → ℕ → ℕ
meet = digits (λ _. zero) min

meet_stable : (k l x y : ℕ) → x ≤ k → x ≤ l → meet k x y ≡ meet l x y
meet_stable zero zero x y hk hl = refl
meet_stable (suc k) (suc l) zero y hk hl = refl
meet_stable zero (suc l) zero y hk hl = refl
meet_stable (suc k) zero zero y hk hl = refl
meet_stable zero l (suc x) y hk hl = absurd (omega arith)
meet_stable (suc k) zero (suc x) y hk hl = absurd (omega arith)
meet_stable (suc k) (suc l) (suc x) y hk hl =
    omega (arith, meet_stable k l (suc x / 2) (y / 2) (omega arith) (omega arith))

lowest_bit : (x y : ℕ) → bit_and x y ≡ 2 * bit_and (x / 2) (y / 2) + min (x % 2) (y % 2)
lowest_bit zero y = omega (arith, bit_and-bitwise 0 y, bit_and-bitwise 0 (y / 2))
lowest_bit (suc x) y = omega (
  arith,
  bit_and-bitwise (suc x) y,
  bit_and-bitwise (suc x / 2) (y / 2),
  meet_stable x (suc x / 2) (suc x / 2) (y / 2) (omega arith) (omega arith),
)

no_mask : (k x : ℕ) → x ≤ k → bit_and x 0 ≡ 0
no_mask k zero h = refl
no_mask zero (suc x) h = absurd (omega arith)
no_mask (suc k) (suc x) h = omega (arith, lowest_bit (suc x) 0, no_mask k (suc x / 2) (omega arith))

-- The remainder by an even modulus keeps the lowest bit.
mod-double : (x m : ℕ) → 0 < m → x % (2 * m) ≡ 2 * (x / 2 % m) + x % 2
mod-double x m h =
    let r : ℕ = 2 * (x / 2 % m) + x % 2 in
    let whole : x ≡ 2 * m * (x / 2 / m) + r =
      omega (arith, div-add-mod (x / 2) m, div-add-mod x 2) in
    omega (
      arith,
      ap (λ (t : ℕ). t % (2 * m)) whole,
      mul-add-mod_self_left (2 * m) (x / 2 / m) r,
      mod-eq_of_lt {n = r} {m = 2 * m} (omega (arith, mod-lt (x / 2) h)),
    )

pub pow_two_pos : (e : ℕ) → 0 < 2 ^ e
pow_two_pos zero = omega arith
pow_two_pos (suc e) = omega (arith, pow-suc 2 e, pow_two_pos e)

pub bit_and_mask : (e x : ℕ) → bit_and x (2 ^ e - 1) ≡ x % 2 ^ e
bit_and_mask zero x = omega (arith, no_mask x x (omega arith))
bit_and_mask (suc e) x =
    let twice : 2 ^ suc e ≡ 2 * 2 ^ e = omega (arith, pow-suc 2 e) in
    let half : (2 ^ suc e - 1) / 2 ≡ 2 ^ e - 1 = omega (arith, twice, pow_two_pos e) in
    let odd : (2 ^ suc e - 1) % 2 ≡ 1 = omega (arith, twice, pow_two_pos e) in
    omega (
      arith,
      odd,
      lowest_bit x (2 ^ suc e - 1),
      ap (λ (m : ℕ). bit_and (x / 2) m) half,
      bit_and_mask e (x / 2),
      mod-double x (2 ^ e) (pow_two_pos e),
      ap (λ (m : ℕ). x % m) twice,
    )
