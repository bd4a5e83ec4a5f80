-- ===== src/Base/Faults.antt =====
-- How a piece of kernel code can end: with its result, or by leaving the defined behaviour of C.
use Prim.Native.Nat.{ℕ}
use mathlib.Core.Path.{◌≡◌, ap}

-- `hang`: the loop does not end within the fuel. `null_deref`: a field is read through NULL.
-- `panic`: a failed assertion, or `kpanic`. `out_of_bounds`: an array is used at no index of it.
pub data Fault : Type 0 where
  hang null_deref panic out_of_bounds : Fault

pub data Outcome {ℓ} (A : Type ℓ) : Type ℓ where
  ok : A → Outcome A
  fault : Fault → Outcome A

infixl 5 ◌>>=◌
abbrev pub ◌>>=◌ {ℓ κ} : {A : Type ℓ} {B : Type κ} → Outcome A → (A → Outcome B) → Outcome B
ok a >>= f = f a
fault e >>= f = fault e

abbrev or_else {ℓ} : {A : Type ℓ} → A → Outcome A → A
or_else d (ok a) = a
or_else d (fault e) = d

pub ok-injective {ℓ} : {A : Type ℓ} {x y : A} → ok x ≡ ok y → x ≡ y
ok-injective {x} e = ap (or_else x) e

-- A signed return code: `negsuc n` is -(n + 1), under the library's name for its integers.
pub data ℤ : Type 0 where
  pos : ℕ → ℤ
  negsuc : ℕ → ℤ

abbrev pub minus_one : ℤ
minus_one = negsuc 0
