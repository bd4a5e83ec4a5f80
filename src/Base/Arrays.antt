-- ===== src/Base/Arrays.antt =====
-- A C array, or a store of objects, is the function from its indices. Its bounds are theorems.
use Prim.Native.Nat.{ℕ}
use mathlib.Core.Path.{◌≡◌, refl, sym, fun_ext}
use mathlib.Core.Logic.{◌≢◌}
use mathlib.Core.Path.{subst}
use native.Mathlib.Decide.{ℕ_discrete}
use native.Mathlib.Omega.{arith}
use cs452_kernel.Base.Tests.{◌==◌, if◌then◌else◌}

module _ {ℓ} {A : Type ℓ} where
  abbrev pub update : (ℕ → A) → ℕ → A → ℕ → A
  update f i v j = if i == j then v else f j

  pub update_self : (f : ℕ → A) (i : ℕ) (v : A) → update f i v i ≡ v
  update_self f i v = ground arith

  pub update_ne : (f : ℕ → A) (i j : ℕ) (v : A) → i ≢ j → update f i v j ≡ f j
  update_ne f i j v h = ground arith

  pub update-update : (f : ℕ → A) (i : ℕ) (a b : A) → update (update f i a) i b ≡ update f i b
  update-update f i a b = fun_ext λ j. ground arith

-- To prove something of every place after a write, and after two writes at one place.
pub update_cases {ℓ κ} :
    {A : Type ℓ} (F : ℕ → A → Type κ) (f : ℕ → A) (i : ℕ) (a : A)
    → F i a
    → ((j : ℕ) → i ≢ j → F j (f j))
    → (j : ℕ) → F j (update f i a j)
update_cases F f i a here there j = elim (ℕ_discrete i j) [
  | yes e ↦ subst (λ k. F k (update f i a k)) e (subst (F i) (sym (update_self f i a)) here)
  | no ne ↦ subst (F j) (sym (update_ne f i j a ne)) (there j ne)
]

pub update_cases₂ {ℓ κ μ} :
    {A : Type ℓ} {B : Type κ} (F : ℕ → A → B → Type μ) (f : ℕ → A) (g : ℕ → B) (i : ℕ) (a : A)
    (b : B)
    → F i a b
    → ((j : ℕ) → i ≢ j → F j (f j) (g j))
    → (j : ℕ) → F j (update f i a j) (update g i b j)
update_cases₂ F f g i a b here there =
    update_cases (λ j x. F j x (update g i b j)) f i a
      (subst (F i a) (sym (update_self g i b)) here)
      λ j ne. subst (F j (f j)) (sym (update_ne g i j b ne)) (there j ne)

-- A write of what is there already.
pub update_same {ℓ} : {A : Type ℓ} (f : ℕ → A) (i : ℕ) (a : A) → f i ≡ a → update f i a ≡ f
update_same f i a e = fun_ext (update_cases (λ j x. x ≡ f j) f i a (sym e) (λ j ne. refl))
