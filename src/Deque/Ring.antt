-- ===== src/Deque/Ring.antt =====
-- The values of a circular buffer from an index on, and how a write changes them.
use native.Mathlib.Nat.{mod-add-mod, mod-eq_of_lt, mod-eq-sub-mod, mod-lt}
use native.Mathlib.Decide.{dec_lt}
use cs452_kernel.Base.{
  ℕ, zero, suc, ◌+◌, ◌-◌, ◌%◌, ◌<◌, ◌≡◌, refl, ap, ap₂, sym, ◌∙◌, ◌≢◌, List, [], ◌∷◌, ◌++◌, arith,
  update, update_ne,
}
use cs452_kernel.Base.Lists.{length}

-- An index that moves on by less than a round does not come back.
mod_ne_below : (room i k : ℕ) → i < room → 0 < k → k < room → (i + k) % room ≢ i
mod_ne_below room i k hi hk small = elim (dec_lt (i + k) room) [
  | yes p ↦ omega (arith, mod-eq_of_lt p)
  | no p ↦ omega (
    arith,
    mod-eq-sub-mod {n = i + k} {m = room} (omega arith),
    mod-eq_of_lt {n = i + k - room} {m = room} (omega arith),
  )
]

pub mod_ne : (room i k : ℕ) → 0 < k → k < room → (i + k) % room ≢ i % room
mod_ne room i k hk small e =
    mod_ne_below room (i % room) k (mod-lt i (omega arith)) hk small (mod-add-mod i room k ∙ e)

mod_suc : (room i j : ℕ) → i % room ≡ j % room → (i + 1) % room ≡ (j + 1) % room
mod_suc room i j e =
    sym (mod-add-mod i room 1) ∙ ap (λ (t : ℕ). (t + 1) % room) e ∙ mod-add-mod j room 1

module _ (buf : ℕ → ℕ) (room : ℕ) where
  -- The `n` values from index `i` on, going round at `room`.
  abbrev pub ring : ℕ → ℕ → List ℕ
  ring i zero = []
  ring i (suc n) = buf (i % room) ∷ ring (i + 1) n

  pub length-ring : (i n : ℕ) → length (ring i n) ≡ n
  length-ring i zero = refl
  length-ring i (suc n) = ap suc (length-ring (i + 1) n)

  pub ring_snoc : (i n : ℕ) → ring i (n + 1) ≡ ring i n ++ buf ((i + n) % room) ∷ []
  ring_snoc i zero = ap (λ (t : ℕ). buf (t % room) ∷ []) (omega arith)
  ring_snoc i (suc n) =
      let e : suc n + 1 ≡ suc (n + 1) = omega arith in
      let f : i + 1 + n ≡ i + suc n = omega arith in
      rw e (
        ap (λ l. buf (i % room) ∷ l)
          (ring_snoc (i + 1) n ∙ ap (λ (t : ℕ). ring (i + 1) n ++ buf (t % room) ∷ []) f))

  -- Only the index modulo the capacity counts.
  pub ring_congr : (i j n : ℕ) → i % room ≡ j % room → ring i n ≡ ring j n
  ring_congr i j zero e = refl
  ring_congr i j (suc n) e = ap₂ ◌∷◌ (ap buf e) (ring_congr (i + 1) (j + 1) n (mod_suc room i j e))

-- A write outside the values leaves them.
pub ring-update_ne :
    (buf : ℕ → ℕ) (room i n p x : ℕ)
    → ((k : ℕ) → k < n → (i + k) % room ≢ p)
    → ring (update buf p x) room i n ≡ ring buf room i n
ring-update_ne buf room i zero p x h = refl
ring-update_ne buf room i (suc n) p x h =
    ap₂ ◌∷◌ (update_ne buf p (i % room) x (λ e. h 0 (omega arith) (head e))) (
      ring-update_ne buf room (i + 1) n p x
        λ k below e. h (suc k) (omega arith) (ap (λ (t : ℕ). t % room) (omega arith) ∙ e))
  where
    head : p ≡ i % room → (i + 0) % room ≡ p
    head e = ap (λ (t : ℕ). t % room) (omega arith) ∙ sym e
