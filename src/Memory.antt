-- ===== src/Memory.antt =====
-- The memory of the tasks as bytes by address, the copy of src/util.c, and the writes of the kernel
-- through a task's pointers (little-endian).
use cs452_kernel.Base.{
  ℕ, zero, suc, ◌+◌, ◌/◌, ◌%◌, ◌<◌, ◌≡◌, refl, ◌≢◌, ◌||◌, ◌==◌, if◌then◌else◌, update, update_self,
  update_ne, ap, sym, ◌∙◌, arith, Bool-cases, inl, inr,
}

abbrev pub Mem : Type 0
Mem = ℕ → ℕ

-- The loop of `memcpy`: `n` bytes one after the other, from the lowest address up.
unfoldable pub copy_bytes : Mem → ℕ → ℕ → ℕ → Mem
copy_bytes m dest src zero = m
copy_bytes m dest src (suc n) = copy_bytes (update m dest (m src)) (dest + 1) (src + 1) n

-- A NULL pointer copies nothing.
unfoldable pub memcpy : Mem → ℕ → ℕ → ℕ → Mem
memcpy m dest src n = if dest == 0 || src == 0 then m else copy_bytes m dest src n

-- An int, and a uint64_t, stored at an address.
unfoldable pub write_bytes : Mem → ℕ → ℕ → ℕ → Mem
write_bytes m addr v zero = m
write_bytes m addr v (suc n) = write_bytes (update m addr (v % 256)) (addr + 1) (v / 256) n

-- Addresses outside the target keep their byte.
pub copy_outside :
    (n : ℕ) (m : Mem) (dest src a : ℕ)
    → ((k : ℕ) → k < n → a ≢ dest + k)
    → copy_bytes m dest src n a ≡ m a
unfolding copy_bytes
copy_outside zero m dest src a out = refl
copy_outside (suc n) m dest src a out =
    copy_outside n (update m dest (m src)) (dest + 1) (src + 1) a
      (λ k lt e. out (suc k) (omega arith) (omega (arith, e)))
    ∙ update_ne m dest a (m src) (λ e. out 0 (omega arith) (omega (arith, e)))

-- The target gets the bytes of the source, if the two do not overlap.
pub copy_inside :
    (n : ℕ) (m : Mem) (dest src k : ℕ)
    → k < n
    → ((i j : ℕ) → i < n → j < n → dest + i ≢ src + j)
    → copy_bytes m dest src n (dest + k) ≡ m (src + k)
unfolding copy_bytes
copy_inside zero m dest src k lt apart = absurd (omega arith)
copy_inside (suc n) m dest src zero lt apart =
    let here : dest + 0 ≡ dest = omega arith in
    let from : src + 0 ≡ src = omega arith in
    copy_outside n (update m dest (m src)) (dest + 1) (src + 1) (dest + 0)
      (λ k below e. absurd (omega (arith, e)))
    ∙ ap (update m dest (m src)) here
    ∙ update_self m dest (m src)
    ∙ ap m (sym from)
copy_inside (suc n) m dest src (suc k) lt apart =
    ap (copy_bytes (update m dest (m src)) (dest + 1) (src + 1) n) (omega arith)
    ∙ copy_inside n (update m dest (m src)) (dest + 1) (src + 1) k (omega arith)
        (λ i j hi hj e. apart (suc i) (suc j) (omega arith) (omega arith) (omega (arith, e)))
    ∙ update_ne m dest (src + 1 + k) (m src)
        (λ e. apart 0 (suc k) (omega arith) lt (omega (arith, e)))
    ∙ ap m (omega arith)

pub write_outside :
    (n : ℕ) (m : Mem) (addr v a : ℕ)
    → ((k : ℕ) → k < n → a ≢ addr + k)
    → write_bytes m addr v n a ≡ m a
unfolding write_bytes
write_outside zero m addr v a out = refl
write_outside (suc n) m addr v a out =
    write_outside n (update m addr (v % 256)) (addr + 1) (v / 256) a
      (λ k lt e. out (suc k) (omega arith) (omega (arith, e)))
    ∙ update_ne m addr a (v % 256) (λ e. out 0 (omega arith) (omega (arith, e)))

module _ (m : Mem) (dest src n : ℕ) where
  -- `memcpy` does the same for two pointers that are not NULL.
  pub memcpy_inside :
      (i : ℕ)
      → i < n
      → dest ≢ 0
      → src ≢ 0
      → ((a b : ℕ) → a < n → b < n → dest + a ≢ src + b)
      → memcpy m dest src n (dest + i) ≡ m (src + i)
  unfolding memcpy
  memcpy_inside i lt there from apart =
      let copied : memcpy m dest src n ≡ copy_bytes m dest src n = ground arith in
      ap (λ (c : Mem). c (dest + i)) copied ∙ copy_inside n m dest src i lt apart

  pub memcpy_outside : (a : ℕ) → ((i : ℕ) → i < n → a ≢ dest + i) → memcpy m dest src n a ≡ m a
  unfolding memcpy
  memcpy_outside a out = elim (Bool-cases (dest == 0 || src == 0)) [
    | inl null ↦ rw null refl
    | inr copies ↦ rw copies (copy_outside n m dest src a out)
  ]
