-- ===== src/Kernel/StackAlloc/Laws.antt =====
-- What the allocator of stacks promises.
use cs452_kernel.Base.{
  ℕ, zero, suc, ◌+◌, ◌*◌, ◌<◌, ◌≤◌, ◌≡◌, ◌≢◌, sym, ap, subst, ◌∙◌, inl, inr, ◌⊎◌, arith, ltb, ◌==◌,
  true, false, update, update-update, update_same, ok, fault, panic, lt→ltb, ok-injective,
}
use native.Mathlib.Decide.{ℕ_discrete, dec_lt}
use cs452_kernel.Kernel.StackAlloc.{
  StackAlloc, stack_size, n_stacks, find_free, stack_alloc_new, stack_alloc_free, offset_of,
}

-- The search stops at the first free offset, or at the end with every offset taken.
find_lem :
    (is_allocd : ℕ → ℕ) (n offset : ℕ)
    → ((k : ℕ) → offset ≤ k → k < find_free is_allocd n offset → is_allocd k ≢ 0)
      × (find_free is_allocd n offset ≤ n + offset)
      × (find_free is_allocd n offset < n + offset → is_allocd (find_free is_allocd n offset) ≡ 0)
unfolding find_free
find_lem is_allocd zero offset =
    (λ k lo hi. absurd (omega arith), omega arith, λ h. absurd (omega arith))
find_lem is_allocd (suc n) offset = elim (ℕ_discrete (is_allocd offset) 0) [
  | yes free ↦
      let hit : (is_allocd offset == 0) ≡ true = ground arith in
      rw hit (λ k lo hi. absurd (omega arith), omega arith, λ h. free)
  | no taken ↦
      let miss : (is_allocd offset == 0) ≡ false = ground arith in
      let later = find_lem is_allocd n (offset + 1) in
      rw miss (
        (λ k lo hi. elim (ℕ_discrete offset k) [
          | yes e ↦ subst (λ (j : ℕ). is_allocd j ≢ 0) e taken
          | no ne ↦ later.0 k (omega arith) hi
        ]),
        omega (arith, later.1),
        (λ h. later.2 (omega arith)),
      )
]

-- The address of a stack by its offset.
abbrev pub stack_at : StackAlloc → ℕ → ℕ
stack_at a offset = a.base + offset * stack_size

-- `stack_alloc_new` gives the first free stack, marks it and nothing else, and panics exactly when
-- every stack is taken.
pub new_lem :
    (a : StackAlloc)
    → ((offset : ℕ) × (offset < n_stacks)
        × (a.is_allocd offset ≡ 0)
        × ((k : ℕ) → k < offset → a.is_allocd k ≢ 0)
        × (stack_alloc_new a
            ≡ ok (stack_at a offset, record a { is_allocd = update a.is_allocd offset 1 })))
      ⊎ (((k : ℕ) → k < n_stacks → a.is_allocd k ≢ 0) × (stack_alloc_new a ≡ fault panic))
unfolding stack_alloc_new
new_lem a =
    let offset = find_free a.is_allocd n_stacks 0 in
    let found = find_lem a.is_allocd n_stacks 0 in
    elim (dec_lt offset n_stacks) [
      | yes lt ↦ inl (
        offset,
        lt,
        found.2 lt,
        (λ k below. found.0 k (omega arith) below),
        rw (lt→ltb offset n_stacks lt),
      )
      | no ge ↦
          let full : ltb offset n_stacks ≡ false = ground arith in
          inr ((λ k below. found.0 k (omega arith) (omega arith)), rw full)
    ]

offset_of-stack_at :
    (base offset : ℕ) → offset < n_stacks → offset_of base (base + offset * stack_size) ≡ offset
unfolding offset_of
offset_of-stack_at base offset lt = ground arith

-- Giving back the stack at an offset clears its mark and nothing else.
pub free_lem :
    (a : StackAlloc) (offset : ℕ)
    → offset < n_stacks
    → stack_alloc_free a (stack_at a offset)
      ≡ ok (record a { is_allocd = update a.is_allocd offset 0 })
unfolding stack_alloc_free
free_lem a offset lt = rw (offset_of-stack_at a.base offset lt) (rw (lt→ltb offset n_stacks lt))

-- A stack given back at once leaves the allocator as it was.
pub free-new :
    (a a' : StackAlloc) (stack_base : ℕ)
    → stack_alloc_new a ≡ ok (stack_base, a')
    → stack_alloc_free a' stack_base ≡ ok a
free-new a a' stack_base e = elim (new_lem a) [
  | inr (taken, panics) ↦ let wrong : ok (stack_base, a') ≡ fault panic = sym e ∙ panics in cc
  | inl (offset, lt, free, before, returned) ↦
      let marked : StackAlloc = record a { is_allocd = update a.is_allocd offset 1 } in
      let same : (stack_base, a') ≡ (stack_at a offset, marked) = ok-injective (sym e ∙ returned) in
      ap (λ (r : ℕ × StackAlloc). stack_alloc_free r.1 r.0) same
      ∙ free_lem marked offset lt
      ∙ ap (λ f. ok (record a { is_allocd = f }))
          (update-update a.is_allocd offset 1 0 ∙ update_same a.is_allocd offset 0 free)
]

-- Stacks at different offsets do not overlap, and all end below the address of the last one.
pub stacks_apart :
    (a : StackAlloc) (i j : ℕ)
    → i < n_stacks
    → j < n_stacks
    → i ≢ j
    → (stack_at a i + stack_size ≤ stack_at a j) ⊎ (stack_at a j + stack_size ≤ stack_at a i)
stacks_apart a i j hi hj ne = omega arith
