-- ===== src/Kernel/StackAlloc/Tests.antt =====
-- The theorems of the stack allocator at a concrete allocator.
use cs452_kernel.Base.{
  ℕ, ◌+◌, ◌*◌, ◌<◌, ◌≡◌, ◌≢◌, refl, ◌⊎◌, ok, fault, panic, update, if◌then◌else◌, ltb,
}
use cs452_kernel.Kernel.StackAlloc.{StackAlloc, stack_size, n_stacks, stack_alloc_new, find_free}
use cs452_kernel.Kernel.StackAlloc.Laws.{stack_at, new_lem}

-- The first two stacks are taken.
abbrev two_taken : StackAlloc
two_taken = record { is_allocd = λ i. if ltb i 2 then 1 else 0; base = stack_size }

abbrev third_taken : StackAlloc
third_taken = record two_taken { is_allocd = update two_taken.is_allocd 2 1 }

third : stack_alloc_new two_taken ≡ ok (stack_size + 2 * stack_size, third_taken)
unfolding stack_alloc_new find_free
third = refl

new_lem_example :
    ((offset : ℕ) × (offset < n_stacks)
      × (two_taken.is_allocd offset ≡ 0)
      × ((k : ℕ) → k < offset → two_taken.is_allocd k ≢ 0)
      × (stack_alloc_new two_taken
          ≡ ok (
            stack_at two_taken offset,
            record two_taken { is_allocd = update two_taken.is_allocd offset 1 },
          )))
    ⊎ (((k : ℕ) → k < n_stacks → two_taken.is_allocd k ≢ 0)
        × (stack_alloc_new two_taken ≡ fault panic))
new_lem_example = new_lem two_taken
