-- ===== src/Kernel/StackAlloc.antt =====
-- kernel/include/stack-alloc.h and kernel/src/stack-alloc.c: the stacks of the tasks, blocks of
-- STACK_SIZE bytes from `base` on. An address is a number, and does not wrap.
pub mod Laws
mod Tests
use cs452_kernel.Base.{
  ℕ, zero, suc, ◌+◌, ◌-◌, ◌*◌, ◌/◌, ◌%◌, ◌^◌, Bool, ltb, leb, ◌==◌, not, if◌then◌else◌, update,
  Outcome, ok, fault, panic,
}

abbrev pub stack_size : ℕ
stack_size = 0x80000

-- N_TASK_T * N_SLABS, the number of descriptors.
abbrev pub n_stacks : ℕ
n_stacks = 8 * 128

pub record StackAlloc : Type 0 where
  pub is_allocd : ℕ → ℕ
  pub base : ℕ

pub stack_alloc_init : StackAlloc → ℕ → StackAlloc
stack_alloc_init salloc kernel_stack_ptr = record {
  is_allocd = λ _. 0;
  base = kernel_stack_ptr + stack_size;
}

-- `while ((offset < N) && is_allocd[offset]) ++offset`, with `n` offsets left below N.
pub find_free : (ℕ → ℕ) → ℕ → ℕ → ℕ
find_free is_allocd zero offset = offset
find_free is_allocd (suc n) offset =
    let later = find_free is_allocd n (offset + 1) in
    if is_allocd offset == 0 then offset else later

pub stack_alloc_new : StackAlloc → Outcome (ℕ × StackAlloc)
stack_alloc_new salloc =
    let offset = find_free salloc.is_allocd n_stacks 0 in
    if ltb offset n_stacks
    then ok (
      salloc.base + offset * stack_size,
      record salloc { is_allocd = update salloc.is_allocd offset 1 },
    )
    else fault panic

-- The quotient of the pointers' difference, which C rounds towards 0, as a uint16_t.
pub offset_of : ℕ → ℕ → ℕ
offset_of base stack_base =
    if leb base stack_base
    then (stack_base - base) / stack_size % 2 ^ 16
    else (2 ^ 16 - (base - stack_base) / stack_size % 2 ^ 16) % 2 ^ 16

pub stack_alloc_free : StackAlloc → ℕ → Outcome StackAlloc
stack_alloc_free salloc stack_base =
    let offset = offset_of salloc.base stack_base in
    if ltb offset n_stacks
    then ok (record salloc { is_allocd = update salloc.is_allocd offset 0 })
    else fault panic
