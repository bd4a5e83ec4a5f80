-- ===== src/Text.antt =====
-- src/util.c: the strings of C and the digits of numbers. A string is an array of bytes, which ends
-- before its first zero.
pub mod Strings
pub mod Numbers
pub mod Scale
pub mod Digits
mod Tests
use cs452_kernel.Base.{
  ℕ, zero, suc, ◌+◌, ◌-◌, ◌*◌, ◌/◌, ◌%◌, ◌^◌, not, ◌&&◌, ◌||◌, List, [], ◌∷◌, ltb, leb, ◌==◌,
  if◌then◌else◌, update, Outcome, ok, fault, hang, out_of_bounds, ◌>>=◌, ℤ, pos, negsuc, minus_one,
}

-- `*it = v` in an array of `size` bytes.
abbrev store : ℕ → (ℕ → ℕ) → ℕ → ℕ → Outcome (ℕ → ℕ)
store size dest it v = if ltb it size then ok (update dest it v) else fault out_of_bounds

-- The loop of `strncpy` with its closing zero, from the place `i` on with `n` bytes left.
unfoldable pub strncpy_from : ℕ → (ℕ → ℕ) → (ℕ → ℕ) → ℕ → ℕ → Outcome (ℕ → ℕ)
strncpy_from size dest src i zero = store size dest i 0
strncpy_from size dest src i (suc n) =
    let further = store size dest i (src i) >>= λ d. strncpy_from size d src (i + 1) n in
    if src i == 0 then store size dest i 0 else further

-- `size` is that of the target, which is an array and so not NULL.
unfoldable pub strncpy : ℕ → (ℕ → ℕ) → (ℕ → ℕ) → ℕ → Outcome (ℕ → ℕ)
unfolding strncpy_from
strncpy size dest src n = strncpy_from size dest src 0 n

-- A difference of two bytes.
abbrev pub difference : ℕ → ℕ → ℤ
difference a b = if ltb a b then negsuc (b - a - 1) else pos (a - b)

unfoldable pub strncmp_from : (ℕ → ℕ) → (ℕ → ℕ) → ℕ → ℕ → ℤ
strncmp_from s1 s2 i zero = pos 0
strncmp_from s1 s2 i (suc n) =
    let further = strncmp_from s1 s2 (i + 1) n in
    if not (s1 i == 0) && s1 i == s2 i then further else difference (s1 i) (s2 i)

unfoldable pub strncmp : (ℕ → ℕ) → (ℕ → ℕ) → ℕ → ℤ
unfolding strncmp_from
strncmp s1 s2 n = strncmp_from s1 s2 0 n

-- The loop of `strlen`, in an array of which `places` bytes are left.
unfoldable pub strlen_from : ℕ → (ℕ → ℕ) → ℕ → Outcome ℕ
strlen_from zero str i = fault out_of_bounds
strlen_from (suc places) str i =
    let further = strlen_from places str (i + 1) in if str i == 0 then ok (i + 1) else further

unfoldable pub strlen : ℕ → (ℕ → ℕ) → Outcome ℕ
unfolding strlen_from
strlen size str = strlen_from size str 0
