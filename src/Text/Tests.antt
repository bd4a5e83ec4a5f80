-- ===== src/Text/Tests.antt =====
-- Runs of the string routines.
use cs452_kernel.Base.{
  ℕ, ◌<◌, ◌≡◌, refl, List, [], ◌∷◌, ◌==◌, if◌then◌else◌, ok, fault, out_of_bounds, negsuc, arith,
}
use cs452_kernel.Base.Lists.{length}
use cs452_kernel.Text.{strncpy, strncmp, strncmp_from, strlen, strlen_from}
use cs452_kernel.Text.Strings.{text, strncpy_lem}
use cs452_kernel.Text.Numbers.{ui2a, scale, emit, digit_byte}
use cs452_kernel.Text.Digits.{IsNumeral, ui2a_lem}

-- "ab", and "aaaa" without an end.
abbrev ab : ℕ → ℕ
ab i = if i == 0 then 97 else if i == 1 then 98 else 0

abbrev endless : ℕ → ℕ
endless i = 97

-- It counts the closing zero.
strlen-ab : strlen 4 ab ≡ ok 3
unfolding strlen strlen_from
strlen-ab = refl

strncmp-ab : strncmp endless ab 4 ≡ negsuc 0
unfolding strncmp strncmp_from
strncmp-ab = refl

strncpy_lem_example :
    (length (text 4 ab) < 4
      → (d : ℕ → ℕ) × (strncpy 4 endless ab 4 ≡ ok d) × (text 4 d ≡ text 4 ab))
    × (length (text 4 ab) ≡ 4 → strncpy 4 endless ab 4 ≡ fault out_of_bounds)
strncpy_lem_example = strncpy_lem 4 endless ab

-- "ff"
ui2a_255 : ui2a 255 16 ≡ ok (102 ∷ 102 ∷ [])
unfolding ui2a scale emit digit_byte
ui2a_255 = refl

ui2a_lem_example : (bytes : List ℕ) × (ui2a 305 10 ≡ ok bytes) × IsNumeral 305 10 bytes
ui2a_lem_example = ui2a_lem 305 10 (omega arith) (omega arith) (omega arith)
