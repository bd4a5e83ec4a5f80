-- ===== src/Text/Numbers.antt =====
-- The conversions of numbers of src/util.c. What is written to the buffer is the list of its bytes,
-- without the closing zero. A loop takes fuel.
use cs452_kernel.Base.{
  ℕ, zero, suc, ◌+◌, ◌-◌, ◌*◌, ◌/◌, ◌%◌, ◌^◌, not, ◌&&◌, ◌||◌, List, [], ◌∷◌, ltb, leb, ◌==◌,
  if◌then◌else◌, Outcome, ok, fault, hang, ◌>>=◌, ℤ, pos, negsuc, minus_one,
}

-- '0' is 48, 'A' 65 and 'a' 97.
unfoldable pub a2d : ℕ → ℤ
a2d ch =
    if leb 48 ch && leb ch 57
    then pos (ch - 48)
    else if leb 97 ch && leb ch 102
    then pos (ch - 97 + 10)
    else if leb 65 ch && leb ch 70
    then pos (ch - 65 + 10)
    else minus_one

-- The loop that looks for the place of the first digit, on unsigned ints.
unfoldable pub scale : ℕ → ℕ → ℕ → ℕ → Outcome ℕ
scale zero num base d = fault hang
scale (suc fuel) num base d =
    let further = scale fuel num base (d * base % 2 ^ 32) in
    if leb base (num / d) then further else ok d

-- The byte of a digit.
unfoldable pub digit_byte : ℕ → ℕ
digit_byte dgt = (dgt + (if ltb dgt 10 then 48 else 97 - 10)) % 256

-- The loop that writes the digits; `n` counts those that are written.
unfoldable pub emit : ℕ → ℕ → ℕ → ℕ → ℕ → Outcome (List ℕ)
unfolding digit_byte
emit zero num base d n = fault hang
emit (suc fuel) num base d n =
    let dgt = num / d in
    let written = not (n == 0) || ltb 0 dgt || d / base == 0 in
    let rest = emit fuel (num % d) base (d / base) (if written then n + 1 else n) in
    if d == 0
    then ok []
    else if written
    then (rest >>= λ bytes. ok (digit_byte dgt ∷ bytes))
    else rest

-- A word has 32 digits at most, in the base 2.
unfoldable pub ui2a : ℕ → ℕ → Outcome (List ℕ)
unfolding scale emit
ui2a num base = scale 33 num base 1 >>= λ d. emit 34 num base d 0

-- '-' is 45. The negation is taken to wrap, as the compiled code does it.
unfoldable pub i2a : ℤ → Outcome (List ℕ)
unfolding ui2a
i2a (pos a) = ui2a a 10
i2a (negsuc a) = ui2a ((a + 1) % 2 ^ 32) 10 >>= λ bytes. ok (45 ∷ bytes)
