-- ===== src/Track/Parsing/Laws.antt =====
-- The number parsers against the list of the characters in the input.
use cs452_kernel.Base.{
  ℕ, ◌+◌, ◌*◌, ◌%◌, ◌^◌, ◌≤◌, ◌≡◌, refl, sym, ap, subst, ◌∙◌, Option, ◌++◌, arith,
}
use cs452_kernel.Base.Lists.{length}
use cs452_kernel.Deque.{Deque, deque_init, deque_size}
use cs452_kernel.Deque.Inv.{IsValid}
use cs452_kernel.Deque.Refine.{contents, length-contents}
use cs452_kernel.Deque.Move.{init_lem}
use cs452_kernel.Track.Parsing.Numbers.{digits_from, value_from, parse_digits}
use cs452_kernel.Track.Parsing.Digits.{span, Scanned, digits_lem}
use cs452_kernel.Track.Parsing.Value.{
  horner, low, rev, value_lem, low_zero, horner-low, length-rev, rev-rev,
}

-- From a valid input the number parsers read the longest run of digits, of 128 at most, and leave the
-- rest. The result is the number that they write, modulo 2^32; without a digit it is 0, no error.
pub parse_digits_lem :
    (digit_of : ℕ → Option ℕ) (base : ℕ) {q : Deque}
    → IsValid q
    → length (span digit_of (contents q)).0 ≤ 128
    → let (ds, rest) = span digit_of (contents q) in
      let (n, q') = parse_digits digit_of base q in
      (n ≡ horner base 0 ds % 2 ^ 32) × (contents q' ≡ rest) × IsValid q'
unfolding parse_digits deque_size
parse_digits_lem digit_of base {q} v few =
    let (_, w, room, none_) = (init_lem q 7).0 (omega arith) in
    let empty : Deque = (deque_init q 7).1 in
    let ds = (span digit_of (contents q)).0 in
    let (v', w', _, rest, digits) : Scanned digit_of empty (span digit_of (contents q))
        (digits_from digit_of q.size q empty) =
      subst
        (λ n. Scanned digit_of empty (span digit_of (contents q)) (digits_from digit_of n q empty))
        (length-contents q)
        (digits_lem digit_of (contents q) v w refl (omega (arith, room, ap length none_))) in
    let stack : Deque = (digits_from digit_of q.size q empty).0 in
    let held : contents stack ≡ ds = digits ∙ ap (λ l. l ++ ds) none_ in
    let size : length (rev ds) ≡ stack.size =
      length-rev ds ∙ sym (ap length held) ∙ length-contents stack in
    (
      subst (λ n. value_from base n stack 1 0 ≡ (0 + 1 * low base (rev ds)) % 2 ^ 32) size
            (value_lem base (rev ds) 1 0 w' (held ∙ sym (rev-rev ds)) (omega arith))
          ∙ ap (λ (n : ℕ). n % 2 ^ 32)
              (plain (low base (rev ds)) ∙ sym (horner-low base 0 ds ∙ low_zero base (rev ds))),
      rest,
      v',
    )
  where
    plain : (n : ℕ) → 0 + 1 * n ≡ n
    plain n = omega arith
