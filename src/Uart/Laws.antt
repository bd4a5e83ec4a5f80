-- ===== src/Uart/Laws.antt =====
-- What the calls for strings put into their message.
use cs452_kernel.Base.{
  ℕ, zero, suc, ◌+◌, ◌<◌, ◌≤◌, ◌≡◌, refl, ap, sym, ◌∙◌, fun_ext, true, false, ltb, ◌==◌,
  if◌then◌else◌, update, update_self, update_ne, Outcome, ok, fault, out_of_bounds, ◌>>=◌, ℤ,
  minus_one, arith,
}
use cs452_kernel.Base.Lists.{length}
use cs452_kernel.Text.{strncpy, strncpy_from}
use cs452_kernel.Text.Strings.{text, strncpy_lem}
use cs452_kernel.Uart.{
  MsgUartserver, uart_puts, putl_from, puts_from, putl, puts, send_string, uart_request,
}

puts_copies :
    (n i : ℕ) (buffer buf : ℕ → ℕ) → puts_from n i buffer buf ≡ strncpy_from 256 buffer buf i n
unfolding puts_from strncpy_from
puts_copies zero i buffer buf = refl
puts_copies (suc n) i buffer buf =
    ap
      (λ (further : (ℕ → ℕ) → Outcome (ℕ → ℕ)).
        if buf i == 0
        then (if ltb i 256 then ok (update buffer i 0) else fault out_of_bounds)
        else ((if ltb i 256 then ok (update buffer i (buf i)) else fault out_of_bounds)
            >>= further))
      (fun_ext λ b. puts_copies n (i + 1) b buf)

first_more :
    (b buf : ℕ → ℕ) (i n : ℕ)
    → b i ≡ buf i
    → ((j : ℕ) → j < n → b (i + 1 + j) ≡ buf (i + 1 + j))
    → (j : ℕ) → j < suc n
    → b (i + j) ≡ buf (i + j)
first_more b buf i n here more zero lt =
    let e : i + 0 ≡ i = omega arith in ap b e ∙ here ∙ sym (ap buf e)
first_more b buf i n here more (suc j) lt =
    let e : i + suc j ≡ i + 1 + j = omega arith in
    ap b e ∙ more j (omega (arith, lt)) ∙ sym (ap buf e)

-- `blen` bytes and a closing zero.
putl_copies :
    (n i : ℕ) (buffer buf : ℕ → ℕ)
    → i + n < 256
    → (b : ℕ → ℕ) × (putl_from n i buffer buf ≡ ok b)
      × ((j : ℕ) → j < n → b (i + j) ≡ buf (i + j))
      × (b (i + n) ≡ 0)
      × ((j : ℕ) → j < i → b j ≡ buffer j)
unfolding putl_from
putl_copies zero i buffer buf lt =
    let inside : ltb i 256 ≡ true = ground arith in
    (
      update buffer i 0,
      rw inside,
      λ j j_lt. absurd (omega (arith, j_lt)),
      ap (update buffer i 0) (omega arith) ∙ update_self buffer i 0,
      λ j j_lt. update_ne buffer i j 0 (λ e. omega (arith, e, j_lt)),
    )
putl_copies (suc n) i buffer buf lt =
    let inside : ltb i 256 ≡ true = ground arith in
    let (b, run, same, ends, kept) =
      putl_copies n (i + 1) (update buffer i (buf i)) buf (omega (arith, lt)) in
    (
      b,
      rw (inside, run),
      first_more b buf i n (kept i (omega arith) ∙ update_self buffer i (buf i)) same,
      ap b (omega arith) ∙ ends,
      λ j j_lt.
          kept j (omega (arith, j_lt)) ∙ update_ne buffer i j (buf i) (λ e. omega (arith, e, j_lt)),
    )

putl_overruns :
    (n i : ℕ) (buffer buf : ℕ → ℕ) → i + n ≡ 256 → putl_from n i buffer buf ≡ fault out_of_bounds
unfolding putl_from
putl_overruns zero i buffer buf e = let past : ltb i 256 ≡ false = ground arith in rw past
putl_overruns (suc n) i buffer buf e =
    let inside : ltb i 256 ≡ true = ground arith in
    rw inside (putl_overruns n (i + 1) (update buffer i (buf i)) buf (omega (arith, e)))

module _ {S : Type 0} (junk : MsgUartserver)
    (send : ℕ → MsgUartserver → S → Outcome (S × ℤ × MsgUartserver)) (my_tid : ℕ) where
  -- The message with a buffer is sent, and the call returns what becomes of it.
  abbrev pub sends : (ℕ → ℕ) → ℕ → S → Outcome (S × ℤ)
  sends b tid s =
      send_string junk send my_tid tid
        (record (uart_request junk send my_tid uart_puts) { buffer = b }) s

  puts_run :
      (tid : ℕ) (buf : ℕ → ℕ) (s : S)
      → puts junk send my_tid tid buf s ≡ (strncpy 256 junk.buffer buf 256 >>= λ b. sends b tid s)
  unfolding puts strncpy
  puts_run tid buf s = ap (λ o. o >>= λ b. sends b tid s) (puts_copies 256 0 junk.buffer buf)

  -- Puts, with any Send: a text that ends within 256 bytes is sent whole, and for a longer one the closing
  -- zero is written past the buffer of the message.
  pub puts_lem :
      (tid : ℕ) (buf : ℕ → ℕ) (s : S)
      → (length (text 256 buf) < 256
          → (b : ℕ → ℕ) × (text 256 b ≡ text 256 buf)
            × (puts junk send my_tid tid buf s ≡ sends b tid s))
        × (length (text 256 buf) ≡ 256 → puts junk send my_tid tid buf s ≡ fault out_of_bounds)
  puts_lem tid buf s =
      let (whole, over) = strncpy_lem 256 junk.buffer buf in
      (
        λ ends.
            let (b, run, same) = whole ends in
            (b, same, puts_run tid buf s ∙ ap (λ o. o >>= λ c. sends c tid s) run),
        λ full. puts_run tid buf s ∙ ap (λ o. o >>= λ c. sends c tid s) (over full),
      )

  putl_run :
      (tid : ℕ) (buf : ℕ → ℕ) (blen : ℕ) (s : S)
      → (blen ≤ 256
          → putl junk send my_tid tid buf blen s
            ≡ (putl_from blen 0 junk.buffer buf >>= λ b. sends b tid s))
        × (256 < blen → putl junk send my_tid tid buf blen s ≡ ok (s, minus_one))
  unfolding putl
  putl_run tid buf blen s = (
    λ le. let small : ltb 256 blen ≡ false = ground arith in rw small,
    λ lt. let large : ltb 256 blen ≡ true = ground arith in rw large,
  )

  -- Putl, with any Send, on all lengths: below 256 the bytes are sent with a closing zero behind them; at
  -- 256, which the guard against an overflow lets pass, that zero is written past the buffer of the
  -- message; above it nothing is sent and the call returns -1.
  pub putl_lem :
      (tid : ℕ) (buf : ℕ → ℕ) (blen : ℕ) (s : S)
      → (blen < 256
          → (b : ℕ → ℕ) × (putl junk send my_tid tid buf blen s ≡ sends b tid s)
            × ((j : ℕ) → j < blen → b j ≡ buf j)
            × (b blen ≡ 0))
        × (blen ≡ 256 → putl junk send my_tid tid buf blen s ≡ fault out_of_bounds)
        × (256 < blen → putl junk send my_tid tid buf blen s ≡ ok (s, minus_one))
  putl_lem tid buf blen s =
      let (small, large) = putl_run tid buf blen s in
      (
        λ lt.
            let (b, run, same, ends, _) = putl_copies blen 0 junk.buffer buf (omega (arith, lt)) in
            (
              b,
              small (omega (arith, lt)) ∙ ap (λ o. o >>= λ c. sends c tid s) run,
              λ j j_lt. let at : 0 + j ≡ j = omega arith in sym (ap b at) ∙ same j j_lt ∙ ap buf at,
              (let at : 0 + blen ≡ blen = omega arith in sym (ap b at) ∙ ends),
            ),
        λ e.
            small (omega (arith, e))
            ∙ ap (λ o. o >>= λ c. sends c tid s)
                (putl_overruns blen 0 junk.buffer buf (omega (arith, e))),
        large,
      )
