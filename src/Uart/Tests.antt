-- ===== src/Uart/Tests.antt =====
-- Runs of the calls to the servers of the serial lines.
use cs452_kernel.Base.{ℕ, ◌+◌, ◌≡◌, refl, Outcome, ok, ℤ, pos}
use cs452_kernel.Uart.{MsgUartserver, uart_success, uart_getc, putc, getc, wait_output_empty}

-- The message to be filled in, and a Send that a server answers with success.
abbrev blank : MsgUartserver
blank = record { type = uart_getc; requester_tid = 0; buffer = λ _. 120; length = pos 0 }

abbrev served : ℕ → MsgUartserver → ℕ → Outcome (ℕ × ℤ × MsgUartserver)
served tid m s = ok (s + 1, pos 264, record m { type = uart_success })

putc_x : putc blank served 5 2 120 0 ≡ ok (1, pos 0)
unfolding putc
putc_x = refl

getc_x : getc blank served 5 2 0 ≡ ok (1, pos 120)
unfolding getc
getc_x = refl

wait_x : wait_output_empty blank served 5 2 0 ≡ ok (1, pos 0)
unfolding wait_output_empty
wait_x = refl
