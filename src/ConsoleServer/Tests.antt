-- ===== src/ConsoleServer/Tests.antt =====
-- Runs of the console server.
use cs452_kernel.Base.{◌+◌, ◌≡◌, refl, inl, [], ◌==◌, if◌then◌else◌, update, ok, pos, arith}
use cs452_kernel.Deque.{Deque}
use cs452_kernel.Uart.{MsgUartserver, uart_notify_read}
use cs452_kernel.ConsoleServer.{ConsoleServer, console_server_init, collect_char}
use cs452_kernel.ConsoleServer.Laws.{Handles, Idle, spec, init-Shows, console_lem}

abbrev none_yet : Deque
none_yet = record { size = 0; max_size = 1; front = 0; back = 0; buf = λ _. 0 }

abbrev start : ConsoleServer
start = console_server_init none_yet none_yet

-- Two characters are typed.
abbrev typed : MsgUartserver
typed = record { type = uart_notify_read; requester_tid = 4; buffer = λ i. 97 + i; length = pos 2 }

-- ESC, '[' and 'A' are one key.
arrow :
    collect_char (λ i. if i == 0 then 27 else 91) 2 65
    ≡ ok (update (λ i. if i == 0 then 27 else 91) 0 128, 1)
unfolding collect_char
arrow = refl

console_lem_example :
    let (tids', chars', _) = spec typed [] [] 4 typed in
    Handles typed 9 start [] [] 4 typed × Idle tids' chars'
console_lem_example =
    console_lem typed 9 (omega arith) start [] [] 4 typed (omega arith)
      (init-Shows none_yet none_yet) (inl refl)
