-- ===== src/MarklinServer/Tests.antt =====
-- Runs of the Marklin server.
use cs452_kernel.Base.{◌≡◌, refl, ◌==◌, if◌then◌else◌, ok, pos, arith}
use cs452_kernel.Text.Strings.{text, text_from}
use cs452_kernel.Deque.{Deque}
use cs452_kernel.Uart.{MsgUartserver, uart_puts}
use cs452_kernel.MarklinServer.{
  MarklinServer, marklin_server_init, marklin_server_handle, answer_bytes, on_line,
}
use cs452_kernel.MarklinServer.Spec.{Steady, step}
use cs452_kernel.MarklinServer.Laws.{Shows}
use cs452_kernel.MarklinServer.Handle.{marklin_refines, init-Shows, start_box}

abbrev none_yet : Deque
none_yet = record { size = 0; max_size = 1; front = 0; back = 0; buf = λ _. 0 }

-- The command 133 asks for the five modules of sensors, and 255 stands for a zero.
answer_133 : answer_bytes 133 0 ≡ 5
answer_133 = refl

zero_on_line : on_line 255 ≡ 0
zero_on_line = refl

-- Two bytes to be sent.
abbrev two_bytes : MsgUartserver
two_bytes = record {
  type = uart_puts;
  requester_tid = 4;
  buffer = λ i. if i == 0 then 16 else if i == 1 then 24 else 0;
  length = pos 0;
}

start-Steady : Steady start_box
start-Steady = record {
  prompt = λ _. refl;
  woken = λ _. refl;
  known = λ e. let wrong : ⊥ = cc in wrong;
}

marklin_refines_example :
    ((s' : MarklinServer) × (marklin_server_handle two_bytes 33
          (marklin_server_init none_yet)
          4
          two_bytes
        ≡ ok (s', (step two_bytes start_box 4 two_bytes).1))
      × Shows s' (step two_bytes start_box 4 two_bytes).0)
    × Steady (step two_bytes start_box 4 two_bytes).0
unfolding text text_from
marklin_refines_example =
    marklin_refines two_bytes 33 (omega arith) (marklin_server_init none_yet) start_box 4 two_bytes
      (omega arith) (init-Shows none_yet) start-Steady
