-- ===== src/Kernel/Interrupts.antt =====
-- `handle_interrupt` of kernel/src/interrupts.c. What it reads from the devices, the acknowledged
-- interrupt and the state of the two UARTs, is an argument; its writes to them are left out.
pub mod Laws
mod Tests
use cs452_kernel.Base.{
  ℕ, Bool, ◌==◌, if◌then◌else◌, bit_and, Outcome, ok, fault, panic, ◌>>=◌, ℤ, pos,
}
use cs452_kernel.Kernel.Task.{Tasks}
use cs452_kernel.Kernel.EventQueue.{
  EventQueue, timer_tick, console_rx, marklin_rx, marklin_cts, event_queue_unblock_one,
  event_queue_unblock_all,
}

-- The registers that the handler reads. `marklin_char` is what `uart_getc_nb` returns.
pub record Devices : Type 0 where
  pub interrupt_id : ℕ
  pub marklin_interrupt : ℕ
  pub cts_status : ℤ
  pub marklin_char : ℤ
  pub console_interrupt : ℕ

abbrev pub timer_c1_interrupt_id : ℕ
timer_c1_interrupt_id = 97

abbrev pub uart_interrupt_id : ℕ
uart_interrupt_id = 153

-- `(status & MSK) == MSK`
abbrev pub flag_set : ℕ → ℕ → Bool
flag_set status mask = bit_and status mask == mask

-- One `if` of the UART case: a task that waits for the event is woken, if the flag is set.
unfoldable pub wake_if : Bool → Tasks → EventQueue → ℕ → ℤ → Tasks × EventQueue
wake_if flag s eq e retval =
    let (found, s', eq') = event_queue_unblock_one s eq e retval in
    if flag then (s', eq') else (s, eq)

-- The UART case: CTS is bit 1, RX bit 4 and RTIM bit 6.
unfoldable pub handle_uart : Tasks → EventQueue → Devices → Tasks × EventQueue
unfolding wake_if
handle_uart s eq d =
    let (s₁, eq₁) = wake_if (flag_set d.marklin_interrupt 0x02) s eq marklin_cts d.cts_status in
    let (s₂, eq₂) = wake_if (flag_set d.marklin_interrupt 0x10) s₁ eq₁ marklin_rx d.marklin_char in
    wake_if (flag_set d.console_interrupt 0x40) s₂ eq₂ console_rx (pos 0)

unfoldable pub handle_interrupt : ℕ → Tasks → EventQueue → Devices → Outcome (Tasks × EventQueue)
unfolding handle_uart
handle_interrupt fuel s eq d =
    let ticked = event_queue_unblock_all fuel s eq timer_tick (pos 0) >>= λ r. ok (r.1, r.2) in
    if d.interrupt_id == timer_c1_interrupt_id
    then ticked
    else if d.interrupt_id == uart_interrupt_id
    then ok (handle_uart s eq d)
    else fault panic
