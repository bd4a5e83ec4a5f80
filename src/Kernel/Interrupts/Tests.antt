-- ===== src/Kernel/Interrupts/Tests.antt =====
-- An interrupt with nothing to wake.
use cs452_kernel.Base.{ℕ, ◌≡◌, ◌≢◌, refl, List, [], arith, ok, fault, panic, pos, update}
use cs452_kernel.Base.Lists.{All}
use cs452_kernel.Kernel.Links.{NotIn}
use cs452_kernel.Kernel.EventQueue.Unblock.{IsUnblocked}
use cs452_kernel.Kernel.Task.{Tasks}
use cs452_kernel.Kernel.EventQueue.{EventQueue, timer_tick}
use cs452_kernel.Kernel.EventQueue.Waits.{Waits}
use cs452_kernel.Kernel.Interrupts.{
  Devices, handle_interrupt, timer_c1_interrupt_id, uart_interrupt_id,
}
use cs452_kernel.Kernel.Interrupts.Laws.{Served, interrupt_lem}
use cs452_kernel.Kernel.Example.{tasks, kernel}

abbrev devices : Devices
devices = record {
  interrupt_id = 153;
  marklin_interrupt = 0x12;
  cts_status = pos 1;
  marklin_char = pos 65;
  console_interrupt = 0;
}

abbrev nobody : ℕ → List ℕ
nobody _ = []

nobody-Waits : Waits tasks kernel.eq nobody
nobody-Waits = record {
  queue = λ e. record { links = refl; ends = refl; distinct = tt; blocked = tt };
  apart = λ e f ne. tt;
}

interrupt_lem_example :
    ((s' : Tasks) × (eq' : EventQueue) × (handle_interrupt 1 tasks kernel.eq
          (record devices { interrupt_id = timer_c1_interrupt_id })
        ≡ ok (s', eq'))
      × Waits s' eq' (update nobody timer_tick [])
      × All (λ t. IsUnblocked s' t (pos 0)) (nobody timer_tick)
      × ((u : ℕ) → NotIn u (nobody timer_tick) → s' u ≡ tasks u))
    × ((s' : Tasks) × (eq' : EventQueue) × (handle_interrupt 1 tasks kernel.eq
            (record devices { interrupt_id = uart_interrupt_id })
          ≡ ok (s', eq'))
        × Served tasks kernel.eq nobody devices (s', eq'))
    × (devices.interrupt_id ≢ timer_c1_interrupt_id
        → devices.interrupt_id ≢ uart_interrupt_id
        → handle_interrupt 1 tasks kernel.eq devices ≡ fault panic)
interrupt_lem_example = interrupt_lem 1 tasks kernel.eq nobody devices nobody-Waits (omega arith)
