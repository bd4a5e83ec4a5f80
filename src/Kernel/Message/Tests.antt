-- ===== src/Kernel/Message/Tests.antt =====
-- The theorems of the message calls at the example kernel.
use cs452_kernel.Base.{
  List, [], ◌∷◌, update, ℕ, ◌+◌, ◌^◌, ◌<◌, ◌≡◌, ◌≢◌, refl, some, arith, ok, fault, hang, ◌>>=◌,
}
use cs452_kernel.Kernel.TaskQueue.Holds.{Holds}
use cs452_kernel.Kernel.Task.{set_waiting_senders_next}
use cs452_kernel.Kernel.TaskQueue.{task_queue_get, get_from, get_scan}
use cs452_kernel.Kernel.State.{KernelData, reg}
use cs452_kernel.Kernel.Message.{sys_send, sys_receive}
use cs452_kernel.Kernel.Message.Laws.{Names, second_sender-hangs}
use cs452_kernel.Kernel.Message.Exchange.{
  exchange_lem, exchanged, delivered, delivered_lem, message_len,
}
use cs452_kernel.Kernel.Example.{kernel, with_reg}

apart : ◌≢◌ {A = ℕ} 0 1
apart e = absurd (omega (arith, e))

named : Names 4 kernel 0 (some 1)
unfolding task_queue_get get_from get_scan
named = refl

room : reg kernel 0 3 < 2 ^ 64
room = omega arith

size : reg kernel 1 3 < 2 ^ 64
size = omega arith

exchange_lem_example :
    (sys_send 4 (sys_receive kernel 1) 0
      ≡ ok (record kernel {
        mem = delivered 3 kernel 0 1 apart named refl refl refl room size;
        tasks = exchanged 3 kernel 0 1 apart named refl refl refl room size;
      }))
    × ((sys_send 4 kernel 0 >>= λ k'. ok (sys_receive k' 1))
        ≡ ok (record kernel {
          mem = delivered 3 kernel 0 1 apart named refl refl refl room size;
          tasks = exchanged 3 kernel 0 1 apart named refl refl refl room size;
        }))
exchange_lem_example = exchange_lem 3 kernel 0 1 apart named refl refl refl room size

-- Task 2 waits already at task 1.
abbrev crowded : KernelData
crowded = record kernel { tasks = set_waiting_senders_next kernel.tasks 1 (some 2) }

crowded_named : Names 4 crowded 0 (some 1)
unfolding task_queue_get get_from get_scan
crowded_named = refl

second_sender-hangs_example : sys_send 4 crowded 0 ≡ fault hang
second_sender-hangs_example = second_sender-hangs 4 crowded 0 1 2 crowded_named refl refl

-- Task 1 replies to task 53 with 8 bytes.
abbrev replying : KernelData
replying = with_reg kernel 1 1 53

abbrev no_list : ℕ → List ℕ
no_list _ = []

-- The queue of priority 8 holds the three tasks.
abbrev qs : ℕ → List ℕ
qs = update no_list 8 (0 ∷ 1 ∷ 2 ∷ [])

abbrev len : ℕ
len = message_len 3 kernel 0 1 apart named refl refl refl room size

short : len ≡ 4
short = refl

delivered_lem_example :
    (k' : KernelData) × ((sys_send 4 kernel 0 >>= λ q. ok (sys_receive q 1)) ≡ ok k')
    × (k'.mem (reg kernel 1 2 + 3) ≡ kernel.mem (reg kernel 0 2 + 3))
    × (reg k' 1 0 ≡ len)
delivered_lem_example =
    delivered_lem 3 kernel 0 1 apart named refl refl refl room size 3 (omega arith)
      (λ e. absurd (omega (arith, e))) (λ e. absurd (omega (arith, e)))
      (λ a b la lb e. absurd (omega (arith, e, la, lb)))
      (λ a b la lb e. absurd (omega (arith, e, la, lb)))
