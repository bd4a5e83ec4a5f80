-- ===== src/Kernel/Interrupts/Laws.antt =====
-- What an interrupt does to the tasks that wait.
use cs452_kernel.Base.{
  ℕ, ◌<◌, ◌≡◌, ◌≢◌, refl, sym, ap, subst, ◌∙◌, List, [], ◌∷◌, arith, Bool, true, false, inl, inr,
  ◌⊎◌, update, update_same, update_ne, ok, fault, panic, pos, ℤ,
}
use cs452_kernel.Base.Lists.{All, All-mono, All-mono₂, length}
use cs452_kernel.Kernel.Links.{NotIn}
use cs452_kernel.Kernel.Task.{Tasks}
use cs452_kernel.Kernel.EventQueue.{
  EventQueue, timer_tick, console_rx, marklin_rx, marklin_cts, event_queue_unblock_one,
}
use cs452_kernel.Kernel.EventQueue.Waits.{Waits}
use cs452_kernel.Kernel.EventQueue.Unblock.{IsUnblocked, still-IsUnblocked, one_lem, all_lem}
use cs452_kernel.Kernel.Interrupts.{
  Devices, wake_if, flag_set, handle_uart, handle_interrupt, timer_c1_interrupt_id,
  uart_interrupt_id,
}

abbrev pub tail : List ℕ → List ℕ
tail [] = []
tail (t ∷ ts) = ts

-- The first waiting task of the event has gone, if the flag is set.
abbrev pub woken : Bool → (ℕ → List ℕ) → ℕ → ℕ → List ℕ
woken false ws e = ws
woken true ws e = update ws e (tail (ws e))

list_cases : (ts : List ℕ) → (ts ≡ []) ⊎ ((u : ℕ) × (us : List ℕ) × (ts ≡ u ∷ us))
list_cases [] = inl refl
list_cases (u ∷ us) = inr (u, us, refl)

-- The task that is woken: the first that waits, if the flag is set.
abbrev pub head_if : Bool → List ℕ → List ℕ
head_if false ts = []
head_if true [] = []
head_if true (t ∷ ts) = t ∷ []

head_if-All : (P : ℕ → Type 0) (flag : Bool) (ts : List ℕ) → All P ts → All P (head_if flag ts)
head_if-All P false ts h = tt
head_if-All P true [] h = tt
head_if-All P true (t ∷ ts) h = (h.0, tt)

-- Another event's tasks wait as before.
woken_ne : (flag : Bool) (ws : ℕ → List ℕ) (e f : ℕ) → e ≢ f → woken flag ws e f ≡ ws f
woken_ne false ws e f ne = refl
woken_ne true ws e f ne = update_ne ws e f (tail (ws e)) ne

-- The woken task is ready with the value, and no other descriptor has changed.
abbrev Wakes : Tasks → Tasks → ℤ → List ℕ → Type 0
Wakes s s' v ts = All (λ t. IsUnblocked s' t v) ts × ((u : ℕ) → NotIn u ts → s' u ≡ s u)

wake_lem :
    (flag : Bool) (s : Tasks) (eq : EventQueue) (ws : ℕ → List ℕ) (e : ℕ) (v : ℤ)
    → Waits s eq ws
    → let (s', eq') = wake_if flag s eq e v in
      Waits s' eq' (woken flag ws e) × Wakes s s' v (head_if flag (ws e))
unfolding wake_if
wake_lem false s eq ws e v h = (h, (tt, λ u out. refl))
wake_lem true s eq ws e v h = elim (list_cases (ws e)) [
  | inl empty ↦
      let same : update ws e (tail (ws e)) ≡ ws =
        update_same ws e (tail (ws e)) (empty ∙ sym (ap tail empty)) in
      rw ((one_lem e v s eq ws h).0 empty, same, empty) (h, (tt, λ u out. refl))
  | inr (u, us, split) ↦
      let first = (one_lem e v s eq ws h).1 u us split in
      let r = event_queue_unblock_one s eq e v in
      (
        subst (λ (l : List ℕ). Waits r.1 r.2 (update ws e l)) (sym (ap tail split)) first.1,
        subst (λ (l : List ℕ). Wakes s r.1 v (head_if true l)) (sym split)
            ((first.2, tt), λ t out. first.3 t (λ same. out.0 (sym same))),
      )
]

-- The tasks woken for one event do not wait for another.
heads_apart :
    {s : Tasks} {eq : EventQueue} {ws : ℕ → List ℕ} (a b : Bool) (e f : ℕ)
    → Waits s eq ws
    → e ≢ f
    → All (λ t. NotIn t (head_if b (ws f))) (head_if a (ws e))
heads_apart {ws = ws} a b e f h ne =
    head_if-All (λ t. NotIn t (head_if b (ws f))) a (ws e)
      (All-mono (λ t. NotIn t (ws f)) (λ t. NotIn t (head_if b (ws f))) (ws e)
        (λ t. head_if-All (λ u. t ≢ u) b (ws f)) (h.apart e f ne))

-- What a later wake does not touch stays woken.
still_woken :
    (s s' : Tasks) (v : ℤ) (ts us : List ℕ)
    → ((u : ℕ) → NotIn u us → s' u ≡ s u)
    → All (λ t. NotIn t us) ts
    → All (λ t. IsUnblocked s t v) ts
    → All (λ t. IsUnblocked s' t v) ts
still_woken s s' v ts us kept =
    All-mono₂ (λ t. NotIn t us) (λ t. IsUnblocked s t v) (λ t. IsUnblocked s' t v) ts
      λ t out. still-IsUnblocked s s' t (kept t out)

module _ (s : Tasks) (eq : EventQueue) (ws : ℕ → List ℕ) (d : Devices) where
  abbrev pub cts_flag : Bool
  cts_flag = flag_set d.marklin_interrupt 0x02

  abbrev pub rx_flag : Bool
  rx_flag = flag_set d.marklin_interrupt 0x10

  abbrev pub console_flag : Bool
  console_flag = flag_set d.console_interrupt 0x40

  -- The UARTs' interrupt is handled: for each event whose flag is set the longest waiting task is ready
  -- with what was read for the event, the others wait in their order, and no other descriptor has
  -- changed.
  abbrev pub Served : Tasks × EventQueue → Type 0
  Served r =
      Waits r.0 r.1
        (woken console_flag (woken rx_flag (woken cts_flag ws marklin_cts) marklin_rx) console_rx)
      × All (λ t. IsUnblocked r.0 t d.cts_status) (head_if cts_flag (ws marklin_cts))
      × All (λ t. IsUnblocked r.0 t d.marklin_char) (head_if rx_flag (ws marklin_rx))
      × All (λ t. IsUnblocked r.0 t (pos 0)) (head_if console_flag (ws console_rx))
      × ((u : ℕ)
          → NotIn u (head_if cts_flag (ws marklin_cts))
          → NotIn u (head_if rx_flag (ws marklin_rx))
          → NotIn u (head_if console_flag (ws console_rx))
          → r.0 u ≡ s u)

  uart_lem : Waits s eq ws → Served (handle_uart s eq d)
  unfolding handle_uart
  uart_lem h =
      let cts_rx : ◌≢◌ {A = ℕ} marklin_cts marklin_rx = λ e. absurd (omega (arith, e)) in
      let cts_console : ◌≢◌ {A = ℕ} marklin_cts console_rx = λ e. absurd (omega (arith, e)) in
      let rx_console : ◌≢◌ {A = ℕ} marklin_rx console_rx = λ e. absurd (omega (arith, e)) in
      let r₁ = wake_if cts_flag s eq marklin_cts d.cts_status in
      let ws₁ = woken cts_flag ws marklin_cts in
      let (h₁, (up₁, kept₁)) = wake_lem cts_flag s eq ws marklin_cts d.cts_status h in
      let r₂ = wake_if rx_flag r₁.0 r₁.1 marklin_rx d.marklin_char in
      let ws₂ = woken rx_flag ws₁ marklin_rx in
      let (h₂, two) = wake_lem rx_flag r₁.0 r₁.1 ws₁ marklin_rx d.marklin_char h₁ in
      let r₃ = wake_if console_flag r₂.0 r₂.1 console_rx (pos 0) in
      let (h₃, three) = wake_lem console_flag r₂.0 r₂.1 ws₂ console_rx (pos 0) h₂ in
      let rx_tasks : ws₁ marklin_rx ≡ ws marklin_rx =
        woken_ne cts_flag ws marklin_cts marklin_rx cts_rx in
      let console_tasks : ws₂ console_rx ≡ ws console_rx =
        woken_ne rx_flag ws₁ marklin_rx console_rx rx_console
        ∙ woken_ne cts_flag ws marklin_cts console_rx cts_console in
      let wakes₂ = subst (λ l. Wakes r₁.0 r₂.0 d.marklin_char (head_if rx_flag l)) rx_tasks two in
      let wakes₃ =
        subst (λ l. Wakes r₂.0 r₃.0 (pos 0) (head_if console_flag l)) console_tasks three in
      (
        h₃,
        still_woken r₂.0 r₃.0 d.cts_status (head_if cts_flag (ws marklin_cts))
            (head_if console_flag (ws console_rx)) wakes₃.1
            (heads_apart cts_flag console_flag marklin_cts console_rx h cts_console)
            (still_woken r₁.0 r₂.0 d.cts_status (head_if cts_flag (ws marklin_cts))
              (head_if rx_flag (ws marklin_rx)) wakes₂.1
              (heads_apart cts_flag rx_flag marklin_cts marklin_rx h cts_rx) up₁),
        still_woken r₂.0 r₃.0 d.marklin_char (head_if rx_flag (ws marklin_rx))
            (head_if console_flag (ws console_rx)) wakes₃.1
            (heads_apart rx_flag console_flag marklin_rx console_rx h rx_console) wakes₂.0,
        wakes₃.0,
        λ u a b c. wakes₃.1 u c ∙ wakes₂.1 u b ∙ kept₁ u a,
      )

-- A timer interrupt makes every task that waits for the tick ready, with 0 in x0. An interrupt of the
-- UARTs makes the longest waiting task of each event whose flag is set ready: with the CTS status, the
-- byte read from the Marklin or, for the console, 0 in x0. The other tasks wait in their order, and no
-- other descriptor changes. Any other interrupt is a panic. The fuel is enough for the tasks that wait
-- for the tick.
pub interrupt_lem :
    (fuel : ℕ) (s : Tasks) (eq : EventQueue) (ws : ℕ → List ℕ) (d : Devices)
    → Waits s eq ws
    → length (ws timer_tick) < fuel
    → ((s' : Tasks) × (eq' : EventQueue) × (handle_interrupt fuel s eq
            (record d { interrupt_id = timer_c1_interrupt_id })
          ≡ ok (s', eq'))
        × Waits s' eq' (update ws timer_tick [])
        × All (λ t. IsUnblocked s' t (pos 0)) (ws timer_tick)
        × ((u : ℕ) → NotIn u (ws timer_tick) → s' u ≡ s u))
      × ((s' : Tasks) × (eq' : EventQueue) × (handle_interrupt fuel s eq
              (record d { interrupt_id = uart_interrupt_id })
            ≡ ok (s', eq'))
          × Served s eq ws d (s', eq'))
      × (d.interrupt_id ≢ timer_c1_interrupt_id
          → d.interrupt_id ≢ uart_interrupt_id
          → handle_interrupt fuel s eq d ≡ fault panic)
unfolding handle_interrupt handle_uart
interrupt_lem fuel s eq ws d h enough =
    let ticked = all_lem timer_tick (pos 0) fuel s eq ws h enough in
    let r = handle_uart s eq d in
    (
      (ticked.0, ticked.1, (rw (ticked.2)), ticked.3, ticked.4, ticked.5),
      (r.0, r.1, refl, uart_lem s eq ws d h),
      λ not_timer not_uart. ground arith,
    )
