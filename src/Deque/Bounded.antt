-- ===== src/Deque/Bounded.antt =====
-- A deque by the list that it holds and its room, for the servers that keep their queues in one.
use cs452_kernel.Base.{
  ℕ, ◌^◌, ◌≤◌, ◌≡◌, ap, sym, ◌∙◌, Bool, true, false, List, [], ◌∷◌, ◌++◌, ◌==◌, if◌then◌else◌,
  arith,
}
use cs452_kernel.Base.Lists.{length}
use cs452_kernel.Deque.{Deque, deque_init, deque_empty, deque_push_back, deque_pop_front}
use cs452_kernel.Deque.Inv.{IsValid, push_back-IsValid, pop_front-IsValid}
use cs452_kernel.Deque.Refine.{contents, length-contents, push_back_refines, pop_front_refines}
use cs452_kernel.Deque.Move.{init_lem}
use cs452_kernel.Deque.Run.{run_capacity}
use cs452_kernel.Deque.Run
use cs452_kernel.Deque.Spec.{push_back, pop_front, take_front}

pub record Queued (q : Deque) (room : ℕ) (xs : List ℕ) : Type 0 where
  pub valid : IsValid q
  pub capacity : q.max_size ≡ room
  pub values : contents q ≡ xs

-- A push on a full queue is dropped.
abbrev pub add : ℕ → List ℕ → ℕ → List ℕ
add room xs x = if length xs == room then xs else xs ++ x ∷ []

abbrev pub is_nil : List ℕ → Bool
is_nil [] = true
is_nil (x ∷ xs) = false

push_capacity : (q : Deque) (x : ℕ) → (deque_push_back q x).max_size ≡ q.max_size
unfolding Run.run Run.step
push_capacity q x = run_capacity q (push_back x ∷ [])

pop_capacity : (q : Deque) → (deque_pop_front q).1.max_size ≡ q.max_size
unfolding Run.run Run.step
pop_capacity q = run_capacity q (pop_front ∷ [])

pub push_lem :
    {q : Deque} {room : ℕ} {xs : List ℕ} (x : ℕ)
    → Queued q room xs
    → Queued (deque_push_back q x) room (add room xs x)
push_lem {q} {room} {xs} x h = record {
  valid = push_back-IsValid h.valid x;
  capacity = push_capacity q x ∙ h.capacity;
  values =
      push_back_refines h.valid x
      ∙ ap (λ n. if length (contents q) == n then contents q else contents q ++ x ∷ []) h.capacity
      ∙ ap (λ l. add room l x) h.values;
}

pub pop_lem :
    {q : Deque} {room x : ℕ} {xs : List ℕ}
    → Queued q room (x ∷ xs)
    → ((deque_pop_front q).0 ≡ x) × Queued (deque_pop_front q).1 room xs
unfolding take_front
pop_lem {q} h =
    let both = pop_front_refines h.valid ∙ ap take_front h.values in
    (
      ap (λ (p : ℕ × List ℕ). p.0) both,
      record {
        valid = pop_front-IsValid h.valid;
        capacity = pop_capacity q ∙ h.capacity;
        values = ap (λ (p : ℕ × List ℕ). p.1) both;
      },
    )

pub empty_lem : {q : Deque} {room : ℕ} (xs : List ℕ) → Queued q room xs → deque_empty q ≡ is_nil xs
unfolding deque_empty
empty_lem {q} [] h =
    let e : q.size ≡ 0 = sym (length-contents q) ∙ ap length h.values in ground arith
empty_lem {q} (x ∷ xs) h = let e = sym (length-contents q) ∙ ap length h.values in ground (arith, e)

pub start_lem : (q : Deque) (n : ℕ) → n ≤ 10 → Queued (deque_init q n).1 (2 ^ n) []
start_lem q n le =
    let (_, valid, room, values) = (init_lem q n).0 le in
    record { valid = valid; capacity = room; values = values }

pub room_lem : {q : Deque} {room : ℕ} {xs : List ℕ} → Queued q room xs → length xs ≤ room
room_lem {q} {room} {xs} h =
    let size = ap length (sym h.values) ∙ length-contents q in
    let fits = h.valid.fits in let most = h.capacity in omega (arith, size, fits, most)
