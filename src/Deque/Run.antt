-- ===== src/Deque/Run.antt =====
-- A client cannot tell a valid deque from the bounded list of its values.
use cs452_kernel.Base.{ℕ, ◌≡◌, refl, ap, ◌∙◌, List, [], ◌∷◌, Option, none, some, arith}
use cs452_kernel.Deque.{Deque, deque_push_back, deque_pop_back, deque_push_front, deque_pop_front}
use cs452_kernel.Deque.Inv.{
  IsValid, push_back-IsValid, push_front-IsValid, pop_back-IsValid, pop_front-IsValid,
}
use cs452_kernel.Deque.Refine.{
  contents, push_back_refines, push_front_refines, pop_back_refines, pop_front_refines,
}
use cs452_kernel.Deque.Spec
use cs452_kernel.Deque.Spec.{Op, push_back, push_front, pop_back, pop_front}

unfoldable pub step : Deque → Op → Option ℕ × Deque
step q (push_back x) = (none, deque_push_back q x)
step q (push_front x) = (none, deque_push_front q x)
step q pop_back = let (x, r) = deque_pop_back q in (some x, r)
step q pop_front = let (x, r) = deque_pop_front q in (some x, r)

-- The client's calls in order: what they return, and the deque they leave.
unfoldable pub run : Deque → List Op → List (Option ℕ) × Deque
unfolding step
run q [] = ([], q)
run q (o ∷ ops) = let (r, q') = step q o in let (rs, q'') = run q' ops in (r ∷ rs, q'')

capacity_step : (q : Deque) (o : Op) → (step q o).1.max_size ≡ q.max_size
unfolding step deque_push_back deque_pop_back deque_push_front deque_pop_front
capacity_step q (push_back x) = ground arith
capacity_step q (push_front x) = ground arith
capacity_step q pop_back = ground arith
capacity_step q pop_front = ground arith

pub run_capacity : (q : Deque) (ops : List Op) → (run q ops).1.max_size ≡ q.max_size
unfolding run
run_capacity q [] = refl
run_capacity q (o ∷ ops) = run_capacity (step q o).1 ops ∙ capacity_step q o

step-IsValid : {q : Deque} (o : Op) → IsValid q → IsValid (step q o).1
unfolding step
step-IsValid (push_back x) v = push_back-IsValid v x
step-IsValid (push_front x) v = push_front-IsValid v x
step-IsValid pop_back v = pop_back-IsValid v
step-IsValid pop_front v = pop_front-IsValid v

step_refines :
    {q : Deque} (o : Op)
    → IsValid q
    → let (r, q') = step q o in (r, contents q') ≡ Spec.step q.max_size (contents q) o
unfolding step Spec.step
step_refines (push_back x) v = ap (λ l. (none, l)) (push_back_refines v x)
step_refines (push_front x) v = ap (λ l. (none, l)) (push_front_refines v x)
step_refines pop_back v = ap (λ (p : ℕ × List ℕ). (some p.0, p.1)) (pop_back_refines v)
step_refines pop_front v = ap (λ (p : ℕ × List ℕ). (some p.0, p.1)) (pop_front_refines v)

run_refines_at :
    (room : ℕ) (ops : List Op) {q : Deque}
    → q.max_size ≡ room
    → IsValid q
    → let (rs, q') = run q ops in ((rs, contents q') ≡ Spec.run room (contents q) ops) × IsValid q'
unfolding run Spec.run
run_refines_at room [] {q} e v = (refl, v)
run_refines_at room (o ∷ ops) {q} e v =
    let later = run_refines_at room ops (capacity_step q o ∙ e) (step-IsValid o v) in
    (
      ap (λ (p : List (Option ℕ) × List ℕ). ((step q o).0 ∷ p.0, p.1)) later.0
          ∙ ap
              (λ (p : Option ℕ × List ℕ).
                (p.0 ∷ (Spec.run room p.1 ops).0, (Spec.run room p.1 ops).1))
              (step_refines o v ∙ ap (λ (m : ℕ). Spec.step m (contents q) o) e),
      later.1,
    )

-- Whatever the calls, each returns what the bounded list returns, the deque ends with the list's
-- values, and its invariant holds.
pub run_refines :
    {q : Deque} (ops : List Op)
    → IsValid q
    → let (rs, q') = run q ops in
      ((rs, contents q') ≡ Spec.run q.max_size (contents q) ops) × IsValid q'
run_refines {q} ops v = run_refines_at q.max_size ops refl v
