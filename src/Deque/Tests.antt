-- ===== src/Deque/Tests.antt =====
-- Runs of the deque, and its theorems at concrete deques.
use cs452_kernel.Base.{◌≡◌, refl, List, [], ◌∷◌, none, some, arith, ◌==◌, if◌then◌else◌}
use cs452_kernel.Deque.{
  Deque, deque_move, deque_push_back, deque_push_front, deque_pop_back, deque_pop_front,
  deque_begin, no_value,
}
use cs452_kernel.Deque.Inv.{IsValid}
use cs452_kernel.Deque.Refine.{contents}
use cs452_kernel.Deque.Iterate.{collect, collect-contents}
use cs452_kernel.Deque.Move.{deque_move_lem}
use cs452_kernel.Deque.Run.{run, run_refines}
use cs452_kernel.Deque.Spec
use cs452_kernel.Deque.Spec.{Op, push_back, push_front, pop_back, pop_front}

-- 7, then 8, round the end of a buffer of four.
abbrev wrapped : Deque
wrapped = record { size = 2; max_size = 4; front = 3; back = 1; buf = λ i. if i == 3 then 7 else 8 }

-- 8 at the first place of a buffer of four.
abbrev unwrapped : Deque
unwrapped = record { size = 1; max_size = 4; front = 0; back = 1; buf = λ i. 8 }

wrapped-IsValid : IsValid wrapped
wrapped-IsValid = record {
  exponent = 2;
  small = omega arith;
  power = refl;
  front_in = omega arith;
  fits = omega arith;
  back_at = refl;
}

unwrapped-IsValid : IsValid unwrapped
unwrapped-IsValid = record {
  exponent = 2;
  small = omega arith;
  power = refl;
  front_in = omega arith;
  fits = omega arith;
  back_at = refl;
}

abbrev calls : List Op
calls =
    push_front 6
    ∷ push_back 9
    ∷ push_back 10
    ∷ pop_back
    ∷ pop_front
    ∷ pop_front
    ∷ pop_front
    ∷ pop_back
    ∷ []

run-calls :
    (run wrapped calls).0
    ≡ none ∷ none ∷ none ∷ some 9 ∷ some 6 ∷ some 7 ∷ some 8 ∷ some no_value ∷ []
unfolding run deque_push_back deque_push_front deque_pop_back deque_pop_front
run-calls = refl

run_refines_example :
    let (rs, q') = run wrapped calls in
    ((rs, contents q') ≡ Spec.run 4 (contents wrapped) calls) × IsValid q'
run_refines_example = run_refines calls wrapped-IsValid

collect-contents_example : collect wrapped (deque_begin wrapped) 2 ≡ contents wrapped
collect-contents_example = collect-contents wrapped-IsValid

deque_move_lem_example :
    (q' : Deque) × (other' : Deque) × (deque_move unwrapped wrapped ≡ some (q', other'))
    × IsValid q'
    × IsValid other'
    × (q'.max_size ≡ 4)
    × (contents q' ≡ contents wrapped)
    × (contents other' ≡ [])
deque_move_lem_example = deque_move_lem unwrapped wrapped-IsValid
