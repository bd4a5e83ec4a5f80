-- ===== src/Deque/Spec.antt =====
-- What a deque promises: a list of at most `room` values, where a push on a full list is dropped and
-- a pop from an empty one gives -1.
use cs452_kernel.Base.{
  ℕ, ◌≡◌, refl, ap, List, [], ◌∷◌, ◌++◌, Option, none, some, ◌==◌, if◌then◌else◌,
}
use cs452_kernel.Base.Lists.{length}
use cs452_kernel.Deque.{no_value}

-- The calls of a client.
pub data Op : Type 0 where
  push_back push_front : ℕ → Op
  pop_back pop_front : Op

-- The last value, and the values before it.
last_of : ℕ → List ℕ → ℕ × List ℕ
last_of x [] = (x, [])
last_of x (y ∷ ys) = let (l, before) = last_of y ys in (l, x ∷ before)

unfoldable pub take_back : List ℕ → ℕ × List ℕ
unfolding last_of
take_back [] = (no_value, [])
take_back (x ∷ xs) = last_of x xs

unfoldable pub take_front : List ℕ → ℕ × List ℕ
take_front [] = (no_value, [])
take_front (x ∷ xs) = (x, xs)

-- What a call returns, and the values it leaves.
unfoldable pub step : ℕ → List ℕ → Op → Option ℕ × List ℕ
step room xs (push_back x) = (none, if length xs == room then xs else xs ++ x ∷ [])
step room xs (push_front x) = (none, if length xs == room then xs else x ∷ xs)
step room xs pop_back = let (x, rest) = take_back xs in (some x, rest)
step room xs pop_front = let (x, rest) = take_front xs in (some x, rest)

unfoldable pub run : ℕ → List ℕ → List Op → List (Option ℕ) × List ℕ
run room xs [] = ([], xs)
run room xs (o ∷ ops) =
    let (r, ys) = step room xs o in let (rs, zs) = run room ys ops in (r ∷ rs, zs)

last_of-snoc : (x : ℕ) (xs : List ℕ) (y : ℕ) → last_of x (xs ++ y ∷ []) ≡ (y, x ∷ xs)
unfolding last_of
last_of-snoc x [] y = refl
last_of-snoc x (z ∷ xs) y = ap (λ (r : ℕ × List ℕ). (r.0, x ∷ r.1)) (last_of-snoc z xs y)

pub take_back-snoc : (xs : List ℕ) (y : ℕ) → take_back (xs ++ y ∷ []) ≡ (y, xs)
unfolding take_back
take_back-snoc [] y = refl
take_back-snoc (x ∷ xs) y = last_of-snoc x xs y
