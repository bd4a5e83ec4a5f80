-- ===== src/Track/Actions/Queue.antt =====
-- The queue of actions is a list of at most 256 actions.
use cs452_kernel.Base.{
  ℕ, ◌*◌, ◌%◌, ◌^◌, ◌<◌, ◌≡◌, refl, sym, ap, ap₂, subst, ◌∙◌, List, [], ◌∷◌, ◌++◌, Option, some,
  none, arith,
}
use native.Mathlib.Nat.{mod-eq_of_lt}
use cs452_kernel.Base.Lists.{length, All, All-append, All-left, All-right}
use cs452_kernel.Deque.{Deque}
use cs452_kernel.Deque.Inv.{IsValid}
use cs452_kernel.Deque.Refine.{contents}
use cs452_kernel.Deque.Run
use cs452_kernel.Deque.Run.{run, run_refines, run_capacity}
use cs452_kernel.Deque.Spec
use cs452_kernel.Deque.Spec.{
  Op, push_back, push_front, pop_back, pop_front, take_back, take_front, take_back-snoc,
}
use cs452_kernel.Track.Actions.Calls.{
  push_backs, push_fronts, pops_back, room_lem, full_lem, four_back,
}
use cs452_kernel.Track.Actions.{
  RoutingAction, sign_extend, action_of, routing_action_queue_push_back,
  routing_action_queue_push_front, routing_action_queue_pop_front, routing_action_queue_pop_back,
}

-- The four values of an action.
abbrev pub encode : List RoutingAction → List ℕ
encode [] = []
encode (a ∷ acts) = sign_extend a.sensor_num ∷ a.action_type ∷ a.total ∷ a.delay_ticks ∷ encode acts

-- The fields are within their widths.
abbrev pub Fits : RoutingAction → Type 0
Fits a = (a.sensor_num < 2 ^ 16) × (a.total < 2 ^ 16)

encode-append : (acts bs : List RoutingAction) → encode (acts ++ bs) ≡ encode acts ++ encode bs
encode-append [] bs = refl
encode-append (a ∷ acts) bs =
    ap (λ l. sign_extend a.sensor_num ∷ a.action_type ∷ a.total ∷ a.delay_ticks ∷ l)
      (encode-append acts bs)

length-encode : (acts : List RoutingAction) → length (encode acts) ≡ length acts * 4
length-encode [] = refl
length-encode (a ∷ acts) = omega (arith, length-encode acts)

sign_lem : (x : ℕ) → x < 2 ^ 16 → sign_extend x % 2 ^ 16 ≡ x
sign_lem x lt = ground arith

decode_lem :
    (a : RoutingAction)
    → Fits a
    → action_of (sign_extend a.sensor_num) a.action_type a.total a.delay_ticks ≡ a
decode_lem a (s, t) =
    ap₂ (λ (x y : ℕ). record a { sensor_num = x; total = y }) (sign_lem a.sensor_num s)
      (mod-eq_of_lt t)

-- A valid deque of 1024 cells that holds the actions, each within its widths.
pub record Holds (q : Deque) (acts : List RoutingAction) : Type 0 where
  pub valid : IsValid q
  pub room : q.max_size ≡ 1024
  pub values : contents q ≡ encode acts
  pub fit : All Fits acts

module _ {q : Deque} {acts : List RoutingAction} (h : Holds q acts) where
  -- What the calls on the deque return and leave, by the list of its values.
  ran : (ops : List Op) → ((run q ops).0, contents (run q ops).1) ≡ Spec.run 1024 (encode acts) ops
  ran ops =
      (run_refines ops h.valid).0
      ∙ ap₂ (λ (room : ℕ) (xs : List ℕ). Spec.run room xs ops) h.room h.values

  after :
      (ops : List Op) (acts' : List RoutingAction)
      → (Spec.run 1024 (encode acts) ops).1 ≡ encode acts'
      → All Fits acts'
      → Holds (run q ops).1 acts'
  after ops acts' e fit = record {
    valid = (run_refines ops h.valid).1;
    room = run_capacity q ops ∙ h.room;
    values = ap (λ r. r.1) (ran ops) ∙ e;
    fit = fit;
  }

  -- An action pushed on a queue of 256 is dropped whole; otherwise it is the last, or the first.
  pub action_push_lem :
      (a : RoutingAction)
      → Fits a
      → (length acts < 256
          → Holds (routing_action_queue_push_back q a) (acts ++ a ∷ [])
            × Holds (routing_action_queue_push_front q a) (a ∷ acts))
        × (length acts ≡ 256
            → Holds (routing_action_queue_push_back q a) acts
              × Holds (routing_action_queue_push_front q a) acts)
  unfolding routing_action_queue_push_back routing_action_queue_push_front run Run.step
  action_push_lem a fits =
      let four = sign_extend a.sensor_num ∷ a.action_type ∷ a.total ∷ a.delay_ticks ∷ [] in
      let back = a.delay_ticks ∷ a.total ∷ a.action_type ∷ sign_extend a.sensor_num ∷ [] in
      (
        λ lt.
            let r₁ = room_lem 1024 four (encode acts) (omega (arith, length-encode acts)) in
            let r₂ = room_lem 1024 back (encode acts) (omega (arith, length-encode acts)) in
            (
              after (push_backs four) (acts ++ a ∷ []) (r₁.0 ∙ sym (encode-append acts (a ∷ [])))
                  (All-append Fits acts (a ∷ []) h.fit (fits, tt)),
              after (push_fronts back) (a ∷ acts) r₂.1 (fits, h.fit),
            ),
        λ e.
            let r₁ = full_lem 1024 four (encode acts) (omega (arith, length-encode acts)) in
            let r₂ = full_lem 1024 back (encode acts) (omega (arith, length-encode acts)) in
            (after (push_backs four) acts r₁.0 h.fit, after (push_fronts back) acts r₂.1 h.fit),
      )

-- What the four pops return.
abbrev value_of : Option ℕ → ℕ
value_of none = 0
value_of (some x) = x

abbrev values_of : List (Option ℕ) → RoutingAction
values_of (some a ∷ some b ∷ some c ∷ some d ∷ []) = action_of a b c d
values_of _ = action_of 0 0 0 0

abbrev reversed : List (Option ℕ) → RoutingAction
reversed (some d ∷ some c ∷ some b ∷ some a ∷ []) = action_of a b c d
reversed _ = action_of 0 0 0 0

-- The first action, or the last, comes back as it was pushed.
pub action_pop_lem :
    {q : Deque} (acts : List RoutingAction) (a : RoutingAction)
    → (Holds q (a ∷ acts)
        → (q' : Deque) × (routing_action_queue_pop_front q ≡ (a, q')) × Holds q' acts)
      × (Holds q (acts ++ a ∷ [])
          → (q' : Deque) × (routing_action_queue_pop_back q ≡ (a, q')) × Holds q' acts)
unfolding routing_action_queue_pop_front routing_action_queue_pop_back run Run.step Spec.run
    Spec.step take_front
action_pop_lem {q} acts a =
    let pops = pop_front ∷ pop_front ∷ pop_front ∷ pop_front ∷ [] in
    (
      λ h. (
        (run q pops).1,
        ap (λ (act : RoutingAction). (act, (run q pops).1))
            (ap (λ r. values_of r.0) (ran h pops) ∙ decode_lem a h.fit.0),
        after h pops acts refl h.fit.1,
      ),
      λ h.
          let e =
            ap (λ l. Spec.run 1024 l pops_back) (encode-append acts (a ∷ []))
            ∙ four_back 1024 (encode acts) (sign_extend a.sensor_num) a.action_type a.total
                a.delay_ticks in
          (
            (run q pops_back).1,
            ap (λ (act : RoutingAction). (act, (run q pops_back).1))
                (ap (λ r. reversed r.0) (ran h pops_back ∙ e)
                  ∙ decode_lem a (All-right Fits acts (a ∷ []) h.fit).0),
            after h pops_back acts (ap (λ r. r.1) e) (All-left Fits acts (a ∷ []) h.fit),
          ),
    )

-- An action whose fields are within their widths, put at one end of a valid queue that is not full,
-- comes back from there, and the queue holds the same actions as before; put at the back of a queue
-- that is not empty it leaves the first action first.
pub round_trip_lem :
    {q : Deque} {acts : List RoutingAction} (a : RoutingAction)
    → Holds q acts
    → Fits a
    → length acts < 256
    → ((q' : Deque) × (routing_action_queue_pop_back (routing_action_queue_push_back q a) ≡ (a, q'))
        × Holds q' acts)
      × ((q' : Deque) × (routing_action_queue_pop_front (routing_action_queue_push_front q a)
            ≡ (a, q'))
          × Holds q' acts)
      × ((first : RoutingAction) (rest : List RoutingAction)
          → acts ≡ first ∷ rest
          → (q' : Deque) × (routing_action_queue_pop_front (routing_action_queue_push_back q a)
              ≡ (first, q'))
            × Holds q' (rest ++ a ∷ []))
round_trip_lem {q} {acts} a h fits lt =
    let (back, front) = (action_push_lem h a fits).0 lt in
    (
      (action_pop_lem acts a).1 back,
      (action_pop_lem acts a).0 front,
      λ first rest e.
          (action_pop_lem (rest ++ a ∷ []) first).0
            (subst (λ l. Holds (routing_action_queue_push_back q a) (l ++ a ∷ [])) e back),
    )
