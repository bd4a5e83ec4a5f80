-- ===== src/Track/Actions/Tests.antt =====
-- A queue with one action.
use cs452_kernel.Base.{◌-◌, ◌^◌, ◌≡◌, refl, List, [], ◌∷◌, ◌++◌, arith, false, ◌==◌, if◌then◌else◌}
use cs452_kernel.Deque.{
  Deque, deque_itr_get, deque_itr_next, deque_begin, deque_size, deque_pop_back, deque_empty,
  deque_full,
}
use cs452_kernel.Deque.Refine.{contents}
use cs452_kernel.Track.Actions
use cs452_kernel.Track.Actions.{
  RoutingAction, Route, RoutingState, normal_segment, routing_action_queue_push_back,
  routing_action_queue_push_front, routing_action_queue_pop_front, routing_action_queue_pop_back,
}
use cs452_kernel.Track.Actions.Queue.{Holds, round_trip_lem}

-- At sensor -1, the switch 3 is set after 75 ticks.
abbrev switch : RoutingAction
switch = record { sensor_num = 2 ^ 16 - 1; action_type = 0; total = 3; delay_ticks = 75 }

abbrev queue : Deque
queue = record {
  size = 4;
  max_size = 1024;
  front = 0;
  back = 4;
  buf = λ i. if i == 0 then 2 ^ 32 - 1 else if i == 1 then 0 else if i == 2 then 3 else 75;
}

queue-Holds : Holds queue (switch ∷ [])
unfolding contents
queue-Holds = record {
  valid = record {
    exponent = 10;
    small = omega arith;
    power = refl;
    front_in = omega arith;
    fits = omega arith;
    back_at = refl;
  };
  room = refl;
  values = refl;
  fit = ((omega arith, omega arith), tt);
}

abbrev stop : RoutingAction
stop = record { sensor_num = 12; action_type = 1; total = 0; delay_ticks = 0 }

round_trip_lem_example :
    ((q' : Deque) × (routing_action_queue_pop_back (routing_action_queue_push_back queue stop)
        ≡ (stop, q'))
      × Holds q' (switch ∷ []))
    × ((q' : Deque) × (routing_action_queue_pop_front (routing_action_queue_push_front queue stop)
          ≡ (stop, q'))
        × Holds q' (switch ∷ []))
    × ((first : RoutingAction) (rest : List RoutingAction)
        → ◌≡◌ {A = List RoutingAction} (switch ∷ []) (first ∷ rest)
        → (q' : Deque) × (routing_action_queue_pop_front (routing_action_queue_push_back queue stop)
            ≡ (first, q'))
          × Holds q' (rest ++ stop ∷ []))
round_trip_lem_example = round_trip_lem stop queue-Holds (omega arith, omega arith) (omega arith)

looks :
    (Actions.routing_action_queue_front queue ≡ switch)
    × (Actions.routing_action_queue_size queue ≡ 1)
    × (Actions.routing_action_queue_empty queue ≡ false)
    × (Actions.routing_action_queue_full queue ≡ false)
unfolding Actions.routing_action_queue_front Actions.routing_action_queue_size
    Actions.routing_action_queue_empty Actions.routing_action_queue_full deque_itr_get deque_begin
    deque_itr_next deque_size deque_empty deque_full
looks = (refl, refl, refl, refl)

abbrev route : Route
route = record {
  state = normal_segment;
  total_path_dist = 9;
  decision_sensor_num = Actions.sensor_none;
  decision_ticks = 0;
  path = queue;
  speed_changes = queue;
  segments = queue;
}

resets :
    ((Actions.routing_actions_init route).total_path_dist ≡ 0)
    × ((Actions.routing_actions_reset route).total_path_dist ≡ 0)
unfolding Actions.routing_actions_init Actions.routing_actions_reset
resets = (refl, refl)

last_stays : (Actions.routing_action_queue_back queue).0 ≡ switch
unfolding Actions.routing_action_queue_back routing_action_queue_pop_back deque_pop_back
last_stays = refl
