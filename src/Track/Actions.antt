-- ===== src/Track/Actions.antt =====
-- track-control/src/routing.c, its queue of actions: four values of a deque are one action. The signed
-- fields are bit patterns. The union of the action is its 16 bits, that of the info its 32 bits.
pub mod Calls
pub mod Queue
mod Tests
use cs452_kernel.Base.{
  ℕ, ◌+◌, ◌-◌, ◌/◌, ◌%◌, ◌^◌, Bool, Option, none, some, leb, if◌then◌else◌, ℤ, pos, minus_one,
}
use cs452_kernel.Deque.{
  Deque, deque_init, deque_reset, deque_empty, deque_full, deque_size, deque_push_back,
  deque_push_front, deque_pop_front, deque_pop_back, deque_begin, deque_itr_next, deque_itr_get,
}

pub record RoutingAction : Type 0 where
  pub sensor_num : ℕ
  pub action_type : ℕ
  pub total : ℕ
  pub delay_ticks : ℕ

-- The int of an int16_t.
abbrev pub sign_extend : ℕ → ℕ
sign_extend x = if leb (2 ^ 15) x then x + (2 ^ 32 - 2 ^ 16) else x

pub routing_action_queue_init : Deque → Deque
routing_action_queue_init raq = let (_, q) = deque_init raq 10 in q

pub routing_action_queue_reset : Deque → Deque
routing_action_queue_reset raq = deque_reset raq

pub routing_action_queue_empty : Deque → Bool
routing_action_queue_empty raq = deque_empty raq

pub routing_action_queue_full : Deque → Bool
routing_action_queue_full raq = deque_full raq

pub routing_action_queue_size : Deque → ℕ
routing_action_queue_size raq = deque_size raq / 4

pub routing_action_queue_push_back : Deque → RoutingAction → Deque
routing_action_queue_push_back raq action =
    let q₁ = deque_push_back raq (sign_extend action.sensor_num) in
    let q₂ = deque_push_back q₁ action.action_type in
    let q₃ = deque_push_back q₂ action.total in deque_push_back q₃ action.delay_ticks

pub routing_action_queue_push_front : Deque → RoutingAction → Deque
routing_action_queue_push_front raq action =
    let q₁ = deque_push_front raq action.delay_ticks in
    let q₂ = deque_push_front q₁ action.total in
    let q₃ = deque_push_front q₂ action.action_type in
    deque_push_front q₃ (sign_extend action.sensor_num)

-- The values of an action, each cut to the width of its field.
abbrev pub action_of : ℕ → ℕ → ℕ → ℕ → RoutingAction
action_of sensor_num action_type total delay_ticks = record {
  sensor_num = sensor_num % 2 ^ 16;
  action_type = action_type;
  total = total % 2 ^ 16;
  delay_ticks = delay_ticks;
}

-- With `action` NULL the same four values are dropped.
pub routing_action_queue_pop_front : Deque → RoutingAction × Deque
routing_action_queue_pop_front raq =
    let (sensor_num, q₁) = deque_pop_front raq in
    let (action_type, q₂) = deque_pop_front q₁ in
    let (total, q₃) = deque_pop_front q₂ in
    let (delay_ticks, q₄) = deque_pop_front q₃ in
    (action_of sensor_num action_type total delay_ticks, q₄)

pub routing_action_queue_pop_back : Deque → RoutingAction × Deque
routing_action_queue_pop_back raq =
    let (delay_ticks, q₁) = deque_pop_back raq in
    let (total, q₂) = deque_pop_back q₁ in
    let (action_type, q₃) = deque_pop_back q₂ in
    let (sensor_num, q₄) = deque_pop_back q₃ in
    (action_of sensor_num action_type total delay_ticks, q₄)

pub routing_action_queue_front : Deque → RoutingAction
routing_action_queue_front raq =
    let it₁ = deque_begin raq in
    let it₂ = deque_itr_next it₁ in
    let it₃ = deque_itr_next it₂ in
    let it₄ = deque_itr_next it₃ in
    action_of (deque_itr_get raq it₁) (deque_itr_get raq it₂) (deque_itr_get raq it₃)
      (deque_itr_get raq it₄)

pub routing_action_queue_back : Deque → RoutingAction × Deque
unfolding routing_action_queue_pop_back routing_action_queue_push_back
routing_action_queue_back raq =
    let (action, q) = routing_action_queue_pop_back raq in
    (action, routing_action_queue_push_back q action)

pub data RoutingState : Type 0 where
  err_no_route normal_segment final_segment : RoutingState

pub record Route : Type 0 where
  pub state : RoutingState
  pub total_path_dist : ℕ
  pub decision_sensor_num : ℤ
  pub decision_ticks : ℕ
  pub path : Deque
  pub speed_changes : Deque
  pub segments : Deque

abbrev pub sensor_none : ℤ
sensor_none = minus_one

pub routing_actions_init : Route → Route
unfolding routing_action_queue_init
routing_actions_init actions =
    let (_, segments) = deque_init actions.segments 3 in
    record {
      state = normal_segment;
      total_path_dist = 0;
      decision_sensor_num = sensor_none;
      decision_ticks = 0;
      path = routing_action_queue_init actions.path;
      speed_changes = routing_action_queue_init actions.speed_changes;
      segments = segments;
    }

pub routing_actions_reset : Route → Route
unfolding routing_action_queue_reset
routing_actions_reset actions = record {
  state = normal_segment;
  total_path_dist = 0;
  decision_sensor_num = sensor_none;
  decision_ticks = 0;
  path = routing_action_queue_reset actions.path;
  speed_changes = routing_action_queue_reset actions.speed_changes;
  segments = deque_reset actions.segments;
}
