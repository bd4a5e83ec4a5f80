-- ===== src/Track/SensorQueue.antt =====
-- track-control/include/sensor-queue.h and track-control/src/sensor-queue.c: for each sensor of the track
-- the tasks that wait for it, in the order of the expected times. An entry is its index in the
-- storage, and NULL is `none`. A time is an integer. A loop takes fuel.
pub mod Laws
mod Tests
use cs452_kernel.Base.{
  ℕ, zero, suc, ◌+◌, ◌-◌, ◌%◌, ◌^◌, Bool, true, false, not, ◌&&◌, ◌||◌, Option, none, some, ltb,
  leb, ◌==◌, if◌then◌else◌, update, Outcome, ok, fault, hang, panic, ◌>>=◌, ℤ, pos, negsuc,
  minus_one,
}

abbrev pub n_sensor_modules : ℕ
n_sensor_modules = 5

abbrev pub n_sensors : ℕ
n_sensors = 16

abbrev pub max_waiting_processes : ℕ
max_waiting_processes = 8

pub record SensorData : Type 0 where
  pub tid : ℕ
  pub trn : ℕ
  pub expected_time : ℤ
  pub pos_rqst : Bool

pub record SensorEntry : Type 0 where
  pub data_ : SensorData
  pub next : Option ℕ

pub record SensorQueue : Type 0 where
  pub storage : ℕ → SensorEntry
  pub freelist : Option ℕ
  pub sensors : ℕ → ℕ → Option ℕ

-- SENSOR_QUEUE_DONE, _TIMEOUT, _FOUND and _EARLY.
pub data SensorResult : Type 0 where
  done timeout found early : SensorResult

-- What memset leaves of an entry.
abbrev pub zero_entry : SensorEntry
zero_entry = record {
  data_ = record { tid = 0; trn = 0; expected_time = pos 0; pos_rqst = false };
  next = none;
}

abbrev pub set_entry_link : SensorQueue → ℕ → Option ℕ → SensorQueue
set_entry_link sq e p = record sq {
  storage = update sq.storage e (record (sq.storage e) { next = p });
}

-- `sq->sensors[mod][snr] = p`
abbrev pub set_head : SensorQueue → ℕ → ℕ → Option ℕ → SensorQueue
set_head sq smod snr p = record sq {
  sensors = update sq.sensors smod (update (sq.sensors smod) snr p);
}

-- An entry reset and put at the front of the free list.
abbrev pub release : SensorQueue → ℕ → SensorQueue
release sq e = record sq {
  storage = update sq.storage e (record zero_entry { next = sq.freelist });
  freelist = some e;
}

-- The order of two integers.
abbrev pub less : ℤ → ℤ → Bool
less (pos a) (pos b) = ltb a b
less (pos a) (negsuc b) = false
less (negsuc a) (pos b) = true
less (negsuc a) (negsuc b) = ltb b a

abbrev pub minus : ℤ → ℕ → ℤ
minus (pos a) k = if leb k a then pos (a - k) else negsuc (k - a - 1)
minus (negsuc a) k = negsuc (a + k)

abbrev pub plus : ℤ → ℕ → ℤ
plus (pos a) k = pos (a + k)
plus (negsuc a) k = if leb (a + 1) k then pos (k - (a + 1)) else negsuc (a - k)

unfoldable pub link_entries : ℕ → ℕ → SensorQueue → SensorQueue
link_entries zero i sq = sq
link_entries (suc n) i sq =
    link_entries n (i + 1) (record (set_entry_link sq i sq.freelist) { freelist = some i })

unfoldable pub sensor_queue_init : SensorQueue → SensorQueue
unfolding link_entries
sensor_queue_init sq = link_entries max_waiting_processes 0 (record {
  storage = λ _. zero_entry;
  freelist = none;
  sensors = λ smod snr.
      if ltb smod n_sensor_modules && ltb snr n_sensors then none else sq.sensors smod snr;
})

-- The loop that looks for the entry to insert behind.
unfoldable pub place_from : ℕ → SensorQueue → ℤ → ℕ → Outcome ℕ
place_from zero sq time curr = fault hang
place_from (suc fuel) sq time curr = elim ((sq.storage curr).next) as (λ _. Outcome ℕ) [
  | none ↦ ok curr
  | some n ↦
      let further = place_from fuel sq time n in
      if less (sq.storage n).data_.expected_time time then further else ok curr
]

unfoldable pub sensor_queue_insert : ℕ → SensorQueue → ℕ → ℕ → ℕ → Outcome SensorQueue
unfolding place_from
sensor_queue_insert fuel sq smod snr element =
    let time = (sq.storage element).data_.expected_time in
    let first =
      set_head (set_entry_link sq element (sq.sensors smod snr)) smod snr (some element) in
    elim (sq.sensors smod snr) as (λ _. Outcome SensorQueue) [
      | none ↦ ok first
      | some h ↦
          let behind = place_from fuel sq time h >>= λ curr.
          ok (
            set_entry_link (set_entry_link sq element (sq.storage curr).next) curr
              (some element)) in
          if less time (sq.storage h).data_.expected_time then ok first else behind
    ]

-- The two assertions on the number of a sensor, which counts from 1.
abbrev pub in_range : ℕ → ℕ → Bool
in_range sensor_mod sensor_no =
    (leb 1 sensor_mod && leb sensor_mod n_sensor_modules)
    && (leb 1 sensor_no && leb sensor_no n_sensors)

pub sensor_queue_add_waiting_tid : ℕ → SensorQueue → ℕ → ℕ → SensorData → Outcome SensorQueue
unfolding sensor_queue_insert
sensor_queue_add_waiting_tid fuel sq sensor_mod sensor_no d =
    let added = elim (sq.freelist) as (λ _. Outcome SensorQueue) [
      | none ↦ fault panic
      | some e ↦
          sensor_queue_insert fuel
            (record sq {
              freelist = (sq.storage e).next;
              storage = update sq.storage e (record (sq.storage e) { data_ = d });
            })
            (sensor_mod - 1) (sensor_no - 1) e
    ] in
    if in_range sensor_mod sensor_no then added else fault panic

-- The result for an entry that is taken; TIMEOUT_TICKS is 20 and TIME_NONE -1.
abbrev pub judge : SensorData → ℕ → SensorResult
judge d activation_time =
    if not (less d.expected_time minus_one) && not (less minus_one d.expected_time)
    then found
    else if d.pos_rqst
    then (if less (plus d.expected_time 20) (pos activation_time)
        then timeout
        else if less (pos activation_time) (minus d.expected_time 20)
        then early
        else found)
    else found

-- The result, and what is written to `data`.
pub sensor_queue_get_waiting_tid :
    SensorQueue → ℕ → ℕ → ℕ → SensorData → Outcome (SensorResult × SensorData × SensorQueue)
sensor_queue_get_waiting_tid sq sensor_mod sensor_no activation_time d =
    let smod = sensor_mod - 1 in
    let snr = sensor_no - 1 in
    let taken =
      elim (sq.sensors smod snr) as (λ _. Outcome (SensorResult × SensorData × SensorQueue)) [
        | none ↦ ok (done, d, sq)
        | some h ↦
            let d' = (sq.storage h).data_ in
            ok (judge d' activation_time, d', release (set_head sq smod snr (sq.storage h).next) h)
      ] in
    if in_range sensor_mod sensor_no then taken else fault panic

-- The entry `curr` taken out of the list, where `prev` is the entry before it.
abbrev pub drop : SensorQueue → ℕ → ℕ → Option ℕ → ℕ → SensorQueue
drop sq smod snr none curr = set_head sq smod snr (sq.storage curr).next
drop sq smod snr (some p) curr = set_entry_link sq p (sq.storage curr).next

-- The loop that takes the entry of a task out of a list.
unfoldable pub take_from :
    ℕ → SensorQueue → ℕ → ℕ → ℕ → Option ℕ → Option ℕ → Outcome (Option ℕ × SensorQueue)
take_from zero sq smod snr tid prev curr = fault hang
take_from (suc fuel) sq smod snr tid prev none = ok (none, sq)
take_from (suc fuel) sq smod snr tid prev (some c) =
    let further = take_from fuel sq smod snr tid (some c) (sq.storage c).next in
    if (sq.storage c).data_.tid == tid
    then ok (some c, set_entry_link (drop sq smod snr prev c) c none)
    else further

pub sensor_queue_adjust_waiting_tid : ℕ → SensorQueue → ℕ → ℕ → ℕ → ℤ → Outcome SensorQueue
unfolding take_from sensor_queue_insert
sensor_queue_adjust_waiting_tid fuel sq sensor_mod sensor_no tid expected_time =
    let smod = sensor_mod - 1 in
    let snr = sensor_no - 1 in
    let adjusted = take_from fuel sq smod snr tid none (sq.sensors smod snr) >>= λ (curr, sq').
    elim curr as (λ _. Outcome SensorQueue) [
      | none ↦ ok sq'
      | some c ↦
          let e = sq'.storage c in
          sensor_queue_insert fuel
            (record sq' {
              storage =
                  update sq'.storage c
                    (record e { data_ = record (e.data_) { expected_time = expected_time } });
            })
            smod snr c
    ] in
    if in_range sensor_mod sensor_no then adjusted else fault panic

-- The loop over the list of one sensor. The entry that is taken out is released first, and the walk
-- goes on from its new link.
unfoldable pub free_list : ℕ → SensorQueue → ℕ → ℕ → ℕ → Option ℕ → Option ℕ → Outcome SensorQueue
free_list zero sq smod snr trn prev curr = fault hang
free_list (suc fuel) sq smod snr trn prev none = ok sq
free_list (suc fuel) sq smod snr trn prev (some c) =
    let freed = release (drop sq smod snr prev c) c in
    let after_freed = free_list fuel freed smod snr trn prev (freed.storage c).next in
    let after_kept = free_list fuel sq smod snr trn (some c) (sq.storage c).next in
    if (sq.storage c).data_.trn == trn then after_freed else after_kept

-- The sensors of a module, from `snr` on with `n` left, and the modules from `smod` on.
unfoldable pub free_sensors : ℕ → ℕ → SensorQueue → ℕ → ℕ → ℕ → Outcome SensorQueue
unfolding free_list
free_sensors fuel zero sq smod snr trn = ok sq
free_sensors fuel (suc n) sq smod snr trn =
    free_list fuel sq smod snr trn none (sq.sensors smod snr) >>= λ sq'.
    free_sensors fuel n sq' smod (snr + 1) trn

unfoldable pub free_modules : ℕ → ℕ → SensorQueue → ℕ → ℕ → Outcome SensorQueue
unfolding free_sensors
free_modules fuel zero sq smod trn = ok sq
free_modules fuel (suc n) sq smod trn =
    free_sensors fuel n_sensors sq smod 0 trn >>= λ sq'. free_modules fuel n sq' (smod + 1) trn

pub sensor_queue_free_train : ℕ → SensorQueue → ℕ → Outcome SensorQueue
unfolding free_modules
sensor_queue_free_train fuel sq trn = free_modules fuel n_sensor_modules sq 0 trn
