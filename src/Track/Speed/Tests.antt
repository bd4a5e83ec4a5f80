-- ===== src/Track/Speed/Tests.antt =====
-- The trains 24, at speed 7 and reversed, and 58, which stands.
use cs452_kernel.Base.{
  ℕ, ◌-◌, ◌≡◌, ◌≢◌, refl, true, false, not, ◌&&◌, ◌==◌, if◌then◌else◌, arith, pos,
}
use cs452_kernel.Track.Speed.{
  SpeedT, trn_hash, speed_t_init, speed_set, speed_is_rv, speed_get, speed_display_get,
  speed_is_stopped, speed_flip, lights,
}
use cs452_kernel.Track.Speed.Laws.{set_lem, flip_lem, stopped_lem}

abbrev speeds : SpeedT
speeds = record { trns = λ i. if i == 0 then 249 else 0 }

known : trn_hash 24 ≡ pos 0
unfolding trn_hash
known = refl

set_lem_example :
    (speed_get (speed_set speeds 24 0) 24 ≡ 0)
    × (speed_is_rv (speed_set speeds 24 0) 24 ≡ (speed_is_rv speeds 24 && not (0 == 0)))
    × ((j : ℕ) → 0 ≢ j → (speed_set speeds 24 0).trns j ≡ speeds.trns j)
set_lem_example = set_lem speeds 24 0 known 0 (omega arith)

flip_lem_example :
    (speed_get (speed_flip speeds 24) 24 ≡ speed_get speeds 24)
    × (speeds.trns 0 ≢ 128
        → speed_is_rv (speed_flip speeds 24) 24
          ≡ (not (speed_is_rv speeds 24) && not (speeds.trns 0 == 0)))
    × (speed_flip (speed_flip speeds 24) 24 ≡ speeds)
flip_lem_example = flip_lem speeds 24 0 known (omega arith)

stopped_lem_example :
    (speed_is_stopped speeds 24 ≡ true → speed_display_get speeds 24 ≡ 0)
    × (speed_is_rv speeds 24 ≡ true → speed_is_stopped speeds 24 ≡ false)
    × (speeds.trns 0 ≡ 256 - lights → speed_display_get speeds 24 ≡ 0)
stopped_lem_example = stopped_lem speeds 24 0 known (omega arith)

init_stands : speed_get (speed_t_init speeds) 24 ≡ 0
unfolding speed_t_init speed_get trn_hash
init_stands = refl
