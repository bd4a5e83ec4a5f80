-- ===== src/Track/Speed/Laws.antt =====
-- What is kept of a train's speed and direction.
use cs452_kernel.Base.{
  ℕ, ◌-◌, ◌%◌, ◌<◌, ◌≡◌, ◌≢◌, refl, ap, Bool, true, false, not, ◌&&◌, ◌||◌, leb, ◌==◌,
  if◌then◌else◌, arith, update, update_self, update_ne, sym, update-update, update_same, ◌∙◌, pos,
}
use cs452_kernel.Track.Speed.{
  SpeedT, trn_hash, trn_hash_reverse, is_negative, negate, speed_set, speed_is_rv, speed_get,
  speed_display_get, speed_is_stopped, speed_flip, lights,
}

-- Each index stands for the train that has it.
hash_lem : (n i : ℕ) → trn_hash n ≡ pos i → trn_hash_reverse i ≡ pos (n % 256)
unfolding trn_hash trn_hash_reverse
hash_lem n i e = ground arith

-- The speed without the direction, and the cell that keeps the direction of `x` at speed `s`.
abbrev magnitude : ℕ → ℕ
magnitude x = if is_negative x then negate x else x % 256

abbrev kept : ℕ → ℕ → ℕ
kept x s = if is_negative x then negate s else s % 256

magnitude-kept : (x s : ℕ) → s < 128 → magnitude (kept x s) ≡ s
magnitude-kept x s lt = ground arith

negative-kept : (x s : ℕ) → s < 128 → is_negative (kept x s) ≡ (is_negative x && not (s == 0))
negative-kept x s lt = ground arith

magnitude-negate : (x : ℕ) → x < 256 → magnitude (negate x) ≡ magnitude x
magnitude-negate x lt = ground arith

negative-negate :
    (x : ℕ) → x < 256 → x ≢ 128 → is_negative (negate x) ≡ (not (is_negative x) && not (x == 0))
negative-negate x lt ne = ground arith

abbrev stopped : ℕ → Bool
stopped x = (x == 0) || (x == lights)

abbrev shown : ℕ → ℕ
shown x = if leb lights (magnitude x) then magnitude x - lights else magnitude x

shown-stopped : (x : ℕ) → stopped x ≡ true → shown x ≡ 0
shown-stopped x e = ground arith

reversed_moves : (x : ℕ) → is_negative x ≡ true → stopped x ≡ false
reversed_moves x e = ground arith

negate-negate : (x : ℕ) → x < 256 → negate (negate x) ≡ x
negate-negate x lt = ground arith

twice :
    (f : ℕ → ℕ) {i : ℕ}
    → f i < 256
    → update (update f i (negate (f i))) i (negate (update f i (negate (f i)) i)) ≡ f
twice f {i} lt =
    update-update f i (negate (f i)) (negate (update f i (negate (f i)) i))
    ∙ update_same f i _ (sym (ap negate (update_self f i (negate (f i))) ∙ negate-negate (f i) lt))

module _ (spd_t : SpeedT) (n i : ℕ) (known : trn_hash n ≡ pos i) where
  rv_lem : (spd : SpeedT) → speed_is_rv spd n ≡ is_negative (spd.trns i)
  unfolding speed_is_rv
  rv_lem spd = rw (known, speed_is_rv) refl

  get_lem : (spd : SpeedT) → speed_get spd n ≡ magnitude (spd.trns i)
  unfolding speed_get
  get_lem spd =
      rw (known, speed_get)
        (ap (λ b. if b then negate (spd.trns i) else spd.trns i % 256) (rv_lem spd))

  changed_lem :
      (s : ℕ)
      → speed_set spd_t n s ≡ record spd_t { trns = update spd_t.trns i (kept (spd_t.trns i) s) }
  unfolding speed_set
  changed_lem s = rw (known, speed_set) refl

  turned_lem :
      (spd : SpeedT)
      → speed_flip spd n ≡ record spd { trns = update spd.trns i (negate (spd.trns i)) }
  unfolding speed_flip
  turned_lem spd = rw (known, speed_flip) refl

  now : (s : ℕ) → (speed_set spd_t n s).trns i ≡ kept (spd_t.trns i) s
  now s = ap (λ (spd : SpeedT). spd.trns i) (changed_lem s) ∙ update_self spd_t.trns i _

  turned : (spd : SpeedT) → (speed_flip spd n).trns i ≡ negate (spd.trns i)
  turned spd = ap (λ (t : SpeedT). t.trns i) (turned_lem spd) ∙ update_self spd.trns i _

  stop_lem : speed_is_stopped spd_t n ≡ stopped (spd_t.trns i)
  unfolding speed_is_stopped
  stop_lem = rw (known, speed_is_stopped) refl

  shown_lem : speed_display_get spd_t n ≡ shown (spd_t.trns i)
  unfolding speed_display_get
  shown_lem =
      rw (known, speed_display_get)
        (ap (λ a. if leb lights a then a - lights else a) (get_lem spd_t))

  -- A known train that is set to a speed below 128 has it, the others theirs. It is reversed
  -- afterwards if it was reversed and the speed is not 0: a reversed train that stops is no longer
  -- reversed.
  pub set_lem :
      (s : ℕ)
      → s < 128
      → (speed_get (speed_set spd_t n s) n ≡ s)
        × (speed_is_rv (speed_set spd_t n s) n ≡ (speed_is_rv spd_t n && not (s == 0)))
        × ((j : ℕ) → i ≢ j → (speed_set spd_t n s).trns j ≡ spd_t.trns j)
  set_lem s lt = (
    get_lem (speed_set spd_t n s) ∙ ap magnitude (now s) ∙ magnitude-kept (spd_t.trns i) s lt,
    rv_lem (speed_set spd_t n s)
        ∙ ap is_negative (now s)
        ∙ negative-kept (spd_t.trns i) s lt
        ∙ ap (λ b. b && not (s == 0)) (sym (rv_lem spd_t)),
    λ j ne. ap (λ (spd : SpeedT). spd.trns j) (changed_lem s) ∙ update_ne spd_t.trns i j _ ne,
  )

  module _ (byte : spd_t.trns i < 256) where
    -- To turn a known train keeps its speed, and reverses it unless it stands or has the pattern 128;
    -- to turn it twice changes nothing.
    pub flip_lem :
        (speed_get (speed_flip spd_t n) n ≡ speed_get spd_t n)
        × (spd_t.trns i ≢ 128
            → speed_is_rv (speed_flip spd_t n) n
              ≡ (not (speed_is_rv spd_t n) && not (spd_t.trns i == 0)))
        × (speed_flip (speed_flip spd_t n) n ≡ spd_t)
    flip_lem = (
      get_lem (speed_flip spd_t n)
          ∙ ap magnitude (turned spd_t)
          ∙ magnitude-negate (spd_t.trns i) byte
          ∙ sym (get_lem spd_t),
      λ ne.
          rv_lem (speed_flip spd_t n)
          ∙ ap is_negative (turned spd_t)
          ∙ negative-negate (spd_t.trns i) byte ne
          ∙ ap (λ b. not b && not (spd_t.trns i == 0)) (sym (rv_lem spd_t)),
      turned_lem (speed_flip spd_t n)
          ∙ ap (λ (spd : SpeedT). record spd { trns = update spd.trns i (negate (spd.trns i)) })
              (turned_lem spd_t)
          ∙ ap (λ f. record spd_t { trns = f }) (twice spd_t.trns byte),
    )

    -- A known train that counts as stopped shows the speed 0. A reversed train never counts as
    -- stopped, though one with only its lights on shows the speed 0 too.
    pub stopped_lem :
        (speed_is_stopped spd_t n ≡ true → speed_display_get spd_t n ≡ 0)
        × (speed_is_rv spd_t n ≡ true → speed_is_stopped spd_t n ≡ false)
        × (spd_t.trns i ≡ 256 - lights → speed_display_get spd_t n ≡ 0)
    stopped_lem =
        let x = spd_t.trns i in
        (
          λ e. shown_lem ∙ shown-stopped x (sym stop_lem ∙ e),
          λ e. stop_lem ∙ reversed_moves x (sym (rv_lem spd_t) ∙ e),
          λ e. shown_lem ∙ ap shown e,
        )
