-- ===== src/Track/SensorQueue/Laws.antt =====
-- What is taken from the lists of the sensors, and what is left in them.
use cs452_kernel.Base.{
  ℕ, zero, suc, ◌<◌, ◌≡◌, ◌≢◌, sym, ap, subst, ◌∙◌, true, false, ◌==◌, Option, none, some, List, [],
  ◌∷◌, update_self, update_ne, arith, ok,
}
use cs452_kernel.Base.Lists.{length, All, All-mono}
use cs452_kernel.Track.SensorQueue.{
  SensorEntry, SensorQueue, release, set_head, zero_entry, free_list,
}

-- The entries that the links lead to from `p`.
abbrev pub IsChain : SensorQueue → Option ℕ → List ℕ → Type 0
IsChain sq p [] = p ≡ none
IsChain sq p (e ∷ es) = (p ≡ some e) × IsChain sq (sq.storage e).next es

module _ (smod snr trn : ℕ) where
  -- A list without the train is walked to its end.
  walk_lem :
      (es : List ℕ) (fuel : ℕ) (sq : SensorQueue) (prev p : Option ℕ)
      → IsChain sq p es
      → All (λ e. (sq.storage e).data_.trn ≢ trn) es
      → length es < fuel
      → free_list fuel sq smod snr trn prev p ≡ ok sq
  unfolding free_list
  walk_lem es zero sq prev p chain other lt = absurd (omega arith)
  walk_lem [] (suc fuel) sq prev p chain other lt =
      ap (free_list (suc fuel) sq smod snr trn prev) chain
  walk_lem (e ∷ es) (suc fuel) sq prev p (at, chain) (ne, other) lt =
      let past : ((sq.storage e).data_.trn == trn) ≡ false = ground arith in
      ap (free_list (suc fuel) sq smod snr trn prev) at
      ∙ rw past (walk_lem es fuel sq (some e) (sq.storage e).next chain other (omega arith))

  module _ (sq : SensorQueue) (h : ℕ) (own : (sq.storage h).data_.trn ≡ trn) where
    -- The queue without its first entry.
    abbrev pub freed : SensorQueue
    freed = release (set_head sq smod snr (sq.storage h).next) h

    IsChain-kept :
        (es : List ℕ) (p : Option ℕ) → IsChain sq p es → All (λ e. h ≢ e) es → IsChain freed p es
    IsChain-kept [] p chain apart = chain
    IsChain-kept (e ∷ es) p (at, chain) (ne, apart) = (
      at,
      subst (λ (x : SensorEntry). IsChain freed x.next es)
          (sym (update_ne sq.storage h e (record zero_entry { next = sq.freelist }) ne))
          (IsChain-kept es (sq.storage e).next chain apart),
    )

    -- Where the first entry of a sensor's list is of the train, and no free entry has the number of the
    -- train, the loop, with fuel for the free list, takes that entry alone out of the list: it goes on along the free list and ends,
    -- so each later entry stays as it was, those of the same train too.
    pub free_list_skips :
        (free : List ℕ) (fuel : ℕ)
        → IsChain sq sq.freelist free
        → All (λ e. (h ≢ e) × ((sq.storage e).data_.trn ≢ trn)) free
        → length free < fuel
        → (sq' : SensorQueue) × (free_list (suc fuel) sq smod snr trn none (some h) ≡ ok sq')
          × (sq'.sensors smod snr ≡ (sq.storage h).next)
          × ((e : ℕ) → h ≢ e → sq'.storage e ≡ sq.storage e)
    unfolding free_list
    free_list_skips free fuel chain apart lt =
        let take : ((sq.storage h).data_.trn == trn) ≡ true = ground arith in
        let link : (freed.storage h).next ≡ sq.freelist =
          ap (λ (x : SensorEntry). x.next)
            (update_self sq.storage h (record zero_entry { next = sq.freelist })) in
        (
          freed,
          rw take (
              walk_lem free fuel freed none (freed.storage h).next
                (subst (λ p. IsChain freed p free) (sym link)
                  (IsChain-kept free sq.freelist chain (
                    All-mono (λ e. (h ≢ e) × ((sq.storage e).data_.trn ≢ trn)) (λ e. h ≢ e) free
                      (λ e a. a.0) apart)))
                (All-mono (λ e. (h ≢ e) × ((sq.storage e).data_.trn ≢ trn))
                  (λ e. (freed.storage e).data_.trn ≢ trn) free other apart)
                lt),
          ap (λ (f : ℕ → Option ℕ). f snr) (update_self sq.sensors smod _)
              ∙ update_self (sq.sensors smod) snr _,
          λ e ne. update_ne sq.storage h e (record zero_entry { next = sq.freelist }) ne,
        )
      where
        other :
            (e : ℕ) → (h ≢ e) × ((sq.storage e).data_.trn ≢ trn) → (freed.storage e).data_.trn ≢ trn
        other e (ne, differs) =
            subst (λ (x : SensorEntry). x.data_.trn ≢ trn)
              (sym (update_ne sq.storage h e (record zero_entry { next = sq.freelist }) ne)) differs
