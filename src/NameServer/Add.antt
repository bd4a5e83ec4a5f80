-- ===== src/NameServer/Add.antt =====
-- `nameserver_add_entry` on the table as a whole.
use cs452_kernel.Base.{
  ℕ, ◌<◌, ◌≤◌, ◌≡◌, ◌≢◌, ◌↔◌, ap, sym, ◌∙◌, subst, inl, inr, true, false, none, some, List, [], ◌∷◌,
  ◌++◌, update, update_self, update_ne, update_cases, ok, ◌>>=◌, ok-injective, pos, Bool-cases,
  Option-cases, arith,
}
use native.Mathlib.Decide.{ℕ_discrete}
use cs452_kernel.Base.Lists.{All, All-mono, All-mono₂, All-append}
use cs452_kernel.Kernel.Links.{last?, All-last?}
use cs452_kernel.Text.Strings.{text}
use cs452_kernel.NameServer.{
  Nameserver, hash, is_named, find_walk, add_found, append_entry, overwrite_tid, max_name_length,
  nameserver_add_entry,
}
use cs452_kernel.NameServer.Walk.{
  IsChain, IsChain-length, lookup, find, is_named_lem, find_walk_lem, hash-text,
}
use cs452_kernel.NameServer.Chains.{
  Sound, Holds, SameNames, is_named_congr, lookup_congr, IsChain-congr, overwrite_tid_lem, Appended,
  append_lem, IsChain-snoc, last?-none,
}
use cs452_kernel.NameServer.Register.{
  find_named, is_named-text, lookup_set, lookup_new, lookup_unseen,
}

-- Under the text of `name` a lookup sees `tid`, and under every other what it saw before.
abbrev pub Registered : Nameserver → (ℕ → List ℕ) → Nameserver → (ℕ → List ℕ) → (ℕ → ℕ) → ℕ → Type 0
Registered ns chain ns' chain' name tid =
    (name' : ℕ → ℕ) (b : ℕ)
    → hash name' ≡ ok b
    → b < 64
    → (text max_name_length name' ≡ text max_name_length name
        → lookup ns' name' (chain' b) ≡ pos tid)
      × (text max_name_length name' ≢ text max_name_length name
          → lookup ns' name' (chain' b) ≡ lookup ns name' (chain b))

Sound-congr :
    (ns ns' : Nameserver) (b e : ℕ)
    → SameNames ns ns' e
    → ns.current_storage_id ≤ ns'.current_storage_id
    → Sound ns b e
    → Sound ns' b e
Sound-congr ns ns' b e (same, place) le (lt, own, at) =
    (omega (arith, lt, le), place ∙ own, ap hash same ∙ at)

module _ (ns : Nameserver) (chain : ℕ → List ℕ) (holds : Holds ns chain) (name : ℕ → ℕ) (tid h : ℕ)
    (at : hash name ≡ ok h) (lt : h < 64) where
  -- The name is there: its entry gets the new id.
  module _ (c : ℕ) (found : (find ns name none (chain h)).0 ≡ some c) where
    pub set_holds : Holds (overwrite_tid ns c tid) chain
    unfolding overwrite_tid
    set_holds = record {
      few = holds.few;
      chains = λ b b_lt.
          IsChain-congr (chain b) ns (overwrite_tid ns c tid) 0 (ns.hash_table b)
            (All-mono (Sound ns b)
              (λ e. ((overwrite_tid ns c tid).storage e).next ≡ (ns.storage e).next) (chain b)
              (λ e s. (overwrite_tid_lem ns c tid e).1) (holds.sound b b_lt))
            (omega arith) (holds.chains b b_lt);
      sound = λ b b_lt.
          All-mono (Sound ns b) (Sound (overwrite_tid ns c tid) b) (chain b)
            (λ e s.
              Sound-congr ns (overwrite_tid ns c tid) b e (overwrite_tid_lem ns c tid e).0
                (omega arith) s)
            (holds.sound b b_lt);
    }

    pub set-Registered : Registered ns chain (overwrite_tid ns c tid) chain name tid
    set-Registered name' b at' b_lt = (
      λ same.
          let one : b ≡ h = ok-injective (sym at' ∙ hash-text name' name same ∙ at) in
          ap (λ i. lookup (overwrite_tid ns c tid) name' (chain i)) one
          ∙ lookup_set (chain h) ns name name' h tid none c (holds.sound h lt) found same,
      λ differs.
          let (here, own) = find_named (chain h) ns name h none c (holds.sound h lt) found in
          lookup_congr ns (overwrite_tid ns c tid) name' (chain b) (
            All-mono (Sound ns b)
              (λ e.
                ((ns.storage e).storage_id ≡ e)
                × SameNames ns (overwrite_tid ns c tid) e
                × (is_named ns name' e ≡ true
                    → ((overwrite_tid ns c tid).storage e).tid ≡ (ns.storage e).tid))
              (chain b)
              (λ e s.
                let facts = overwrite_tid_lem ns c tid e in
                (
                  s.1,
                  facts.0,
                  λ named. facts.2 (λ same. differs (
                      (is_named_lem ns name' e s.1).0 named
                      ∙ ap (λ x. text max_name_length (ns.storage x).name) (sym same)
                      ∙ sym ((is_named_lem ns name c own.1).0 here))),
                ))
              (holds.sound b b_lt)),
    )

  -- The name is not there: a new entry goes to the end of its chain.
  module _ (copy : ℕ → ℕ) (copied : text max_name_length copy ≡ text max_name_length name)
      (room : ns.current_storage_id < 256) where
    abbrev pub grown : Nameserver
    grown = append_entry ns h copy tid (last? (chain h))

    abbrev pub longer : ℕ → List ℕ
    longer = update chain h (chain h ++ ns.current_storage_id ∷ [])

    pub in_use : (b : ℕ) → b < 64 → (l : ℕ) → last? (chain b) ≡ some l → Sound ns b l
    in_use b b_lt l e = All-last? (Sound ns b) l (chain b) (holds.sound b b_lt) e

    facts : Appended ns grown h copy tid (last? (chain h))
    facts = append_lem ns h copy tid (last? (chain h)) room (λ l e. (in_use h lt l e).0)

    kept-Sound : (b : ℕ) → b < 64 → All (Sound grown b) (chain b)
    kept-Sound b b_lt =
        let more = facts.count in
        All-mono (Sound ns b) (Sound grown b) (chain b)
          (λ e s. Sound-congr ns grown b e (facts.old e s.0).0 (omega (arith, more)) s)
          (holds.sound b b_lt)

    new-Sound : hash copy ≡ ok h → Sound grown h ns.current_storage_id
    new-Sound e =
        let more = facts.count in (omega (arith, more), facts.new_place, ap hash facts.new_name ∙ e)

    other-IsChain : (b : ℕ) → b < 64 → h ≢ b → IsChain grown 0 (grown.hash_table b) (chain b)
    other-IsChain b b_lt ne =
        let more = facts.count in
        subst (λ p. IsChain grown 0 p (chain b)) (sym (facts.heads b ne))
          (IsChain-congr (chain b) ns grown 0 (ns.hash_table b)
            (All-mono (Sound ns b) (λ e. (grown.storage e).next ≡ (ns.storage e).next) (chain b)
              (λ e s.
                facts.links e s.0 (λ last. ne (ok-injective (sym (in_use h lt e last).2 ∙ s.2))))
              (holds.sound b b_lt))
            (omega (arith, more)) (holds.chains b b_lt))

    own-IsChain : IsChain grown 0 (grown.hash_table h) (chain h ++ ns.current_storage_id ∷ [])
    own-IsChain = elim (Option-cases (last? (chain h))) [
      | inl empty ↦
          let more = facts.count in
          subst (λ es. IsChain grown 0 (grown.hash_table h) (es ++ ns.current_storage_id ∷ []))
            (sym (last?-none (chain h) empty))
            (facts.head empty, omega arith, omega (arith, more), facts.new_link)
      | inr (l, at_l) ↦
          subst (λ p. IsChain grown 0 p (chain h ++ ns.current_storage_id ∷ []))
            (sym (facts.same_head l at_l))
            (IsChain-snoc (chain h) ns grown 0 l (ns.hash_table h) (holds.chains h lt) at_l
              (λ e e_lt ne. facts.links e e_lt (λ last. ne (let same : l ≡ e = cc in same)))
              (facts.behind l at_l) facts.new_link facts.count)
    ]

    pub grown_holds : hash copy ≡ ok h → Holds grown longer
    grown_holds e =
        let more = facts.count in
        record {
          few = omega (arith, more, room);
          chains = λ b b_lt.
              update_cases (λ i es. i < 64 → IsChain grown 0 (grown.hash_table i) es) chain h
                (chain h ++ ns.current_storage_id ∷ []) (λ _. own-IsChain)
                (λ i ne i_lt. other-IsChain i i_lt ne) b b_lt;
          sound = λ b b_lt.
              update_cases (λ i es. i < 64 → All (Sound grown i) es) chain h
                (chain h ++ ns.current_storage_id ∷ [])
                (λ _.
                  All-append (Sound grown h) (chain h) (ns.current_storage_id ∷ [])
                    (kept-Sound h lt) (new-Sound e, tt))
                (λ i ne i_lt. kept-Sound i i_lt) b b_lt;
        }

    old_lookup :
        (name' : ℕ → ℕ) (b : ℕ) → b < 64 → lookup grown name' (chain b) ≡ lookup ns name' (chain b)
    old_lookup name' b b_lt = lookup_congr ns grown name' (chain b) (
        All-mono (Sound ns b)
          (λ e.
            ((ns.storage e).storage_id ≡ e)
            × SameNames ns grown e
            × (is_named ns name' e ≡ true → (grown.storage e).tid ≡ (ns.storage e).tid))
          (chain b) (λ e s. let (same, ids) = facts.old e s.0 in (s.1, same, λ _. ids))
          (holds.sound b b_lt))

    -- The new entry has the name, and no other.
    new_named :
        (name' : ℕ → ℕ)
        → (is_named grown name' ns.current_storage_id ≡ true)
          ↔ (text max_name_length name' ≡ text max_name_length name)
    new_named name' =
        let (f, g) = is_named_lem grown name' ns.current_storage_id facts.new_place in
        let to = ap (text max_name_length) facts.new_name ∙ copied in
        (λ e. f e ∙ to, λ e. g (e ∙ sym to))

    unnamed :
        (name' : ℕ → ℕ)
        → text max_name_length name' ≢ text max_name_length name
        → is_named grown name' ns.current_storage_id ≡ false
    unnamed name' differs = elim (Bool-cases (is_named grown name' ns.current_storage_id)) [
      | inl here ↦ absurd (differs ((new_named name').0 here))
      | inr past ↦ past
    ]

    pub grown-Registered :
        All (λ e. is_named ns name e ≡ false) (chain h) → Registered ns chain grown longer name tid
    grown-Registered past name' b at' b_lt = (
      λ same.
          let one : h ≡ b = ok-injective (sym at ∙ sym (hash-text name' name same) ∙ at') in
          ap (λ i. lookup grown name' (longer i)) (sym one)
          ∙ ap (lookup grown name') (update_self chain h (chain h ++ ns.current_storage_id ∷ []))
          ∙ lookup_new (chain h) grown name' ns.current_storage_id
              (All-mono₂ (Sound ns h) (λ e. is_named ns name e ≡ false)
                (λ e. is_named grown name' e ≡ false) (chain h)
                (λ e s no_match.
                  is_named_congr ns grown name' e s.1 (facts.old e s.0).0
                  ∙ is_named-text ns name name' e s.1 same
                  ∙ no_match)
                (holds.sound h lt) past)
              ((new_named name').1 same)
          ∙ ap pos facts.new_tid,
      λ differs. elim (ℕ_discrete h b) [
        | yes one ↦
            ap (λ i. lookup grown name' (longer i)) (sym one)
            ∙ ap (lookup grown name') (update_self chain h (chain h ++ ns.current_storage_id ∷ []))
            ∙ lookup_unseen (chain h) grown name' ns.current_storage_id (unnamed name' differs)
            ∙ old_lookup name' h lt
            ∙ ap (λ i. lookup ns name' (chain i)) one
        | no ne ↦
            ap (lookup grown name') (update_ne chain h b (chain h ++ ns.current_storage_id ∷ []) ne)
            ∙ old_lookup name' b b_lt
      ],
    )

  pub add_found_lem :
      (fuel : ℕ)
      → 256 < fuel
      → nameserver_add_entry fuel ns name tid
        ≡ add_found ns name tid h (find ns name none (chain h)).0 (find ns name none (chain h)).1
  unfolding nameserver_add_entry
  add_found_lem fuel enough =
      let walk = holds.chains h lt in
      let short = IsChain-length (chain h) ns (ns.hash_table h) walk in
      let few = holds.few in
      ap
        (λ o. o >>= λ i. find_walk fuel ns name none (ns.hash_table i) >>= λ (found, last).
          add_found ns name tid i found last)
        at
      ∙ ap (λ o. o >>= λ (found, last). add_found ns name tid h found last)
          (find_walk_lem (chain h) fuel ns name 0 none (ns.hash_table h) walk
            (omega (arith, short, few, enough)))
