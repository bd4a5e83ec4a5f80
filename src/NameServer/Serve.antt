-- ===== src/NameServer/Serve.antt =====
-- The name server against its contract, one message and many.
use cs452_kernel.Base.{
  ℕ, ◌+◌, ◌<◌, ◌≤◌, ◌≡◌, refl, ap, sym, ◌∙◌, ◌⊎◌, inl, inr, true, false, ◌==◌, Option, none, some,
  List, [], ok, fault, panic, minus_one, Option-cases, arith,
}
use mathlib.Core.List.{List-discrete}
use native.Mathlib.Decide.{ℕ_discrete}
use cs452_kernel.Kernel.Links.{last?}
use cs452_kernel.Text.{strncpy}
use cs452_kernel.Text.Strings.{text, strncpy_lem}
use cs452_kernel.NameServer.{
  Nameserver, hash, add_found, append_entry, overwrite_tid, max_name_length, nameserver_init,
  nameserver_add_entry, nameserver_get_entry,
}
use cs452_kernel.NameServer.Walk.{IsName, lookup, find, hash_total, hash-text}
use cs452_kernel.NameServer.Chains.{Holds, append_lem}
use cs452_kernel.NameServer.Register.{find-none, find_end, lookup_none, get_entry_lem}
use cs452_kernel.NameServer.Add.{
  Registered, in_use, set_holds, set-Registered, grown_holds, grown-Registered, add_found_lem,
}
use cs452_kernel.NameServer.Spec.{Names, assign, assign_same, assign_other}

-- The table is well formed, and its lookups are those of the map.
abbrev pub Shows : Nameserver → Names → Type 0
Shows ns m =
    (chain : ℕ → List ℕ) × Holds ns chain
    × ((name : ℕ → ℕ) (b : ℕ)
        → hash name ≡ ok b
        → b < 64
        → lookup ns name (chain b) ≡ m (text max_name_length name))

pub init-Shows : Shows nameserver_init (λ t. minus_one)
unfolding nameserver_init lookup
init-Shows = (
  λ b. [],
  record { few = omega arith; chains = λ b lt. refl; sound = λ b lt. tt },
  λ name b at lt. refl,
)

pub Registered-Shows :
    (ns : Nameserver) {ns' : Nameserver} (m : Names) (chain : ℕ → List ℕ) {chain' : ℕ → List ℕ}
    (name : ℕ → ℕ) (tid : ℕ)
    → ((n : ℕ → ℕ) (b : ℕ)
        → hash n ≡ ok b
        → b < 64
        → lookup ns n (chain b) ≡ m (text max_name_length n))
    → Holds ns' chain'
    → Registered ns chain ns' chain' name tid
    → Shows ns' (assign m (text max_name_length name) tid)
Registered-Shows ns m chain {chain'} name tid shows holds reg = (
  chain',
  holds,
  λ n b at lt.
      let (to, kept) = reg n b at lt in
      elim (text_dec n) [
        | yes same ↦ to same ∙ sym (assign_same m t tid (text max_name_length n) same)
        | no ne ↦ kept ne ∙ shows n b at lt ∙ sym (assign_other m t tid (text max_name_length n) ne)
      ],
)
  where
    t : List ℕ
    t = text max_name_length name

    text_dec : (n : ℕ → ℕ) → Dec (text max_name_length n ≡ text max_name_length name)
    text_dec n = List-discrete ℕ_discrete (text max_name_length n) (text max_name_length name)

full_run :
    (ns : Nameserver) (name : ℕ → ℕ) (tid h : ℕ) (last : Option ℕ)
    → ns.current_storage_id ≡ 256
    → add_found ns name tid h none last ≡ fault panic
unfolding add_found
full_run ns name tid h last full =
    let at : (ns.current_storage_id == 256) ≡ true = ground arith in rw at

differs_below : (a b : ℕ) → a < b → (a == b) ≡ false
differs_below a b lt = ground arith

new_run :
    (ns : Nameserver) (name copy : ℕ → ℕ) (tid h : ℕ) (last : Option ℕ)
    → ns.current_storage_id < 256
    → strncpy 256 (ns.storage ns.current_storage_id).name name 256 ≡ ok copy
    → add_found ns name tid h none last ≡ ok (append_entry ns h copy tid last)
unfolding add_found
new_run ns name copy tid h last room copied =
    rw (differs_below ns.current_storage_id 256 room, copied)

-- A table after a registration, which takes one more entry at most.
abbrev pub Adds : ℕ → Nameserver → Names → (ℕ → ℕ) → ℕ → Type 0
Adds fuel ns m name tid =
    (ns' : Nameserver) × (nameserver_add_entry fuel ns name tid ≡ ok ns')
    × Shows ns' (assign m (text max_name_length name) tid)
    × (ns'.current_storage_id ≤ ns.current_storage_id + 1)

-- The walk along a chain takes 257 steps at most, as the storage has 256 entries.
module _ (fuel : ℕ) (enough : 256 < fuel) where
  module _ (ns : Nameserver) (m : Names) (name : ℕ → ℕ) (tid : ℕ) (is_name : IsName name)
      (chain : ℕ → List ℕ) (holds : Holds ns chain)
      (shows : (n : ℕ → ℕ) (b : ℕ)
        → hash n ≡ ok b
        → b < 64
        → lookup ns n (chain b) ≡ m (text max_name_length n))
      (h : ℕ) (at : hash name ≡ ok h) (lt : h < 64) where
    known_added : (c : ℕ) → (find ns name none (chain h)).0 ≡ some c → Adds fuel ns m name tid
    unfolding add_found overwrite_tid
    known_added c e = (
      overwrite_tid ns c tid,
      add_found_lem ns chain holds name tid h at lt fuel enough
          ∙ ap (λ o. add_found ns name tid h o (find ns name none (chain h)).1) e,
      Registered-Shows ns m chain name tid shows (set_holds ns chain holds name tid h at lt c e)
          (set-Registered ns chain holds name tid h at lt c e),
      omega arith,
    )

    new_added :
        (find ns name none (chain h)).0 ≡ none
        → ns.current_storage_id < 256
        → Adds fuel ns m name tid
    new_added e room =
        let (copy, copied, same) =
          (strncpy_lem 256 (ns.storage ns.current_storage_id).name name).0 is_name in
        let past = find-none (chain h) ns name none e in
        let ns' = append_entry ns h copy tid (last? (chain h)) in
        let more =
          (append_lem ns h copy tid (last? (chain h)) room (λ l at_l.
            (in_use ns chain holds name tid h at lt copy same room h lt l at_l).0)).count in
        (
          ns',
          add_found_lem ns chain holds name tid h at lt fuel enough
              ∙ ap (λ o. add_found ns name tid h o (find ns name none (chain h)).1) e
              ∙ ap (add_found ns name tid h none) (find_end (chain h) ns name past)
              ∙ new_run ns name copy tid h (last? (chain h)) room copied,
          Registered-Shows ns m chain name tid shows
              (grown_holds ns chain holds name tid h at lt copy same room
                (hash-text copy name same ∙ at))
              (grown-Registered ns chain holds name tid h at lt copy same room past),
          omega (arith, more),
        )

    full_added :
        (find ns name none (chain h)).0 ≡ none
        → ns.current_storage_id ≡ 256
        → (m (text max_name_length name) ≡ minus_one)
          × (nameserver_add_entry fuel ns name tid ≡ fault panic)
    full_added e full = (
      sym (shows name h at lt) ∙ lookup_none (chain h) ns name (find-none (chain h) ns name none e),
      add_found_lem ns chain holds name tid h at lt fuel enough
          ∙ ap (λ o. add_found ns name tid h o (find ns name none (chain h)).1) e
          ∙ full_run ns name tid h (find ns name none (chain h)).1 full,
    )

  -- A registration is one of the map, but where it is a new name for a table that is full.
  pub add_entry_lem :
      (ns : Nameserver) (m : Names) (name : ℕ → ℕ) (tid : ℕ)
      → Shows ns m
      → IsName name
      → ((ns.current_storage_id ≡ 256)
          × (m (text max_name_length name) ≡ minus_one)
          × (nameserver_add_entry fuel ns name tid ≡ fault panic))
        ⊎ Adds fuel ns m name tid
  add_entry_lem ns m name tid (chain, holds, shows) is_name =
      let (h, at, lt) = hash_total name is_name in
      let few = holds.few in
      elim (Option-cases (find ns name none (chain h)).0) [
        | inr (c, e) ↦ inr (known_added ns m name tid is_name chain holds shows h at lt c e)
        | inl e ↦ elim (ℕ_discrete ns.current_storage_id 256) [
          | yes full ↦
              let (unknown, stops) =
                full_added ns m name tid is_name chain holds shows h at lt e full in
              inl (full, unknown, stops)
          | no ne ↦
              inr (
                new_added ns m name tid is_name chain holds shows h at lt e
                  (omega (arith, few, ne)))
        ]
      ]

  -- A lookup answers what the map says.
  pub get_lem :
      (ns : Nameserver) (m : Names) (name : ℕ → ℕ)
      → Shows ns m
      → IsName name
      → nameserver_get_entry fuel ns name ≡ ok (m (text max_name_length name))
  get_lem ns m name (chain, holds, shows) is_name =
      let (h, at, lt) = hash_total name is_name in
      get_entry_lem fuel name h holds at lt enough ∙ ap ok (shows name h at lt)
