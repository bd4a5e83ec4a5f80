-- ===== src/NameServer/Register.antt =====
-- What a registration does to every lookup.
use cs452_kernel.Base.{
  ℕ, ◌<◌, ◌≡◌, refl, ap, sym, ◌∙◌, subst, inl, inr, Bool, true, false, if◌then◌else◌, Option, none,
  some, List, [], ◌∷◌, ◌++◌, ok, ◌>>=◌, pos, minus_one, Bool-cases, arith,
}
use cs452_kernel.Base.Lists.{All}
use cs452_kernel.Kernel.Links.{last?}
use cs452_kernel.Text.Strings.{text}
use cs452_kernel.NameServer.{
  Nameserver, hash, is_named, get_walk, overwrite_tid, max_name_length, nameserver_get_entry,
}
use cs452_kernel.NameServer.Walk.{IsChain-length, lookup, find, is_named_lem, get_walk_lem}
use cs452_kernel.NameServer.Chains.{Sound, Holds, is_named_congr, overwrite_tid_lem}

-- A lookup is the walk along the chain of the name's hash.
pub get_entry_lem :
    (fuel : ℕ) {ns : Nameserver} {chain : ℕ → List ℕ} (name : ℕ → ℕ) (b : ℕ)
    → Holds ns chain
    → hash name ≡ ok b
    → b < 64
    → 256 < fuel
    → nameserver_get_entry fuel ns name ≡ ok (lookup ns name (chain b))
unfolding nameserver_get_entry
get_entry_lem fuel {ns} {chain} name b holds at lt enough =
    let walk = holds.chains b lt in
    let few = IsChain-length (chain b) ns (ns.hash_table b) walk in
    let most = holds.few in
    ap (λ o. o >>= λ i. get_walk fuel ns name (ns.hash_table i)) at
    ∙ get_walk_lem (chain b) fuel ns name 0 (ns.hash_table b) walk
        (omega (arith, few, most, enough))

same_test : (a b : Bool) → (a ≡ true → b ≡ true) → (b ≡ true → a ≡ true) → a ≡ b
same_test true b f g = sym (f refl)
same_test false true f g = g refl
same_test false false f g = refl

pub is_named-text :
    (ns : Nameserver) (name name' : ℕ → ℕ) (e : ℕ)
    → (ns.storage e).storage_id ≡ e
    → text max_name_length name' ≡ text max_name_length name
    → is_named ns name' e ≡ is_named ns name e
is_named-text ns name name' e own same =
    let (f, g) = is_named_lem ns name e own in
    let (f', g') = is_named_lem ns name' e own in
    same_test (is_named ns name' e) (is_named ns name e) (λ h. g (sym same ∙ f' h))
      (λ h. g' (same ∙ f h))

-- The entry that is found has the name.
pub find_named :
    (es : List ℕ) (ns : Nameserver) (name : ℕ → ℕ) (b : ℕ) (last : Option ℕ) (c : ℕ)
    → All (Sound ns b) es
    → (find ns name last es).0 ≡ some c
    → (is_named ns name c ≡ true) × Sound ns b c
unfolding find
find_named [] ns name b last c sound at = absurd (let wrong : ⊥ = cc in wrong)
find_named (e ∷ es) ns name b last c (own, sound) at = elim (Bool-cases (is_named ns name e)) [
  | inl here ↦
      let same : e ≡ c = cc in
      (subst (λ x. is_named ns name x ≡ true) same here, subst (Sound ns b) same own)
  | inr past ↦
      find_named es ns name b (some e) c sound
        (ap (λ t. (if t then (some e, last) else find ns name (some e) es).0) (sym past) ∙ at)
]

-- Without an entry of the name the walk ends at the last one.
pub find-none :
    (es : List ℕ) (ns : Nameserver) (name : ℕ → ℕ) (last : Option ℕ)
    → (find ns name last es).0 ≡ none
    → All (λ e. is_named ns name e ≡ false) es
unfolding find
find-none [] ns name last at = tt
find-none (e ∷ es) ns name last at = elim (Bool-cases (is_named ns name e)) [
  | inl here ↦ absurd (
      let wrong =
        ap (λ t. (if t then (some e, last) else find ns name (some e) es).0) (sym here) ∙ at in
      let none_ : ⊥ = cc in none_)
  | inr past ↦ (
    past,
    find-none es ns name (some e)
        (ap (λ t. (if t then (some e, last) else find ns name (some e) es).0) (sym past) ∙ at),
  )
]

pub find_last :
    (es : List ℕ) (ns : Nameserver) (name : ℕ → ℕ) (last : Option ℕ) (e : ℕ)
    → All (λ x. is_named ns name x ≡ false) (e ∷ es)
    → (find ns name last (e ∷ es)).1 ≡ last? (e ∷ es)
unfolding find
find_last [] ns name last e (past, rest) = rw past
find_last (u ∷ es) ns name last e (past, rest) = rw past (find_last es ns name (some e) u rest)

-- The id that is written is seen under every name of the text.
pub lookup_set :
    (es : List ℕ) (ns : Nameserver) (name name' : ℕ → ℕ) (b tid : ℕ) (last : Option ℕ) (c : ℕ)
    → All (Sound ns b) es
    → (find ns name last es).0 ≡ some c
    → text max_name_length name' ≡ text max_name_length name
    → lookup (overwrite_tid ns c tid) name' es ≡ pos tid
unfolding find lookup
lookup_set [] ns name name' b tid last c sound at same = absurd (let wrong : ⊥ = cc in wrong)
lookup_set (e ∷ es) ns name name' b tid last c (own, sound) at same =
    let (names, _, _, written) = overwrite_tid_lem ns c tid e in
    let keeps =
      is_named_congr ns (overwrite_tid ns c tid) name' e own.1 names
      ∙ is_named-text ns name name' e own.1 same in
    rw keeps (elim (Bool-cases (is_named ns name e)) [
      | inl here ↦
          let at_c : e ≡ c = cc in
          rw here (ap (λ x. pos ((overwrite_tid ns c tid).storage x).tid) at_c ∙ ap pos written)
      | inr past ↦ rw past (
          lookup_set es ns name name' b tid (some e) c sound
            (ap (λ t. (if t then (some e, last) else find ns name (some e) es).0) (sym past) ∙ at)
            same)
    ])

-- The new entry is seen under its own name alone.
pub lookup_new :
    (es : List ℕ) (ns : Nameserver) (name : ℕ → ℕ) (k : ℕ)
    → All (λ e. is_named ns name e ≡ false) es
    → is_named ns name k ≡ true
    → lookup ns name (es ++ k ∷ []) ≡ pos (ns.storage k).tid
unfolding lookup
lookup_new [] ns name k past here = rw here
lookup_new (e ∷ es) ns name k (past, rest) here = rw past (lookup_new es ns name k rest here)

pub lookup_unseen :
    (es : List ℕ) (ns : Nameserver) (name : ℕ → ℕ) (k : ℕ)
    → is_named ns name k ≡ false
    → lookup ns name (es ++ k ∷ []) ≡ lookup ns name es
unfolding lookup
lookup_unseen [] ns name k past = rw past
lookup_unseen (e ∷ es) ns name k past = elim (Bool-cases (is_named ns name e)) [
  | inl here ↦ rw here
  | inr other ↦ rw other (lookup_unseen es ns name k past)
]

pub lookup_none :
    (es : List ℕ) (ns : Nameserver) (name : ℕ → ℕ)
    → All (λ e. is_named ns name e ≡ false) es
    → lookup ns name es ≡ minus_one
unfolding lookup
lookup_none [] ns name h = refl
lookup_none (e ∷ es) ns name (past, rest) = rw past (lookup_none es ns name rest)

pub find_end :
    (es : List ℕ) (ns : Nameserver) (name : ℕ → ℕ)
    → All (λ e. is_named ns name e ≡ false) es
    → (find ns name none es).1 ≡ last? es
unfolding find
find_end [] ns name past = refl
find_end (e ∷ es) ns name past = find_last es ns name none e past
