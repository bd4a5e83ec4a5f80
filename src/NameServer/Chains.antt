-- ===== src/NameServer/Chains.antt =====
-- The chains of the hash table, and what the two writes of `nameserver_add_entry` do to the entries.
use cs452_kernel.Base.{
  ℕ, ◌+◌, ◌<◌, ◌≤◌, ◌≡◌, ◌≢◌, refl, ap, sym, ◌∙◌, subst, inl, inr, true, Option, none, some, List,
  [], ◌∷◌, ◌++◌, ok, pos, Bool-cases, arith,
}
use cs452_kernel.Base.Lists.{All}
use cs452_kernel.Kernel.Links.{last?}
use cs452_kernel.Text.Strings.{is_zero}
use cs452_kernel.Text.{strncmp}
use cs452_kernel.NameServer.{
  Nameserver, hash, is_named, append_entry, overwrite_tid, max_name_length,
}
use cs452_kernel.NameServer.Walk.{IsChain, lookup}

-- An entry in use that keeps its own place and stands in the chain of its hash.
abbrev pub Sound : Nameserver → ℕ → ℕ → Type 0
Sound ns b e =
    (e < ns.current_storage_id)
    × ((ns.storage e).storage_id ≡ e)
    × (hash (ns.storage e).name ≡ ok b)

pub record Holds (ns : Nameserver) (chain : ℕ → List ℕ) : Type 0 where
  pub few : ns.current_storage_id ≤ 256
  pub chains : (b : ℕ) → b < 64 → IsChain ns 0 (ns.hash_table b) (chain b)
  pub sound : (b : ℕ) → b < 64 → All (Sound ns b) (chain b)

-- Two tables with the same name at an entry.
abbrev pub SameNames : Nameserver → Nameserver → ℕ → Type 0
SameNames ns ns' e =
    ((ns'.storage e).name ≡ (ns.storage e).name)
    × ((ns'.storage e).storage_id ≡ (ns.storage e).storage_id)

is_named_own :
    (ns : Nameserver) (name : ℕ → ℕ) (e : ℕ)
    → (ns.storage e).storage_id ≡ e
    → is_named ns name e ≡ is_zero (strncmp name (ns.storage e).name max_name_length)
unfolding is_named
is_named_own ns name e own =
    ap (λ j. is_zero (strncmp name (ns.storage j).name max_name_length)) own

pub is_named_congr :
    (ns ns' : Nameserver) (name : ℕ → ℕ) (e : ℕ)
    → (ns.storage e).storage_id ≡ e
    → SameNames ns ns' e
    → is_named ns' name e ≡ is_named ns name e
is_named_congr ns ns' name e own (same, place) =
    is_named_own ns' name e (place ∙ own)
    ∙ ap (λ s. is_zero (strncmp name s max_name_length)) same
    ∙ sym (is_named_own ns name e own)

-- A lookup sees the names, and the ids at the entries of the name.
pub lookup_congr :
    (ns ns' : Nameserver) (name : ℕ → ℕ) (es : List ℕ)
    → All
        (λ e.
          ((ns.storage e).storage_id ≡ e)
          × SameNames ns ns' e
          × (is_named ns name e ≡ true → (ns'.storage e).tid ≡ (ns.storage e).tid))
        es
    → lookup ns' name es ≡ lookup ns name es
unfolding lookup
lookup_congr ns ns' name [] h = refl
lookup_congr ns ns' name (e ∷ es) ((own, same, ids), rest) =
    rw (is_named_congr ns ns' name e own same) (elim (Bool-cases (is_named ns name e)) [
      | inl here ↦ rw here (ap pos (ids here))
      | inr past ↦ rw past (lookup_congr ns ns' name es rest)
    ])

pub IsChain-congr :
    (es : List ℕ) (ns ns' : Nameserver) (lo : ℕ) (p : Option ℕ)
    → All (λ e. (ns'.storage e).next ≡ (ns.storage e).next) es
    → ns.current_storage_id ≤ ns'.current_storage_id
    → IsChain ns lo p es
    → IsChain ns' lo p es
IsChain-congr [] ns ns' lo p same le c = c
IsChain-congr (e ∷ es) ns ns' lo p (same, rest) le (at, ge, lt, c) = (
  at,
  ge,
  omega (arith, lt, le),
  subst (λ q. IsChain ns' (e + 1) q es) (sym same)
      (IsChain-congr es ns ns' (e + 1) (ns.storage e).next rest le c),
)

-- A new id at an entry changes nothing else of it, and no other entry.
pub overwrite_tid_lem :
    (ns : Nameserver) (c tid e : ℕ)
    → let ns' = overwrite_tid ns c tid in
      SameNames ns ns' e
      × ((ns'.storage e).next ≡ (ns.storage e).next)
      × (c ≢ e → (ns'.storage e).tid ≡ (ns.storage e).tid)
      × ((ns'.storage c).tid ≡ tid)
unfolding overwrite_tid
overwrite_tid_lem ns c tid e =
    ((ground arith, ground arith), ground arith, λ ne. ground arith, ground arith)

-- What the new entry `k` at the end of the chain `hash_id` does, where `last` is the entry before it.
pub record Appended (ns ns' : Nameserver) (hash_id : ℕ) (name : ℕ → ℕ) (tid : ℕ) (last : Option ℕ)
    : Type 0 where
  pub old :
      (e : ℕ)
      → e < ns.current_storage_id
      → SameNames ns ns' e × ((ns'.storage e).tid ≡ (ns.storage e).tid)
  pub links :
      (e : ℕ)
      → e < ns.current_storage_id
      → last ≢ some e
      → (ns'.storage e).next ≡ (ns.storage e).next
  pub new_name : (ns'.storage ns.current_storage_id).name ≡ name
  pub new_tid : (ns'.storage ns.current_storage_id).tid ≡ tid
  pub new_place : (ns'.storage ns.current_storage_id).storage_id ≡ ns.current_storage_id
  pub new_link : (ns'.storage ns.current_storage_id).next ≡ none
  pub behind : (l : ℕ) → last ≡ some l → (ns'.storage l).next ≡ some ns.current_storage_id
  pub heads : (b : ℕ) → hash_id ≢ b → ns'.hash_table b ≡ ns.hash_table b
  pub head : last ≡ none → ns'.hash_table hash_id ≡ some ns.current_storage_id
  pub same_head : (l : ℕ) → last ≡ some l → ns'.hash_table hash_id ≡ ns.hash_table hash_id
  pub count : ns'.current_storage_id ≡ ns.current_storage_id + 1

pub append_lem :
    (ns : Nameserver) (hash_id : ℕ) (name : ℕ → ℕ) (tid : ℕ) (last : Option ℕ)
    → ns.current_storage_id < 256
    → ((l : ℕ) → last ≡ some l → l < ns.current_storage_id)
    → Appended ns (append_entry ns hash_id name tid last) hash_id name tid last
unfolding append_entry
append_lem ns hash_id name tid none room below = record {
  old = λ e lt. ((ground arith, ground arith), ground arith);
  links = λ e lt ne. ground arith;
  new_name = ground arith;
  new_tid = ground arith;
  new_place = ground arith;
  new_link = ground arith;
  behind = λ l e. absurd (grind arith);
  heads = λ b ne. ground arith;
  head = λ e. ground arith;
  same_head = λ l e. absurd (grind arith);
  count = omega arith;
}
append_lem ns hash_id name tid (some l) room below =
    let lt' : l < ns.current_storage_id = below l refl in
    record {
      old = λ e lt. ((ground arith, ground arith), ground arith);
      links = λ e lt ne. let apart : l ≢ e = λ same. ne (ap some same) in ground arith;
      new_name = ground arith;
      new_tid = ground arith;
      new_place = ground arith;
      new_link = ground arith;
      behind = λ m e. grind arith;
      heads = λ b ne. refl;
      head = λ e. absurd (grind arith);
      same_head = λ m e. refl;
      count = omega arith;
    }

last_above :
    (es : List ℕ) (ns : Nameserver) (lo l : ℕ) (p : Option ℕ)
    → IsChain ns lo p es
    → last? es ≡ some l
    → lo ≤ l
last_above [] ns lo l p c at = absurd (let wrong : ⊥ = cc in wrong)
last_above (e ∷ []) ns lo l p (_, ge, _, _) at = let same : e ≡ l = cc in omega (arith, ge, same)
last_above (e ∷ u ∷ es) ns lo l p (_, ge, _, c) at =
    let above = last_above (u ∷ es) ns (e + 1) l (ns.storage e).next c at in
    omega (arith, ge, above)

-- A chain with an entry behind its last one.
pub IsChain-snoc :
    (es : List ℕ) (ns ns' : Nameserver) (lo l : ℕ) (p : Option ℕ)
    → IsChain ns lo p es
    → last? es ≡ some l
    → ((e : ℕ) → e < ns.current_storage_id → l ≢ e → (ns'.storage e).next ≡ (ns.storage e).next)
    → (ns'.storage l).next ≡ some ns.current_storage_id
    → (ns'.storage ns.current_storage_id).next ≡ none
    → ns'.current_storage_id ≡ ns.current_storage_id + 1
    → IsChain ns' lo p (es ++ ns.current_storage_id ∷ [])
IsChain-snoc [] ns ns' lo l p c at_l kept to from count = absurd (let wrong : ⊥ = cc in wrong)
IsChain-snoc (e ∷ []) ns ns' lo l p (at, ge, lt, c) at_l kept to from count =
    let same : e ≡ l = cc in
    (
      at,
      ge,
      omega (arith, lt, count),
      (ap (λ x. (ns'.storage x).next) same ∙ to, omega (arith, lt), omega (arith, count), from),
    )
IsChain-snoc (e ∷ u ∷ es) ns ns' lo l p (at, ge, lt, c) at_l kept to from count =
    let above = last_above (u ∷ es) ns (e + 1) l (ns.storage e).next c at_l in
    (
      at,
      ge,
      omega (arith, lt, count),
      subst (λ q. IsChain ns' (e + 1) q (u ∷ es ++ ns.current_storage_id ∷ []))
          (sym (kept e lt (λ same. omega (arith, same, above))))
          (IsChain-snoc (u ∷ es) ns ns' (e + 1) l (ns.storage e).next c at_l kept to from count),
    )

pub last?-none : (es : List ℕ) → last? es ≡ none → es ≡ []
last?-none [] e = refl
last?-none (t ∷ []) e = absurd (let wrong : ⊥ = cc in wrong)
last?-none (t ∷ u ∷ ts) e =
    absurd
      (let wrong : t ∷ u ∷ ts ≡ [] = absurd (not_none (last?-none (u ∷ ts) e)) in not_none wrong)
  where
    not_none : {x : ℕ} {xs : List ℕ} → x ∷ xs ≡ [] → ⊥
    not_none h = cc
