-- ===== src/NameServer/Walk.antt =====
-- The hash and the comparison of names by their texts, and the two walks as recursions on the entries
-- of a chain.
use cs452_kernel.Base.{
  ℕ, zero, suc, ◌+◌, ◌%◌, ◌^◌, ◌*◌, ◌<◌, ◌≤◌, ◌≡◌, refl, ap, sym, ◌∙◌, subst, ◌↔◌, inl, inr, true,
  ◌==◌, if◌then◌else◌, Option, none, some, List, [], ◌∷◌, ok, ◌>>=◌, ℤ, pos, minus_one, Bool-cases,
  arith,
}
use cs452_kernel.Base.Lists.{length}
use cs452_kernel.Text.{strncmp}
use cs452_kernel.Text.Strings.{
  text, text_from, Ends, text_step, text_end, cons_head, cons_tail, is_zero, strncmp_from_lem,
}
use cs452_kernel.NameServer.{
  Nameserver, hash, hash_from, is_named, find_walk, get_walk, max_name_length,
}

-- A name that ends within its array.
abbrev pub IsName : (ℕ → ℕ) → Type 0
IsName s = length (text max_name_length s) < max_name_length

hash_from_total : (n : ℕ) (s : ℕ → ℕ) (i h : ℕ) → Ends n s i → (v : ℕ) × (hash_from n s i h ≡ ok v)
unfolding hash_from
hash_from_total zero s i h ends = absurd (omega (arith, ends))
hash_from_total (suc n) s i h ends = elim (Bool-cases (s i == 0)) [
  | inl stop ↦ (h, rw stop)
  | inr go ↦
      let (v, e) =
        hash_from_total n s (i + 1) (((h * 2 ^ 5 + h) % 2 ^ 64 + s i) % 2 ^ 64)
          (let l = ap length (text_step n s i go) in omega (arith, l, ends)) in
      (v, rw go e)
]

hash_from_text :
    (n : ℕ) (a b : ℕ → ℕ) (i h : ℕ)
    → text_from n a i ≡ text_from n b i
    → hash_from n a i h ≡ hash_from n b i h
unfolding hash_from text_from
hash_from_text zero a b i h e = refl
hash_from_text (suc n) a b i h e = elim (Bool-cases (a i == 0)) [
  | inl stop ↦ elim (Bool-cases (b i == 0)) [
    | inl stop' ↦ rw (stop, stop')
    | inr go ↦ absurd (
        let l = ap length (sym (text_end (suc n) a i stop) ∙ e ∙ text_step n b i go) in
        omega (arith, l))
  ]
  | inr go ↦ elim (Bool-cases (b i == 0)) [
    | inl stop ↦ absurd (
        let l = ap length (sym (text_step n a i go) ∙ e ∙ text_end (suc n) b i stop) in
        omega (arith, l))
    | inr go' ↦
        let both = sym (text_step n a i go) ∙ e ∙ text_step n b i go' in
        rw (go, go')
          (ap (λ c. hash_from n a (i + 1) (((h * 2 ^ 5 + h) % 2 ^ 64 + c) % 2 ^ 64))
              (cons_head both)
            ∙ hash_from_text n a b (i + 1) (((h * 2 ^ 5 + h) % 2 ^ 64 + b i) % 2 ^ 64)
                (cons_tail both))
  ]
]

pub hash_total : (s : ℕ → ℕ) → IsName s → (b : ℕ) × (hash s ≡ ok b) × (b < 64)
unfolding hash text
hash_total s name =
    let (v, e) = hash_from_total max_name_length s 0 5381 name in (v % 64, rw e, omega arith)

-- Names of one text have one hash.
pub hash-text : (a b : ℕ → ℕ) → text max_name_length a ≡ text max_name_length b → hash a ≡ hash b
unfolding hash text
hash-text a b e = ap (λ o. o >>= λ h. ok (h % 64)) (hash_from_text max_name_length a b 0 5381 e)

-- An entry that keeps its own place is named by the text of its name.
pub is_named_lem :
    (ns : Nameserver) (name : ℕ → ℕ) (e : ℕ)
    → (ns.storage e).storage_id ≡ e
    → (is_named ns name e ≡ true)
      ↔ (text max_name_length name ≡ text max_name_length (ns.storage e).name)
unfolding is_named strncmp text
is_named_lem ns name e own =
    subst
      (λ j.
        (is_zero (strncmp name (ns.storage j).name max_name_length) ≡ true)
        ↔ (text max_name_length name ≡ text max_name_length (ns.storage e).name))
      (sym own) (strncmp_from_lem max_name_length name (ns.storage e).name 0)

-- The entries that the links lead to from `p`, which lie behind `lo` in the storage, in its order.
abbrev pub IsChain : Nameserver → ℕ → Option ℕ → List ℕ → Type 0
IsChain ns lo p [] = p ≡ none
IsChain ns lo p (e ∷ es) =
    (p ≡ some e)
    × (lo ≤ e)
    × (e < ns.current_storage_id)
    × IsChain ns (e + 1) (ns.storage e).next es

IsChain-room :
    (es : List ℕ) (ns : Nameserver) (lo : ℕ) (p : Option ℕ)
    → IsChain ns lo p es
    → lo ≤ ns.current_storage_id
    → lo + length es ≤ ns.current_storage_id
IsChain-room [] ns lo p c h = omega (arith, h)
IsChain-room (e ∷ es) ns lo p (at, ge, lt, c) h =
    let r = IsChain-room es ns (e + 1) (ns.storage e).next c (omega (arith, lt)) in
    omega (arith, r, ge)

pub IsChain-length :
    (es : List ℕ) (ns : Nameserver) (p : Option ℕ)
    → IsChain ns 0 p es
    → length es ≤ ns.current_storage_id
IsChain-length es ns p c = let r = IsChain-room es ns 0 p c (omega arith) in omega (arith, r)

-- The id at the first entry of the name.
unfoldable pub lookup : Nameserver → (ℕ → ℕ) → List ℕ → ℤ
lookup ns name [] = minus_one
lookup ns name (e ∷ es) =
    let rest = lookup ns name es in if is_named ns name e then pos (ns.storage e).tid else rest

-- The first entry of the name, and the entry before it.
unfoldable pub find : Nameserver → (ℕ → ℕ) → Option ℕ → List ℕ → Option ℕ × Option ℕ
find ns name last [] = (none, last)
find ns name last (e ∷ es) =
    let rest = find ns name (some e) es in if is_named ns name e then (some e, last) else rest

pub get_walk_lem :
    (es : List ℕ) (fuel : ℕ) (ns : Nameserver) (name : ℕ → ℕ) (lo : ℕ) (p : Option ℕ)
    → IsChain ns lo p es
    → length es < fuel
    → get_walk fuel ns name p ≡ ok (lookup ns name es)
unfolding get_walk lookup
get_walk_lem es zero ns name lo p c lt = absurd (omega arith)
get_walk_lem [] (suc fuel) ns name lo p c lt = ap (get_walk (suc fuel) ns name) c
get_walk_lem (e ∷ es) (suc fuel) ns name lo p (at, _, _, c) lt =
    ap (get_walk (suc fuel) ns name) at ∙ elim (Bool-cases (is_named ns name e)) [
      | inl here ↦ rw here
      | inr past ↦
          rw past (get_walk_lem es fuel ns name (e + 1) (ns.storage e).next c (omega arith))
    ]

pub find_walk_lem :
    (es : List ℕ) (fuel : ℕ) (ns : Nameserver) (name : ℕ → ℕ) (lo : ℕ) (last p : Option ℕ)
    → IsChain ns lo p es
    → length es < fuel
    → find_walk fuel ns name last p ≡ ok (find ns name last es)
unfolding find_walk find
find_walk_lem es zero ns name lo last p c lt = absurd (omega arith)
find_walk_lem [] (suc fuel) ns name lo last p c lt = ap (find_walk (suc fuel) ns name last) c
find_walk_lem (e ∷ es) (suc fuel) ns name lo last p (at, _, _, c) lt =
    ap (find_walk (suc fuel) ns name last) at ∙ elim (Bool-cases (is_named ns name e)) [
      | inl here ↦ rw here
      | inr past ↦
          rw past
            (find_walk_lem es fuel ns name (e + 1) (some e) (ns.storage e).next c (omega arith))
    ]
