-- ===== src/Kernel/Links.antt =====
-- Singly linked lists through a pointer field of the descriptors, with the facts that the task queue,
-- the event queue and the free list share. `nx` is the field, as a function of the descriptor.
use cs452_kernel.Base.{
  ℕ, ◌≡◌, refl, ap, sym, subst, ◌∙◌, ◌≢◌, List, [], ◌∷◌, ◌++◌, Option, none, some,
}
use cs452_kernel.Base.Lists.{All, All-append, All-mono, All-mono₂, All-left, All-right}

-- From `p` the links lead through the descriptors of the list, in order, to NULL.
abbrev pub Links : (ℕ → Option ℕ) → Option ℕ → List ℕ → Type 0
Links nx p [] = p ≡ none
Links nx p (t ∷ ts) = (p ≡ some t) × Links nx (nx t) ts

-- The back pointer of a list.
abbrev pub last? : List ℕ → Option ℕ
last? [] = none
last? (t ∷ []) = some t
last? (t ∷ u ∷ ts) = last? (u ∷ ts)

abbrev pub NotIn : ℕ → List ℕ → Type 0
NotIn t = All (λ u. t ≢ u)

abbrev pub Distinct : List ℕ → Type 0
Distinct [] = Unit {0}
Distinct (t ∷ ts) = NotIn t ts × Distinct ts

pub last?-snoc : (ts : List ℕ) (t : ℕ) → last? (ts ++ t ∷ []) ≡ some t
last?-snoc [] t = refl
last?-snoc (u ∷ []) t = refl
last?-snoc (u ∷ v ∷ ts) t = last?-snoc (v ∷ ts) t

-- Links depend on the field at the descriptors of the list alone.
pub Links-congr :
    (nx nx' : ℕ → Option ℕ) (p : Option ℕ) (ts : List ℕ)
    → All (λ t. nx' t ≡ nx t) ts
    → Links nx p ts
    → Links nx' p ts
Links-congr nx nx' p [] same h = h
Links-congr nx nx' p (t ∷ ts) same h =
    (h.0, subst (λ q. Links nx' q ts) (sym same.0) (Links-congr nx nx' (nx t) ts same.1 h.1))

-- Two fields agree but at `u`.
abbrev pub AgreeBut : ℕ → (ℕ → Option ℕ) → (ℕ → Option ℕ) → Type 0
AgreeBut u nx nx' = (t : ℕ) → u ≢ t → nx' t ≡ nx t

-- A write to a descriptor outside a list leaves its links.
pub Links-frame :
    (nx nx' : ℕ → Option ℕ) (u : ℕ) (p : Option ℕ) (ts : List ℕ)
    → AgreeBut u nx nx'
    → NotIn u ts
    → Links nx p ts
    → Links nx' p ts
Links-frame nx nx' u p ts agree out = Links-congr nx nx' p ts (All-mono _ _ ts agree out)

-- The last descriptor is one of the list.
pub NotIn-last? : (u b : ℕ) (ts : List ℕ) → NotIn u ts → last? ts ≡ some b → u ≢ b
NotIn-last? u b [] out e = cc
NotIn-last? u b (t ∷ []) out e = λ h. let same : t ≡ b = cc in out.0 (h ∙ sym same)
NotIn-last? u b (t ∷ v ∷ ts) out e = NotIn-last? u b (v ∷ ts) out.1 e

pub All-last? {ℓ} : (P : ℕ → Type ℓ) (b : ℕ) (ts : List ℕ) → All P ts → last? ts ≡ some b → P b
All-last? P b [] h e = absurd (let wrong : ⊥ = cc in wrong)
All-last? P b (t ∷ []) h e = let same : t ≡ b = cc in subst P same h.0
All-last? P b (t ∷ u ∷ ts) h e = All-last? P b (u ∷ ts) h.1 e

-- A descriptor linked behind the last one.
pub Links-snoc :
    (nx nx' : ℕ → Option ℕ) (p : Option ℕ) (ts : List ℕ) (b t : ℕ)
    → Links nx p ts
    → Distinct ts
    → last? ts ≡ some b
    → AgreeBut b nx nx'
    → nx' b ≡ some t
    → nx' t ≡ none
    → Links nx' p (ts ++ t ∷ [])
Links-snoc nx nx' p [] b t h d e agree at_b at_t = cc
Links-snoc nx nx' p (u ∷ []) b t h d e agree at_b at_t =
    let same : u ≡ b = cc in (h.0, (ap nx' same ∙ at_b, at_t))
Links-snoc nx nx' p (u ∷ v ∷ ts) b t h d e agree at_b at_t = (
  h.0,
  subst (λ q. Links nx' q (v ∷ ts ++ t ∷ []))
      (sym (agree u (λ same. NotIn-last? u b (v ∷ ts) d.0 e (sym same))))
      (Links-snoc nx nx' (nx u) (v ∷ ts) b t h.1 d.1 e agree at_b at_t),
)

pub Distinct-snoc : (ts : List ℕ) (t : ℕ) → Distinct ts → NotIn t ts → Distinct (ts ++ t ∷ [])
Distinct-snoc [] t d out = (tt, tt)
Distinct-snoc (u ∷ ts) t d out = (
  All-append (λ v. u ≢ v) ts (t ∷ []) d.0 ((λ e. out.0 (sym e)), tt),
  Distinct-snoc ts t d.1 out.1,
)

-- What is known of a list at one of its items.
pub Distinct-middle :
    (pre : List ℕ) (c : ℕ) (post : List ℕ)
    → Distinct (pre ++ c ∷ post)
    → NotIn c pre × NotIn c post × Distinct (pre ++ post)
Distinct-middle [] c post d = (tt, d.0, d.1)
Distinct-middle (u ∷ pre) c post d =
    let (before, after, rest) = Distinct-middle pre c post d.1 in
    let out = All-right (λ v. u ≢ v) pre (c ∷ post) d.0 in
    (
      ((λ e. out.0 (sym e)), before),
      after,
      (All-append (λ v. u ≢ v) pre post (All-left (λ v. u ≢ v) pre (c ∷ post) d.0) out.1, rest),
    )

-- A descriptor taken out from behind `l`.
pub Links-remove :
    (nx nx' : ℕ → Option ℕ) (p : Option ℕ) (pre : List ℕ) (l c : ℕ) (post : List ℕ)
    → Links nx p (pre ++ c ∷ post)
    → Distinct (pre ++ c ∷ post)
    → last? pre ≡ some l
    → nx' l ≡ nx c
    → ((t : ℕ) → l ≢ t → c ≢ t → nx' t ≡ nx t)
    → Links nx' p (pre ++ post)
Links-remove nx nx' p [] l c post h d e at_l agree = cc
Links-remove nx nx' p (u ∷ []) l c post h d e at_l agree =
    let same : l ≡ u = cc in
    (
      h.0,
      subst (λ q. Links nx' q post) (sym (sym (ap nx' same) ∙ at_l))
          (Links-congr nx nx' (nx c) post
            (All-mono₂ (λ t. u ≢ t) (λ t. c ≢ t) (λ t. nx' t ≡ nx t) post
              (λ t out_u out_c. agree t (λ f. out_u (sym same ∙ f)) out_c) d.0.1 d.1.0)
            h.1.1),
    )
Links-remove nx nx' p (u ∷ v ∷ pre) l c post h d e at_l agree =
    let out = d.0 in
    (
      h.0,
      subst (λ q. Links nx' q (v ∷ pre ++ post))
          (sym (
            agree u
              (λ f.
                NotIn-last? u l (v ∷ pre) (All-left (λ w. u ≢ w) (v ∷ pre) (c ∷ post) out) e
                  (sym f))
              (λ f. (All-right (λ w. u ≢ w) (v ∷ pre) (c ∷ post) out).0 (sym f))))
          (Links-remove nx nx' (nx u) (v ∷ pre) l c post h.1 d.1 e at_l agree),
    )

-- The last descriptor, when one that is not the last is taken out.
pub last?-remove :
    (pre : List ℕ) (c u : ℕ) (post : List ℕ) → last? (pre ++ c ∷ u ∷ post) ≡ last? (pre ++ u ∷ post)
last?-remove [] c u post = refl
last?-remove (v ∷ []) c u post = refl
last?-remove (v ∷ w ∷ pre) c u post = last?-remove (w ∷ pre) c u post

pub last?-none : (ts : List ℕ) → last? ts ≡ none → ts ≡ []
last?-none [] e = refl
last?-none (t ∷ []) e = cc
last?-none (t ∷ u ∷ ts) e = absurd (some_last t u ts e)
  where
    some_last : (t u : ℕ) (ts : List ℕ) → last? (t ∷ u ∷ ts) ≢ none
    some_last t u [] e = cc
    some_last t u (v ∷ ts) e = some_last u v ts e
