-- ===== src/Kernel/TaskQueue/Scan.antt =====
-- `unlink`, with which `task_queue_schedule` takes a descriptor out of its queue.
use cs452_kernel.Base.{
  ℕ, ◌<◌, ◌≡◌, refl, sym, ap, subst, ◌∙◌, ◌≢◌, inl, inr, List, [], ◌∷◌, ◌++◌, append-nil, Option,
  none, some, arith, update, update_self, update_ne, Option-cases, if◌then◌else◌, true, false,
  same_ptr, ok,
}
use cs452_kernel.Base.Lists.{All, All-append, All-left, All-right}
use cs452_kernel.Kernel.Task.{Task, Tasks, n_priority, set_next}
use cs452_kernel.Kernel.Links.{
  Links, Links-frame, Links-remove, last?, last?-snoc, last?-remove, NotIn, NotIn-last?, All-last?,
  Distinct, Distinct-middle,
}
use cs452_kernel.Kernel.TaskQueue.{TaskQueue, unlink, clear_link}
use cs452_kernel.Kernel.TaskQueue.Holds.{
  IsQueue, Holds, SameButNext, level_same, IsQueue_frame, NotIn_level, Holds_at,
  set_next-SameButNext, SameButNext-trans,
}

pub same_ptr_self : (c : ℕ) → same_ptr (some c) (some c) ≡ true
same_ptr_self c = ground arith

same_ptr_ne : (c : ℕ) (q : Option ℕ) → ((b : ℕ) → q ≡ some b → c ≢ b) → same_ptr (some c) q ≡ false
same_ptr_ne c none h = refl
same_ptr_ne c (some b) h = let ne = h b refl in ground arith

-- The back pointer after a removal is the last of what is left.
back_lem :
    (pre : List ℕ) (c : ℕ) (post : List ℕ)
    → Distinct (pre ++ c ∷ post)
    → (if same_ptr (some c) (last? (pre ++ c ∷ post)) then last? pre else last? (pre ++ c ∷ post))
      ≡ last? (pre ++ post)
back_lem pre c [] d = rw (last?-snoc pre c, same_ptr_self c) (ap last? (sym (append-nil pre)))
back_lem pre c (u ∷ post) d =
    let (before, after, rest) = Distinct-middle pre c (u ∷ post) d in
    let out : NotIn c (pre ++ u ∷ post) = All-append (λ v. c ≢ v) pre (u ∷ post) before after in
    rw (last?-remove pre c u post, same_ptr_ne c _ (λ b e. NotIn-last? c b _ out e)) refl

clear_back :
    (s : Tasks) (tq : TaskQueue) (p : ℕ) (last : Option ℕ) (c : ℕ)
    → (clear_link s tq p last c).1.back p
      ≡ (if same_ptr (some c) (tq.back p) then last else tq.back p)
unfolding clear_link
clear_back s tq p last c = ground arith

clear_others :
    (s : Tasks) (tq : TaskQueue) (p : ℕ) (last : Option ℕ) (c r : ℕ)
    → p ≢ r
    → (clear_link s tq p last c).1.back r ≡ tq.back r
unfolding clear_link
clear_others s tq p last c r ne = ground arith

clear_front :
    (s : Tasks) (tq : TaskQueue) (p : ℕ) (last : Option ℕ) (c : ℕ)
    → (clear_link s tq p last c).1.front ≡ tq.front
unfolding clear_link
clear_front s tq p last c = ground arith

module _ (s : Tasks) (tq : TaskQueue) (qs : ℕ → List ℕ) (p : ℕ) (pre : List ℕ) (c : ℕ)
    (post : List ℕ) (h : Holds s tq qs) (room : p < n_priority)
    (split : qs p ≡ pre ++ c ∷ post) where
  whole : IsQueue s (tq.front p) (tq.back p) p (pre ++ c ∷ post)
  whole = subst (IsQueue s (tq.front p) (tq.back p) p) split (h.queue p)

  rest-Distinct : NotIn c pre × NotIn c post × Distinct (pre ++ post)
  rest-Distinct = Distinct-middle pre c post whole.distinct

  rest_level : All (λ t. (s t).priority ≡ p) (pre ++ post)
  rest_level =
      let on = λ (t : ℕ). (s t).priority ≡ p in
      All-append on pre post (All-left on pre (c ∷ post) whole.level)
        (All-right on pre (c ∷ post) whole.level).1

  c_level : (s c).priority ≡ p
  c_level = (All-right (λ t. (s t).priority ≡ p) pre (c ∷ post) whole.level).0

  -- A write to the link of a descriptor of this queue is not seen by another queue.
  elsewhere :
      (s' : Tasks) (u : ℕ) (q : Option ℕ) (r : ℕ)
      → (s' u).priority ≡ p
      → p ≢ r
      → IsQueue s' (tq.front r) (tq.back r) r (qs r)
      → IsQueue (set_next s' u q) (tq.front r) (tq.back r) r (qs r)
  elsewhere s' u q r e ne k =
      IsQueue_frame s' u q (tq.front r) (tq.back r) r (qs r)
        (NotIn_level s' u r (qs r) (λ f. ne (sym e ∙ f)) k.level) k

  -- What `unlink` leaves.
  abbrev pub Removed : Tasks × TaskQueue → Type 0
  Removed r = Holds r.0 r.1 (update qs p (pre ++ post)) × SameButNext s r.0 × ((r.0 c).next ≡ none)

  -- The last writes, after those of the two cases.
  finish :
      (s₁ : Tasks) (tq₁ : TaskQueue)
      → SameButNext s s₁
      → tq₁.back ≡ tq.back
      → ((r : ℕ) → p ≢ r → tq₁.front r ≡ tq.front r)
      → Links (λ t. (set_next s₁ c none t).next) (tq₁.front p) (pre ++ post)
      → ((r : ℕ) → p ≢ r → IsQueue s₁ (tq.front r) (tq.back r) r (qs r))
      → Removed (clear_link s₁ tq₁ p (last? pre) c)
  unfolding clear_link
  finish s₁ tq₁ same backs fronts links others =
      let done = clear_link s₁ tq₁ p (last? pre) c in
      let same_all : SameButNext s done.0 =
        SameButNext-trans s s₁ done.0 same (set_next-SameButNext s₁ c none) in
      let back_before : tq₁.back p ≡ last? (pre ++ c ∷ post) =
        ap (λ (b : ℕ → Option ℕ). b p) backs ∙ whole.ends in
      (
        Holds_at done.1 p (pre ++ post) h room
            (record {
              links =
                  subst (λ f. Links (λ t. (done.0 t).next) f (pre ++ post))
                    (sym (ap (λ (f : ℕ → Option ℕ). f p) (clear_front s₁ tq₁ p (last? pre) c)))
                    links;
              ends =
                  clear_back s₁ tq₁ p (last? pre) c
                  ∙ ap (λ b. if same_ptr (some c) b then last? pre else b) back_before
                  ∙ back_lem pre c post whole.distinct;
              distinct = rest-Distinct.2;
              level = level_same s done.0 p (pre ++ post) same_all rest_level;
            })
            (λ r ne. (
              ap (λ (f : ℕ → Option ℕ). f r) (clear_front s₁ tq₁ p (last? pre) c) ∙ fronts r ne,
              clear_others s₁ tq₁ p (last? pre) c r ne ∙ ap (λ (b : ℕ → Option ℕ). b r) backs,
            ))
            (λ r ne.
              elsewhere s₁ c none r (ap (λ (d : Task). d.priority) (same c) ∙ c_level) ne
                (others r ne)),
        same_all,
        ap (λ (d : Task). d.next) (update_self s₁ c _),
      )

-- The descriptor at the front.
unlink_first :
    (s : Tasks) (tq : TaskQueue) (qs : ℕ → List ℕ) (p c : ℕ) (post : List ℕ) (h : Holds s tq qs)
    (room : p < n_priority) (split : qs p ≡ c ∷ post)
    → (r : Tasks × TaskQueue) × (unlink s tq p none c ≡ ok r)
      × Removed s tq qs p [] c post h room split r
unfolding unlink whole
unlink_first s tq qs p c post h room split =
    let w = whole s tq qs p [] c post h room split in
    let tq₁ : TaskQueue = record tq { front = update tq.front p (s c).next } in
    (
      clear_link s tq₁ p none c,
      rw (w.links.0, same_ptr_self c),
      finish s tq qs p [] c post h room split s tq₁ (λ t. refl) refl
          (λ r ne. update_ne tq.front p r _ ne)
          (subst (λ f. Links (λ t. (set_next s c none t).next) f post)
            (sym (update_self tq.front p (s c).next))
            (Links-frame (λ t. (s t).next) (λ t. (set_next s c none t).next) c (s c).next post
              (λ t ne. ap (λ (d : Task). d.next) (update_ne s c t _ ne)) w.distinct.0 w.links.1))
          (λ r ne. h.queue r),
    )

-- A descriptor behind `l`.
unlink_behind :
    (s : Tasks) (tq : TaskQueue) (qs : ℕ → List ℕ) (p u : ℕ) (pre : List ℕ) (l c : ℕ)
    (post : List ℕ) (h : Holds s tq qs) (room : p < n_priority) (split : qs p ≡ u ∷ pre ++ c ∷ post)
    → last? (u ∷ pre) ≡ some l
    → (r : Tasks × TaskQueue) × (unlink s tq p (last? (u ∷ pre)) c ≡ ok r)
      × Removed s tq qs p (u ∷ pre) c post h room split r
unfolding unlink
unlink_behind s tq qs p u pre l c post h room split e =
    let w = whole s tq qs p (u ∷ pre) c post h room split in
    let out = rest-Distinct s tq qs p (u ∷ pre) c post h room split in
    let s₁ = set_next s l (s c).next in
    let apart : c ≢ l = NotIn-last? c l (u ∷ pre) out.0 e in
    let first : tq.front p ≡ some u = w.links.0 in
    let on = λ (t : ℕ). (s t).priority ≡ p in
    let at_p : (s l).priority ≡ p =
      All-last? on l (u ∷ pre) (All-left on (u ∷ pre) (c ∷ post) w.level) e in
    (
      clear_link s₁ tq p (last? (u ∷ pre)) c,
      rw (first, same_ptr_ne c (some u) (λ b f g. let same : u ≡ b = cc in out.0.0 (g ∙ sym same)))
          (rw e),
      finish s tq qs p (u ∷ pre) c post h room split s₁ tq (set_next-SameButNext s l (s c).next)
          refl (λ r ne. refl)
          (Links-remove (λ t. (s t).next) (λ t. (set_next s₁ c none t).next) (tq.front p) (u ∷ pre)
            l c post w.links w.distinct e
            (ap (λ (d : Task). d.next) (update_ne s₁ c l _ apart ∙ update_self s l _))
            (λ t nl nc. ap (λ (d : Task). d.next) (update_ne s₁ c t _ nc ∙ update_ne s l t _ nl)))
          (λ r ne.
            elsewhere s tq qs p (u ∷ pre) c post h room split s l (s c).next r at_p ne (h.queue r)),
    )

-- `unlink` behind the descriptors `pre` does not fail, and takes out `c` alone.
pub unlink-Removed :
    (s : Tasks) (tq : TaskQueue) (qs : ℕ → List ℕ) (p : ℕ) (pre : List ℕ) (c : ℕ) (post : List ℕ)
    (h : Holds s tq qs) (room : p < n_priority) (split : qs p ≡ pre ++ c ∷ post)
    → (r : Tasks × TaskQueue) × (unlink s tq p (last? pre) c ≡ ok r)
      × Removed s tq qs p pre c post h room split r
unlink-Removed s tq qs p [] c post h room split = unlink_first s tq qs p c post h room split
unlink-Removed s tq qs p (u ∷ pre) c post h room split = elim (Option-cases (last? (u ∷ pre))) [
  | inl e ↦ absurd (not_none u pre e)
  | inr (l, e) ↦ unlink_behind s tq qs p u pre l c post h room split e
]
  where
    not_none : (u : ℕ) (pre : List ℕ) → last? (u ∷ pre) ≢ none
    not_none u [] e = cc
    not_none u (v ∷ pre) e = not_none v pre e
