-- ===== src/NameServer/Spec.antt =====
-- The contract of the name server, after include/nameserver.h: a map from the texts of names to ids.
use cs452_kernel.Base.{ℕ, List, [], ◌∷◌, ◌≡◌, ◌≢◌, refl, ℤ, pos}
use mathlib.Core.List.{List-discrete}
use native.Mathlib.Decide.{ℕ_discrete}
use cs452_kernel.Text.Strings.{text}
use cs452_kernel.NameServer.{
  MsgNameserver, MsgType, nameserver_register, nameserver_whois, nameserver_ok, nameserver_error,
  status, to_uint16, max_name_length,
}

-- The id of a text, or -1.
abbrev pub Names : Type 0
Names = List ℕ → ℤ

-- The choice between an id and what was there.
abbrev choose {ℓ} : {A : Type ℓ} → Dec A → ℤ → ℤ → ℤ
choose (yes same) new old = new
choose (no differs) new old = old

unfoldable pub assign : Names → List ℕ → ℕ → Names
assign m t tid u = choose (List-discrete ℕ_discrete u t) (pos tid) (m u)

choose_yes {ℓ} : {A : Type ℓ} (d : Dec A) (new old : ℤ) → A → choose d new old ≡ new
choose_yes (yes same) new old h = refl
choose_yes (no differs) new old h = absurd (differs h)

choose_no {ℓ} : {A : Type ℓ} (d : Dec A) (new old : ℤ) → ¬ A → choose d new old ≡ old
choose_no (yes same) new old h = absurd (h same)
choose_no (no differs) new old h = refl

pub assign_same :
    (m : Names) (t : List ℕ) (tid : ℕ) (u : List ℕ) → u ≡ t → assign m t tid u ≡ pos tid
unfolding assign
assign_same m t tid u = choose_yes (List-discrete ℕ_discrete u t) (pos tid) (m u)

pub assign_other : (m : Names) (t : List ℕ) (tid : ℕ) (u : List ℕ) → u ≢ t → assign m t tid u ≡ m u
unfolding assign
assign_other m t tid u = choose_no (List-discrete ℕ_discrete u t) (pos tid) (m u)

-- A reply, as its receiver sees it.
pub record Answer : Type 0 where
  pub type : MsgType
  pub tid : ℕ
  pub name : List ℕ

unfoldable pub shown : MsgNameserver → Answer
shown msg = record { type = msg.type; tid = msg.tid; name = text max_name_length msg.name }

unfoldable pub step : Names → MsgNameserver → Names × Answer
step m msg =
    let t = text max_name_length msg.name in
    elim (msg.type) as (λ _. Names × Answer) [
      | nameserver_register ↦
          (assign m t msg.tid, record { type = nameserver_ok; tid = msg.tid; name = t })
      | nameserver_whois ↦ (m, record { type = status (m t); tid = to_uint16 (m t); name = t })
      | _ ↦ (m, record { type = nameserver_error; tid = msg.tid; name = t })
    ]

unfoldable pub run : Names → List MsgNameserver → List Answer
run m [] = []
run m (msg ∷ msgs) = let (m', answer) = step m msg in answer ∷ run m' msgs
