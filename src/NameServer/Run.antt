-- ===== src/NameServer/Run.antt =====
-- The loop of the name server against its contract.
use cs452_kernel.Base.{
  ℕ, ◌+◌, ◌<◌, ◌≤◌, ◌≡◌, refl, ap₂, sym, subst, ◌⊎◌, inl, inr, List, [], ◌∷◌, map, ok, fault, panic,
  ◌>>=◌, minus_one, arith,
}
use cs452_kernel.Base.Lists.{length, All}
use cs452_kernel.Text.{strncpy}
use cs452_kernel.Text.Strings.{text, strncpy_lem}
use cs452_kernel.NameServer.{
  Nameserver, MsgNameserver, MsgType, nameserver_register, nameserver_whois, nameserver_ok,
  nameserver_error, n_msg_type, max_name_length, nameserver_init, nameserver_get_entry,
  nameserver_handle, nameserver_run, status, to_uint16,
}
use cs452_kernel.NameServer.Walk.{IsName}
use cs452_kernel.NameServer.Spec.{Names, Answer, shown}
use cs452_kernel.NameServer.Spec
use cs452_kernel.NameServer.Serve.{Shows, Adds, add_entry_lem, get_lem, init-Shows}

-- The message is answered as the map answers it, and at most one entry is taken.
abbrev pub Serves : ℕ → Nameserver → Names → MsgNameserver → MsgNameserver → Type 0
Serves fuel ns m reply msg =
    (ns' : Nameserver) × (reply' : MsgNameserver) × (nameserver_handle fuel ns reply msg
      ≡ ok (ns', reply'))
    × Shows ns' (Spec.step m msg).0
    × (shown reply' ≡ (Spec.step m msg).1)
    × (ns'.current_storage_id ≤ ns.current_storage_id + 1)

-- The name of the message goes back in the reply.
module _ (fuel : ℕ) (ns : Nameserver) (m : Names) (reply : MsgNameserver) (name : ℕ → ℕ) (tid : ℕ)
    (is_name : IsName name) where
  copy_lem : (d : ℕ → ℕ) × (strncpy 256 reply.name name 256 ≡ ok d) × (text 256 d ≡ text 256 name)
  copy_lem = (strncpy_lem 256 reply.name name).0 is_name

  abbrev message : MsgType → MsgNameserver
  message type = record { type = type; name = name; tid = tid }

  registers : Adds fuel ns m name tid → Serves fuel ns m reply (message nameserver_register)
  unfolding nameserver_handle Spec.step shown
  registers (ns', run, shows, few) =
      let (d, copied, same) = copy_lem in
      (
        ns',
        record { type = nameserver_ok; name = d; tid = tid },
        rw (run, copied),
        shows,
        rw same,
        few,
      )

  looks_up :
      nameserver_get_entry fuel ns name ≡ ok (m (text max_name_length name))
      → Shows ns m
      → Serves fuel ns m reply (message nameserver_whois)
  unfolding nameserver_handle Spec.step shown
  looks_up run shows =
      let (d, copied, same) = copy_lem in
      let answer = m (text max_name_length name) in
      (
        ns,
        record { type = status answer; name = d; tid = to_uint16 answer },
        rw (run, copied),
        shows,
        rw same,
        omega arith,
      )

  refuses :
      (type : MsgType)
      → nameserver_handle fuel ns reply (message type) ≡ (
          strncpy 256 reply.name name 256 >>= λ d.
          ok (ns, record { type = nameserver_error; name = d; tid = tid }))
      → Spec.step m (message type)
        ≡ (m, record { type = nameserver_error; tid = tid; name = text max_name_length name })
      → Shows ns m
      → Serves fuel ns m reply (message type)
  unfolding shown
  refuses type run answer shows =
      let (d, copied, same) = copy_lem in
      (
        ns,
        record { type = nameserver_error; name = d; tid = tid },
        rw (run, copied),
        subst (λ (p : Names × Answer). Shows ns p.0) (sym answer) shows,
        rw (answer, same),
        omega arith,
      )

-- A message is served, or a registration of a new name finds the table full.
abbrev pub Handles : ℕ → Nameserver → Names → MsgNameserver → MsgNameserver → Type 0
Handles fuel ns m reply msg =
    ((ns.current_storage_id ≡ 256)
      × (msg.type ≡ nameserver_register)
      × (m (text max_name_length msg.name) ≡ minus_one)
      × (nameserver_handle fuel ns reply msg ≡ fault panic))
    ⊎ Serves fuel ns m reply msg

module _ (fuel : ℕ) (enough : 256 < fuel) where
  typed_refines :
      (type : MsgType) (ns : Nameserver) (m : Names) (reply : MsgNameserver) (name : ℕ → ℕ)
      (tid : ℕ)
      → Shows ns m
      → IsName name
      → Handles fuel ns m reply (record { type = type; name = name; tid = tid })
  unfolding nameserver_handle Spec.step
  typed_refines nameserver_register ns m reply name tid shows is_name =
      elim (add_entry_lem fuel enough ns m name tid shows is_name) [
        | inl full ↦ let (all, unknown, stops) = full in inl (all, refl, unknown, (rw stops))
        | inr added ↦ inr (registers fuel ns m reply name tid is_name added)
      ]
  typed_refines nameserver_whois ns m reply name tid shows is_name = inr (
      looks_up fuel ns m reply name tid is_name (get_lem fuel enough ns m name shows is_name) shows)
  typed_refines nameserver_ok ns m reply name tid shows is_name =
      inr (refuses fuel ns m reply name tid is_name nameserver_ok refl refl shows)
  typed_refines nameserver_error ns m reply name tid shows is_name =
      inr (refuses fuel ns m reply name tid is_name nameserver_error refl refl shows)
  typed_refines n_msg_type ns m reply name tid shows is_name =
      inr (refuses fuel ns m reply name tid is_name n_msg_type refl refl shows)

  -- A message with a name that ends in its array is answered by the contract, for every kind of message,
  -- and the table goes on to show the map of the contract. The exception is a registration of a new name
  -- when 256 names are taken: the server panics.
  pub handle_refines :
      (ns : Nameserver) (m : Names) (reply msg : MsgNameserver)
      → Shows ns m
      → IsName msg.name
      → Handles fuel ns m reply msg
  handle_refines ns m reply msg shows is_name =
      typed_refines msg.type ns m reply msg.name msg.tid shows is_name

  nameserver_refines_at :
      (msgs : List MsgNameserver) (ns : Nameserver) (m : Names) (reply : MsgNameserver)
      → Shows ns m
      → All (λ msg. IsName msg.name) msgs
      → length msgs + ns.current_storage_id ≤ 256
      → (replies : List MsgNameserver) × (nameserver_run fuel ns reply msgs ≡ ok replies)
        × (map shown replies ≡ Spec.run m msgs)
  unfolding nameserver_run Spec.run
  nameserver_refines_at [] ns m reply shows names room = ([], refl, refl)
  nameserver_refines_at (msg ∷ msgs) ns m reply shows (is_name, names) room =
      elim (handle_refines ns m reply msg shows is_name) [
        | inl full ↦ absurd (let e = full.0 in omega (arith, e, room))
        | inr (ns', reply', run, shows', answer, few) ↦
            let (replies, runs, answers) =
              nameserver_refines_at msgs ns' (Spec.step m msg).0 reply' shows' names
                (omega (arith, few, room)) in
            (reply' ∷ replies, rw (run, runs), ap₂ (λ a as_. a ∷ as_) answer answers)
      ]

  -- From its start the server answers up to 256 messages, each with a name that ends in its array, as
  -- the contract answers them from the map without names: a WhoIs with the id that the last registration
  -- of the name before it gave, or with an error if there is none.
  pub nameserver_refines :
      (msgs : List MsgNameserver) (reply : MsgNameserver)
      → All (λ msg. IsName msg.name) msgs
      → length msgs ≤ 256
      → (replies : List MsgNameserver) × (nameserver_run fuel nameserver_init reply msgs
          ≡ ok replies)
        × (map shown replies ≡ Spec.run (λ t. minus_one) msgs)
  unfolding nameserver_init
  nameserver_refines msgs reply names few =
      nameserver_refines_at msgs nameserver_init (λ t. minus_one) reply init-Shows names
        (omega (arith, few))
