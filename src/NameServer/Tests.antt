-- ===== src/NameServer/Tests.antt =====
-- Runs of the name server.
use cs452_kernel.Base.{
  ℕ, ◌≡◌, ◌≢◌, refl, List, [], ◌∷◌, map, ◌==◌, if◌then◌else◌, ok, ℤ, pos, minus_one, arith,
}
use cs452_kernel.Text.Strings.{text, text_from}
use cs452_kernel.NameServer.{
  MsgNameserver, MsgType, nameserver_register, nameserver_whois, nameserver_ok, nameserver_init,
  nameserver_run, register_as, who_is, hash, hash_from,
}
use cs452_kernel.NameServer.Walk.{IsName}
use cs452_kernel.NameServer.Spec.{shown}
use cs452_kernel.NameServer.Spec
use cs452_kernel.NameServer.Serve.{init-Shows}
use cs452_kernel.NameServer.Run.{nameserver_refines}
use cs452_kernel.NameServer.Client.{ServerState, serve, register-who_is}

-- "ab", and the empty name.
abbrev ab : ℕ → ℕ
ab i = if i == 0 then 97 else if i == 1 then 98 else 0

abbrev empty : ℕ → ℕ
empty i = 0

abbrev message : MsgType → (ℕ → ℕ) → ℕ → MsgNameserver
message type name tid = record { type = type; name = name; tid = tid }

abbrev buffer : MsgNameserver
buffer = message nameserver_ok empty 0

ab-IsName : IsName ab
unfolding text text_from
ab-IsName = omega arith

empty-IsName : IsName empty
unfolding text text_from
empty-IsName = omega arith

hash-ab : hash ab ≡ ok 40
unfolding hash hash_from
hash-ab = refl

abbrev messages : List MsgNameserver
messages =
    message nameserver_whois ab 0
    ∷ message nameserver_register ab 5
    ∷ message nameserver_whois ab 0
    ∷ message nameserver_register ab 6
    ∷ message nameserver_whois ab 0
    ∷ message nameserver_whois empty 0
    ∷ []

nameserver_refines_example :
    (replies : List MsgNameserver) × (nameserver_run 257 nameserver_init buffer messages
      ≡ ok replies)
    × (map shown replies ≡ Spec.run (λ t. minus_one) messages)
nameserver_refines_example =
    nameserver_refines 257 (omega arith) messages buffer
      (ab-IsName, (ab-IsName, (ab-IsName, (ab-IsName, (ab-IsName, (empty-IsName, tt))))))
      (omega arith)

register-who_is_example :
    let s : ServerState = (nameserver_init, buffer) in
    (s' : ServerState) × (s'' : ServerState) × (answer : ℤ) × (register_as buffer (serve 257) 5 ab s
      ≡ ok (s', pos 0))
    × (who_is buffer (serve 257) ab s' ≡ ok (s'', answer))
    × (text 256 ab ≡ text 256 ab → answer ≡ pos 5)
    × (text 256 ab ≢ text 256 ab
        → (t : ServerState) × (who_is buffer (serve 257) ab s ≡ ok (t, answer)))
unfolding nameserver_init
register-who_is_example =
    register-who_is 257 (omega arith) buffer 5 ab ab (nameserver_init, buffer) (λ t. minus_one)
      init-Shows ab-IsName ab-IsName (omega arith) (omega arith)
