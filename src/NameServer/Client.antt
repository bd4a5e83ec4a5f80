-- ===== src/NameServer/Client.antt =====
-- The two calls of the name server against its contract.
use cs452_kernel.Base.{
  ℕ, ◌<◌, ◌≡◌, ◌≢◌, ap, sym, ◌∙◌, subst, inl, inr, ◌||◌, if◌then◌else◌, Outcome, ok, ◌>>=◌, ℤ, pos,
  minus_one, arith,
}
use cs452_kernel.Base.Lists.{length}
use cs452_kernel.Text.{strncpy}
use cs452_kernel.Text.Strings.{text, strncpy_lem}
use cs452_kernel.NameServer.{
  Nameserver, MsgNameserver, MsgType, nameserver_register, nameserver_whois, nameserver_ok,
  nameserver_handle, register_as, who_is, status, to_uint16, is_negative, is_error,
}
use cs452_kernel.NameServer.Walk.{IsName}
use cs452_kernel.NameServer.Spec.{Names, assign, assign_same, assign_other}
use cs452_kernel.NameServer.Spec
use cs452_kernel.NameServer.Serve.{Shows}
use cs452_kernel.NameServer.Run.{Serves, handle_refines}

abbrev pub ServerState : Type 0
ServerState = Nameserver × MsgNameserver

-- The server as the receiver of every Send, with the length of its reply as the code of the Send. Its
-- state holds the buffer of the last reply.
unfoldable pub serve :
    ℕ → ℕ → MsgNameserver → ServerState → Outcome (ServerState × ℤ × MsgNameserver)
unfolding nameserver_handle
serve fuel tid msg s =
    let (ns, reply) = s in
    nameserver_handle fuel ns reply msg >>= λ (ns', reply'). ok ((ns', reply'), pos 264, reply')

serve_run :
    (fuel tid : ℕ) (msg : MsgNameserver) (ns ns' : Nameserver) (reply reply' : MsgNameserver)
    → nameserver_handle fuel ns reply msg ≡ ok (ns', reply')
    → serve fuel tid msg (ns, reply) ≡ ok ((ns', reply'), pos 264, reply')
unfolding serve
serve_run fuel tid msg ns ns' reply reply' run =
    ap (λ (o : Outcome (Nameserver × MsgNameserver)). o >>= λ (t, r). ok ((t, r), pos 264, r)) run

module _ {S : Type 0} (junk : MsgNameserver)
    (send : ℕ → MsgNameserver → S → Outcome (S × ℤ × MsgNameserver)) (name copy : ℕ → ℕ)
    (copied : strncpy 256 junk.name name 256 ≡ ok copy) (s s' : S) (ret : ℤ)
    (msg : MsgNameserver) where
  abbrev Sent : MsgType → ℕ → Type 0
  Sent type tid = send 1 (record { type = type; name = copy; tid = tid }) s ≡ ok (s', ret, msg)

  register_run :
      (my_tid : ℕ)
      → Sent nameserver_register my_tid
      → register_as junk send my_tid name s
        ≡ ok (s', (if is_negative ret || is_error msg.type then minus_one else pos 0))
  unfolding register_as
  register_run my_tid sent =
      ap
        (λ (o : Outcome (ℕ → ℕ)). o >>= λ c.
          send 1 (record { type = nameserver_register; name = c; tid = my_tid }) s >>= λ (t, r, m).
          ok (t, (if is_negative r || is_error m.type then minus_one else pos 0)))
        copied
      ∙ ap
          (λ (o : Outcome (S × ℤ × MsgNameserver)). o >>= λ (t, r, m).
            ok (t, (if is_negative r || is_error m.type then minus_one else pos 0)))
          sent

  who_is_run :
      Sent nameserver_whois junk.tid
      → who_is junk send name s
        ≡ ok (s', (if is_negative ret || is_error msg.type then minus_one else pos msg.tid))
  unfolding who_is
  who_is_run sent =
      ap
        (λ (o : Outcome (ℕ → ℕ)). o >>= λ c.
          send 1 (record { type = nameserver_whois; name = c; tid = junk.tid }) s >>= λ (t, r, m).
          ok (t, (if is_negative r || is_error m.type then minus_one else pos m.tid)))
        copied
      ∙ ap
          (λ (o : Outcome (S × ℤ × MsgNameserver)). o >>= λ (t, r, m).
            ok (t, (if is_negative r || is_error m.type then minus_one else pos m.tid)))
          sent

-- What a successful WhoIs makes of the id in the map.
abbrev pub whois_result : ℤ → ℤ
whois_result v = if is_error (status v) then minus_one else pos (to_uint16 v)

module _ (fuel : ℕ) (enough : 256 < fuel) (junk : MsgNameserver) where
  -- A call that is served.
  registered :
      (my_tid : ℕ) (name copy : ℕ → ℕ) (ns : Nameserver) (m : Names) (reply : MsgNameserver)
      → strncpy 256 junk.name name 256 ≡ ok copy
      → Serves fuel ns m reply (record { type = nameserver_register; name = copy; tid = my_tid })
      → (s' : ServerState) × (register_as junk (serve fuel) my_tid name (ns, reply)
          ≡ ok (s', pos 0))
        × Shows s'.0 (assign m (text 256 copy) my_tid)
  unfolding Spec.step Spec.shown
  registered my_tid name copy ns m reply copied (ns', reply', run, shows, answer, few) =
      let type : reply'.type ≡ nameserver_ok = ap (λ (a : Spec.Answer). a.type) answer in
      (
        (ns', reply'),
        register_run junk (serve fuel) name copy copied (ns, reply) (ns', reply') (pos 264) reply'
              my_tid (serve_run fuel 1 _ ns ns' reply reply' run)
            ∙ ap (λ t. ok ((ns', reply'), (if is_error t then minus_one else pos 0))) type,
        shows,
      )

  asked :
      (name copy : ℕ → ℕ) (ns : Nameserver) (m : Names) (reply : MsgNameserver)
      → strncpy 256 junk.name name 256 ≡ ok copy
      → Serves fuel ns m reply (record { type = nameserver_whois; name = copy; tid = junk.tid })
      → (s' : ServerState) × (who_is junk (serve fuel) name (ns, reply)
          ≡ ok (s', whois_result (m (text 256 copy))))
  unfolding Spec.step Spec.shown
  asked name copy ns m reply copied (ns', reply', run, shows, answer, few) = (
    (ns', reply'),
    who_is_run junk (serve fuel) name copy copied (ns, reply) (ns', reply') (pos 264) reply'
          (serve_run fuel 1 _ ns ns' reply reply' run)
        ∙ ap
            (λ (a : Spec.Answer).
              ok ((ns', reply'), (if is_error a.type then minus_one else pos a.tid)))
            answer,
  )

  pub whois_id : (tid : ℕ) → tid < 65536 → whois_result (pos tid) ≡ pos tid
  whois_id tid lt = ap pos (omega (arith, lt))

  copy_of :
      (name : ℕ → ℕ)
      → IsName name
      → (copy : ℕ → ℕ) × (strncpy 256 junk.name name 256 ≡ ok copy)
        × (text 256 copy ≡ text 256 name)
        × IsName copy
  copy_of name is_name =
      let (copy, copied, same) = (strncpy_lem 256 junk.name name).0 is_name in
      (copy, copied, same, subst (λ t. length t < 256) (sym same) is_name)

  -- WhoIs returns the id of the map, as its 16 bits, or -1.
  pub who_is_lem :
      (name : ℕ → ℕ) (s : ServerState) (m : Names)
      → Shows s.0 m
      → IsName name
      → (s' : ServerState) × (who_is junk (serve fuel) name s
          ≡ ok (s', whois_result (m (text 256 name))))
  who_is_lem name s m shows is_name =
      let (copy, copied, same, is_copy) = copy_of name is_name in
      let msg : MsgNameserver = record { type = nameserver_whois; name = copy; tid = junk.tid } in
      elim (handle_refines fuel enough s.0 m s.1 msg shows is_copy) [
        | inl full ↦ absurd (
            let wrong : nameserver_whois ≡ nameserver_register = full.1 in
            let none_ : ⊥ = cc in none_)
        | inr served ↦
            let (s', run) = asked name copy s.0 m s.1 copied served in
            (s', run ∙ ap (λ t. ok (s', whois_result (m t))) same)
      ]

  -- RegisterAs succeeds where the table has room.
  pub register_lem :
      (my_tid : ℕ) (name : ℕ → ℕ) (s : ServerState) (m : Names)
      → Shows s.0 m
      → IsName name
      → s.0.current_storage_id < 256
      → (s' : ServerState) × (register_as junk (serve fuel) my_tid name s ≡ ok (s', pos 0))
        × Shows s'.0 (assign m (text 256 name) my_tid)
  register_lem my_tid name s m shows is_name room =
      let (copy, copied, same, is_copy) = copy_of name is_name in
      let msg : MsgNameserver = record { type = nameserver_register; name = copy; tid = my_tid } in
      elim (handle_refines fuel enough s.0 m s.1 msg shows is_copy) [
        | inl full ↦ absurd (let all = full.0 in omega (arith, all, room))
        | inr served ↦
            let (s', run, after) = registered my_tid name copy s.0 m s.1 copied served in
            (s', run, subst (λ t. Shows s'.0 (assign m t my_tid)) same after)
      ]

  -- RegisterAs succeeds where the table has room, and a WhoIs after it returns the id of the caller
  -- under the same name, in whatever array, and under another name what it would have returned before.
  pub register-who_is :
      (my_tid : ℕ) (name name' : ℕ → ℕ) (s : ServerState) (m : Names)
      → Shows s.0 m
      → IsName name
      → IsName name'
      → s.0.current_storage_id < 256
      → my_tid < 65536
      → (s' : ServerState) × (s'' : ServerState) × (answer : ℤ) × (register_as junk
            (serve fuel)
            my_tid
            name
            s
          ≡ ok (s', pos 0))
        × (who_is junk (serve fuel) name' s' ≡ ok (s'', answer))
        × (text 256 name' ≡ text 256 name → answer ≡ pos my_tid)
        × (text 256 name' ≢ text 256 name
            → (t : ServerState) × (who_is junk (serve fuel) name' s ≡ ok (t, answer)))
  register-who_is my_tid name name' s m shows is_name is_name' room small =
      let t = text 256 name in
      let t' = text 256 name' in
      let (s', run, shows') = register_lem my_tid name s m shows is_name room in
      let (s'', asks) = who_is_lem name' s' (assign m t my_tid) shows' is_name' in
      let (u, before) = who_is_lem name' s m shows is_name' in
      (
        s',
        s'',
        whois_result (assign m t my_tid t'),
        run,
        asks,
        λ same. ap whois_result (assign_same m t my_tid t' same) ∙ whois_id my_tid small,
        λ differs. (
          u,
          before ∙ ap (λ v. ok (u, whois_result v)) (sym (assign_other m t my_tid t' differs)),
        ),
      )
