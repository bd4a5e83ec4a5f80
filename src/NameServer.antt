-- ===== src/NameServer.antt =====
-- src/nameserver.c and its message in include/msg-type.h: a hash table with chains from the names of
-- tasks to their ids, the server, and its two calls. An entry is its index in the storage, and NULL is
-- `none`. A walk along a chain takes fuel; the bytes of a name end with its array.
pub mod Walk
pub mod Chains
pub mod Register
pub mod Add
pub mod Spec
pub mod Serve
pub mod Run
pub mod Client
mod Tests
use cs452_kernel.Base.{
  ℕ, zero, suc, List, [], ◌∷◌, ◌+◌, ◌-◌, ◌*◌, ◌%◌, ◌^◌, ◌||◌, Bool, true, false, Option, none, some,
  ltb, ◌==◌, if◌then◌else◌, update, Outcome, ok, fault, hang, panic, out_of_bounds, ◌>>=◌, ℤ, pos,
  negsuc, minus_one,
}
use cs452_kernel.Text.{strncpy, strncmp}
use cs452_kernel.Text.Strings.{is_zero}

abbrev pub max_name_length : ℕ
max_name_length = 256

abbrev pub table_size : ℕ
table_size = 64

abbrev pub max_entries : ℕ
max_entries = 256

pub record NameserverEntry : Type 0 where
  pub name : ℕ → ℕ
  pub tid : ℕ
  pub storage_id : ℕ
  pub next : Option ℕ

pub record Nameserver : Type 0 where
  pub hash_table : ℕ → Option ℕ
  pub storage : ℕ → NameserverEntry
  pub current_storage_id : ℕ

pub data MsgType : Type 0 where
  nameserver_register nameserver_whois nameserver_ok nameserver_error n_msg_type : MsgType

pub record MsgNameserver : Type 0 where
  pub type : MsgType
  pub name : ℕ → ℕ
  pub tid : ℕ

-- The server's state is all zero.
unfoldable pub nameserver_init : Nameserver
nameserver_init = record {
  hash_table = λ _. none;
  storage = λ _. record { name = λ _. 0; tid = 0; storage_id = 0; next = none };
  current_storage_id = 0;
}

-- The loop of `hash` on an unsigned long, with `places` bytes of the name left.
unfoldable pub hash_from : ℕ → (ℕ → ℕ) → ℕ → ℕ → Outcome ℕ
hash_from zero str i h = fault out_of_bounds
hash_from (suc places) str i h =
    let further = hash_from places str (i + 1) (((h * 2 ^ 5 + h) % 2 ^ 64 + str i) % 2 ^ 64) in
    if str i == 0 then ok h else further

unfoldable pub hash : (ℕ → ℕ) → Outcome ℕ
unfolding hash_from
hash str = hash_from max_name_length str 0 5381 >>= λ h. ok (h % table_size)

-- `!strncmp(name, ns->storage[curr->storage_id].name, MAX_NAME_LENGTH)`
unfoldable pub is_named : Nameserver → (ℕ → ℕ) → ℕ → Bool
unfolding strncmp
is_named ns name curr =
    is_zero (strncmp name (ns.storage (ns.storage curr).storage_id).name max_name_length)

-- The walk of `nameserver_add_entry`: the entry of the name, and the last entry before it.
unfoldable pub find_walk :
    ℕ → Nameserver → (ℕ → ℕ) → Option ℕ → Option ℕ → Outcome (Option ℕ × Option ℕ)
unfolding is_named
find_walk zero ns name last curr = fault hang
find_walk (suc fuel) ns name last none = ok (none, last)
find_walk (suc fuel) ns name last (some c) =
    let further = find_walk fuel ns name (some c) (ns.storage c).next in
    if is_named ns name c then ok (some c, last) else further

-- The new entry at the end of its chain, and the count of the entries, a uint16_t.
unfoldable pub append_entry : Nameserver → ℕ → (ℕ → ℕ) → ℕ → Option ℕ → Nameserver
append_entry ns hash_id name tid last =
    let k = ns.current_storage_id in
    let storage =
      update ns.storage k (record { name = name; tid = tid; storage_id = k; next = none }) in
    elim last as (λ _. Nameserver) [
      | none ↦ record {
        hash_table = update ns.hash_table hash_id (some k);
        storage = storage;
        current_storage_id = (k + 1) % 2 ^ 16;
      }
      | some l ↦ record {
        hash_table = ns.hash_table;
        storage = update storage l (record (storage l) { next = some k });
        current_storage_id = (k + 1) % 2 ^ 16;
      }
    ]

unfoldable pub overwrite_tid : Nameserver → ℕ → ℕ → Nameserver
overwrite_tid ns c tid = record ns {
  storage = update ns.storage c (record (ns.storage c) { tid = tid });
}

-- What follows the walk: the entry that was found gets the new id, or a new entry is made.
unfoldable pub add_found : Nameserver → (ℕ → ℕ) → ℕ → ℕ → Option ℕ → Option ℕ → Outcome Nameserver
unfolding append_entry overwrite_tid strncpy
add_found ns name tid hash_id (some c) last = ok (overwrite_tid ns c tid)
add_found ns name tid hash_id none last =
    let added =
      strncpy max_name_length (ns.storage ns.current_storage_id).name name max_name_length
      >>= λ copy. ok (append_entry ns hash_id copy tid last) in
    if ns.current_storage_id == max_entries then fault panic else added

unfoldable pub nameserver_add_entry : ℕ → Nameserver → (ℕ → ℕ) → ℕ → Outcome Nameserver
unfolding hash find_walk add_found
nameserver_add_entry fuel ns name tid = hash name >>= λ hash_id.
    find_walk fuel ns name none (ns.hash_table hash_id) >>= λ (found, last).
    add_found ns name tid hash_id found last

-- The walk of `nameserver_get_entry`.
unfoldable pub get_walk : ℕ → Nameserver → (ℕ → ℕ) → Option ℕ → Outcome ℤ
unfolding is_named
get_walk zero ns name curr = fault hang
get_walk (suc fuel) ns name none = ok minus_one
get_walk (suc fuel) ns name (some c) =
    let further = get_walk fuel ns name (ns.storage c).next in
    if is_named ns name c then ok (pos (ns.storage c).tid) else further

unfoldable pub nameserver_get_entry : ℕ → Nameserver → (ℕ → ℕ) → Outcome ℤ
unfolding hash get_walk
nameserver_get_entry fuel ns name =
    hash name >>= λ hash_id. get_walk fuel ns name (ns.hash_table hash_id)

-- An int32_t stored in a uint16_t.
abbrev pub to_uint16 : ℤ → ℕ
to_uint16 (pos a) = a % 2 ^ 16
to_uint16 (negsuc a) = 2 ^ 16 - 1 - a % 2 ^ 16

abbrev pub status : ℤ → MsgType
status (pos a) = nameserver_ok
status (negsuc zero) = nameserver_error
status (negsuc (suc a)) = nameserver_ok

-- One round of the server's loop: the table after a message, and the reply, which is made in the buffer
-- of the last one.
unfoldable pub nameserver_handle :
    ℕ → Nameserver → MsgNameserver → MsgNameserver → Outcome (Nameserver × MsgNameserver)
unfolding nameserver_add_entry nameserver_get_entry strncpy
nameserver_handle fuel ns reply msg =
    let answered = elim (msg.type) as (λ _. Outcome (Nameserver × MsgType × ℕ)) [
      | nameserver_register ↦
          nameserver_add_entry fuel ns msg.name msg.tid >>= λ ns'. ok (ns', nameserver_ok, msg.tid)
      | nameserver_whois ↦ nameserver_get_entry fuel ns msg.name >>= λ answer.
          ok (ns, status answer, to_uint16 answer)
      | _ ↦ ok (ns, nameserver_error, msg.tid)
    ] in
    answered >>= λ (ns', type, tid).
    strncpy max_name_length reply.name msg.name max_name_length >>= λ name.
    ok (ns', record { type = type; name = name; tid = tid })

-- The loop of `nameserver_main` on the messages that come: the replies.
unfoldable pub nameserver_run :
    ℕ → Nameserver → MsgNameserver → List MsgNameserver → Outcome (List MsgNameserver)
unfolding nameserver_handle
nameserver_run fuel ns reply [] = ok []
nameserver_run fuel ns reply (msg ∷ msgs) = nameserver_handle fuel ns reply msg >>= λ (ns', reply').
    nameserver_run fuel ns' reply' msgs >>= λ replies. ok (reply' ∷ replies)

abbrev pub nameserver_tid : ℕ
nameserver_tid = 1

abbrev pub is_negative : ℤ → Bool
is_negative (pos a) = false
is_negative (negsuc a) = true

abbrev pub is_error : MsgType → Bool
is_error nameserver_error = true
is_error _ = false

-- `junk` is what a message holds before it is filled in. `send` is the Send of the kernel: it takes the
-- state of the rest of the system to the next, with the code it returns and the message's buffer.
module _ {S : Type 0} (junk : MsgNameserver)
    (send : ℕ → MsgNameserver → S → Outcome (S × ℤ × MsgNameserver)) where
  unfoldable pub register_as : ℕ → (ℕ → ℕ) → S → Outcome (S × ℤ)
  unfolding strncpy
  register_as my_tid name s = strncpy max_name_length junk.name name max_name_length >>= λ copy.
      send nameserver_tid (record { type = nameserver_register; name = copy; tid = my_tid }) s
      >>= λ (s', ret, msg).
          ok (s', (if is_negative ret || is_error msg.type then minus_one else pos 0))

  unfoldable pub who_is : (ℕ → ℕ) → S → Outcome (S × ℤ)
  unfolding strncpy
  who_is name s = strncpy max_name_length junk.name name max_name_length >>= λ copy.
      send nameserver_tid (record { type = nameserver_whois; name = copy; tid = junk.tid }) s
      >>= λ (s', ret, msg).
          ok (s', (if is_negative ret || is_error msg.type then minus_one else pos msg.tid))
