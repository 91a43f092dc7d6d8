-- ===== src/Relay/Connect.antt =====
-- noports_relay.cpp: a `connect:` message of the control channel (_handle_connect_msg).
pub mod Budget
pub mod Kept
use noports.Prelude.{
  ℕ, zero, suc, ◌+◌, ◌-◌, ◌*◌, Bool, true, false, ◌&&◌, ◌||◌, not, Option, none, some, List, [],
  ◌∷◌, ltb, leb, ◌==◌, if◌then◌else◌, Text, codes, str_eq, length, get_elem?, update_at, find_index,
  take, drop,
}
use noports.Relay.Sub.{
  Slot, Peers, close_slot, open_sockets, Sub, reclaim, reclaim_dead_subs, find_evictable_sub,
}

-- MAX_RELAY_PCBS of the ESP32, and MIN_HEAP_FOR_SUB.
abbrev pub max_pcbs : ℕ
max_pcbs = 11

abbrev pub min_heap : ℕ
min_heap = 15000

-- sizeof(parse_buf) - 1
abbrev pub parse_len : ℕ
parse_len = 383

-- The fields that colons separate: `room` more may start, and the last one takes all that is left.
unfoldable pub push_byte : ℕ → List Text → List Text
push_byte c [] = (c ∷ []) ∷ []
push_byte c (f ∷ fs) = (c ∷ f) ∷ fs

unfoldable pub split_fields : ℕ → Text → List Text
unfolding push_byte
split_fields room [] = [] ∷ []
split_fields zero (c ∷ cs) = (c ∷ cs) ∷ []
split_fields (suc room) (c ∷ cs) =
    let next = split_fields room cs in
    let same = split_fields (suc room) cs in if c == b':' then [] ∷ next else push_byte c same

-- How a connection is encrypted: not, with one key for both directions, or with one for each.
pub data Encryption : Type 0 where
  plain malformed : Encryption
  single_key : Text → Text → Encryption
  twin_key : Text → Text → Text → Text → Encryption

unfoldable pub encryption_of : List Text → Encryption
encryption_of (key ∷ iv ∷ key_d2c ∷ iv_d2c ∷ more) = twin_key key iv key_d2c iv_d2c
encryption_of (key ∷ iv ∷ other ∷ []) = single_key key iv
encryption_of (key ∷ iv ∷ []) = single_key key iv
encryption_of (key ∷ []) = malformed
encryption_of [] = malformed

-- What stands behind "connect:".
unfoldable pub parse_connect : Text → Encryption
unfolding encryption_of split_fields
parse_connect arguments =
    if str_eq arguments (codes "no:encrypt") || (length arguments == 0)
    then plain
    else encryption_of (split_fields 3 (take parse_len arguments))

-- A session's connections, and `_relay_pcb_count`.
pub record Table : Type 0 where
  pub subs : List Sub
  pub pcb_count : ℕ

-- The device as the message finds it: its clock and heap, and which steps of the set-up succeed.
pub record Device : Type 0 where
  pub now_ms : ℕ
  pub heap : ℕ
  pub keys_ok : Encryption → Bool
  pub rvd_connects : Bool
  pub authenticates : Bool
  pub local_connects : Bool

unfoldable pub active_subs : List Sub → ℕ
active_subs [] = 0
active_subs (s ∷ ss) = (if s.slot.active then 1 else 0) + active_subs ss

unfoldable pub sockets_at : ℕ → List Sub → ℕ
unfolding open_sockets
sockets_at i [] = 0
sockets_at zero (s ∷ ss) = open_sockets s.slot
sockets_at (suc i) (s ∷ ss) = sockets_at i ss

abbrev pub close_sub : Sub → Sub
close_sub s = record s { slot = close_slot s.slot }

-- _close_relay_sub on a slot of the table; the counter never falls below 0.
unfoldable pub close_at : ℕ → Table → Table
unfolding close_slot
close_at i t = record {
  subs = update_at close_sub i t.subs;
  pcb_count = t.pcb_count - sockets_at i t.subs;
}

-- The sockets of the connections that _reclaim_dead_subs closes.
unfoldable pub reclaimed_sockets : List Sub → ℕ
unfolding reclaim open_sockets
reclaimed_sockets [] = 0
reclaimed_sockets (s ∷ ss) =
    (open_sockets s.slot - open_sockets (reclaim s).slot) + reclaimed_sockets ss

unfoldable pub reclaim_table : Table → Table
unfolding reclaimed_sockets reclaim_dead_subs
reclaim_table t = record {
  subs = reclaim_dead_subs t.subs;
  pcb_count = t.pcb_count - reclaimed_sockets t.subs;
}

-- The control socket, and two for each active connection.
unfoldable pub session_pcbs : List Sub → ℕ
unfolding active_subs
session_pcbs subs = 1 + 2 * active_subs subs

-- A step that may refuse the message; the flag says that it goes on.
unfoldable pub evict_for_budget : Option ℕ → Table → Table × Bool
unfolding close_at
evict_for_budget none t = (t, false)
evict_for_budget (some victim) t = (close_at victim t, true)

unfoldable pub budget_guard : ℕ → Table → Table × Bool
unfolding evict_for_budget session_pcbs
budget_guard now t =
    if ltb max_pcbs (session_pcbs t.subs + 2)
    then evict_for_budget (find_evictable_sub now t.subs) t
    else (t, true)

unfoldable pub heap_guard : ℕ → Table → Bool
unfolding active_subs
heap_guard heap t = not (ltb heap min_heap && ltb 0 (active_subs t.subs))

-- The slot for the new connection: a free one, or the one of a connection that gives way.
unfoldable pub slot_or_victim : Option ℕ → Option ℕ → Table → Table × Option ℕ
unfolding close_at
slot_or_victim (some slot) victim t = (t, some slot)
slot_or_victim none (some victim) t = (close_at victim t, some victim)
slot_or_victim none none t = (t, none)

unfoldable pub find_slot : ℕ → Table → Table × Option ℕ
unfolding slot_or_victim
find_slot now t =
    slot_or_victim (find_index (λ s. not s.slot.active) t.subs) (find_evictable_sub now t.subs) t

unfoldable pub keys_set_up : Device → Encryption → Bool
keys_set_up d plain = true
keys_set_up d malformed = false
keys_set_up d (single_key key iv) = d.keys_ok (single_key key iv)
keys_set_up d (twin_key key iv key_d2c iv_d2c) = d.keys_ok (twin_key key iv key_d2c iv_d2c)

unfoldable pub activated : ℕ → Sub → Sub
activated now s = record s {
  slot = record s.slot {
    active = true;
    last_activity_ms = now;
    rvd_open = true;
    local_open = true;
  };
  bytes_out = 0;
}

-- The set-up in the slot. A socket that is opened and then closed again leaves the counter as it was.
unfoldable pub open_in : Device → Text → Table × Option ℕ → Table × Bool
unfolding keys_set_up parse_connect activated
open_in d arguments (t, none) = (t, false)
open_in d arguments (t, some slot) =
    if keys_set_up d (parse_connect arguments)
      && d.rvd_connects
      && d.authenticates
      && d.local_connects
    then (
      record { subs = update_at (activated d.now_ms) slot t.subs; pcb_count = t.pcb_count + 2 },
      true,
    )
    else (t, false)

unfoldable pub after_budget : Device → Text → Table × Bool → Table × Bool
unfolding heap_guard find_slot open_in
after_budget d arguments (t, go) =
    if not go
    then (t, false)
    else if not (heap_guard d.heap t)
    then (t, false)
    else open_in d arguments (find_slot d.now_ms t)

-- _handle_connect_msg on what follows "connect:"; the flag is `return 0`.
unfoldable pub handle_connect_msg : Device → Text → Table → Table × Bool
unfolding after_budget reclaim_table budget_guard
handle_connect_msg d arguments t =
    after_budget d arguments (budget_guard d.now_ms (reclaim_table t))
