-- ===== src/Relay/Session.antt =====
-- noports_relay.cpp: a session as a whole: its share of the connections, the lines of its control
-- channel, and when its loop ends.
pub mod Lines
use noports.Prelude.{
  ℕ, zero, suc, ◌+◌, ◌-◌, ◌*◌, ◌/◌, ◌≡◌, Bool, true, false, ◌&&◌, ◌||◌, not, Option, none, some,
  List, [], ◌∷◌, ◌++◌, ltb, leb, ◌==◌, if◌then◌else◌, Text, codes, str_eq, length, take, drop,
}
use noports.Relay.Sub.{elapsed, Sub, find_oldest_active_sub, find_evictable_sub}
use noports.Relay.Connect.{max_pcbs, Table, close_at}

-- MAX_RELAY_SUBS of the ESP32
abbrev pub max_subs : ℕ
max_subs = 5

-- noports_relay_subs_for_clients; the division is by a positive number, and where the C difference
-- would be negative its quotient is at most 0, as here.
unfoldable pub subs_for_clients : ℕ → ℕ
subs_for_clients n_clients =
    let n = if ltb n_clients 1 then 1 else n_clients in
    let subs = (max_pcbs - n) / (n * 2) in
    let some_subs = if ltb subs 1 then 1 else subs in
    if ltb max_subs some_subs then max_subs else some_subs

-- sizeof(ctrl_msg) - 1
abbrev pub line_len : ℕ
line_len = 383

pub data Message : Type 0 where
  connect : Text → Message
  heartbeat unknown : Message

unfoldable pub has_prefix : Text → Text → Bool
has_prefix [] line = true
has_prefix (p ∷ ps) [] = false
has_prefix (p ∷ ps) (c ∷ cs) = p == c && has_prefix ps cs

-- Which message a line is; a `connect:` carries what follows the prefix.
unfoldable pub message_of : Text → Message
unfolding has_prefix
message_of line =
    if has_prefix (codes "connect:") line
    then connect (drop 8 line)
    else if has_prefix (codes "heartbeat:") line
    then heartbeat
    else unknown

unfoldable pub is_connect : Message → Bool
is_connect (connect a) = true
is_connect heartbeat = false
is_connect unknown = false

-- What a line that ends gives: nothing if it is empty.
unfoldable pub messages_of : Text → List Message
unfolding message_of
messages_of line = if length line == 0 then [] else message_of line ∷ []

-- A byte that is no line feed is added, unless the buffer is full.
unfoldable pub add_byte : ℕ → Text → Text
add_byte c line = if ltb (length line) line_len then line ++ (c ∷ []) else line

-- The bytes of the control channel, decrypted, on the line so far: the messages, and the line that is
-- left. The loop pauses after a `connect:`, and goes on from there in its next round.
unfoldable pub read_lines : Text → Text → List Message × Text
unfolding messages_of add_byte
read_lines line [] = ([], line)
read_lines line (c ∷ cs) =
    let fresh = read_lines [] cs in
    let more = read_lines (add_byte c line) cs in
    if c == 10 then (messages_of line ++ fresh.0, fresh.1) else more

-- HEAP_OOM_FLOOR, HEAP_CRITICAL_LOW and CRITICAL_MIN_IDLE_MS
abbrev pub oom_floor : ℕ
oom_floor = 20000

abbrev pub critical_low : ℕ
critical_low = 15000

unfoldable pub first_victim : Option ℕ → Option ℕ → Option ℕ
first_victim (some v) other = some v
first_victim none other = other

unfoldable pub close_victim : Option ℕ → Table → Table
unfolding close_at
close_victim none t = t
close_victim (some v) t = close_at v t

-- The heap floor: the new `_relay_oom_mode`, and below the critical mark one connection less.
-- `min_idle` is CRITICAL_MIN_IDLE_MS.
unfoldable pub manage_heap : ℕ → ℕ → ℕ → Table → Table × Bool
unfolding close_victim first_victim
manage_heap now heap min_idle t =
    if ltb heap oom_floor
    then (if ltb heap critical_low
        then (
          close_victim
              (first_victim (find_oldest_active_sub now min_idle t.subs)
                (find_evictable_sub now t.subs))
              t,
          true,
        )
        else (t, true))
    else (t, false)

-- The control channel as the loop sees it.
pub record Control : Type 0 where
  pub lost : Bool
  pub lost_since_ms : ℕ
  pub idle_since_ms : ℕ

-- The limits of the loop: DRAIN_TIMEOUT_MS and IDLE_TIMEOUT_MS.
pub record Limits : Type 0 where
  pub drain_timeout_ms : ℕ
  pub idle_timeout_ms : ℕ

-- `gone`: nothing to read and the peer has closed.
unfoldable pub note_lost : ℕ → Bool → Control → Control
note_lost now gone c =
    if not c.lost && gone then record c { lost = true; lost_since_ms = now } else c

-- The three tests that end the loop, after the control channel was looked at.
unfoldable pub loop_ends : Limits → ℕ → ℕ → Control → Bool
unfolding elapsed
loop_ends limits now active c =
    (c.lost && ((active == 0) || ltb limits.drain_timeout_ms (elapsed now c.lost_since_ms)))
    || ((active == 0) && ltb limits.idle_timeout_ms (elapsed now c.idle_since_ms))

unfoldable pub control_step : Limits → ℕ → ℕ → Bool → Control → Control × Bool
unfolding note_lost loop_ends
control_step limits now active gone c =
    let d = note_lost now gone c in (d, loop_ends limits now active d)
