-- ===== src/Daemon/ClientKeys.antt =====
-- noports_client_keys.cpp: the watch over the keys that signed the live sessions' requests.
pub mod Lookup
pub mod Check
pub mod Watch
use noports.Prelude.{
  ℕ, zero, suc, ◌+◌, ◌-◌, ◌*◌, Bool, true, false, ◌&&◌, ◌||◌, not, Option, none, some, List, [],
  ◌∷◌, ltb, leb, ◌==◌, if◌then◌else◌, Text, str_eq, map,
}
use noports.Relay.Sub.{elapsed}

-- NOPORTS_KEY_CHECK_MAX_SKIP
abbrev pub max_skip : ℕ
max_skip = 30

-- ClientSigningKey, less the atServer that it was found at.
pub record Key : Type 0 where
  pub signing_key : Option Text
  pub ending : Bool
  pub due : Bool
  pub skip_rounds : ℕ
  pub backoff : ℕ

-- _KeyCheck
pub data KeyCheck : Type 0 where
  published revoked deleted missing unknown : KeyCheck

-- _next_backoff
unfoldable pub next_backoff : ℕ → ℕ
next_backoff backoff =
    if backoff == 0 then 1 else if ltb max_skip (backoff * 2) then max_skip else backoff * 2

-- The interval in milliseconds; a day is the most.
unfoldable pub interval_ms : ℕ → ℕ
interval_ms secs = if ltb 86400 secs then 86400000 else secs * 1000

unfoldable pub is_watched : Option Text → Bool
is_watched none = false
is_watched (some k) = true

-- One key at the start of a round.
unfoldable pub start_round : Key → Key
unfolding is_watched
start_round k = record k {
  due = is_watched k.signing_key && not k.ending && (k.skip_rounds == 0);
  skip_rounds = k.skip_rounds - 1;
}

unfoldable pub begin_round : ℕ → ℕ → ℕ → List Key → List Key × ℕ
unfolding start_round
begin_round now last interval keys =
    if leb interval (elapsed now last) then (map start_round keys, now) else (keys, last)

-- The key that is looked up in this pass: the first that is due.
unfoldable pub first_due : List Key → Option Text
first_due [] = none
first_due (k ∷ ks) = if k.due then k.signing_key else first_due ks

unfoldable pub is_withdrawn : KeyCheck → Bool
is_withdrawn revoked = true
is_withdrawn deleted = true
is_withdrawn published = false
is_withdrawn missing = false
is_withdrawn unknown = false

unfoldable pub is_unknown : KeyCheck → Bool
is_unknown unknown = true
is_unknown revoked = false
is_unknown deleted = false
is_unknown published = false
is_unknown missing = false

unfoldable pub has_name : Text → Option Text → Bool
has_name name none = false
has_name name (some k) = str_eq k name

-- What the result of a lookup does to one key.
unfoldable pub settle : Text → KeyCheck → Key → Key
unfolding next_backoff is_withdrawn is_unknown has_name
settle name found k =
    let backoff = if is_unknown found then next_backoff k.backoff else 0 in
    if has_name name k.signing_key
    then record k {
      due = false;
      backoff = backoff;
      skip_rounds = backoff;
      ending = k.ending || is_withdrawn found;
    }
    else k

-- Whether noports_relay_stop is called for the key's session.
unfoldable pub is_stopped : Text → KeyCheck → Key → Bool
unfolding is_withdrawn has_name
is_stopped name found k = has_name name k.signing_key && is_withdrawn found && not k.ending

-- The keys after the lookup, and for each whether its session is stopped.
unfoldable pub settle_all : (Text → KeyCheck) → Option Text → List Key → List Key × List Bool
unfolding settle is_stopped
settle_all check none keys = (keys, map (λ _. false) keys)
settle_all check (some name) keys =
    (map (settle name (check name)) keys, map (is_stopped name (check name)) keys)

unfoldable pub check_round : (Text → KeyCheck) → List Key × ℕ → (List Key × List Bool) × ℕ
unfolding settle_all first_due
check_round check (keys, last) = (settle_all check (first_due keys) keys, last)

-- _checkClientKeys: the keys, the sessions that are stopped, and the time of the round. `check` is
-- _checkKey's answer.
unfoldable pub check_client_keys :
    ℕ → ℕ → ℕ → (Text → KeyCheck) → List Key → (List Key × List Bool) × ℕ
unfolding check_round begin_round interval_ms
check_client_keys secs now last check keys =
    if secs == 0
    then ((keys, map (λ _. false) keys), last)
    else check_round check (begin_round now last (interval_ms secs) keys)
