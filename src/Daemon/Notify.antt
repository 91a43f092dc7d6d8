-- ===== src/Daemon/Notify.antt =====
-- noports_daemon.cpp, _handleNotification: who may send a policy response, and which kind of request
-- a notification's key names. `malloc` of the tail is taken to succeed.
pub mod Routing
use mathlib.Core.Option
use noports.Prelude.{
  ℕ, zero, suc, ◌+◌, Bool, true, false, ◌&&◌, ◌||◌, not, Option, none, some, List, [], ◌∷◌, ◌++◌,
  leb, ltb, ◌==◌, if◌then◌else◌, Text, codes, str_eq, length, take, drop,
}
use noports.Daemon.Host.{Host, Notification}
use noports.Daemon.State.{
  NotificationKey, nk_none, nk_sshpublickey, nk_ping, nk_ssh_request, nk_npt_request,
  nk_graceful_shutdown, Config,
}

-- NOPORTS_NS
abbrev pub namespace : Text
namespace = codes "sshnp"

-- _notification_key_map
abbrev pub notification_key_map : List (Text × NotificationKey)
notification_key_map =
    ([], nk_none)
    ∷ (codes "sshpublickey", nk_sshpublickey)
    ∷ (codes "ping", nk_ping)
    ∷ (codes "ssh_request", nk_ssh_request)
    ∷ (codes "npt_request", nk_npt_request)
    ∷ (codes "graceful_shutdown", nk_graceful_shutdown)
    ∷ []

-- NOPORTS_NOTIFICATION_KEYS_LEN
abbrev pub keys_len : ℕ
keys_len = 5

unfoldable pub find_key : Text → List (Text × NotificationKey) → NotificationKey
find_key key [] = nk_none
find_key key ((str, nk) ∷ rest) = if str_eq key str then nk else find_key key rest

-- The loop over the map, from 1 and below NOPORTS_NOTIFICATION_KEYS_LEN.
unfoldable pub notification_key : Text → NotificationKey
unfolding find_key
notification_key key = find_key key (drop 1 (take keys_len notification_key_map))

-- _atsign_equals of the daemon: only a leading '@' is ignored.
unfoldable pub skip_at : Text → Text
skip_at [] = []
skip_at (c ∷ cs) = if c == b'@' then cs else c ∷ cs

unfoldable pub same_atsign : Option Text → Option Text → Bool
unfolding skip_at
same_atsign none b = false
same_atsign (some a) none = false
same_atsign (some a) (some b) = str_eq (skip_at a) (skip_at b)

-- `_config.policy_atsign && _config.policy_atsign[0] != '\0'`
unfoldable pub in_policy_mode : Option Text → Bool
in_policy_mode none = false
in_policy_mode (some []) = false
in_policy_mode (some (c ∷ cs)) = true

unfoldable pub starts_with : Text → Text → Bool
starts_with [] s = true
starts_with (p ∷ ps) [] = false
starts_with (p ∷ ps) (c ∷ cs) = p == c && starts_with ps cs

-- `strstr`: what stands before the first occurrence, and the occurrence with what follows.
unfoldable pub split_at_sub : Text → Text → Option (Text × Text)
unfolding starts_with
split_at_sub sub [] = if starts_with sub [] then some ([], []) else none
split_at_sub sub (c ∷ cs) =
    let rest = Option.map (λ r. (c ∷ r.0, r.1)) (split_at_sub sub cs) in
    if starts_with sub (c ∷ cs) then some ([], c ∷ cs) else rest

-- ".$device.$namespace$from"
abbrev pub key_tail : Config → Text → Text
key_tail config from = b'.' ∷ (config.device_name ++ (b'.' ∷ (namespace ++ from)))

-- `key += head_len + 1` in the buffer that `*tailstart = '\0'` has split: behind the whole of `to`
-- stands the zero, and behind that the rest of the tail.
unfoldable pub skip_head : Text → Text × Text → Option Text
unfolding starts_with
skip_head to (key, tail) =
    if ltb (length key) (length to)
    then none
    else if not (starts_with to key)
    then none
    else if length key == length to
    then some (drop 1 tail)
    else some (drop (length to + 1) key)

unfoldable pub skip_head_of : Text → Option (Text × Text) → Option Text
unfolding skip_head
skip_head_of to none = none
skip_head_of to (some r) = skip_head to r

-- The kind that a key names, stripped of the sender, the device and the receiver.
unfoldable pub key_kind : Config → Text → Text → Text → Option Text
unfolding skip_head_of split_at_sub
key_kind config key from to = skip_head_of to (split_at_sub (key_tail config from) key)

-- Where a notification goes. `handle` carries what it dispatches on, with the sender.
pub data Route : Type 0 where
  ignored policy_response : Route
  handle : NotificationKey → Text → Route

unfoldable pub route_kind : Text → Option Text → Route
unfolding notification_key
route_kind from none = ignored
route_kind from (some kind) = handle (notification_key kind) from

-- The guards on the fields, in their order.
unfoldable pub route_fields : Config → Notification → Route
unfolding route_kind key_kind
route_fields config n = elim n.decrypted_value [
  | none ↦ ignored
  | some value ↦ elim n.key [
    | none ↦ ignored
    | some key ↦ elim n.id [
      | none ↦ ignored
      | some id ↦ if str_eq id (codes "-1") then ignored else elim n.from [
        | none ↦ ignored
        | some from ↦ elim n.to [
          | none ↦ ignored
          | some to ↦ route_kind from (key_kind config key from to)
        ]
      ]
    ]
  ]
]

-- The fast path: a key of the shape of a policy response.
unfoldable pub is_policy_key : Host → Config → Option Text → Bool
unfolding in_policy_mode
is_policy_key host config none = false
is_policy_key host config (some key) =
    in_policy_mode config.policy_atsign && host.is_response_key key

unfoldable pub route : Host → Config → Notification → Route
unfolding route_fields is_policy_key same_atsign
route host config n =
    if is_policy_key host config n.key
    then (if same_atsign n.from config.policy_atsign then policy_response else ignored)
    else route_fields config n
