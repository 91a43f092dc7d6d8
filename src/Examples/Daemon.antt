-- ===== src/Examples/Daemon.antt =====
-- The daemon's theorems on the example device.
use noports.Prelude.{
  ℕ, suc, ◌+◌, ◌-◌, ◌≤◌, ◌<◌, ◌≡◌, ◌≢◌, ◌⊎◌, ◌↔◌, inl, inr, refl, Bool, true, false, Option, none,
  some, List, [], ◌∷◌, ◌++◌, arith, Text, codes, length, get_elem?, All, ltb, leb, str_eq,
  replicate,
}
use noports.Policy.Cache.{init}
use noports.Policy.Cache.Refine.{init-Refines}
use noports.Policy.Atsign.{normalize_text, buffer_len}
use noports.Daemon.Host.{Notification}
use noports.Daemon.State.{nk_ping, NotificationKey, nk_graceful_shutdown, World, State}
use noports.Daemon.Notify.{
  is_policy_key, split_at_sub, key_tail, in_policy_mode, same_atsign, notification_key, Route,
  handle, policy_response, route,
}
use noports.Daemon.Notify.Routing.{names_ping, route-IsKind, notification_key-ne-graceful_shutdown}
use noports.Daemon.Envelope.{is_valid_session_id, session_id_byte, verify_envelope_contents}
use noports.Daemon.Envelope.Checks.{IsUuidByte, is_valid_session_id_iff}
use noports.Daemon.Pending.Invariant.{IsValid}
use noports.Daemon.Requests.{handle_ping, handle_npt_request}
use noports.Daemon.Requests.Authorized.{grants, MayContinue, IsPermitted, handle_npt_request-grants}
use noports.Daemon.Response.{
  collect_rules, rule_buffer, handle_notification, policy_timeout, handle_decrypt_failure,
}
use noports.Daemon.Response.Gate.{Answered, handle_notification-grants}
use noports.Daemon.Response.Invariant.{handlers-IsValid}
use noports.Daemon.Response.Outcomes.{session_check-kept, policy_timeout-denies}
use noports.Daemon.ClientKeys.{Key, revoked, check_client_keys}
use noports.Daemon.ClientKeys.Watch.{IsWithdrawn, check_client_keys-IsWithdrawn}
use noports.Daemon.Slots.{
  Relay, relay_running, relay_idle, no_task, live_task, find_free_relay_slot,
}
use noports.Daemon.Slots.Free.{FirstFree, find_free_relay_slot-FirstFree}
use noports.Examples.Device.{
  Doc, device, config, managed, world, calm, waiting, policy, alice, session,
}

-- The policy atSign's answer to Alice's request.
abbrev response : Notification
response = record {
  id = some (codes "1");
  key = some (codes "response");
  from = some policy;
  to = some (codes "@device");
  decrypted_value = some (codes "answer");
}

response_granted : grants (handle_notification device config world response waiting).1 ≡ true
unfolding grants handle_notification noports.Daemon.Notify.route str_eq
    noports.Daemon.Response.handle_policy_response noports.Daemon.Response.answer_of
response_granted = refl

handle_notification-grants_example :
    ((nk : NotificationKey) × (from : Text) × (route device config response ≡ handle nk from)
      × IsPermitted device config world from waiting)
    ⊎ Answered device config response waiting
handle_notification-grants_example =
    handle_notification-grants device config world response waiting response_granted

request_granted :
    grants (handle_npt_request device managed world alice (some (codes "request")) calm).1 ≡ true
unfolding grants handle_npt_request noports.Policy.Cooldown.cooldown_allows normalize_text
    noports.Policy.Atsign.finish_normal noports.Policy.Atsign.normalize_from
    noports.Policy.Atsign.strip_at noports.Policy.Atsign.classify noports.Policy.Atsign.is_refused
    noports.Prelude.find_index noports.Policy.Cooldown.holds str_eq is_valid_session_id
    noports.Daemon.Envelope.verify_envelope_signature
request_granted = refl

handle_npt_request-grants_example :
    MayContinue device managed world alice (some (codes "request")) calm
handle_npt_request-grants_example =
    handle_npt_request-grants device managed world alice (some (codes "request")) calm
      request_granted

waiting-IsValid : IsValid waiting
waiting-IsValid = (
  omega arith,
  inr (record {
    used = refl;
    id_lower = omega arith;
    id_upper = omega arith;
    id_is = refl;
    name_fits = omega arith;
    envelope_fits = tt;
  }),
)

handlers-IsValid_example :
    IsValid (handle_notification device config world response waiting).0
    × IsValid (policy_timeout device config world waiting).0
    × IsValid (handle_decrypt_failure device config world (some policy) waiting).0
handlers-IsValid_example =
    handlers-IsValid device config world response (some policy) waiting waiting-IsValid

abbrev late : World
late = record world { now_ms = 40000 }

session_check-kept_example :
    ((handle_ping device config world policy waiting).0.pending ≡ waiting.pending)
    × ((handle_npt_request device config world policy none waiting).0.pending ≡ waiting.pending)
session_check-kept_example = session_check-kept device config world policy none waiting refl refl

abbrev stored : State Doc
stored = record waiting { decisions = (init true 2).0 }

abbrev later : World
later = record world { now_ms = 41000 }

stored_over :
    noports.Policy.Wait.wait_over stored.pending.started_at_ms stored.pending.progress_at_ms
      late.now_ms
    ≡ true
unfolding noports.Policy.Wait.wait_over
stored_over = refl

policy_mode : in_policy_mode config.policy_atsign ≡ true
unfolding in_policy_mode
policy_mode = refl

alice_normal : normalize_text alice buffer_len ≡ some alice
unfolding normalize_text noports.Policy.Atsign.finish_normal noports.Policy.Atsign.normalize_from
    noports.Policy.Atsign.strip_at noports.Policy.Atsign.classify noports.Policy.Atsign.is_refused
    noports.Policy.Atsign.to_lower
alice_normal = refl

stored_room : 0 < length stored.decisions.entries
unfolding init
stored_room = omega arith

policy_timeout-denies_example :
    (handle_ping device config later alice (policy_timeout device config late stored).0).1 ≡ []
policy_timeout-denies_example =
    policy_timeout-denies device config late later [] alice stored policy_mode refl stored_over
      (init-Refines true 2) stored_room alice_normal (omega arith)

abbrev ping_key : Text
ping_key = codes "@device:ping.dev.sshnp@alice"

id_plain : codes "1" ≢ codes "-1"
id_plain e = cc

ping_plain : device.is_response_key ping_key ≡ false
unfolding str_eq
ping_plain = refl

route-IsKind_example :
    route device config (record {
      id = some (codes "1");
      key = some ping_key;
      from = some alice;
      to = some (codes "@device");
      decrypted_value = some (codes "ping");
    })
    ≡ handle nk_ping alice
route-IsKind_example =
    route-IsKind device config (codes "1") alice (codes "@device") (codes "ping") (codes "ping") []
      b':' nk_ping names_ping (omega arith) (omega arith) id_plain ping_plain

notification_key-ne-graceful_shutdown_example :
    notification_key (codes "graceful_shutdown") ≢ nk_graceful_shutdown
notification_key-ne-graceful_shutdown_example =
    notification_key-ne-graceful_shutdown (codes "graceful_shutdown")

is_valid_session_id_iff_example :
    (is_valid_session_id (some session) ≡ true)
    ↔ ((length session ≡ 36) × ((j c : ℕ) → get_elem? session j ≡ some c → IsUuidByte j c))
is_valid_session_id_iff_example = is_valid_session_id_iff session

abbrev keys : List Key
keys =
    record { signing_key = some alice; ending = false; due = true; skip_rounds = 0; backoff = 0 }
    ∷ []

key_stops : get_elem? (check_client_keys 60 100 90 (λ t. revoked) keys).0.1 0 ≡ some true
unfolding check_client_keys str_eq noports.Relay.Sub.elapsed
key_stops = refl

check_client_keys-IsWithdrawn_example :
    (k : Key) × (get_elem? keys 0 ≡ some k) × IsWithdrawn (λ t. revoked) k
check_client_keys-IsWithdrawn_example =
    check_client_keys-IsWithdrawn 60 100 90 0 (λ t. revoked) keys key_stops

abbrev relays : List Relay
relays =
    record {
      state = relay_running;
      task = live_task;
      bytes_in = 1;
      bytes_out = 1;
      start_ms = 1;
      active_sessions = 1;
    }
    ∷ record {
      state = relay_idle;
      task = no_task;
      bytes_in = 0;
      bytes_out = 0;
      start_ms = 0;
      active_sessions = 0;
    }
    ∷ []

find_free_relay_slot-FirstFree_example : FirstFree 2 relays (find_free_relay_slot 2 relays)
find_free_relay_slot-FirstFree_example = find_free_relay_slot-FirstFree 2 relays
