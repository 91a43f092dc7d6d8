-- ===== src/Daemon/Setup/Continue.antt =====
-- noports_daemon.cpp: _continueNptRequest, from the checks of a request to its relay.
pub mod Target
pub mod Told
pub mod Granted
pub mod Memory
use noports.Prelude.{
  ℕ, ◌+◌, ◌-◌, Bool, true, false, ◌&&◌, ◌||◌, not, Option, none, some, List, [], ◌∷◌, ◌++◌, ltb,
  if◌then◌else◌, Text, codes, take, map, get_elem?, set,
}
use noports.Daemon.Host.{Host}
use noports.Daemon.Notify.{in_policy_mode}
use noports.Daemon.Envelope.{verify_envelope_contents, text_or_empty}
use noports.Daemon.ClientKeys.{Key}
use noports.Daemon.Slots.{Relay, ask_relays, find_free_relay_slot}
use noports.Daemon.Enrollment.Advert.{Library}
use noports.Daemon.Setup.{
  SessionConfig, Item, text, reference, SetupWorld, name_buffer, SetupAction, send_error,
  refuse_signature, reconnect_worker, send_response, tunnel_open, panic, Table, Outcome,
}
use noports.Daemon.Setup.Denial.{permits, denial}
use noports.Daemon.Setup.Respond.{response_fields, respond}
use noports.Daemon.Setup.SigningKey.{KeyVerdict, goes_on, is_refused, check_client_signing_key}
use noports.Daemon.Setup.Auth.{authenticate, sign_printed}
use noports.Daemon.Setup.Encryption.{Pair, Keys, no_keys, pair_blocks, session_keys, keys_ok}
use noports.Permit.Rules.{PermitOpen, policy_permits, manager_permits}
use noports.Permit.Denial.{list_policy, list_manager, print_port}
use noports.Relay.Start.{RelayConfig, config_init, RelaySlot, block, is_present, relay_start}

-- NOPORTS_MAX_RELAYS
abbrev pub max_relay_slots : ℕ
max_relay_slots = 5

-- sizeof(relay_cfg.session_id), less the zero.
abbrev pub session_id_room : ℕ
session_id_room = 63

-- The slots, with the relays as the search for a free one has left them.
unfoldable pub put_back : List RelaySlot → List Relay → List RelaySlot
put_back [] rs = []
put_back (s ∷ ss) [] = s ∷ ss
put_back (s ∷ ss) (r ∷ rs) = record s { relay = r } ∷ put_back ss rs

module _ (host : Host) (lib : Library host) (config : SessionConfig) (w : SetupWorld host) where
  open host use {Json, get_object_item, get_string_value, is_number, is_true, to_uint16}
  open w use {timeout_of, print_object, print_envelope, base64_encode, buffer, start}

  -- The request's envelope is freed on every return.
  unfoldable pub without_envelope : Table → Table
  without_envelope t = record t { live = t.live - 1 }

  unfoldable pub stop_with : Table → List SetupAction → Outcome
  unfolding without_envelope
  stop_with t actions = record { table = without_envelope t; actions = actions; session = none }

  -- The configuration before authentication and encryption.
  unfoldable pub base_config : Option Json → Text → Text → RelayConfig
  base_config payload rhost id = record config_init {
    max_subs = config.max_relays;
    rvd_host = get_string_value (get_object_item payload (codes "rvdHost"));
    rvd_port = to_uint16 (get_object_item payload (codes "rvdPort"));
    local_host = some rhost;
    local_port = to_uint16 (get_object_item payload (codes "requestedPort"));
    multi = true;
    idle_timeout_ms =
        if is_number (get_object_item payload (codes "timeout"))
        then timeout_of (get_object_item payload (codes "timeout"))
        else 0;
    session_id = take session_id_room id;
  }

  unfoldable pub with_keys : Keys → RelayConfig → RelayConfig
  with_keys k c = record c {
    rv_e2ee = true;
    session_aes_key = k.plain.key;
    session_iv = k.plain.iv;
    session_aes_key_d2c = k.plain_d2c.key;
    session_iv_d2c = k.plain_d2c.iv;
  }

  -- The blocks that the set-up allocates, and what both failures free.
  unfoldable pub config_blocks : RelayConfig → ℕ
  unfolding block
  config_blocks c =
      block c.session_aes_key
      + block c.session_iv
      + block c.session_aes_key_d2c
      + block c.session_iv_d2c
      + block c.rvd_auth_string

  unfoldable pub escr_blocks : RelayConfig → ℕ
  unfolding block
  escr_blocks c = block c.relay_auth_aes_key + block c.escr_signing_key_uri

  unfoldable pub sealed_blocks : Keys → ℕ
  unfolding pair_blocks
  sealed_blocks k = pair_blocks k.sealed + pair_blocks k.sealed_d2c

  unfoldable pub release_all : RelayConfig → Keys → Table → Table
  unfolding config_blocks escr_blocks sealed_blocks
  release_all c k t = record t { live = t.live - config_blocks c - escr_blocks c - sealed_blocks k }

  -- The key that is watched for the slot, where the signature was verified.
  unfoldable pub watched_block : Option Key → ℕ
  unfolding block
  watched_block none = 0
  watched_block (some k) = block k.signing_key

  unfoldable pub watch : ℕ → Option Text → Table → Table
  unfolding watched_block
  watch slot none t = t
  watch slot (some key) t = record t {
    keys = set t.keys slot (record {
      signing_key = some key;
      ending = false;
      due = false;
      skip_rounds = 0;
      backoff = 0;
    });
    live = t.live - watched_block (get_elem? t.keys slot) + 1;
  }

  -- The end of a set-up whose relay runs: its own copies are freed.
  unfoldable pub started :
      ℕ → Text → RelayConfig → Keys → Option Text → List SetupAction → RelaySlot → Table → Outcome
  unfolding watch without_envelope escr_blocks sealed_blocks
  started slot rhost c k key actions s t =
      let u = watch slot key (record t { relays = set t.relays slot s }) in
      record {
        table = without_envelope (record u { live = u.live - escr_blocks c - sealed_blocks k });
        actions = actions ++ (tunnel_open rhost c.local_port c.session_id ∷ []);
        session = some (slot, s.config);
      }

  unfoldable pub relay_result :
      ℕ
      → Text
      → RelayConfig
      → Keys
      → Option Text
      → List SetupAction
      → Table
      → RelaySlot × ℕ × Bool
      → Outcome
  unfolding started release_all
  relay_result slot rhost c k key actions t (s, live, ok) =
      if ok
      then started slot rhost c k key actions s (record t { live = live })
      else stop_with (release_all c k (record t { relays = set t.relays slot s; live = live }))
          actions

  unfoldable pub start_in :
      ℕ
      → Text
      → RelayConfig
      → Keys
      → Option Text
      → List SetupAction
      → Table
      → Option RelaySlot
      → Outcome
  unfolding relay_result relay_start
  start_in slot rhost c k key actions t none = stop_with t (panic ∷ [])
  start_in slot rhost c k key actions t (some s) =
      relay_result slot rhost c k key actions t (relay_start start c s t.live)

  -- From the keys on: `t` holds the blocks of the configuration and of the keys.
  unfoldable pub answer_and_start :
      Text → Text → Text → Option Json → ℕ → RelayConfig → Keys → Option Text → Table → Outcome
  unfolding start_in respond response_fields
  answer_and_start from rhost id payload slot c k key t =
      let encrypt = is_true (get_object_item payload (codes "encryptRvdTraffic")) in
      let twin = encrypt && is_true (get_object_item payload (codes "twinKeys")) in
      start_in slot rhost c k key
        (respond host config w from id
          (response_fields host encrypt twin (get_object_item payload (codes "sessionId")) k))
        t (get_elem? t.relays slot)

  unfoldable pub hold : RelayConfig → Keys → Table → Table
  unfolding config_blocks escr_blocks sealed_blocks
  hold c k t = record t { live = t.live + config_blocks c + escr_blocks c + sealed_blocks k }

  unfoldable pub encrypt_session :
      Text → Text → Text → Option Json → ℕ → RelayConfig → Option Text → Table → Outcome
  unfolding answer_and_start release_all hold with_keys session_keys keys_ok
  encrypt_session from rhost id payload slot c key t =
      let encrypt = is_true (get_object_item payload (codes "encryptRvdTraffic")) in
      let twin = encrypt && is_true (get_object_item payload (codes "twinKeys")) in
      let k = session_keys host w twin payload in
      if not encrypt
      then answer_and_start from rhost id payload slot c no_keys key (hold c no_keys t)
      else if keys_ok host w twin k
      then answer_and_start from rhost id payload slot (with_keys k c) k key
          (hold (with_keys k c) k t)
      else stop_with (release_all (with_keys k c) k (hold (with_keys k c) k t))
          (send_error from id (codes "Failed to set up session encryption") ∷ [])

  unfoldable pub take_slot :
      Text → Text → Text → Option Json → Option Text → Table → Option ℕ → Outcome
  unfolding encrypt_session authenticate base_config
  take_slot from rhost id payload key t none = stop_with t (
      send_error from id
        (codes "No relay slots available (max " ++ (print_port max_relay_slots ++ codes " active)"))
      ∷ [])
  take_slot from rhost id payload key t (some slot) =
      encrypt_session from rhost id payload slot
        (authenticate host config w payload (base_config payload rhost id)) key t

  unfoldable pub permitted_request :
      Text → Text → Text → Option Json → Option Text → Table → Outcome
  unfolding take_slot ask_relays find_free_relay_slot is_present put_back
  permitted_request from rhost id payload key t =
      if not (is_present (get_object_item payload (codes "rvdHost")))
        || not (is_present (get_object_item payload (codes "rvdPort")))
        || not (is_present (get_object_item payload (codes "sessionId")))
      then stop_with t (
          send_error from id
            (codes "Malformed session request: missing rvdHost, rvdPort or sessionId")
          ∷ [])
      else take_slot from rhost id payload key
          (record t {
            relays =
                put_back t.relays
                  (ask_relays config.max_relays (map (λ (s : RelaySlot). s.relay) t.relays)).0;
          })
          (find_free_relay_slot config.max_relays (map (λ (s : RelaySlot). s.relay) t.relays))

  -- A host that is no string is read through NULL.
  unfoldable pub check_permit :
      Text → Text → Option Json → List Text → Option Text → Table → Option Text → Outcome
  unfolding permitted_request permits denial
  check_permit from id payload rules key t none = stop_with t (panic ∷ [])
  check_permit from id payload rules key t (some rhost) =
      let rport = to_uint16 (get_object_item payload (codes "requestedPort")) in
      if permits config rhost rport rules
      then permitted_request from rhost id payload key t
      else stop_with t (send_error from id (denial config rhost rport rules) ∷ [])

  unfoldable pub with_verdict : Text → Text → Option Json → List Text → Table → KeyVerdict → Outcome
  unfolding check_permit is_present
  with_verdict from id payload rules t (is_refused r) =
      stop_with t (refuse_signature from id r ∷ [])
  with_verdict from id payload rules t (goes_on key) =
      if is_present (get_object_item payload (codes "requestedHost"))
        && is_present (get_object_item payload (codes "requestedPort"))
      then check_permit from id payload rules key t
          (get_string_value (get_object_item payload (codes "requestedHost")))
      else stop_with t []

  unfoldable pub with_session_id : Json → Text → List Text → Table → Option Text → Outcome
  unfolding with_verdict check_client_signing_key
  with_session_id envelope from rules t none = stop_with t (panic ∷ [])
  with_session_id envelope from rules t (some id) =
      with_verdict from id (get_object_item (some envelope) (codes "payload")) rules t
        (check_client_signing_key host lib config w (some envelope) from id t.keys t.relays)

  -- _continueNptRequest
  unfoldable pub continue_npt_request : Json → Text → List Text → Table → Outcome
  unfolding with_session_id verify_envelope_contents
  continue_npt_request envelope from rules t =
      if verify_envelope_contents host (some envelope) true
      then with_session_id envelope from rules t (
          get_string_value (
            get_object_item (get_object_item (some envelope) (codes "payload"))
              (codes "sessionId")))
      else stop_with t []
