-- ===== src/Examples/Setup.antt =====
-- The theorems on enrollment signatures and on the set-up of a session, on the example device.
use noports.Prelude.{
  ℕ, ◌+◌, ◌<◌, ◌≡◌, ◌↔◌, refl, Bool, true, false, not, ◌&&◌, Option, none, some, List, [], ◌∷◌,
  ◌++◌, arith, if◌then◌else◌, Text, codes, str_eq, replicate,
}
use noports.Daemon.Enrollment.Uri.{is_signing_key_uri}
use noports.Daemon.Enrollment.Uri.Shape.{IsSigningKey, is_signing_key_uri_iff}
use noports.Daemon.Enrollment.Advert.{Lookup, found, Library}
use noports.Daemon.Enrollment.Verify.{verified, verify_enrollment_signature}
use noports.Daemon.Enrollment.Verify.Sound.{IsSigned, verify_enrollment_signature-IsSigned}
use noports.Daemon.Setup.{SessionConfig, SetupWorld, Table, Outcome}
use noports.Daemon.Setup.Continue.{continue_npt_request}
use noports.Daemon.Setup.Continue.Granted.{IsGranted, continue_npt_request-IsGranted}
use noports.Daemon.Setup.Continue.Memory.{continue_npt_request-Clean}
use noports.Daemon.Slots.{relay_idle, no_task}
use noports.Relay.Start.{
  RelayConfig, config_init, RelaySlot, StartWorld, copied, copies, wants_decrypter, relay_start,
}
use noports.Relay.Start.Memory.{relay_start-failed}
use noports.Examples.Device.{Doc, envelope, payload, signed, text, device, config, alice}

abbrev key_uri : Text
key_uri = codes "public:_apsk.ab-1.a.__e@Alice"

is_signing_key_uri_iff_example :
    (is_signing_key_uri key_uri ≡ true) ↔ ((id owner : Text) × IsSigningKey key_uri id owner)
is_signing_key_uri_iff_example = is_signing_key_uri_iff key_uri

-- The fields of an envelope with an enrollment signature.
abbrev signed_field : Text → Option Doc
signed_field name =
    if str_eq name (codes "sk")
    then some (text key_uri)
    else if str_eq name (codes "sa")
    then some (text (codes "rsa2048"))
    else if str_eq name (codes "ha")
    then some (text (codes "sha256"))
    else if str_eq name (codes "s")
    then some (text (codes "c2ln"))
    else none

abbrev item_of : Option Doc → Text → Option Doc
item_of (some envelope) name =
    if str_eq name (codes "enrollmentSignature")
    then some signed
    else if str_eq name (codes "payload")
    then some payload
    else none
item_of (some signed) name = signed_field name
item_of (some payload) name = none
item_of (some noports.Examples.Device.answer) name = none
item_of (some noports.Examples.Device.answer_payload) name = none
item_of (some noports.Examples.Device.yes) name = none
item_of (some noports.Examples.Device.rules) name = none
item_of (some (text t)) name = none
item_of (some (noports.Examples.Device.number n)) name = none
item_of none name = none

abbrev library : Library device
library = record {
  get_item = item_of;
  is_null = λ d. false;
  parse_whole = λ t. none;
  decode = λ t. some (replicate 256 1);
  sha256 = λ t. some (replicate 32 7);
  verify_hashed = λ k h t s. true;
  alloc = λ a. true;
}

abbrev lookup : Text → Lookup
lookup uri = found (codes " MIIB\n")

signature_verified :
    verify_enrollment_signature device library lookup (some envelope) alice
    ≡ verified (codes "public:_apsk.ab-1.a.__e@alice")
unfolding verify_enrollment_signature str_eq noports.Daemon.Envelope.skip_zeros
signature_verified = refl

verify_enrollment_signature-IsSigned_example :
    IsSigned device library lookup (some envelope) alice (codes "public:_apsk.ab-1.a.__e@alice")
verify_enrollment_signature-IsSigned_example =
    verify_enrollment_signature-IsSigned device library lookup (some envelope) alice
      (codes "public:_apsk.ab-1.a.__e@alice") signature_verified

abbrev start : StartWorld
start = record { dup = λ i. true; decrypter_made = true; task_made = true }

abbrev setup : SetupWorld device
setup = record {
  lookup = lookup;
  timeout_of = λ d. 0;
  print_object = λ fields. some (codes "{}");
  print_envelope = λ fields more. some (codes "{}");
  rsa_sign = λ t. some t;
  base64_encode = λ t. some t;
  generate_key = λ d. some (codes "key");
  generate_iv = λ d. some (codes "iv");
  rsa_encrypt_b64 = λ k t. some t;
  buffer = λ b. true;
  dup_key = true;
  start = start;
}

-- A device that asks its policy service, and takes signed requests only.
abbrev strict : SessionConfig
strict = record {
  base = config;
  enrollment_id = none;
  require_enrollment_signature = true;
  pkam_signing_key = false;
  max_relays = 2;
}

abbrev free_slot : RelaySlot
free_slot = record {
  relay = record {
    state = relay_idle;
    task = no_task;
    bytes_in = 0;
    bytes_out = 0;
    start_ms = 0;
    active_sessions = 0;
  };
  config = config_init;
  should_run = false;
  encrypter = false;
  decrypter = false;
}

abbrev table : Table
table = record {
  relays = replicate 2 free_slot;
  keys = replicate 2 noports.Daemon.Life.Loop.no_key;
  live = 5;
}

abbrev first_session : ℕ × RelayConfig
first_session = (
  0,
  record config_init {
    rvd_host = some (codes "rvd");
    rvd_port = 40001;
    local_host = some (codes "localhost");
    local_port = 22;
    multi = true;
    session_id = noports.Examples.Device.session;
    max_subs = 2;
  },
)

session_granted :
    (continue_npt_request device library strict setup envelope alice
      (codes "localhost:22" ∷ [])
      table).session
    ≡ some first_session
unfolding continue_npt_request noports.Daemon.Notify.in_policy_mode
    noports.Permit.Rules.policy_permits noports.Permit.Rules.rule_permits
    noports.Permit.Rules.split_last_colon noports.Permit.Port.parse_port_strict
    noports.Permit.Port.port_in_range noports.Permit.Port.scan_digits noports.Prelude.find_index
session_granted = refl

continue_npt_request-IsGranted_example :
    IsGranted device library strict setup envelope alice
      (codes "localhost:22" ∷ [])
      table
      first_session
continue_npt_request-IsGranted_example =
    continue_npt_request-IsGranted device library strict setup envelope alice
      (codes "localhost:22" ∷ []) table first_session session_granted

request_denied :
    (continue_npt_request device library strict setup envelope alice
      (codes "localhost:80" ∷ [])
      table).session
    ≡ none
unfolding continue_npt_request noports.Daemon.Notify.in_policy_mode
    noports.Permit.Rules.policy_permits noports.Permit.Rules.rule_permits
    noports.Permit.Rules.split_last_colon noports.Permit.Port.parse_port_strict
    noports.Permit.Port.port_in_range noports.Permit.Port.scan_digits
    noports.Daemon.Setup.Continue.stop_with
request_denied = refl

continue_npt_request-Clean_example :
    (continue_npt_request device library strict setup envelope alice
        (codes "localhost:80" ∷ [])
        table).table.live
      + 1
    ≡ 5
continue_npt_request-Clean_example =
    continue_npt_request-Clean device library strict setup refl envelope alice
      (codes "localhost:80" ∷ []) table (omega arith) request_denied

-- A configuration with keys, whose decrypter cannot be made.
abbrev keyed : RelayConfig
keyed = record config_init {
  rv_e2ee = true;
  session_aes_key = some (codes "key");
  session_iv = some (codes "iv");
}

abbrev short_of_memory : StartWorld
short_of_memory = record start { decrypter_made = false }

start_fails : (relay_start short_of_memory keyed free_slot 5).2 ≡ false
unfolding relay_start
start_fails = refl

relay_start-failed_example :
    (relay_start short_of_memory keyed free_slot 5).1
    ≡ (if wants_decrypter keyed && not false then 5 + copies (copied short_of_memory keyed) else 5)
relay_start-failed_example = relay_start-failed short_of_memory keyed free_slot 5 start_fails
