-- ===== src/Daemon/Setup.antt =====
-- noports_daemon.cpp, _continueNptRequest: what the set-up of a session works on.
pub mod SigningKey
pub mod Auth
pub mod Encryption
pub mod Denial
pub mod Respond
pub mod Continue
use noports.Prelude.{ℕ, Bool, Option, List, Text}
use noports.Daemon.Host.{Host}
use noports.Daemon.State.{Config}
use noports.Daemon.ClientKeys.{Key}
use noports.Daemon.Enrollment.Advert.{Lookup, Why}
use noports.Relay.Start.{RelayConfig, RelaySlot, StartWorld}

-- NoPortsConfig beyond what the requests read, the limit on the relays, and whether there is an APKAM
-- signing key.
pub record SessionConfig : Type 0 where
  pub base : Config
  pub enrollment_id : Option Text
  pub require_enrollment_signature : Bool
  pub pkam_signing_key : Bool
  pub max_relays : ℕ

-- Why a request is refused for its signature.
pub data Refusal : Type 0 where
  already_live signature_required : Refusal
  not_verified not_checked : Why → Refusal

-- The value of a field of a JSON object that the daemon builds.
pub data Item (Json : Type 0) : Type 0 where
  text : Text → Item Json
  reference : Option Json → Item Json

-- The buffers for the keys of a session, for the signing key's uri and for the response's name.
pub data Buffer : Type 0 where
  key_buffer iv_buffer key_buffer_d2c iv_buffer_d2c uri_buffer name_buffer : Buffer

-- The direction of a session key: client to daemon, or daemon to client.
pub data Direction : Type 0 where
  c2d d2c : Direction

-- What one set-up meets. The generated keys are given as their base64 texts.
pub record SetupWorld (host : Host) : Type 0 where
  pub lookup : Text → Lookup
  pub timeout_of : Option host.Json → ℕ
  pub print_object : List (Text × Item host.Json) → Option Text
  pub print_envelope : List (Text × Item host.Json) → List (Text × Text) → Option Text
  pub rsa_sign : Text → Option Text
  pub base64_encode : Text → Option Text
  pub generate_key : Direction → Option Text
  pub generate_iv : Direction → Option Text
  pub rsa_encrypt_b64 : host.PublicKey → Text → Option Text
  pub buffer : Buffer → Bool
  pub dup_key : Bool
  pub start : StartWorld

-- What the set-up does to the outside, in order: an error to the requester, with a text or the reason
-- of the signature check; the success response, by its key's name and its value; the call of
-- on_tunnel_open with a host, a port and a session id; a read through NULL.
pub data SetupAction : Type 0 where
  send_error : Text → Text → Text → SetupAction
  refuse_signature : Text → Text → Refusal → SetupAction
  reconnect_worker : SetupAction
  send_response : Text → Text → Text → SetupAction
  tunnel_open : Text → ℕ → Text → SetupAction
  panic : SetupAction

-- The relays with the keys that are watched for them, and the number of allocated blocks.
pub record Table : Type 0 where
  pub relays : List RelaySlot
  pub keys : List Key
  pub live : ℕ

-- What a set-up comes to, with the slot and the configuration of a relay that was started.
pub record Outcome : Type 0 where
  pub table : Table
  pub actions : List SetupAction
  pub session : Option (ℕ × RelayConfig)
