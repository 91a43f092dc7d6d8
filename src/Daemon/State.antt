-- ===== src/Daemon/State.antt =====
-- noports_daemon.h and noports_config.h: the configuration and the state that the handlers share.
-- Times are milliseconds since boot.
use noports.Prelude.{ℕ, Bool, Option, List, Text}
use noports.Policy.Cache.{Cache, Allocator}
use noports.Policy.Cooldown.{Slot}
use noports.Permit.Rules.{PermitOpen}

pub data NotificationKey : Type 0 where
  nk_none nk_sshpublickey nk_ping nk_ssh_request nk_npt_request nk_graceful_shutdown :
      NotificationKey

pub record Config : Type 0 where
  pub atsign : Text
  pub device_name : Text
  pub manager_list : List Text
  pub policy_atsign : Option Text
  pub permitopen : List PermitOpen

-- NoPortsPolicyPendingType
pub data PendingType : Type 0 where
  pending_none pending_ping pending_npt : PendingType

-- NoPortsPolicyPending; the envelope is a parsed JSON value of the host's type.
pub record Pending (Json : Type 0) : Type 0 where
  pub in_use : Bool
  pub type : PendingType
  pub req_id : ℕ
  pub started_at_ms : ℕ
  pub progress_at_ms : ℕ
  pub requesting_atsign : Text
  pub envelope : Option Json

pub record State (Json : Type 0) : Type 0 where
  pub ping_response : Option Text
  pub pending : Pending Json
  pub cooldown : List Slot
  pub decisions : Cache
  pub req_counter : ℕ
  pub decrypt_reconnect_at_ms : Option ℕ

-- What one call meets: the time, which allocations succeed, and whether the request to the policy
-- service can be built and sent.
pub record World : Type 0 where
  pub now_ms : ℕ
  pub alloc : Allocator
  pub payload_built : Bool
  pub rpc_sent : Bool

-- What a handler does to the outside, in order. `continue_npt` is the call of _continueNptRequest,
-- with the policy's rules or none in manager mode.
pub data Action (Json : Type 0) : Type 0 where
  send_rpc : ℕ → Text → Action Json
  send_heartbeat : Text → Action Json
  send_npt_error : Text → Option Text → Text → Action Json
  continue_npt : Json → Text → List Text → Action Json
  reconnect_worker : Action Json
  -- A read through NULL, which restarts the device.
  panic : Action Json
