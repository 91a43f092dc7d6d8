-- ===== src/Relay/Start.antt =====
-- noports_relay.cpp: noports_relay_start, which hands a session's configuration to a relay slot, and
-- who owns the memory that it names. Memory is the number of blocks that are allocated.
pub mod Memory
use noports.Prelude.{
  ℕ, ◌+◌, ◌-◌, Bool, true, false, ◌&&◌, ◌||◌, not, Option, none, some, [], if◌then◌else◌, Text,
  codes,
}
use noports.Daemon.Slots.{Relay, relay_idle, live_task}

-- NoPortsRelayConfig. `escr_signing_key` is the daemon's own key: only whether there is one counts.
pub record RelayConfig : Type 0 where
  pub rvd_host : Option Text
  pub rvd_port : ℕ
  pub local_host : Option Text
  pub local_port : ℕ
  pub rv_auth : Bool
  pub rvd_auth_string : Option Text
  pub escr_auth : Bool
  pub relay_auth_aes_key : Option Text
  pub escr_signing_key_uri : Option Text
  pub escr_signing_key : Bool
  pub rv_e2ee : Bool
  pub session_aes_key : Option Text
  pub session_iv : Option Text
  pub session_aes_key_d2c : Option Text
  pub session_iv_d2c : Option Text
  pub multi : Bool
  pub idle_timeout_ms : ℕ
  pub session_id : Text
  pub max_subs : ℕ

-- noports_relay_config_init
abbrev pub config_init : RelayConfig
config_init = record {
  rvd_host = none;
  rvd_port = 0;
  local_host = some (codes "127.0.0.1");
  local_port = 0;
  rv_auth = false;
  rvd_auth_string = none;
  escr_auth = false;
  relay_auth_aes_key = none;
  escr_signing_key_uri = none;
  escr_signing_key = false;
  rv_e2ee = false;
  session_aes_key = none;
  session_iv = none;
  session_aes_key_d2c = none;
  session_iv_d2c = none;
  multi = false;
  idle_timeout_ms = 0;
  session_id = [];
  max_subs = 0;
}

-- A NoPortsRelay with its configuration; the two ciphers are those of the control channel.
pub record RelaySlot : Type 0 where
  pub relay : Relay
  pub config : RelayConfig
  pub should_run : Bool
  pub encrypter : Bool
  pub decrypter : Bool

-- What a start meets: which of the four strdup succeed, whether the cipher and the task are made.
pub record StartWorld : Type 0 where
  pub dup : ℕ → Bool
  pub decrypter_made : Bool
  pub task_made : Bool

-- The number of blocks that a pointer stands for.
unfoldable pub block {ℓ} : {A : Type ℓ} → Option A → ℕ
block none = 0
block (some a) = 1

-- `strdup`, of a pointer that may be NULL.
unfoldable pub dup_text : Bool → Option Text → Option Text
dup_text ok none = none
dup_text ok (some t) = if ok then some t else none

unfoldable pub is_present {ℓ} : {A : Type ℓ} → Option A → Bool
is_present none = false
is_present (some a) = true

-- The configuration with the relay's own copies.
unfoldable pub copied : StartWorld → RelayConfig → RelayConfig
unfolding dup_text
copied w c = record c {
  rvd_host = dup_text (w.dup 0) c.rvd_host;
  local_host = dup_text (w.dup 1) c.local_host;
  relay_auth_aes_key = dup_text (w.dup 2) c.relay_auth_aes_key;
  escr_signing_key_uri = dup_text (w.dup 3) c.escr_signing_key_uri;
}

unfoldable pub copies : RelayConfig → ℕ
unfolding block
copies c =
    block c.rvd_host
    + block c.local_host
    + block c.relay_auth_aes_key
    + block c.escr_signing_key_uri

-- The slot before its task is created, with the decrypter or without.
unfoldable pub prepared : RelayConfig → Bool → RelaySlot → RelaySlot
prepared c dec s = record {
  relay = record s.relay { state = relay_idle; bytes_in = 0; bytes_out = 0; start_ms = 0 };
  config = c;
  should_run = true;
  encrypter = false;
  decrypter = dec;
}

unfoldable pub wants_decrypter : RelayConfig → Bool
unfolding is_present
wants_decrypter c = c.rv_e2ee && is_present c.session_aes_key && is_present c.session_iv

unfoldable pub decrypter_block : RelayConfig → ℕ
unfolding wants_decrypter
decrypter_block c = if wants_decrypter c then 1 else 0

-- The copies of a slot whose task was not created are freed.
unfoldable pub dropped : RelaySlot → RelaySlot
dropped s = record s {
  encrypter = false;
  decrypter = false;
  config = record s.config {
    rvd_host = none;
    local_host = none;
    relay_auth_aes_key = none;
    escr_signing_key_uri = none;
  };
}

-- The creation of the task.
unfoldable pub create_task : StartWorld → RelayConfig → RelaySlot → ℕ → RelaySlot × ℕ × Bool
unfolding dropped decrypter_block
create_task w c s live =
    if w.task_made
    then (record s { relay = record s.relay { task = live_task } }, live, true)
    else (dropped s, live - decrypter_block c - copies s.config, false)

-- noports_relay_start: the slot, the blocks that are allocated, and whether it returned 0.
unfoldable pub relay_start : StartWorld → RelayConfig → RelaySlot → ℕ → RelaySlot × ℕ × Bool
unfolding create_task prepared copied copies wants_decrypter decrypter_block
relay_start w c s live =
    let held = live + copies (copied w c) in
    if wants_decrypter c && not w.decrypter_made
    then (prepared (copied w c) false s, held, false)
    else create_task w c (prepared (copied w c) (wants_decrypter c) s) (held + decrypter_block c)
