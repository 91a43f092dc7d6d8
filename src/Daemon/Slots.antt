-- ===== src/Daemon/Slots.antt =====
-- noports_daemon.cpp and noports_relay.cpp: the relay slots, one for each session.
pub mod Free
use noports.Prelude.{
  ℕ, zero, suc, ◌+◌, Bool, true, false, ◌&&◌, ◌||◌, not, Option, none, some, List, [], ◌∷◌, ltb,
  leb, ◌==◌, if◌then◌else◌, suc_option,
}

-- The states of a NoPortsRelay.
pub data RelayState : Type 0 where
  relay_idle relay_connecting relay_authenticating relay_running relay_stopped relay_error :
      RelayState

-- A task handle that is not NULL: its task is alive, or deleted.
pub data Task : Type 0 where
  no_task live_task dead_task : Task

pub record Relay : Type 0 where
  pub state : RelayState
  pub task : Task
  pub bytes_in : ℕ
  pub bytes_out : ℕ
  pub start_ms : ℕ
  pub active_sessions : ℕ

unfoldable pub is_up : RelayState → Bool
is_up relay_running = true
is_up relay_connecting = true
is_up relay_authenticating = true
is_up relay_idle = false
is_up relay_stopped = false
is_up relay_error = false

-- noports_relay_is_running corrects the state of a relay whose task is gone.
unfoldable pub refresh_with : Task → Relay → Relay
refresh_with dead_task r = record r { state = relay_stopped; task = no_task }
refresh_with live_task r = r
refresh_with no_task r = r

unfoldable pub refresh : Relay → Relay
unfolding refresh_with
refresh r = refresh_with r.task r

-- noports_relay_is_running
unfoldable pub is_running : Relay → Relay × Bool
unfolding refresh is_up
is_running r = (refresh r, is_up (refresh r).state)

-- The state, as the search reads it after it has asked whether the relay runs.
unfoldable pub is_starting : RelayState → Bool
is_starting relay_connecting = true
is_starting relay_authenticating = true
is_starting relay_running = false
is_starting relay_idle = false
is_starting relay_stopped = false
is_starting relay_error = false

-- The test on one relay, and the relay as the question has left it.
unfoldable pub asked : Relay → Relay × Bool
unfolding is_running is_starting
asked r = let a = is_running r in (a.0, not a.1 && not (is_starting a.0.state))

-- The loop of _findFreeRelaySlot: the relays, of which those that were asked are corrected, and the
-- slot.
unfoldable pub ask_relays : ℕ → List Relay → List Relay × Option ℕ
unfolding asked
ask_relays zero rs = (rs, none)
ask_relays (suc n) [] = ([], none)
ask_relays (suc n) (r ∷ rs) =
    let a = asked r in
    let rest = ask_relays n rs in
    if a.1 then (a.0 ∷ rs, some 0) else (a.0 ∷ rest.0, suc_option rest.1)

-- _findFreeRelaySlot
unfoldable pub find_free_relay_slot : ℕ → List Relay → Option ℕ
unfolding ask_relays
find_free_relay_slot max_relays relays = (ask_relays max_relays relays).1

unfoldable pub is_over : RelayState → Bool
is_over relay_stopped = true
is_over relay_error = true
is_over relay_idle = false
is_over relay_connecting = false
is_over relay_authenticating = false
is_over relay_running = false

unfoldable pub has_no_task : Task → Bool
has_no_task no_task = true
has_no_task live_task = false
has_no_task dead_task = false

-- One round of _cleanupFinishedRelays, and whether `on_tunnel_close` is called.
unfoldable pub cleanup_relay : Relay → Relay × Bool
unfolding is_over has_no_task
cleanup_relay r =
    if is_over r.state && has_no_task r.task
    then (
      record {
        state = relay_idle;
        task = r.task;
        bytes_in = 0;
        bytes_out = 0;
        start_ms = 0;
        active_sessions = 0;
      },
      true,
    )
    else (r, false)
