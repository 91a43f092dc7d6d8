-- ===== src/Examples/Relay.antt =====
-- The relay's theorems, with a cipher that adds the position of a byte to it.
use noports.Prelude.{
  ℕ, suc, ◌+◌, ◌%◌, ◌≤◌, ◌<◌, ◌≡◌, ◌↔◌, refl, ap, true, false, some, [], ◌∷◌, ◌++◌, arith, Text,
  codes, length, get_elem?,
}
use noports.Relay.Forward.{Cipher, Line, direction, read_new, flush_pending, send_with, transform}
use noports.Relay.Sub.{Slot, Sub, elapsed, peer_drain_max_ms, is_evictable, both_dead}
use noports.Relay.Sub.Service.{
  Conn, Env, service, service_run, serve_both, serve_local, serve_rvd, noted, end_test, rvd_gone,
  local_gone,
}
use noports.Relay.Sub.Service.Run.{IsNormal, SameBytes, Fronts, service_run-Fronts}
use noports.Relay.Sub.Service.Drain.{service_run-drain_ends}
use noports.Relay.Sub.Service.Outcomes.{IsSound, service-IsSound}
use noports.Relay.Connect.{Table, Device, session_pcbs, max_pcbs, handle_connect_msg}
use noports.Relay.Connect.Kept.{handle_connect_msg-kept}
use noports.Relay.Connect.Budget.{handle_connect_msg-room}
use noports.Relay.Session.{Control, Limits, control_step}
use noports.Relay.Session.Lines.{control_step-active}

abbrev shifted : ℕ → Text → Text
shifted k [] = []
shifted k (c ∷ cs) = (c + k) % 256 ∷ shifted (k + 1) cs

abbrev moved_on : ℕ → Text → ℕ
moved_on k [] = k
moved_on k (c ∷ cs) = moved_on (k + 1) cs

pub shifted-append :
    (k : ℕ) (xs ys : Text) → shifted k (xs ++ ys) ≡ shifted k xs ++ shifted (moved_on k xs) ys
shifted-append k [] ys = refl
shifted-append k (x ∷ xs) ys = ap (◌∷◌ ((x + k) % 256)) (shifted-append (k + 1) xs ys)

pub length-shifted : (k : ℕ) (xs : Text) → length (shifted k xs) ≡ length xs
length-shifted k [] = refl
length-shifted k (x ∷ xs) = ap suc (length-shifted (k + 1) xs)

abbrev pub shift : Cipher
shift = record {
  Key = ℕ;
  crypt = shifted;
  advance = moved_on;
  crypt_append = shifted-append;
  crypt_length = length-shifted;
}

abbrev line : Line shift
line = record { key = some 3; incoming = codes "hello"; pending = []; outgoing = []; bytes = 0 }

abbrev slot : Slot
slot = record {
  active = true;
  draining = false;
  dir_flip = false;
  drain_start_ms = 0;
  last_activity_ms = 5000;
  rvd_open = true;
  local_open = true;
}

abbrev stuck : Line shift
stuck = record line { pending = codes "late" }

abbrev conn : Conn shift
conn = record { slot = slot; to_local = line; to_rvd = stuck }

abbrev env : Env shift
env = record {
  now_ms = 6000;
  local_io = record { flushed = some 0; available = 0; accepted = some 0 };
  rvd_io = record { flushed = some 0; available = 0; accepted = some 0 };
  peers = record {
    rvd_available = false;
    rvd_closed = false;
    local_available = false;
    local_closed = true;
  };
}

conn-IsSound : IsSound shift conn
conn-IsSound = record {
  local_fits = omega arith;
  rvd_fits = omega arith;
  idle_is_closed = λ e. absurd cc;
}

service-IsSound_example : IsSound shift (service shift env conn)
service-IsSound_example = service-IsSound shift env conn conn-IsSound

abbrev draining_conn : Conn shift
draining_conn = record conn { slot = record slot { draining = true; drain_start_ms = 4294960000 } }

wrapped : peer_drain_max_ms ≤ elapsed 6000 4294960000
unfolding elapsed
wrapped = omega arith

service_run-drain_ends_example :
    (service_run shift ((env ∷ []) ++ (env ∷ (env ∷ []))) draining_conn).slot.active ≡ false
service_run-drain_ends_example =
    service_run-drain_ends shift (env ∷ []) env (env ∷ []) draining_conn refl refl wrapped

-- A pass that takes one byte of the text and one of what waits.
abbrev slow_env : Env shift
slow_env = record {
  now_ms = 6000;
  local_io = record { flushed = some 0; available = 3; accepted = some 1 };
  rvd_io = record { flushed = some 1; available = 9; accepted = some 9 };
  peers = record {
    rvd_available = false;
    rvd_closed = false;
    local_available = false;
    local_closed = false;
  };
}

conn-IsNormal : IsNormal shift conn
conn-IsNormal = record { is_active = refl; not_draining = refl }

slow-IsNormal : IsNormal shift (service_run shift (slow_env ∷ []) conn)
unfolding service_run service serve_both serve_local serve_rvd noted end_test local_gone rvd_gone
    elapsed direction read_new flush_pending send_with transform
slow-IsNormal = record { is_active = refl; not_draining = refl }

service_run-Fronts_example :
    SameBytes shift conn (service_run shift (slow_env ∷ []) conn)
    × Fronts shift conn (service shift env (service_run shift (slow_env ∷ []) conn))
service_run-Fronts_example =
    service_run-Fronts shift (slow_env ∷ []) env conn conn-IsNormal slow-IsNormal

abbrev live : Sub
live = record {
  slot = slot;
  bytes_out = 10;
  peers = record {
    rvd_available = false;
    rvd_closed = false;
    local_available = false;
    local_closed = false;
  };
}

abbrev device : Device
device = record {
  now_ms = 6000;
  heap = 50000;
  keys_ok = λ e. true;
  rvd_connects = true;
  authenticates = true;
  local_connects = true;
}

abbrev table : Table
table = record { subs = live ∷ []; pcb_count = 3 }

live_peers : both_dead live.peers ≡ false
unfolding both_dead
live_peers = refl

live_busy : is_evictable 6000 live ≡ false
unfolding is_evictable elapsed
live_busy = refl

handle_connect_msg-kept_example :
    get_elem? (handle_connect_msg device (codes "no:encrypt") table).0.subs 0 ≡ some live
handle_connect_msg-kept_example =
    handle_connect_msg-kept device (codes "no:encrypt") table 0 live refl live_peers live_busy refl

table_fits : session_pcbs table.subs ≤ max_pcbs
unfolding session_pcbs
table_fits = omega arith

handle_connect_msg-room_example :
    session_pcbs (handle_connect_msg device (codes "no:encrypt") table).0.subs ≤ max_pcbs
handle_connect_msg-room_example =
    handle_connect_msg-room device (codes "no:encrypt") table table_fits

abbrev limits : Limits
limits = record { drain_timeout_ms = 15000; idle_timeout_ms = 30000 }

abbrev control : Control
control = record { lost = true; lost_since_ms = 1000; idle_since_ms = 1000 }

control_step-active_example :
    ((control_step limits 20000 1 true control).1 ≡ true)
    ↔ ((control.lost ≡ true) × (limits.drain_timeout_ms < elapsed 20000 control.lost_since_ms))
control_step-active_example = control_step-active limits 20000 1 true control (omega arith)
