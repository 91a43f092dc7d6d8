-- ===== src/Daemon/Life.antt =====
-- noports_daemon.h and noports_daemon.cpp: the daemon's life, what its loop counts and what its
-- connections meet.
pub mod Reconnect
pub mod Loop
pub mod Bounds
use noports.Prelude.{ℕ, Bool, Option, List, Text}

-- NoPortsDaemonState
pub data DaemonState : Type 0 where
  daemon_uninitialized daemon_initializing daemon_authenticating daemon_monitoring daemon_error
        daemon_stopped :
      DaemonState

-- The counters and the address of the atServer.
pub record Life : Type 0 where
  pub state : DaemonState
  pub should_run : Bool
  pub via_proxy : Bool
  pub timeout_counter : ℕ
  pub reconnect_failures : ℕ
  pub monitor_fail_streak : ℕ
  pub worker_keepalive_ms : ℕ
  pub worker_last_used_ms : ℕ
  pub atserver_host : Text
  pub atserver_port : ℕ

-- What one reconnect meets: the first authentication, what the directory answers, the authentication
-- with a new address, the start of the monitor, and the time at the end.
pub record Network : Type 0 where
  pub first_auth : Bool
  pub directory : Option (Text × ℕ)
  pub second_auth : Bool
  pub monitor_start : Bool
  pub done_ms : ℕ
