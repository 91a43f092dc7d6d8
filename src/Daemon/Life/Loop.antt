-- ===== src/Daemon/Life/Loop.antt =====
-- noports_daemon.cpp: loop and stop.
pub mod Kept
pub mod Recovery
pub mod Young
use noports.Prelude.{
  ℕ, zero, suc, ◌+◌, ◌-◌, ◌*◌, ◌/◌, ◌%◌, ◌^◌, Bool, true, false, ◌&&◌, ◌||◌, not, Option, none,
  some, List, [], ◌∷◌, ◌++◌, map, leb, ltb, ◌==◌, if◌then◌else◌, Text,
}
use noports.Daemon.Host.{Host, Notification}
use noports.Daemon.State.{Config, State, World, Action}
use noports.Daemon.Response.{policy_timeout, handle_notification, handle_decrypt_failure}
use noports.Daemon.ClientKeys.{Key, KeyCheck, check_client_keys}
use noports.Daemon.Slots.{Relay, is_running, cleanup_relay}
use noports.Daemon.Life.{
  DaemonState, daemon_uninitialized, daemon_initializing, daemon_authenticating, daemon_monitoring,
  daemon_error, daemon_stopped, Life, Network,
}
use noports.Daemon.Life.Reconnect.{
  reconnect_worker, Reconnected, restarts, result, reconnect_monitor, backoff_ms, max_failures,
}
use noports.Relay.Sub.{elapsed}

-- NOPORTS_MONITOR_READ_TIMEOUT_MS and NOPORTS_MONITOR_NOOP_TIMEOUT_MS
abbrev pub read_timeout_ms : ℕ
read_timeout_ms = 100

abbrev pub noop_timeout_ms : ℕ
noop_timeout_ms = 40000

-- The counter that makes the next pass reconnect the monitor.
abbrev pub overdue : ℕ
overdue = noop_timeout_ms / read_timeout_ms + 1

-- What a read of the monitor gives. With an error: a message that cannot be parsed, one that cannot be
-- decrypted with its sender, or a failure, and whether the heap is short. Without: the message's type.
pub data Read : Type 0 where
  unparsed : Read
  undecrypted : Option Text → Read
  read_failed : Bool → Read
  message_empty message_error_read message_response message_unparsed message_other : Read
  message_undecrypted : Option Text → Read
  message_notification : Notification → Read

pub record Device (Json : Type 0) : Type 0 where
  pub life : Life
  pub state : State Json
  pub relays : List Relay
  pub keys : List Key
  pub last_key_check_ms : ℕ

-- One use of the worker in a handler: a reconnect, or a notification that _notifyWithRetry sends. The
-- latter has the results of the first try, of the worker's reconnect and of the second try, and the
-- clock after it.
pub data WorkerUse : Type 0 where
  reconnects : Network → WorkerUse
  notifies : Bool → Network → Bool → ℕ → WorkerUse

-- What one pass meets. `in_handler` and `at_timeout` are the uses of the worker by the handler of what
-- is read and by the policy timeout.
pub record Pass : Type 0 where
  pub world : World
  pub now_ms : ℕ
  pub check : Text → KeyCheck
  pub heartbeat : Bool
  pub heartbeat_network : Network
  pub monitor_network : Network
  pub worker_network : Network
  pub in_handler : List WorkerUse
  pub at_timeout : List WorkerUse
  pub read : Read

pub data LoopAction (Json : Type 0) : Type 0 where
  tunnel_close : ℕ → LoopAction Json
  stop_relay : ℕ → LoopAction Json
  act : Action Json → LoopAction Json
  send_heartbeat : LoopAction Json
  wait_ms : ℕ → LoopAction Json
  restart_device : LoopAction Json

unfoldable pub worker_life : Network → Life → Life
unfolding reconnect_worker
worker_life n l = (reconnect_worker n l).0

-- _notifyWithRetry, where the first try fails.
unfoldable pub retried : Bool → ℕ → Life × Bool → Life
retried second sent_ms (l, ok) =
    if ok && second then record l { worker_last_used_ms = sent_ms } else l

unfoldable pub use_worker : WorkerUse → Life → Life
unfolding worker_life retried reconnect_worker
use_worker (reconnects n) l = worker_life n l
use_worker (notifies first n second sent_ms) l =
    if first
    then record l { worker_last_used_ms = sent_ms }
    else retried second sent_ms (reconnect_worker n l)

unfoldable pub handler_life : List WorkerUse → Life → Life
unfolding use_worker
handler_life [] l = l
handler_life (u ∷ us) l = handler_life us (use_worker u l)

-- One slot of _cleanupFinishedRelays.
abbrev pub no_key : Key
no_key = record { signing_key = none; ending = false; due = false; skip_rounds = 0; backoff = 0 }

unfoldable pub cleanup_keys : List Relay → List Key → List Key
unfolding cleanup_relay
cleanup_keys rs [] = []
cleanup_keys [] (k ∷ ks) = k ∷ ks
cleanup_keys (r ∷ rs) (k ∷ ks) = (if (cleanup_relay r).1 then no_key else k) ∷ cleanup_keys rs ks

-- The keep-alive of the worker.
unfoldable pub keep_alive_due : Pass → Life → Bool
unfolding elapsed
keep_alive_due p l =
    ltb 0 l.worker_keepalive_ms
    && leb l.worker_keepalive_ms (elapsed p.now_ms l.worker_last_used_ms)

unfoldable pub keep_alive : Pass → Life → Life
unfolding worker_life keep_alive_due
keep_alive p l =
    if keep_alive_due p l
    then record (if p.heartbeat then l else worker_life p.heartbeat_network l) {
      worker_last_used_ms = p.now_ms;
    }
    else l

-- A worker that reconnects after a read error: three errors in a row force the monitor's reconnect.
unfoldable pub after_worker : Life × Bool → Life
after_worker (l, ok) =
    if not ok
    then record l { timeout_counter = overdue }
    else if leb 3 l.monitor_fail_streak
    then record l { timeout_counter = overdue; monitor_fail_streak = 0 }
    else l

unfoldable pub read_error : Pass → Bool → Life → Life
unfolding after_worker reconnect_worker
read_error p short l =
    if short
    then l
    else after_worker (
        reconnect_worker p.worker_network
          (record l { monitor_fail_streak = (l.monitor_fail_streak + 1) % 256 }))

unfoldable pub count_timeout : Life → Life
count_timeout l = record l { timeout_counter = (l.timeout_counter + 1) % 2 ^ 32 }

-- The life after a read.
unfoldable pub life_after : Pass → Read → Life → Life
unfolding read_error count_timeout handler_life
life_after p unparsed l = count_timeout l
life_after p (undecrypted from) l = handler_life p.in_handler l
life_after p (read_failed short) l = read_error p short l
life_after p message_empty l = count_timeout (record l { monitor_fail_streak = 0 })
life_after p message_error_read l = record l { monitor_fail_streak = 0; timeout_counter = overdue }
life_after p message_response l = record l { monitor_fail_streak = 0; timeout_counter = 0 }
life_after p message_unparsed l = record l { monitor_fail_streak = 0; timeout_counter = overdue }
life_after p message_other l = record l { monitor_fail_streak = 0 }
life_after p (message_undecrypted from) l =
    handler_life p.in_handler (record l { monitor_fail_streak = 0 })
life_after p (message_notification n) l =
    handler_life p.in_handler (record l { monitor_fail_streak = 0; timeout_counter = 0 })

module _ (host : Host) (config : Config) (secs : ℕ) where
  open host use {Json}

  unfoldable pub acts : List (Action Json) → List (LoopAction Json)
  acts [] = []
  acts (a ∷ as_) = act a ∷ acts as_

  -- The calls of on_tunnel_close and of noports_relay_stop, by slot.
  unfoldable pub closes : ℕ → List Relay → List (LoopAction Json)
  unfolding cleanup_relay
  closes i [] = []
  closes i (r ∷ rs) = (if (cleanup_relay r).1 then tunnel_close i ∷ [] else []) ++ closes (i + 1) rs

  unfoldable pub stops : ℕ → List Bool → List (LoopAction Json)
  stops i [] = []
  stops i (b ∷ bs) = (if b then stop_relay i ∷ [] else []) ++ stops (i + 1) bs

  -- The handlers that a read calls.
  unfoldable pub handle_read : World → Read → State Json → State Json × List (Action Json)
  handle_read w (undecrypted from) s = handle_decrypt_failure host config w from s
  handle_read w (message_undecrypted from) s = handle_decrypt_failure host config w from s
  handle_read w (message_notification n) s = handle_notification host config w n s
  handle_read w unparsed s = (s, [])
  handle_read w (read_failed short) s = (s, [])
  handle_read w message_empty s = (s, [])
  handle_read w message_error_read s = (s, [])
  handle_read w message_response s = (s, [])
  handle_read w message_unparsed s = (s, [])
  handle_read w message_other s = (s, [])

  unfoldable pub read_step : Pass → Device Json → Device Json × List (LoopAction Json)
  unfolding handle_read life_after acts
  read_step p d =
      let (s, as_) = handle_read p.world p.read d.state in
      (record d { state = s; life = life_after p p.read d.life }, acts as_)

  -- The end of a pass, after an attempt to reconnect the monitor.
  unfoldable pub after_reconnect :
      Pass → Device Json → Reconnected → Device Json × List (LoopAction Json)
  unfolding read_step
  after_reconnect p d restarts = (d, restart_device ∷ [])
  after_reconnect p d (result l ok) =
      if ok
      then read_step p (record d { life = record l { timeout_counter = 0 } })
      else (record d { life = record l { timeout_counter = overdue } }, [])

  -- A reconnect after a failure waits first.
  unfoldable pub waits : Life → List (LoopAction Json)
  unfolding backoff_ms
  waits l =
      if leb max_failures l.reconnect_failures || l.reconnect_failures == 0
      then []
      else wait_ms (backoff_ms l.reconnect_failures) ∷ []

  unfoldable pub monitor_step : Pass → Device Json → Device Json × List (LoopAction Json)
  unfolding after_reconnect read_step reconnect_monitor waits
  monitor_step p d =
      if ltb noop_timeout_ms ((d.life.timeout_counter * read_timeout_ms) % 2 ^ 32)
      then (let (e, bs) = after_reconnect p d (reconnect_monitor p.monitor_network d.life) in
          (e, waits d.life ++ bs))
      else read_step p d

  -- The policy timeout sends an error only where it does anything.
  unfoldable pub timeout_life : List WorkerUse → List (Action Json) → Life → Life
  unfolding handler_life
  timeout_life us [] l = l
  timeout_life us (a ∷ as_) l = handler_life us l

  -- The upkeep before the read: finished relays, client keys, the policy timeout, the keep-alive.
  unfoldable pub upkeep : Pass → Device Json → Device Json × List (LoopAction Json)
  unfolding cleanup_keys keep_alive keep_alive_due timeout_life acts closes stops
  upkeep p d =
      let checked =
        check_client_keys secs p.now_ms d.last_key_check_ms p.check
          (cleanup_keys d.relays d.keys) in
      let (s, as_) = policy_timeout host config p.world d.state in
      let l = timeout_life p.at_timeout as_ d.life in
      (
        record {
          life = keep_alive p l;
          state = s;
          relays = map (λ (r : Relay). (cleanup_relay r).0) d.relays;
          keys = checked.0.0;
          last_key_check_ms = checked.1;
        },
        closes 0 d.relays
            ++ (stops 0 checked.0.1
                ++ (acts as_ ++ (if keep_alive_due p l then send_heartbeat ∷ [] else []))),
      )

  unfoldable pub is_monitoring : DaemonState → Bool
  is_monitoring daemon_monitoring = true
  is_monitoring daemon_uninitialized = false
  is_monitoring daemon_initializing = false
  is_monitoring daemon_authenticating = false
  is_monitoring daemon_error = false
  is_monitoring daemon_stopped = false

  unfoldable pub then_monitor :
      Pass → Device Json × List (LoopAction Json) → Device Json × List (LoopAction Json)
  unfolding monitor_step
  then_monitor p (d, as_) = let (e, bs) = monitor_step p d in (e, as_ ++ bs)

  -- loop
  unfoldable pub loop : Pass → Device Json → Device Json × List (LoopAction Json)
  unfolding then_monitor upkeep is_monitoring
  loop p d =
      if not (is_monitoring d.life.state) || not d.life.should_run
      then (d, [])
      else then_monitor p (upkeep p d)

  unfoldable pub stop_running : ℕ → List Relay → List (LoopAction Json)
  unfolding is_running
  stop_running i [] = []
  stop_running i (r ∷ rs) =
      (if (is_running r).1 then stop_relay i ∷ [] else []) ++ stop_running (i + 1) rs

  -- stop: every running relay is told to stop, and every key is forgotten.
  unfoldable pub stop : Device Json → Device Json × List (LoopAction Json)
  unfolding stop_running
  stop d = (
    record d {
      life = record d.life { should_run = false; state = daemon_stopped };
      relays = map (λ (r : Relay). (is_running r).0) d.relays;
      keys = map (λ (k : Key). no_key) d.keys;
    },
    stop_running 0 d.relays,
  )
