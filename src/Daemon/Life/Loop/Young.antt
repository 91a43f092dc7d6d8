-- ===== src/Daemon/Life/Loop/Young.antt =====
-- How old a check in flight can be after a pass of the daemon's loop.
use noports.Prelude.{
  ℕ, ◌≡◌, refl, Bool, true, false, ◌||◌, ◌*◌, ◌%◌, ◌^◌, not, ltb, if◌then◌else◌, List,
}
use noports.Daemon.Host.{Host}
use noports.Daemon.State.{Config, State, World}
use noports.Daemon.Response.Age.{
  IsYoung, handle_notification-IsYoung, handle_decrypt_failure-IsYoung, policy_timeout-IsYoung,
}
use noports.Daemon.Life.{daemon_monitoring}
use noports.Daemon.Life.Reconnect.{Reconnected, restarts, result, reconnect_monitor}
use noports.Daemon.Life.Loop.{
  Read, unparsed, undecrypted, read_failed, message_empty, message_error_read, message_response,
  message_unparsed, message_other, message_undecrypted, message_notification, Pass, Device,
  LoopAction, noop_timeout_ms, read_timeout_ms, handle_read, read_step, after_reconnect,
  monitor_step, upkeep, then_monitor, is_monitoring, loop,
}

module _ (host : Host) (config : Config) (secs : ℕ) where
  open host use {Json}

  handle_read-IsYoung :
      (w : World) (r : Read) (s : State Json)
      → IsYoung w.now_ms s
      → IsYoung w.now_ms (handle_read host config secs w r s).0
  unfolding handle_read
  handle_read-IsYoung w (undecrypted from) s v =
      handle_decrypt_failure-IsYoung host config w from s v
  handle_read-IsYoung w (message_undecrypted from) s v =
      handle_decrypt_failure-IsYoung host config w from s v
  handle_read-IsYoung w (message_notification n) s v =
      handle_notification-IsYoung host config w n s v
  handle_read-IsYoung w unparsed s v = v
  handle_read-IsYoung w (read_failed short) s v = v
  handle_read-IsYoung w message_empty s v = v
  handle_read-IsYoung w message_error_read s v = v
  handle_read-IsYoung w message_response s v = v
  handle_read-IsYoung w message_unparsed s v = v
  handle_read-IsYoung w message_other s v = v

  read_step-IsYoung :
      (p : Pass) (d : Device Json)
      → IsYoung p.world.now_ms d.state
      → IsYoung p.world.now_ms (read_step host config secs p d).0.state
  unfolding read_step
  read_step-IsYoung p d v = handle_read-IsYoung p.world p.read d.state v

  after_reconnect-IsYoung :
      (p : Pass) (d : Device Json) (r : Reconnected)
      → IsYoung p.world.now_ms d.state
      → IsYoung p.world.now_ms (after_reconnect host config secs p d r).0.state
  unfolding after_reconnect
  after_reconnect-IsYoung p d restarts v = v
  after_reconnect-IsYoung p d (result l true) v =
      read_step-IsYoung p (record d { life = record l { timeout_counter = 0 } }) v
  after_reconnect-IsYoung p d (result l false) v = v

  if-IsYoung :
      (now : ℕ) (b : Bool) (x y : Device Json × List (LoopAction Json))
      → IsYoung now x.0.state
      → IsYoung now y.0.state
      → IsYoung now (if b then x else y).0.state
  if-IsYoung now true x y p q = p
  if-IsYoung now false x y p q = q

  monitor_step-IsYoung :
      (p : Pass) (d : Device Json)
      → IsYoung p.world.now_ms d.state
      → IsYoung p.world.now_ms (monitor_step host config secs p d).0.state
  unfolding monitor_step
  monitor_step-IsYoung p d v =
      if-IsYoung p.world.now_ms
        (ltb noop_timeout_ms ((d.life.timeout_counter * read_timeout_ms) % 2 ^ 32)) _ _
        (after_reconnect-IsYoung p d (reconnect_monitor p.monitor_network d.life) v)
        (read_step-IsYoung p d v)

  -- After any pass of a daemon that monitors and runs, whatever was in flight before it, whatever is
  -- read in the pass and whether or not the monitor is reconnected, a policy check in flight was begun
  -- at most 30 seconds, and made progress at most 10 seconds, before the time of the pass.
  pub loop-IsYoung :
      (p : Pass) (d : Device Json)
      → d.life.state ≡ daemon_monitoring
      → d.life.should_run ≡ true
      → IsYoung p.world.now_ms (loop host config secs p d).0.state
  unfolding loop then_monitor upkeep is_monitoring
  loop-IsYoung p d m r =
      let g : (not (is_monitoring host config secs d.life.state) || not d.life.should_run) ≡ false =
        rw (m, r) refl in
      rw g (
        monitor_step-IsYoung p (upkeep host config secs p d).0
          (policy_timeout-IsYoung host config p.world d.state))
