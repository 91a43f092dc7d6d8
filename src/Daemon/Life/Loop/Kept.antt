-- ===== src/Daemon/Life/Loop/Kept.antt =====
-- The bounds of the daemon's counters over a pass of its loop.
use noports.Prelude.{
  ℕ, ◌*◌, ◌^◌, ◌%◌, ◌<◌, inl, inr, true, false, ◌||◌, not, arith, ltb, Bool-cases, List, [], ◌∷◌,
}
use noports.Daemon.Host.{Host}
use noports.Daemon.State.{Config, Action}
use noports.Daemon.Response.{policy_timeout}
use noports.Daemon.Life.{Life}
use noports.Daemon.Life.Reconnect.{Reconnected, restarts, result, reconnect_monitor}
use noports.Daemon.Life.Bounds.{
  IsBounded, handler_life-IsBounded, keep_alive-IsBounded, life_after-IsBounded,
  Reconnected-IsBounded, reconnect_monitor-IsBounded,
}
use noports.Daemon.Life.Loop.{
  WorkerUse, timeout_life, Pass, Device, overdue, noop_timeout_ms, read_timeout_ms, read_step,
  after_reconnect, monitor_step, upkeep, then_monitor, is_monitoring, loop,
}

module _ (host : Host) (config : Config) (secs : ℕ) where
  open host use {Json}

  read_step-IsBounded :
      (p : Pass) (d : Device Json)
      → d.life.timeout_counter < overdue
      → IsBounded d.life
      → IsBounded (read_step host config secs p d).0.life
  unfolding read_step
  read_step-IsBounded p d h b = life_after-IsBounded p p.read d.life h b

  after_reconnect-IsBounded :
      (p : Pass) (d : Device Json) (r : Reconnected)
      → IsBounded d.life
      → Reconnected-IsBounded r
      → IsBounded (after_reconnect host config secs p d r).0.life
  unfolding after_reconnect
  after_reconnect-IsBounded p d restarts b c = b
  after_reconnect-IsBounded p d (result l true) b c =
      read_step-IsBounded p (record d { life = record l { timeout_counter = 0 } }) (omega arith)
        (ground arith)
  after_reconnect-IsBounded p d (result l false) b c = ground arith

  monitor_step-IsBounded :
      (p : Pass) (d : Device Json)
      → IsBounded d.life
      → IsBounded (monitor_step host config secs p d).0.life
  unfolding monitor_step
  monitor_step-IsBounded p d b =
      elim (Bool-cases
        (ltb noop_timeout_ms ((d.life.timeout_counter * read_timeout_ms) % 2 ^ 32))) [
          | inl e ↦ rw e (
              after_reconnect-IsBounded p d (reconnect_monitor p.monitor_network d.life) b
                (reconnect_monitor-IsBounded p.monitor_network d.life b))
          | inr e ↦ rw e (read_step-IsBounded p d (ground (arith, e, b.counter)) b)
        ]

  timeout_life-IsBounded :
      (us : List WorkerUse) (as_ : List (Action Json)) (l : Life)
      → IsBounded l
      → IsBounded (timeout_life host config secs us as_ l)
  unfolding timeout_life
  timeout_life-IsBounded us [] l b = b
  timeout_life-IsBounded us (a ∷ as_) l b = handler_life-IsBounded us l b

  -- A pass of the loop keeps the daemon's counters within their bounds: at most 401 quiet passes are
  -- counted before the monitor is reconnected, the failures and the streak fit a byte, and the name
  -- of the atServer fits its buffer.
  pub loop-IsBounded :
      (p : Pass) (d : Device Json) → IsBounded d.life → IsBounded (loop host config secs p d).0.life
  unfolding loop then_monitor upkeep
  loop-IsBounded p d b =
      elim (Bool-cases
        (not (is_monitoring host config secs d.life.state) || not d.life.should_run)) [
          | inl e ↦ rw e b
          | inr e ↦ rw e (
              monitor_step-IsBounded p (upkeep host config secs p d).0 (
                keep_alive-IsBounded p
                  (timeout_life host config secs p.at_timeout
                    (policy_timeout host config p.world d.state).1 d.life)
                  (timeout_life-IsBounded p.at_timeout
                    (policy_timeout host config p.world d.state).1 d.life b)))
        ]
