-- ===== src/Examples/Life.antt =====
-- The theorems on the daemon's loop, on the example device.
use noports.Prelude.{◌≡◌, inl, refl, true, false, none, [], ◌∷◌, arith, codes}
use noports.Daemon.ClientKeys.{published}
use noports.Daemon.Life.{Life, Network, daemon_monitoring}
use noports.Daemon.Life.Bounds.{IsBounded}
use noports.Daemon.Life.Loop.{Pass, Device, message_empty, loop}
use noports.Daemon.Life.Loop.Kept.{loop-IsBounded}
use noports.Daemon.Response.Age.{IsYoung}
use noports.Daemon.Life.Loop.Young.{loop-IsYoung}
use noports.Daemon.Life.Loop.Recovery.{run_restarts, run_restarts-down}
use noports.Examples.Device.{Doc, device, config, world, calm, waiting}

-- A daemon whose monitor is overdue after nine failures.
abbrev life : Life
life = record {
  state = daemon_monitoring;
  should_run = true;
  via_proxy = false;
  timeout_counter = 401;
  reconnect_failures = 9;
  monitor_fail_streak = 0;
  worker_keepalive_ms = 0;
  worker_last_used_ms = 0;
  atserver_host = codes "host";
  atserver_port = 64;
}

abbrev down : Device Doc
down = record { life = life; state = calm; relays = []; keys = []; last_key_check_ms = 0 }

abbrev cut_off : Network
cut_off = record {
  first_auth = false;
  directory = none;
  second_auth = false;
  monitor_start = false;
  done_ms = 0;
}

abbrev pass : Pass
pass = record {
  world = world;
  now_ms = 1000;
  check = λ k. published;
  heartbeat = true;
  heartbeat_network = cut_off;
  monitor_network = cut_off;
  worker_network = cut_off;
  in_handler = [];
  at_timeout = [];
  read = message_empty;
}

loop-IsBounded_example : IsBounded (loop device config 60 pass down).0.life
loop-IsBounded_example = loop-IsBounded device config 60 pass down (record {
  counter = omega arith;
  failures = omega arith;
  streak = omega arith;
  host = omega arith;
})

-- A pass at which a check in flight has waited for 39 seconds.
abbrev late_pass : Pass
late_pass = record pass { world = record world { now_ms = 40000 } }

abbrev busy : Device Doc
busy = record down { state = waiting }

loop-IsYoung_example : IsYoung 40000 (loop device config 60 late_pass busy).0.state
loop-IsYoung_example = loop-IsYoung device config 60 late_pass busy refl refl

run_restarts-down_example : run_restarts device config 60 (pass ∷ pass ∷ []) down ≡ true
run_restarts-down_example =
    run_restarts-down device config 60 (pass ∷ pass ∷ []) down
      (record { monitoring = refl; runs = refl; is_overdue = refl }) (inl refl, (inl refl, tt))
      (omega arith) (omega arith)
