-- ===== src/Daemon/Life/Bounds.antt =====
-- How far the counters of the daemon's life go.
use noports.Prelude.{
  ℕ, ◌+◌, ◌%◌, ◌≤◌, ◌<◌, inl, inr, Bool, true, false, Option, none, some, List, [], ◌∷◌, arith, leb,
  Text, length, length-take-le, Bool-cases,
}
use noports.Daemon.Life.{Life, Network}
use noports.Daemon.Life.Reconnect.{
  new_address, refresh_at_server_cache, count_failure, retry, authenticate, worker_result,
  reconnect_worker, Reconnected, restarts, result, start_monitor, reconnect_monitor, host_room,
  max_failures,
}
use noports.Daemon.Life.Loop.{
  Read, unparsed, undecrypted, read_failed, message_empty, message_error_read, message_response,
  message_unparsed, message_other, message_undecrypted, message_notification, Pass, overdue,
  WorkerUse, reconnects, notifies, retried, use_worker, worker_life, handler_life, keep_alive,
  after_worker, read_error, count_timeout, life_after,
}

-- The counters within their bounds, and the name of the atServer within its buffer.
pub record IsBounded (l : Life) : Type 0 where
  pub counter : l.timeout_counter ≤ overdue
  pub failures : l.reconnect_failures ≤ 255
  pub streak : l.monitor_fail_streak < 256
  pub host : length l.atserver_host ≤ host_room

new_address-IsBounded :
    (l : Life) (o : Option (Text × ℕ)) → IsBounded l → IsBounded (new_address l o).0
unfolding new_address
new_address-IsBounded l none b = b
new_address-IsBounded l (some (h, p)) b = ground (arith, length-take-le host_room h)

authenticate-IsBounded : (n : Network) (l : Life) → IsBounded l → IsBounded (authenticate n l).0
unfolding authenticate retry refresh_at_server_cache count_failure
authenticate-IsBounded n l b = ground (arith, new_address-IsBounded l n.directory b)

reconnect_worker-IsBounded :
    (n : Network) (l : Life) → IsBounded l → IsBounded (reconnect_worker n l).0
unfolding reconnect_worker worker_result
reconnect_worker-IsBounded n l b = ground (arith, authenticate-IsBounded n l b)

use_worker-IsBounded : (u : WorkerUse) (l : Life) → IsBounded l → IsBounded (use_worker u l)
unfolding use_worker worker_life retried
use_worker-IsBounded (reconnects n) l b = reconnect_worker-IsBounded n l b
use_worker-IsBounded (notifies f n s t) l b = ground (arith, reconnect_worker-IsBounded n l b)

pub handler_life-IsBounded :
    (us : List WorkerUse) (l : Life) → IsBounded l → IsBounded (handler_life us l)
unfolding handler_life
handler_life-IsBounded [] l b = b
handler_life-IsBounded (u ∷ us) l b =
    handler_life-IsBounded us (use_worker u l) (use_worker-IsBounded u l b)

pub keep_alive-IsBounded : (p : Pass) (l : Life) → IsBounded l → IsBounded (keep_alive p l)
unfolding keep_alive worker_life
keep_alive-IsBounded p l b = ground (arith, reconnect_worker-IsBounded p.heartbeat_network l b)

after_worker-IsBounded : (q : Life × Bool) → IsBounded q.0 → IsBounded (after_worker q)
unfolding after_worker
after_worker-IsBounded (l, ok) b = ground arith

read_error-IsBounded : (p : Pass) (s : Bool) (l : Life) → IsBounded l → IsBounded (read_error p s l)
unfolding read_error
read_error-IsBounded p true l b = b
read_error-IsBounded p false l b =
    after_worker-IsBounded
      (reconnect_worker p.worker_network
        (record l { monitor_fail_streak = (l.monitor_fail_streak + 1) % 256 }))
      (reconnect_worker-IsBounded p.worker_network
        (record l { monitor_fail_streak = (l.monitor_fail_streak + 1) % 256 })
        (record {
          counter = b.counter;
          failures = b.failures;
          streak = omega arith;
          host = b.host;
        }))

-- A read counts one timeout at most, which stays within the bounds where the monitor was not overdue.
pub life_after-IsBounded :
    (p : Pass) (r : Read) (l : Life)
    → l.timeout_counter < overdue
    → IsBounded l
    → IsBounded (life_after p r l)
unfolding life_after count_timeout
life_after-IsBounded p unparsed l h b = ground arith
life_after-IsBounded p (undecrypted from) l h b = handler_life-IsBounded p.in_handler l b
life_after-IsBounded p (read_failed s) l h b = read_error-IsBounded p s l b
life_after-IsBounded p message_empty l h b = ground arith
life_after-IsBounded p message_error_read l h b = ground arith
life_after-IsBounded p message_response l h b = ground arith
life_after-IsBounded p message_unparsed l h b = ground arith
life_after-IsBounded p message_other l h b = ground arith
life_after-IsBounded p (message_undecrypted from) l h b =
    handler_life-IsBounded p.in_handler (record l { monitor_fail_streak = 0 }) (ground arith)
life_after-IsBounded p (message_notification n) l h b =
    handler_life-IsBounded p.in_handler (record l { monitor_fail_streak = 0; timeout_counter = 0 })
      (ground arith)

-- What a monitor reconnect leaves is within the bounds.
abbrev pub Reconnected-IsBounded : Reconnected → Type 0
Reconnected-IsBounded restarts = Unit
Reconnected-IsBounded (result l ok) = IsBounded l

start_monitor-IsBounded :
    (n : Network) (q : Life × Bool) → IsBounded q.0 → Reconnected-IsBounded (start_monitor n q)
unfolding start_monitor count_failure
start_monitor-IsBounded n (l, false) b = b
start_monitor-IsBounded n (l, true) b = elim (Bool-cases n.monitor_start) [
  | inl e ↦ rw e (ground arith)
  | inr e ↦ rw e (ground arith)
]

pub reconnect_monitor-IsBounded :
    (n : Network) (l : Life) → IsBounded l → Reconnected-IsBounded (reconnect_monitor n l)
unfolding reconnect_monitor
reconnect_monitor-IsBounded n l b = elim (Bool-cases (leb max_failures l.reconnect_failures)) [
  | inl e ↦ rw e tt
  | inr e ↦ rw e (start_monitor-IsBounded n (authenticate n l) (authenticate-IsBounded n l b))
]
