-- ===== src/Daemon/Life/Reconnect.antt =====
-- noports_daemon.cpp: _refreshAtServerCache, _reconnectMonitor and _reconnectWorker. The waits for
-- free heap change no state and are left out.
use noports.Prelude.{
  ℕ, zero, suc, ◌+◌, ◌*◌, ◌^◌, ◌%◌, Bool, true, false, ◌&&◌, ◌||◌, not, Option, none, some, leb,
  ltb, ◌==◌, if◌then◌else◌, Text, str_eq, take,
}
use noports.Daemon.Life.{Life, Network}

-- NOPORTS_MAX_RECONNECT_FAILURES, and sizeof(_atserver_host) less the zero.
abbrev pub max_failures : ℕ
max_failures = 10

abbrev pub host_room : ℕ
host_room = 253

-- The directory's answer, if it is an address that differs from the one that is cached.
unfoldable pub new_address : Life → Option (Text × ℕ) → Life × Bool
unfolding str_eq
new_address l none = (l, false)
new_address l (some (host, port)) =
    if port == 0
    then (l, false)
    else if not (str_eq l.atserver_host host) || not (l.atserver_port == port)
    then (record l { atserver_host = take host_room host; atserver_port = port }, true)
    else (l, false)

-- _refreshAtServerCache
unfoldable pub refresh_at_server_cache : Network → Life → Life × Bool
unfolding new_address
refresh_at_server_cache n l = if l.via_proxy then (l, false) else new_address l n.directory

-- `if (_reconnect_failures < 255) _reconnect_failures++`
unfoldable pub count_failure : Life → Life
count_failure l =
    if ltb l.reconnect_failures 255
    then record l { reconnect_failures = l.reconnect_failures + 1 }
    else l

unfoldable pub retry : Network → Life × Bool → Life × Bool
unfolding count_failure
retry n (l, changed) = if changed && n.second_auth then (l, true) else (count_failure l, false)

-- The authentication, with one retry where the atServer has moved.
unfoldable pub authenticate : Network → Life → Life × Bool
unfolding retry refresh_at_server_cache
authenticate n l = if n.first_auth then (l, true) else retry n (refresh_at_server_cache n l)

unfoldable pub worker_result : Network → Life × Bool → Life × Bool
worker_result n (l, ok) =
    if ok then (record l { worker_last_used_ms = n.done_ms }, true) else (l, false)

-- _reconnectWorker
unfoldable pub reconnect_worker : Network → Life → Life × Bool
unfolding worker_result authenticate
reconnect_worker n l = worker_result n (authenticate n l)

-- The milliseconds that a monitor reconnect waits first.
unfoldable pub backoff_ms : ℕ → ℕ
backoff_ms zero = 0
backoff_ms (suc f) = let ms = (5000 * 2 ^ f) % 2 ^ 32 in if ltb 30000 ms then 30000 else ms

-- What a monitor reconnect comes to: a restart of the device, or its result.
pub data Reconnected : Type 0 where
  restarts : Reconnected
  result : Life → Bool → Reconnected

unfoldable pub start_monitor : Network → Life × Bool → Reconnected
unfolding count_failure
start_monitor n (l, ok) =
    if not ok
    then result l false
    else if n.monitor_start
    then result (record l { reconnect_failures = 0 }) true
    else result (count_failure l) false

-- _reconnectMonitor
unfoldable pub reconnect_monitor : Network → Life → Reconnected
unfolding start_monitor authenticate
reconnect_monitor n l =
    if leb max_failures l.reconnect_failures then restarts else start_monitor n (authenticate n l)
