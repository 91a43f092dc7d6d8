-- ===== src/Daemon/Life/Loop/Recovery.antt =====
-- A daemon whose connection stays down restarts its device.
use noports.Prelude.{
  ℕ, ◌+◌, ◌*◌, ◌^◌, ◌%◌, ◌≤◌, ◌<◌, ◌≡◌, ◌⊎◌, inl, inr, refl, ◌∙◌, Bool, true, false, Option, none,
  some, List, [], ◌∷◌, ◌++◌, arith, leb, ltb, if◌then◌else◌, Text, All, any, length, Bool-cases,
}
use noports.Daemon.Host.{Host}
use noports.Daemon.State.{Config, Action}
use noports.Daemon.Response.{policy_timeout}
use noports.Daemon.Life.{Life, Network, DaemonState, daemon_monitoring}
use noports.Daemon.Life.Reconnect.{
  new_address, refresh_at_server_cache, count_failure, retry, authenticate, worker_result,
  reconnect_worker, restarts, result, start_monitor, reconnect_monitor, max_failures,
}
use noports.Daemon.Life.Loop.{
  WorkerUse, reconnects, notifies, retried, use_worker, handler_life, timeout_life, Pass, Device,
  LoopAction, restart_device, overdue, noop_timeout_ms, read_timeout_ms, keep_alive, worker_life,
  after_reconnect, waits, monitor_step, upkeep, then_monitor, is_monitoring, loop,
}

-- A reconnect of the monitor fails: it cannot be started, or no authentication passes.
abbrev pub Fails : Network → Type 0
Fails n = (n.monitor_start ≡ false) ⊎ ((n.first_auth ≡ false) × (n.second_auth ≡ false))

-- What a reconnect leaves: the mode, and no fewer failures.
abbrev Goes : Life → Life → Type 0
Goes l m =
    (m.state ≡ l.state)
    × (m.should_run ≡ l.should_run)
    × (m.timeout_counter ≡ l.timeout_counter)
    × (l.reconnect_failures ≤ m.reconnect_failures)

new_address-Goes :
    (l : Life) (o : Option (Text × ℕ))
    → Goes l (new_address l o).0 × ((new_address l o).0.reconnect_failures ≡ l.reconnect_failures)
unfolding new_address
new_address-Goes l none = ((refl, refl, refl, omega arith), refl)
new_address-Goes l (some (h, p)) = (ground arith, ground arith)

-- A first failure is counted; below 255 the counter grows.
authenticate-Goes :
    (n : Network) (l : Life)
    → Goes l (authenticate n l).0
      × ((authenticate n l).1 ≡ true
          → (authenticate n l).0.reconnect_failures ≡ l.reconnect_failures)
      × ((authenticate n l).1 ≡ false
          → l.reconnect_failures < 255
          → (authenticate n l).0.reconnect_failures ≡ l.reconnect_failures + 1)
unfolding authenticate retry refresh_at_server_cache count_failure
authenticate-Goes n l = (
  ground (arith, new_address-Goes l n.directory),
  λ e. ground (arith, new_address-Goes l n.directory, e),
  λ e h. ground (arith, new_address-Goes l n.directory, e, h),
)

authenticate-fails :
    (n : Network) (l : Life)
    → n.first_auth ≡ false
    → n.second_auth ≡ false
    → (authenticate n l).1 ≡ false
unfolding authenticate retry
authenticate-fails n l a b = ground arith

keep_alive-Goes : (p : Pass) (l : Life) → Goes l (keep_alive p l)
unfolding keep_alive worker_life reconnect_worker worker_result
keep_alive-Goes p l = ground (arith, authenticate-Goes p.heartbeat_network l)

use_worker-Goes : (u : WorkerUse) (l : Life) → Goes l (use_worker u l)
unfolding use_worker worker_life retried reconnect_worker worker_result
use_worker-Goes (reconnects n) l = ground (arith, authenticate-Goes n l)
use_worker-Goes (notifies f n s t) l = ground (arith, authenticate-Goes n l)

Goes-trans : (l m n : Life) → Goes l m → Goes m n → Goes l n
Goes-trans l m n (a, b, c, d) (e, f, g, h) = (e ∙ a, f ∙ b, g ∙ c, omega arith)

handler_life-Goes : (us : List WorkerUse) (l : Life) → Goes l (handler_life us l)
unfolding handler_life
handler_life-Goes [] l = (refl, refl, refl, omega arith)
handler_life-Goes (u ∷ us) l =
    Goes-trans l (use_worker u l) (handler_life us (use_worker u l)) (use_worker-Goes u l)
      (handler_life-Goes us (use_worker u l))

start_monitor-fails :
    (n : Network) (l : Life) (ok : Bool)
    → (n.monitor_start ≡ false) ⊎ (ok ≡ false)
    → l.reconnect_failures < 255
    → (m : Life) × (start_monitor n (l, ok) ≡ result m false)
      × (m.state ≡ l.state)
      × (m.should_run ≡ l.should_run)
      × (m.reconnect_failures ≡ (if ok then l.reconnect_failures + 1 else l.reconnect_failures))
unfolding start_monitor count_failure
start_monitor-fails n l false f h = (l, refl, refl, refl, refl)
start_monitor-fails n l true (inl f) h =
    (record l { reconnect_failures = l.reconnect_failures + 1 }, ground arith, refl, refl, refl)
start_monitor-fails n l true (inr f) h = absurd cc

-- A failing reconnect below the limit of failures counts one.
reconnect_monitor-Fails :
    (n : Network) (l : Life)
    → Fails n
    → l.reconnect_failures < max_failures
    → (m : Life) × (reconnect_monitor n l ≡ result m false)
      × (m.state ≡ l.state)
      × (m.should_run ≡ l.should_run)
      × (m.reconnect_failures ≡ l.reconnect_failures + 1)
unfolding reconnect_monitor
reconnect_monitor-Fails n l f h =
    let (g, t, u) = authenticate-Goes n l in
    let o : (n.monitor_start ≡ false) ⊎ ((authenticate n l).1 ≡ false) = elim f [
      | inl a ↦ inl a
      | inr (a, b) ↦ inr (authenticate-fails n l a b)
    ] in
    elim (Bool-cases (authenticate n l).1) [
      | inl e ↦
          let (m, q, a, b, c) =
            start_monitor-fails n (authenticate n l).0 (authenticate n l).1 o
              (omega (arith, t e)) in
          (
            m,
            ground (arith, q, h),
            ground (arith, a, g),
            ground (arith, b, g),
            ground (arith, c, e, t e),
          )
      | inr e ↦
          let (m, q, a, b, c) =
            start_monitor-fails n (authenticate n l).0 (authenticate n l).1 o
              (omega (arith, u e (omega arith))) in
          (
            m,
            ground (arith, q, h),
            ground (arith, a, g),
            ground (arith, b, g),
            ground (arith, c, e, u e (omega arith)),
          )
    ]

module _ (host : Host) (config : Config) (secs : ℕ) where
  open host use {Json}

  unfoldable pub is_restart : LoopAction Json → Bool
  is_restart restart_device = true
  is_restart (noports.Daemon.Life.Loop.tunnel_close i) = false
  is_restart (noports.Daemon.Life.Loop.stop_relay i) = false
  is_restart (noports.Daemon.Life.Loop.act a) = false
  is_restart noports.Daemon.Life.Loop.send_heartbeat = false
  is_restart (noports.Daemon.Life.Loop.wait_ms n) = false

  unfoldable pub has_restart : List (LoopAction Json) → Bool
  has_restart actions = any is_restart actions

  any-append :
      (xs ys : List (LoopAction Json)) → any is_restart ys ≡ true → any is_restart (xs ++ ys) ≡ true
  any-append [] ys h = h
  any-append (x ∷ xs) ys h = ground (arith, any-append xs ys h)

  -- A daemon that monitors, and whose monitor is to be reconnected in the next pass.
  pub record IsDown (d : Device Json) : Type 0 where
    pub monitoring : d.life.state ≡ daemon_monitoring
    pub runs : d.life.should_run ≡ true
    pub is_overdue : d.life.timeout_counter ≡ overdue

  overdue_test :
      (d : Device Json)
      → d.life.timeout_counter ≡ overdue
      → ltb noop_timeout_ms ((d.life.timeout_counter * read_timeout_ms) % 2 ^ 32) ≡ true
  overdue_test d e = ground (arith, e)

  at_limit :
      (n : Network) (l : Life)
      → max_failures ≤ l.reconnect_failures
      → reconnect_monitor n l ≡ restarts
  unfolding reconnect_monitor
  at_limit n l h = ground arith

  monitor_step-restarts :
      (p : Pass) (d : Device Json)
      → d.life.timeout_counter ≡ overdue
      → max_failures ≤ d.life.reconnect_failures
      → has_restart (monitor_step host config secs p d).1 ≡ true
  unfolding monitor_step has_restart
  monitor_step-restarts p d e h =
      rw (overdue_test d e, at_limit p.monitor_network d.life h)
        (any-append (waits host config secs d.life) (restart_device ∷ [])
          (unfold is_restart in refl))

  monitor_step-IsDown :
      (p : Pass) (d : Device Json)
      → Fails p.monitor_network
      → IsDown d
      → d.life.reconnect_failures < max_failures
      → IsDown (monitor_step host config secs p d).0
        × ((monitor_step host config secs p d).0.life.reconnect_failures
            ≡ d.life.reconnect_failures + 1)
  unfolding monitor_step after_reconnect
  monitor_step-IsDown p d f b h =
      let (m, q, s, r, c) = reconnect_monitor-Fails p.monitor_network d.life f h in
      rw (overdue_test d b.is_overdue, q)
        (record { monitoring = s ∙ b.monitoring; runs = r ∙ b.runs; is_overdue = refl }, c)

  timeout_life-Goes :
      (us : List WorkerUse) (as_ : List (Action Json)) (l : Life)
      → Goes l (timeout_life host config secs us as_ l)
  unfolding timeout_life
  timeout_life-Goes us [] l = (refl, refl, refl, omega arith)
  timeout_life-Goes us (a ∷ as_) l = handler_life-Goes us l

  upkeep-IsDown :
      (p : Pass) (d : Device Json)
      → IsDown d
      → IsDown (upkeep host config secs p d).0
        × (d.life.reconnect_failures ≤ (upkeep host config secs p d).0.life.reconnect_failures)
  unfolding upkeep
  upkeep-IsDown p d b =
      let as_ = (policy_timeout host config p.world d.state).1 in
      let l = timeout_life host config secs p.at_timeout as_ d.life in
      let (s, r, t, f) =
        Goes-trans d.life l (keep_alive p l) (timeout_life-Goes p.at_timeout as_ d.life)
          (keep_alive-Goes p l) in
      (
        record { monitoring = s ∙ b.monitoring; runs = r ∙ b.runs; is_overdue = t ∙ b.is_overdue },
        f,
      )

  -- A pass of a daemon that is down is one of its monitor step, after the upkeep.
  loop-down :
      (p : Pass) (d : Device Json)
      → IsDown d
      → loop host config secs p d ≡ then_monitor host config secs p (upkeep host config secs p d)
  unfolding loop is_monitoring
  loop-down p d b = rw (b.monitoring, b.runs) refl

  loop-restarts :
      (p : Pass) (d : Device Json)
      → IsDown d
      → max_failures ≤ (upkeep host config secs p d).0.life.reconnect_failures
      → has_restart (loop host config secs p d).1 ≡ true
  unfolding then_monitor has_restart
  loop-restarts p d b h = rw (loop-down p d b) (
      any-append (upkeep host config secs p d).1
        (monitor_step host config secs p (upkeep host config secs p d).0).1
        (monitor_step-restarts p (upkeep host config secs p d).0 (upkeep-IsDown p d b).0.is_overdue
          h))

  loop-IsDown :
      (p : Pass) (d : Device Json)
      → Fails p.monitor_network
      → IsDown d
      → (upkeep host config secs p d).0.life.reconnect_failures < max_failures
      → IsDown (loop host config secs p d).0
        × (d.life.reconnect_failures < (loop host config secs p d).0.life.reconnect_failures)
        × ((loop host config secs p d).0.life.reconnect_failures ≤ max_failures)
  unfolding then_monitor
  loop-IsDown p d f b h =
      let (u, g) = upkeep-IsDown p d b in
      let (v, c) = monitor_step-IsDown p (upkeep host config secs p d).0 f u h in
      rw (loop-down p d b) (v, omega (arith, c, g), omega (arith, c, h))

  -- Whether a run of the loop restarts the device.
  unfoldable pub run_restarts : List Pass → Device Json → Bool
  unfolding has_restart
  run_restarts [] d = false
  run_restarts (p ∷ ps) d =
      let rest = run_restarts ps (loop host config secs p d).0 in
      if has_restart (loop host config secs p d).1 then true else rest

  if-either : (b c : Bool) → c ≡ true → (if b then true else c) ≡ true
  if-either true c e = refl
  if-either false c e = e

  -- A daemon whose monitor is to be reconnected, and whose every attempt fails, restarts its device
  -- within eleven passes less the failures that it has counted, whatever else the passes meet.
  pub run_restarts-down :
      (ps : List Pass) (d : Device Json)
      → IsDown d
      → All (λ p. Fails p.monitor_network) ps
      → max_failures < length ps + d.life.reconnect_failures
      → d.life.reconnect_failures ≤ max_failures
      → run_restarts ps d ≡ true
  unfolding run_restarts
  run_restarts-down [] d b f h l = absurd (omega arith)
  run_restarts-down (p ∷ ps) d b f h l =
      elim (Bool-cases (leb max_failures (upkeep host config secs p d).0.life.reconnect_failures)) [
        | inl e ↦ rw (loop-restarts p d b (ground (arith, e))) refl
        | inr e ↦
            let (v, g, m) = loop-IsDown p d f.0 b (ground (arith, e)) in
            if-either (has_restart (loop host config secs p d).1)
              (run_restarts ps (loop host config secs p d).0)
              (run_restarts-down ps (loop host config secs p d).0 v f.1 (omega arith) m)
      ]
