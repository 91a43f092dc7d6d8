-- ===== src/Relay/Sub/Service.antt =====
-- noports_relay.cpp: one pass of the relay loop over one connection, in its two states.
pub mod Outcomes
pub mod Run
pub mod Drain
use noports.Prelude.{
  ℕ, ◌+◌, Bool, true, false, ◌&&◌, ◌||◌, not, Option, none, some, List, [], ◌∷◌, ltb, leb,
  if◌then◌else◌, Text,
}
use noports.Relay.Forward.{Cipher, Io, Line, Pass, direction}
use noports.Relay.Sub.{elapsed, peer_drain_max_ms, stall_timeout_ms, Slot, Peers, close_slot}

module _ (cipher : Cipher) where
  -- A connection with its two directions.
  pub record Conn : Type 0 where
    pub slot : Slot
    pub to_local : Line cipher
    pub to_rvd : Line cipher

  -- What a pass meets; `peers` is what the sockets show once both directions were served.
  pub record Env : Type 0 where
    pub now_ms : ℕ
    pub local_io : Io
    pub rvd_io : Io
    pub peers : Peers

  -- _close_relay_sub: what waits in the two buffers goes with the connection.
  unfoldable pub close_conn : Conn → Conn
  unfolding close_slot
  close_conn c = record c {
    slot = close_slot c.slot;
    to_local = record c.to_local { pending = [] };
    to_rvd = record c.to_rvd { pending = [] };
  }

  unfoldable pub local_gone : Env → Bool
  local_gone e = not e.peers.local_available && e.peers.local_closed

  unfoldable pub rvd_gone : Env → Bool
  rvd_gone e = not e.peers.rvd_available && e.peers.rvd_closed

  -- The drain state: the rest is moved, one pass at a time.
  unfoldable pub drained_rvd : Env → Conn → Bool → Pass cipher → Conn
  unfolding close_conn local_gone
  drained_rvd e c moved p =
      let d = record c { to_rvd = p.line } in
      if p.failed
      then close_conn d
      else if not (moved || p.moved) && local_gone e
      then close_conn d
      else d

  unfoldable pub drained_local : Env → Conn → Pass cipher → Conn
  unfolding drained_rvd
  drained_local e c p =
      let d = record c { to_local = p.line } in
      if p.failed
      then close_conn d
      else drained_rvd e d p.moved (direction cipher true e.rvd_io c.to_rvd)

  unfoldable pub drain_pass : Env → Conn → Conn
  unfolding drained_local elapsed
  drain_pass e c =
      if leb peer_drain_max_ms (elapsed e.now_ms c.slot.drain_start_ms)
      then close_conn c
      else drained_local e c (direction cipher true e.local_io c.to_local)

  -- What a direction leaves of the slot: a write error starts the drain, a move is an activity.
  unfoldable pub noted : ℕ → Pass cipher → Slot → Slot
  noted now p s =
      let t = if p.moved then record s { last_activity_ms = now } else s in
      if p.failed then record t { draining = true; drain_start_ms = now } else t

  unfoldable pub serve_local : Env → Conn → Conn
  unfolding noted
  serve_local e c =
      let p = direction cipher false e.local_io c.to_local in
      record c { to_local = p.line; slot = noted e.now_ms p c.slot }

  unfoldable pub serve_rvd : Env → Conn → Conn
  unfolding noted
  serve_rvd e c =
      let p = direction cipher false e.rvd_io c.to_rvd in
      record c { to_rvd = p.line; slot = noted e.now_ms p c.slot }

  -- Both directions, the other one first in every other pass.
  unfoldable pub serve_both : Env → Conn → Conn
  unfolding serve_local serve_rvd
  serve_both e c =
      let d =
        if c.slot.dir_flip then serve_local e (serve_rvd e c) else serve_rvd e (serve_local e c) in
      record d { slot = record d.slot { dir_flip = not d.slot.dir_flip } }

  -- The peer-close and the stall test.
  unfoldable pub end_test : Env → Conn → Conn
  end_test e c =
      if rvd_gone e || local_gone e
      then close_conn c
      else if ltb stall_timeout_ms (elapsed e.now_ms c.slot.last_activity_ms)
      then close_conn c
      else c

  -- The loop's body for one connection.
  unfoldable pub service : Env → Conn → Conn
  service e c =
      if c.slot.active && c.slot.draining
      then drain_pass e c
      else if not c.slot.active
      then c
      else end_test e (serve_both e c)

  -- The passes of the loop over one connection.
  unfoldable pub service_run : List Env → Conn → Conn
  service_run [] c = c
  service_run (e ∷ es) c = service_run es (service e c)
