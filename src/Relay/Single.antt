-- ===== src/Relay/Single.antt =====
-- noports_relay.cpp: _write_all, and the bridge of _relay_task_inner, which carries one connection:
-- the replay of the bytes that were read too early, and the loop.
pub mod Stream
pub mod Poll
pub mod Whole
use noports.Prelude.{
  ℕ, zero, suc, ◌+◌, ◌-◌, Bool, true, false, ◌&&◌, ◌||◌, not, Option, none, some, List, [], ◌∷◌,
  ◌++◌, ltb, leb, ◌==◌, if◌then◌else◌, Text, length, take, drop,
}
use noports.Relay.Forward.{Cipher, chunk_size, transform, advanced}
use noports.Relay.Sub.{elapsed}

-- One call of _write_nb, `none` for an error, and the clock after it.
abbrev pub Attempt : Type 0
Attempt = Option ℕ × ℕ

-- `unfinished` is a write that has used up the attempts it is given.
pub data Written : Type 0 where
  all_written gave_up unfinished : Written

unfoldable pub is_done : Written → Bool
is_done all_written = true
is_done gave_up = false
is_done unfinished = false

-- The timeout of a write, with _relay_oom_mode or without.
unfoldable pub write_timeout_ms : Bool → ℕ
write_timeout_ms oom = if oom then 300 else 5000

-- _write_all: what the socket took, and how it ended. `start` is when it last took a byte.
unfoldable pub write_all : Bool → ℕ → Text → List Attempt → Text × Written
unfolding write_timeout_ms elapsed
write_all oom start [] as_ = ([], all_written)
write_all oom start (c ∷ cs) [] = ([], unfinished)
write_all oom start (c ∷ cs) ((none, t) ∷ as_) = ([], gave_up)
write_all oom start (c ∷ cs) ((some zero, t) ∷ as_) =
    let rest = write_all oom start (c ∷ cs) as_ in
    if ltb (write_timeout_ms oom) (elapsed t start) then ([], gave_up) else rest
write_all oom start (c ∷ cs) ((some (suc n), t) ∷ as_) =
    let rest = write_all oom t (drop n cs) as_ in (c ∷ (take n cs ++ rest.0), rest.1)

-- `read`: nothing was available, an error, or at most so many bytes.
pub data Read : Type 0 where
  nothing read_error : Read
  got : ℕ → Read

-- What one pass of the loop meets. `more` is whether a socket has unread bytes after the reads, and
-- `closed` is _peer_closed.
pub record SinglePass : Type 0 where
  pub should_run : Bool
  pub oom : Bool
  pub now_ms : ℕ
  pub data_read : Read
  pub data_attempts : List Attempt
  pub local_read : Read
  pub local_attempts : List Attempt
  pub heartbeat : Bool
  pub data_more : Bool
  pub data_closed : Bool
  pub local_more : Bool
  pub local_closed : Bool

module _ (cipher : Cipher) where
  open cipher use {Key}

  -- A direction: its key, what its source has still to send, and what its sink has taken.
  pub record Leg : Type 0 where
    pub key : Option Key
    pub incoming : Text
    pub outgoing : Text
    pub bytes : ℕ

  pub record Single : Type 0 where
    pub to_local : Leg
    pub to_rvd : Leg
    pub idle_since : ℕ
    pub running : Bool

  -- The bytes c are taken from the source, and written.
  unfoldable pub carry : Bool → ℕ → List Attempt → Text → Text → Leg → Leg × Bool
  unfolding write_all is_done transform advanced
  carry oom now as_ c rest l =
      let w = write_all oom now (transform cipher l.key c) as_ in
      (
        record {
          key = advanced cipher l.key c;
          incoming = rest;
          outgoing = l.outgoing ++ w.0;
          bytes = l.bytes + length c;
        },
        is_done w.1,
      )

  -- One direction of one pass, and whether the loop goes on. RELAY_BUF_SIZE is RELAY_CHUNK_SIZE.
  unfoldable pub leg_step : Bool → ℕ → Read → List Attempt → Leg → Leg × Bool
  unfolding carry
  leg_step oom now nothing as_ l = (l, true)
  leg_step oom now read_error as_ l = (l, false)
  leg_step oom now (got n) as_ l =
      let c = take chunk_size (take n l.incoming) in
      if length c == 0 then (l, true) else carry oom now as_ c (drop (length c) l.incoming) l

  -- Whether a read gave bytes.
  unfoldable pub moved : Read → Leg → Bool
  moved nothing l = false
  moved read_error l = false
  moved (got n) l = ltb 0 (length (take chunk_size (take n l.incoming)))

  unfoldable pub idle_after : Bool → SinglePass → ℕ → ℕ
  idle_after b p idle = if b then p.now_ms else idle

  -- Peer close, where nothing is unread, and the idle timeout.
  unfoldable pub ends : ℕ → SinglePass → ℕ → Bool
  unfolding elapsed
  ends limit p idle =
      (not p.data_more && p.data_closed)
      || (not p.local_more && p.local_closed)
      || ltb limit (elapsed p.now_ms idle)

  unfoldable pub second_leg : ℕ → SinglePass → Single → Single
  unfolding leg_step moved idle_after ends
  second_leg limit p s =
      let l = leg_step p.oom p.now_ms p.local_read p.local_attempts s.to_rvd in
      let idle = idle_after (moved p.local_read s.to_rvd || p.heartbeat) p s.idle_since in
      record s { to_rvd = l.0; idle_since = idle; running = l.1 && not (ends limit p idle) }

  -- One pass of the loop; a write or a read that fails ends it at once.
  unfoldable pub single_pass : ℕ → SinglePass → Single → Single
  unfolding leg_step moved idle_after second_leg
  single_pass limit p s =
      let l = leg_step p.oom p.now_ms p.data_read p.data_attempts s.to_local in
      let t = record s {
        to_local = l.0;
        idle_since = idle_after (moved p.data_read s.to_local) p s.idle_since;
      } in
      if l.1 then second_leg limit p t else record t { running = false }

  unfoldable pub single_loop : ℕ → List SinglePass → Single → Single
  unfolding single_pass
  single_loop limit [] s = s
  single_loop limit (p ∷ ps) s =
      let rest = single_loop limit ps (single_pass limit p s) in
      if s.running && p.should_run then rest else record s { running = false }

  -- The replay of the bytes of the data socket that phase 2 read; whether they could be written is not
  -- looked at.
  unfoldable pub replay : Bool → ℕ → List Attempt → Text → Leg → Leg
  unfolding carry
  replay oom now as_ early l =
      if length early == 0 then l else (carry oom now as_ early l.incoming l).0

  -- The bridge, from the sockets' connection on.
  unfoldable pub bridge : Bool → ℕ → List Attempt → Text → ℕ → List SinglePass → Single → Single
  unfolding replay single_loop
  bridge oom now as_ early limit ps s = single_loop limit ps (record s {
    to_local = replay oom now as_ early s.to_local;
    idle_since = now;
    running = true;
  })
