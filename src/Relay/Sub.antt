-- ===== src/Relay/Sub.antt =====
-- noports_relay.cpp: a connection of a session (RelaySub), its end, and which connection gives way when
-- there is no room. `millis()` wraps at 2^32, and a difference of two readings wraps with it.
pub mod Eviction
pub mod Service
use noports.Prelude.{
  ℕ, zero, suc, ◌+◌, ◌-◌, ◌*◌, ◌%◌, ◌≡◌, Bool, true, false, ◌&&◌, ◌||◌, not, Option, none, some,
  List, [], ◌∷◌, ◌++◌, ltb, leb, ◌==◌, if◌then◌else◌, Text, length, get_elem?, update_at,
  find_index,
}
use noports.Relay.Forward.{Cipher, Io, Line, Pass, direction}

-- `unsigned long` of the device
abbrev pub clock_size : ℕ
clock_size = 4294967296

-- `now - then`, in unsigned long
unfoldable pub elapsed : ℕ → ℕ → ℕ
elapsed now then_ms = (now + clock_size - then_ms) % clock_size

-- SUB_EVICTION_GRACE_MS, SUB_STALL_TIMEOUT_MS, PEER_DRAIN_MAX_MS
abbrev pub eviction_grace_ms : ℕ
eviction_grace_ms = 10000

abbrev pub stall_timeout_ms : ℕ
stall_timeout_ms = 900000

abbrev pub peer_drain_max_ms : ℕ
peer_drain_max_ms = 10000

-- The parts of a RelaySub that its slot and its time depend on; `rvd` and `local` say whether the
-- sockets are open.
pub record Slot : Type 0 where
  pub active : Bool
  pub draining : Bool
  pub dir_flip : Bool
  pub drain_start_ms : ℕ
  pub last_activity_ms : ℕ
  pub rvd_open : Bool
  pub local_open : Bool

-- What the sockets of a connection show: unread bytes, and whether the peer has closed.
pub record Peers : Type 0 where
  pub rvd_available : Bool
  pub rvd_closed : Bool
  pub local_available : Bool
  pub local_closed : Bool

-- _close_relay_sub, the slot's part.
unfoldable pub close_slot : Slot → Slot
close_slot s = record s {
  active = false;
  draining = false;
  drain_start_ms = 0;
  rvd_open = false;
  local_open = false;
}

-- The sockets that _close_relay_sub takes off `_relay_pcb_count`.
unfoldable pub open_sockets : Slot → ℕ
open_sockets s = (if s.rvd_open then 1 else 0) + (if s.local_open then 1 else 0)

-- _update_active_session_count
unfoldable pub active_count : List Slot → ℕ
active_count [] = 0
active_count (s ∷ ss) = (if s.active then 1 else 0) + active_count ss

-- A candidate: a slot, the bytes it sent, and its peers.
pub record Sub : Type 0 where
  pub slot : Slot
  pub bytes_out : ℕ
  pub peers : Peers

unfoldable pub both_dead : Peers → Bool
both_dead p = (not p.rvd_available && p.rvd_closed) && (not p.local_available && p.local_closed)

-- _reclaim_dead_subs
unfoldable pub reclaim : Sub → Sub
unfolding both_dead close_slot
reclaim s =
    if s.slot.active && not s.slot.draining && both_dead s.peers
    then record s { slot = close_slot s.slot }
    else s

unfoldable pub reclaim_dead_subs : List Sub → List Sub
unfolding reclaim
reclaim_dead_subs [] = []
reclaim_dead_subs (s ∷ ss) = reclaim s ∷ reclaim_dead_subs ss

-- The test of _find_oldest_active_sub on one slot; `min_age` 0 takes any age.
unfoldable pub is_old : ℕ → ℕ → Sub → Bool
unfolding elapsed
is_old now min_age s =
    s.slot.active && not (ltb 0 min_age && ltb (elapsed now s.slot.last_activity_ms) min_age)

-- The test of _find_evictable_sub on one slot.
unfoldable pub is_evictable : ℕ → Sub → Bool
unfolding elapsed
is_evictable now s =
    s.slot.active
    && not (s.bytes_out == 0 && ltb (elapsed now s.slot.last_activity_ms) eviction_grace_ms)
    && not (s.peers.rvd_available || s.peers.local_available)
    && ltb eviction_grace_ms (elapsed now s.slot.last_activity_ms)

-- The loop of both searches: `victim` is the best so far, and `at` its time.
unfoldable pub longest_idle : (Sub → Bool) → Option ℕ → ℕ → ℕ → List Sub → Option ℕ
longest_idle test victim at i [] = victim
longest_idle test victim at i (s ∷ ss) =
    longest_idle test (if test s && ltb s.slot.last_activity_ms at then some i else victim)
      (if test s && ltb s.slot.last_activity_ms at then s.slot.last_activity_ms else at) (i + 1) ss

-- ULONG_MAX
abbrev pub latest : ℕ
latest = 4294967295

-- _find_oldest_active_sub
unfoldable pub find_oldest_active_sub : ℕ → ℕ → List Sub → Option ℕ
unfolding longest_idle is_old
find_oldest_active_sub now min_age subs = longest_idle (is_old now min_age) none latest 0 subs

-- _find_evictable_sub
unfoldable pub find_evictable_sub : ℕ → List Sub → Option ℕ
unfolding longest_idle is_evictable
find_evictable_sub now subs = longest_idle (is_evictable now) none latest 0 subs
