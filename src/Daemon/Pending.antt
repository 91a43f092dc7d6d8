-- ===== src/Daemon/Pending.antt =====
-- noports_daemon.cpp: the one policy check that may be in flight, the request that it sends, and what
-- limits and remembers checks. `_now_ms()` is one instant for the whole of a handler's run.
pub mod Invariant
use noports.Prelude.{
  ℕ, ◌+◌, ◌%◌, Bool, true, false, not, Option, none, some, List, [], ◌∷◌, ◌==◌, if◌then◌else◌, Text,
  take,
}
use noports.Policy.Cache.{cache_store}
use noports.Policy.Cooldown.{CheckKind, ping, npt, cooldown_allows}
use noports.Daemon.State.{
  PendingType, pending_none, pending_ping, pending_npt, Pending, State, World, Action, send_rpc,
}

-- `uint32_t`
abbrev pub counter_size : ℕ
counter_size = 4294967296

-- _next_policy_req_id: the new counter, which is the id too; `++` of 0 is 1.
unfoldable pub next_policy_req_id : ℕ → ℕ
next_policy_req_id counter = let id = (counter + 1) % counter_size in if id == 0 then 1 else id

-- sizeof(requesting_atsign) - 1, which is what `strncpy` and the final zero keep of a name.
abbrev pub name_len : ℕ
name_len = 63

unfoldable pub check_kind : PendingType → CheckKind
check_kind pending_ping = ping
check_kind pending_npt = npt
check_kind pending_none = npt

module _ {Json : Type 0} where
  -- `memset(&_policy_pending, 0, ...)`
  abbrev pub idle : Pending Json
  idle = record {
    in_use = false;
    type = pending_none;
    req_id = 0;
    started_at_ms = 0;
    progress_at_ms = 0;
    requesting_atsign = [];
    envelope = none;
  }

  -- _cleanupPolicyPending
  unfoldable pub cleanup_policy_pending : State Json → State Json
  cleanup_policy_pending s = record s { pending = idle }

  -- _sendPolicyRpcRequest
  unfoldable pub send_policy_rpc_request :
      World → Text → State Json → State Json × List (Action Json)
  unfolding cleanup_policy_pending
  send_policy_rpc_request w client s =
      if not w.payload_built
      then (cleanup_policy_pending s, [])
      else if w.rpc_sent
      then (s, send_rpc s.pending.req_id client ∷ [])
      else (cleanup_policy_pending s, send_rpc s.pending.req_id client ∷ [])

  -- The assignments to `_policy_pending` that _handlePing and _handleNptRequest make.
  unfoldable pub occupy : World → PendingType → Text → Option Json → State Json → State Json
  unfolding next_policy_req_id
  occupy w type from envelope s =
      let id = next_policy_req_id s.req_counter in
      record s {
        req_counter = id;
        pending = record {
          in_use = true;
          type = type;
          req_id = id;
          started_at_ms = w.now_ms;
          progress_at_ms = w.now_ms;
          requesting_atsign = take name_len from;
          envelope = envelope;
        };
      }

  unfoldable pub begin_check :
      World → PendingType → Text → Option Json → State Json → State Json × List (Action Json)
  unfolding occupy send_policy_rpc_request
  begin_check w type from envelope s =
      send_policy_rpc_request w from (occupy w type from envelope s)

  -- _policyRateLimited: the state after the cooldown's answer, and whether to drop the request.
  unfoldable pub policy_rate_limited : World → Text → PendingType → State Json → State Json × Bool
  unfolding check_kind
  policy_rate_limited w atsign type s =
      let (slots, allowed) = cooldown_allows s.cooldown atsign (check_kind type) w.now_ms in
      (record s { cooldown = slots }, not allowed)

  -- _cachePolicyDecision
  unfoldable pub cache_policy_decision : World → Text → Bool → List Text → State Json → State Json
  cache_policy_decision w atsign authorized rules s = record s {
    decisions =
        (cache_store w.alloc s.decisions atsign
          (record { authorized = authorized; permit_open = rules }) w.now_ms).0;
  }
