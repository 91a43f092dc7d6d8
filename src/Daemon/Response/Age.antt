-- ===== src/Daemon/Response/Age.antt =====
-- How old a check in flight can be after a handler, and after a pass of the daemon's loop.
use noports.Prelude.{
  ℕ, ◌+◌, ◌≤◌, ◌≡◌, arith, Bool, true, false, ◌&&◌, not, Option, none, some, List, ◌==◌, Text,
  if◌then◌else◌,
}
use noports.Policy.Cache.{Decision}
use noports.Policy.Wait.{
  wait_ms, wait_cap_ms, wait_over, reconnect_after_decrypt_failure, resend_after_decrypt_failure,
}
use noports.Daemon.Host.{Host, Notification, RpcResponse}
use noports.Daemon.State.{
  Config, nk_none, nk_sshpublickey, nk_ping, nk_ssh_request, nk_npt_request, nk_graceful_shutdown,
  PendingType, pending_ping, pending_npt, State, World, Action,
}
use noports.Daemon.Notify.{
  same_atsign, Route, ignored, policy_response, handle, route, in_policy_mode,
}
use noports.Daemon.Envelope.{is_valid_session_id, Verdict, verified, refused, crashed}
use noports.Daemon.Pending.{
  cleanup_policy_pending, policy_rate_limited, cache_policy_decision, send_policy_rpc_request,
  occupy, begin_check,
}
use noports.Daemon.Requests.{
  is_manager_atsign, session_id_of, ping_decided, ping_by_policy, answer_ping, ping_with,
  handle_ping, is_npt, npt_decided, authorise_npt, npt_signed, npt_parsed, npt_value, npt_limited,
  handle_npt_request,
}
use noports.Daemon.Response.{
  Answer, is_ack, is_pending, finish_check, handle_parsed, handle_keyed, handle_policy_response,
  policy_timeout, reconnect_step, resend_step, handle_decrypt_failure, dispatch, handle_route,
  handle_notification,
}

-- A check in flight was begun at most 30 seconds ago, and made progress at most 10 seconds ago.
abbrev pub IsYoung : {Json : Type 0} → ℕ → State Json → Type 0
IsYoung now s =
    s.pending.in_use ≡ true
    → (now ≤ s.pending.started_at_ms + wait_cap_ms) × (now ≤ s.pending.progress_at_ms + wait_ms)

module _ {Json : Type 0} (now : ℕ) where
  if-IsYoung :
      (b : Bool) (x y : State Json × List (Action Json))
      → IsYoung now x.0
      → IsYoung now y.0
      → IsYoung now (if b then x else y).0
  if-IsYoung true x y p q = p
  if-IsYoung false x y p q = q

  idle-IsYoung : (s : State Json) → IsYoung now (cleanup_policy_pending s)
  unfolding cleanup_policy_pending
  idle-IsYoung s u = absurd cc

module _ (host : Host) (config : Config) (w : World) where
  open host use {Json, parse}

  sent-IsYoung :
      (c : Text) (s : State Json)
      → IsYoung w.now_ms s
      → IsYoung w.now_ms (send_policy_rpc_request w c s).0
  unfolding send_policy_rpc_request
  sent-IsYoung c s v =
      if-IsYoung w.now_ms (not w.payload_built) _ _ (idle-IsYoung w.now_ms s)
        (if-IsYoung w.now_ms w.rpc_sent _ _ v (idle-IsYoung w.now_ms s))

  begun-IsYoung :
      (t : PendingType) (from : Text) (e : Option Json) (s : State Json)
      → IsYoung w.now_ms (begin_check w t from e s).0
  unfolding begin_check occupy
  begun-IsYoung t from e s = sent-IsYoung from _ (λ u. (omega arith, omega arith))

  limited-IsYoung :
      (a : Text) (t : PendingType) (s : State Json)
      → IsYoung w.now_ms s
      → IsYoung w.now_ms (policy_rate_limited w a t s).0
  unfolding policy_rate_limited
  limited-IsYoung a t s v = v

  ping_decided-IsYoung :
      (from : Text) (o : Option Decision) (s : State Json)
      → IsYoung w.now_ms s
      → IsYoung w.now_ms (ping_decided host config w from o s).0
  unfolding ping_decided
  ping_decided-IsYoung from (some d) s v = if-IsYoung w.now_ms d.authorized _ _ v v
  ping_decided-IsYoung from none s v =
      if-IsYoung w.now_ms s.pending.in_use _ _ v (begun-IsYoung pending_ping from none s)

  ping_with-IsYoung :
      (from : Text) (o : Option Text) (s : State Json)
      → IsYoung w.now_ms s
      → IsYoung w.now_ms (ping_with host config w from o s).0
  unfolding ping_with answer_ping ping_by_policy
  ping_with-IsYoung from none s v = v
  ping_with-IsYoung from (some r) s v =
      let l = limited-IsYoung from pending_ping s v in
      if-IsYoung w.now_ms (in_policy_mode config.policy_atsign) _ _
        (if-IsYoung w.now_ms (policy_rate_limited w from pending_ping s).1 _ _ l
          (ping_decided-IsYoung from _ _ l))
        (if-IsYoung w.now_ms (is_manager_atsign config from) _ _ v v)

  npt_decided-IsYoung :
      (from : Text) (e : Json) (o : Option Decision) (s : State Json)
      → IsYoung w.now_ms s
      → IsYoung w.now_ms (npt_decided host config w from e o s).0
  unfolding npt_decided
  npt_decided-IsYoung from e (some d) s v = if-IsYoung w.now_ms d.authorized _ _ v v
  npt_decided-IsYoung from e none s v =
      if-IsYoung w.now_ms (s.pending.in_use && is_npt s.pending.type) _ _ v (
        if-IsYoung w.now_ms s.pending.in_use _ _
          (begun-IsYoung pending_npt from (some e) (cleanup_policy_pending s))
          (begun-IsYoung pending_npt from (some e) s))

  npt_signed-IsYoung :
      (from : Text) (e : Json) (r : Verdict) (s : State Json)
      → IsYoung w.now_ms s
      → IsYoung w.now_ms (npt_signed host config w from e r s).0
  unfolding npt_signed authorise_npt
  npt_signed-IsYoung from e verified s v =
      if-IsYoung w.now_ms (in_policy_mode config.policy_atsign) _ _
        (npt_decided-IsYoung from e _ s v)
        (if-IsYoung w.now_ms (is_manager_atsign config from) _ _ v v)
  npt_signed-IsYoung from e refused s v = v
  npt_signed-IsYoung from e crashed s v = v

  npt_parsed-IsYoung :
      (from : Text) (o : Option Json) (s : State Json)
      → IsYoung w.now_ms s
      → IsYoung w.now_ms (npt_parsed host config w from o s).0
  unfolding npt_parsed
  npt_parsed-IsYoung from none s v = v
  npt_parsed-IsYoung from (some e) s v =
      if-IsYoung w.now_ms (is_valid_session_id (session_id_of host config e)) _ _
        (npt_signed-IsYoung from e _ s v) v

  npt_value-IsYoung :
      (from : Text) (o : Option Text) (s : State Json)
      → IsYoung w.now_ms s
      → IsYoung w.now_ms (npt_value host config w from o s).0
  unfolding npt_value
  npt_value-IsYoung from none s v = v
  npt_value-IsYoung from (some t) s v = npt_parsed-IsYoung from (parse t) s v

  handle_npt_request-IsYoung :
      (from : Text) (o : Option Text) (s : State Json)
      → IsYoung w.now_ms s
      → IsYoung w.now_ms (handle_npt_request host config w from o s).0
  unfolding handle_npt_request npt_limited
  handle_npt_request-IsYoung from o s v =
      let l = limited-IsYoung from pending_npt s v in
      if-IsYoung w.now_ms (policy_rate_limited w from pending_npt s).1 _ _ l
        (npt_value-IsYoung from o _ l)

  finish_check-IsYoung :
      (a : Answer) (s : State Json)
      → IsYoung w.now_ms s
      → IsYoung w.now_ms (finish_check host config w a s).0
  unfolding finish_check cache_policy_decision
  finish_check-IsYoung (b, r) s v =
      let i = idle-IsYoung w.now_ms (cache_policy_decision w s.pending.requesting_atsign b r s) in
      if-IsYoung w.now_ms (not b) _ _ i (if-IsYoung w.now_ms (is_pending s.pending.type) _ _ i v)

  handle_parsed-IsYoung :
      (o : Option RpcResponse) (t : Option Text) (s : State Json)
      → IsYoung w.now_ms s
      → IsYoung w.now_ms (handle_parsed host config w o t s).0
  unfolding handle_parsed
  handle_parsed-IsYoung none t s v = v
  handle_parsed-IsYoung (some r) t s v = if-IsYoung w.now_ms (not s.pending.in_use) _ _ v (
      if-IsYoung w.now_ms (not (s.pending.req_id == r.req_id)) _ _ v (
        if-IsYoung w.now_ms (is_ack r.resp_type) _ _ (λ u. ((v u).0, omega arith))
          (finish_check-IsYoung _ s v)))

  handle_keyed-IsYoung :
      (n : Notification) (o : Option Text) (s : State Json)
      → IsYoung w.now_ms s
      → IsYoung w.now_ms (handle_keyed host config w n o s).0
  unfolding handle_keyed
  handle_keyed-IsYoung n none s v = v
  handle_keyed-IsYoung n (some key) s v =
      if-IsYoung w.now_ms (not (same_atsign n.from config.policy_atsign)) _ _ v
        (handle_parsed-IsYoung _ n.decrypted_value s v)

  handle_route-IsYoung :
      (n : Notification) (r : Route) (s : State Json)
      → IsYoung w.now_ms s
      → IsYoung w.now_ms (handle_route host config w n r s).0
  unfolding handle_route dispatch handle_policy_response handle_ping
  handle_route-IsYoung n ignored s v = v
  handle_route-IsYoung n policy_response s v = handle_keyed-IsYoung n n.key s v
  handle_route-IsYoung n (handle nk_ping from) s v = ping_with-IsYoung from s.ping_response s v
  handle_route-IsYoung n (handle nk_npt_request from) s v =
      handle_npt_request-IsYoung from n.decrypted_value s v
  handle_route-IsYoung n (handle nk_none from) s v = v
  handle_route-IsYoung n (handle nk_sshpublickey from) s v = v
  handle_route-IsYoung n (handle nk_ssh_request from) s v = v
  handle_route-IsYoung n (handle nk_graceful_shutdown from) s v = v

  pub handle_notification-IsYoung :
      (n : Notification) (s : State Json)
      → IsYoung w.now_ms s
      → IsYoung w.now_ms (handle_notification host config w n s).0
  unfolding handle_notification
  handle_notification-IsYoung n s v = handle_route-IsYoung n (route host config n) s v

  reconnect_step-IsYoung :
      (s : State Json) → IsYoung w.now_ms s → IsYoung w.now_ms (reconnect_step host config w s).0
  unfolding reconnect_step
  reconnect_step-IsYoung s v =
      if-IsYoung w.now_ms (reconnect_after_decrypt_failure s.decrypt_reconnect_at_ms w.now_ms) _ _ v
        v

  resend_step-IsYoung :
      (from : Option Text) (s : State Json)
      → IsYoung w.now_ms s
      → IsYoung w.now_ms (resend_step host config w from s).0
  unfolding resend_step
  resend_step-IsYoung from s v =
      if-IsYoung w.now_ms (resend_after_decrypt_failure s.pending.in_use from config.policy_atsign)
        _ _ (sent-IsYoung s.pending.requesting_atsign _ (λ u. ((v u).0, omega arith))) v

  pub handle_decrypt_failure-IsYoung :
      (from : Option Text) (s : State Json)
      → IsYoung w.now_ms s
      → IsYoung w.now_ms (handle_decrypt_failure host config w from s).0
  unfolding handle_decrypt_failure
  handle_decrypt_failure-IsYoung from s v =
      resend_step-IsYoung from (reconnect_step host config w s).0 (reconnect_step-IsYoung s v)

  -- Whatever was in flight before it, the timeout leaves no old check.
  pub policy_timeout-IsYoung :
      (s : State Json) → IsYoung w.now_ms (policy_timeout host config w s).0
  unfolding policy_timeout wait_over cleanup_policy_pending cache_policy_decision
  policy_timeout-IsYoung s u = (ground arith, ground arith)
