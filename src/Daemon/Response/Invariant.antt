-- ===== src/Daemon/Response/Invariant.antt =====
-- Every handler keeps the record of the check in flight valid.
use noports.Prelude.{
  arith, ◌≡◌, ◌⊎◌, inl, inr, refl, ap, Bool, true, false, ◌&&◌, not, Option, none, some, List, [],
  ◌==◌, Text,
}
use noports.Policy.Cache.{Decision}
use noports.Policy.Wait.{wait_over, reconnect_after_decrypt_failure, resend_after_decrypt_failure}
use noports.Daemon.Host.{Host, Notification, RpcResponse}
use noports.Daemon.State.{
  Config, nk_none, nk_sshpublickey, nk_ping, nk_ssh_request, nk_npt_request, nk_graceful_shutdown,
  PendingType, pending_ping, pending_npt, State, World,
}
use noports.Daemon.Notify.{
  same_atsign, Route, ignored, policy_response, handle, route, in_policy_mode,
}
use noports.Daemon.Envelope.{is_valid_session_id, Verdict, verified, refused, crashed}
use noports.Daemon.Pending.{next_policy_req_id, idle, policy_rate_limited, cache_policy_decision}
use noports.Daemon.Pending.Invariant.{
  next_policy_req_id_lem, InFlight, IsValid, if-IsValid, cases-IsValid,
  cleanup_policy_pending-IsValid, send_policy_rpc_request-IsValid, begin_check-IsValid,
}
use noports.Daemon.Requests.{
  is_manager_atsign, session_id_of, ping_decided, ping_by_policy, answer_ping, ping_with,
  handle_ping, is_npt, npt_decided, authorise_npt, npt_signed, npt_parsed, npt_value, npt_limited,
  handle_npt_request,
}
use noports.Daemon.Response.{
  Answer, is_ack, is_pending, finish_check, handle_parsed, handle_keyed, handle_policy_response,
  policy_timeout, reconnect_step, resend_step, handle_decrypt_failure, dispatch, handle_route,
  handle_notification,
}

module _ (host : Host) (config : Config) where
  open host use {Json, parse}

  limited-IsValid :
      (w : World) (a : Text) (t : PendingType) (s : State Json)
      → IsValid s
      → IsValid (policy_rate_limited w a t s).0
  unfolding policy_rate_limited
  limited-IsValid w a t s v = v

  ping_decided-IsValid :
      (w : World) (from : Text) (o : Option Decision) (s : State Json)
      → IsValid s
      → IsValid (ping_decided host config w from o s).0
  unfolding ping_decided
  ping_decided-IsValid w from (some d) s v = if-IsValid d.authorized _ _ v v
  ping_decided-IsValid w from none s v =
      if-IsValid s.pending.in_use _ _ v (begin_check-IsValid w pending_ping from none s tt v)

  handle_ping-IsValid :
      (w : World) (from : Text) (o : Option Text) (s : State Json)
      → IsValid s
      → IsValid (ping_with host config w from o s).0
  unfolding ping_with answer_ping ping_by_policy
  handle_ping-IsValid w from none s v = v
  handle_ping-IsValid w from (some r) s v =
      if-IsValid (in_policy_mode config.policy_atsign) _ _
        (if-IsValid (policy_rate_limited w from pending_ping s).1 _ _
          (limited-IsValid w from pending_ping s v)
          (ping_decided-IsValid w from _ _ (limited-IsValid w from pending_ping s v)))
        (if-IsValid (is_manager_atsign config from) _ _ v v)

  npt_decided-IsValid :
      (w : World) (from : Text) (e : Json) (o : Option Decision) (s : State Json)
      → IsValid s
      → IsValid (npt_decided host config w from e o s).0
  unfolding npt_decided
  npt_decided-IsValid w from e (some d) s v = if-IsValid d.authorized _ _ v v
  npt_decided-IsValid w from e none s v =
      if-IsValid (s.pending.in_use && is_npt s.pending.type) _ _ v (
        if-IsValid s.pending.in_use _ _
          (begin_check-IsValid w pending_npt from (some e) _ tt
            (cleanup_policy_pending-IsValid s v))
          (begin_check-IsValid w pending_npt from (some e) s tt v))

  npt_signed-IsValid :
      (w : World) (from : Text) (e : Json) (r : Verdict) (s : State Json)
      → IsValid s
      → IsValid (npt_signed host config w from e r s).0
  unfolding npt_signed authorise_npt
  npt_signed-IsValid w from e verified s v =
      if-IsValid (in_policy_mode config.policy_atsign) _ _ (npt_decided-IsValid w from e _ s v)
        (if-IsValid (is_manager_atsign config from) _ _ v v)
  npt_signed-IsValid w from e refused s v = v
  npt_signed-IsValid w from e crashed s v = v

  npt_parsed-IsValid :
      (w : World) (from : Text) (o : Option Json) (s : State Json)
      → IsValid s
      → IsValid (npt_parsed host config w from o s).0
  unfolding npt_parsed
  npt_parsed-IsValid w from none s v = v
  npt_parsed-IsValid w from (some e) s v =
      if-IsValid (is_valid_session_id (session_id_of host config e)) _ _
        (npt_signed-IsValid w from e _ s v) v

  npt_value-IsValid :
      (w : World) (from : Text) (o : Option Text) (s : State Json)
      → IsValid s
      → IsValid (npt_value host config w from o s).0
  unfolding npt_value
  npt_value-IsValid w from none s v = v
  npt_value-IsValid w from (some t) s v = npt_parsed-IsValid w from (parse t) s v

  handle_npt_request-IsValid :
      (w : World) (from : Text) (o : Option Text) (s : State Json)
      → IsValid s
      → IsValid (handle_npt_request host config w from o s).0
  unfolding handle_npt_request npt_limited
  handle_npt_request-IsValid w from o s v =
      if-IsValid (policy_rate_limited w from pending_npt s).1 _ _
        (limited-IsValid w from pending_npt s v)
        (npt_value-IsValid w from o _ (limited-IsValid w from pending_npt s v))

  cached-IsValid :
      (w : World) (a : Text) (b : Bool) (r : List Text) (s : State Json)
      → IsValid s
      → IsValid (cache_policy_decision w a b r s)
  unfolding cache_policy_decision
  cached-IsValid w a b r s v = v

  finish_check-IsValid :
      (w : World) (a : Answer) (s : State Json)
      → IsValid s
      → IsValid (finish_check host config w a s).0
  unfolding finish_check
  finish_check-IsValid w (b, r) s v =
      let c = cached-IsValid w s.pending.requesting_atsign b r s v in
      if-IsValid (not b) _ _
        (cleanup_policy_pending-IsValid (cache_policy_decision w s.pending.requesting_atsign b r s)
          c)
        (if-IsValid (is_pending s.pending.type) _ _
          (cleanup_policy_pending-IsValid
            (cache_policy_decision w s.pending.requesting_atsign b r s) c)
          c)

  -- The acknowledgement of a check in flight moves its progress only.
  ack-IsValid :
      (w : World) (s : State Json)
      → s.pending.in_use ≡ true
      → IsValid s
      → IsValid (record s { pending = record s.pending { progress_at_ms = w.now_ms } })
  ack-IsValid w s u (c, inl i) = absurd (let f = ap (λ p. p.in_use) i in cc)
  ack-IsValid w s u (c, inr f) = (
    c,
    inr (record {
      used = f.used;
      id_lower = f.id_lower;
      id_upper = f.id_upper;
      id_is = f.id_is;
      name_fits = f.name_fits;
      envelope_fits = f.envelope_fits;
    }),
  )

  handle_parsed-IsValid :
      (w : World) (o : Option RpcResponse) (v : Option Text) (s : State Json)
      → IsValid s
      → IsValid (handle_parsed host config w o v s).0
  unfolding handle_parsed
  handle_parsed-IsValid w none t s v = v
  handle_parsed-IsValid w (some r) t s v =
      cases-IsValid (not s.pending.in_use) _ _ (λ _. v)
        (λ u. if-IsValid (not (s.pending.req_id == r.req_id)) _ _ v (
          if-IsValid (is_ack r.resp_type) _ _ (ack-IsValid w s (ground arith) v)
            (finish_check-IsValid w _ s v)))

  handle_keyed-IsValid :
      (w : World) (n : Notification) (o : Option Text) (s : State Json)
      → IsValid s
      → IsValid (handle_keyed host config w n o s).0
  unfolding handle_keyed
  handle_keyed-IsValid w n none s v = v
  handle_keyed-IsValid w n (some key) s v =
      if-IsValid (not (same_atsign n.from config.policy_atsign)) _ _ v
        (handle_parsed-IsValid w _ n.decrypted_value s v)

  handle_route-IsValid :
      (w : World) (n : Notification) (r : Route) (s : State Json)
      → IsValid s
      → IsValid (handle_route host config w n r s).0
  unfolding handle_route dispatch handle_policy_response handle_ping
  handle_route-IsValid w n ignored s v = v
  handle_route-IsValid w n policy_response s v = handle_keyed-IsValid w n n.key s v
  handle_route-IsValid w n (handle nk_ping from) s v =
      handle_ping-IsValid w from s.ping_response s v
  handle_route-IsValid w n (handle nk_npt_request from) s v =
      handle_npt_request-IsValid w from n.decrypted_value s v
  handle_route-IsValid w n (handle nk_none from) s v = v
  handle_route-IsValid w n (handle nk_sshpublickey from) s v = v
  handle_route-IsValid w n (handle nk_ssh_request from) s v = v
  handle_route-IsValid w n (handle nk_graceful_shutdown from) s v = v

  policy_timeout-IsValid :
      (w : World) (s : State Json) → IsValid s → IsValid (policy_timeout host config w s).0
  unfolding policy_timeout
  policy_timeout-IsValid w s v =
      if-IsValid
        (s.pending.in_use && wait_over s.pending.started_at_ms s.pending.progress_at_ms w.now_ms) _
        _
        (cleanup_policy_pending-IsValid
          (cache_policy_decision w s.pending.requesting_atsign false [] s)
          (cached-IsValid w s.pending.requesting_atsign false [] s v))
        v

  reconnect_step-IsValid :
      (w : World) (s : State Json) → IsValid s → IsValid (reconnect_step host config w s).0
  unfolding reconnect_step
  reconnect_step-IsValid w s v =
      if-IsValid (reconnect_after_decrypt_failure s.decrypt_reconnect_at_ms w.now_ms) _ _ v v

  -- A check that is sent again takes a new request id.
  resend_step-IsValid :
      (w : World) (from : Option Text) (s : State Json)
      → IsValid s
      → IsValid (resend_step host config w from s).0
  unfolding resend_step
  resend_step-IsValid w from s (c, o) =
      cases-IsValid (resend_after_decrypt_failure s.pending.in_use from config.policy_atsign) _ _
        (λ r. send_policy_rpc_request-IsValid w s.pending.requesting_atsign _ (again o r))
        (λ _. (c, o))
    where
      again :
          (s.pending ≡ idle) ⊎ InFlight s.pending s.req_counter
          → resend_after_decrypt_failure s.pending.in_use from config.policy_atsign ≡ true
          → IsValid (record s {
            req_counter = next_policy_req_id s.req_counter;
            pending = record s.pending {
              req_id = next_policy_req_id s.req_counter;
              progress_at_ms = w.now_ms;
            };
          })
      again (inl i) r =
          absurd
            (let f = ap (λ p. p.in_use) i in unfold resend_after_decrypt_failure in ground arith)
      again (inr f) r =
          let (a, b, _) = next_policy_req_id_lem s.req_counter c in
          (
            b,
            inr (record {
              used = f.used;
              id_lower = a;
              id_upper = b;
              id_is = refl;
              name_fits = f.name_fits;
              envelope_fits = f.envelope_fits;
            }),
          )

  -- A state whose check in flight is valid is left valid by every notification, whatever it holds, by
  -- the timeout, and by a notification that could not be decrypted. Valid means that the record is
  -- cleared, or that it holds a request id in 1..2^32 - 1 that is the last one drawn, a name that
  -- fits its buffer, and an envelope exactly for a session's check.
  pub handlers-IsValid :
      (w : World) (n : Notification) (from : Option Text) (s : State Json)
      → IsValid s
      → IsValid (handle_notification host config w n s).0
        × IsValid (policy_timeout host config w s).0
        × IsValid (handle_decrypt_failure host config w from s).0
  unfolding handle_notification handle_decrypt_failure
  handlers-IsValid w n from s v = (
    handle_route-IsValid w n (route host config n) s v,
    policy_timeout-IsValid w s v,
    resend_step-IsValid w from _ (reconnect_step-IsValid w s v),
  )
