-- ===== src/Daemon/Response/Gate.antt =====
-- Which answers grant a pending check, and what every other answer leaves as it is.
use noports.Prelude.{
  ◌≡◌, ◌⊎◌, inl, inr, refl, true, false, not, Option, none, some, arith, ◌==◌, Text,
}
use noports.Daemon.Host.{Host, Notification, ResponseType, ack, nack, success, error, RpcResponse}
use noports.Daemon.State.{
  Config, NotificationKey, nk_none, nk_sshpublickey, nk_ping, nk_ssh_request, nk_npt_request,
  nk_graceful_shutdown, PendingType, pending_none, pending_ping, pending_npt, State, World,
}
use noports.Daemon.Notify.{same_atsign, Route, ignored, policy_response, handle, route}
use noports.Daemon.Requests.{denied_message}
use noports.Daemon.Requests.Authorized.{
  grants, if-grants, nothing-grants, IsPermitted, handle_ping-grants, handle_npt_request-grants,
}
use noports.Daemon.Response.{
  Answer, answer_of_value, answer_of, is_ack, finish_check, error_to, handle_keyed, handle_parsed,
  handle_policy_response, dispatch, handle_route, handle_notification, pending_error,
}

module _ (host : Host) (config : Config) where
  open host use {Json, get_string_value, parse_response_key}

  -- A successful response of the policy atSign to the request in flight, whose payload authorises.
  pub record Answered (n : Notification) (s : State Json) : Type 0 where
    pub key : Text
    pub response : RpcResponse
    pub from_policy : same_atsign n.from config.policy_atsign ≡ true
    pub key_is : n.key ≡ some key
    pub response_is : parse_response_key key ≡ some response
    pub is_success : response.resp_type ≡ success
    pub in_flight : s.pending.in_use ≡ true
    pub same_request : s.pending.req_id ≡ response.req_id
    pub authorizes : (answer_of_value host config n.decrypted_value).0 ≡ true

  error_to-grants :
      (to message : Text) (t : PendingType) (o : Option Json)
      → grants (error_to host config to message t o) ≡ true
      → ⊥
  unfolding error_to grants
  error_to-grants to message pending_npt none h = cc
  error_to-grants to message pending_npt (some e) h = cc
  error_to-grants to message pending_ping o h = cc
  error_to-grants to message pending_none o h = cc

  finish_check-grants :
      (w : World) (a : Answer) (s : State Json)
      → grants (finish_check host config w a s).1 ≡ true
      → a.0 ≡ true
  unfolding finish_check pending_error
  finish_check-grants w (true, rules) s h = refl
  finish_check-grants w (false, rules) s h = absurd (
      error_to-grants s.pending.requesting_atsign denied_message s.pending.type s.pending.envelope
        h)

  answer_of-success :
      (t : ResponseType) (v : Option Text)
      → (answer_of host config t v).0 ≡ true
      → (t ≡ success) × ((answer_of_value host config v).0 ≡ true)
  unfolding answer_of
  answer_of-success success v h = (refl, h)
  answer_of-success error v h = absurd cc
  answer_of-success nack v h = absurd cc
  answer_of-success ack v h = absurd cc

  handle_parsed-grants :
      (w : World) (o : Option RpcResponse) (v : Option Text) (s : State Json)
      → grants (handle_parsed host config w o v s).1 ≡ true
      → (r : RpcResponse) × (o ≡ some r)
        × (s.pending.in_use ≡ true)
        × (s.pending.req_id ≡ r.req_id)
        × (r.resp_type ≡ success)
        × ((answer_of_value host config v).0 ≡ true)
  unfolding handle_parsed
  handle_parsed-grants w none v s h = absurd (nothing-grants host config s h)
  handle_parsed-grants w (some r) v s h =
      elim (if-grants host config (not s.pending.in_use) _ _ h) [
        | inl (a, g) ↦ absurd (nothing-grants host config s g)
        | inr (a, g) ↦ elim (if-grants host config (not (s.pending.req_id == r.req_id)) _ _ g) [
          | inl (b, f) ↦ absurd (nothing-grants host config s f)
          | inr (b, f) ↦ elim (if-grants host config (is_ack r.resp_type) _ _ f) [
            | inl (c, d) ↦ absurd (nothing-grants host config s d)
            | inr (c, d) ↦
                let (t, x) = answer_of-success r.resp_type v (finish_check-grants w _ s d) in
                (r, refl, ground arith, ground arith, t, x)
          ]
        ]
      ]

  response_key-grants :
      (w : World) (n : Notification) (o : Option Text) (s : State Json)
      → n.key ≡ o
      → grants (handle_keyed host config w n o s).1 ≡ true
      → Answered n s
  unfolding handle_keyed
  response_key-grants w n none s q h = absurd (nothing-grants host config s h)
  response_key-grants w n (some key) s q h =
      elim (if-grants host config (not (same_atsign n.from config.policy_atsign)) _ _ h) [
        | inl (a, g) ↦ absurd (nothing-grants host config s g)
        | inr (a, g) ↦
            let (r, e, u, i, t, x) = handle_parsed-grants w _ _ s g in
            record {
              key = key;
              response = r;
              from_policy = ground arith;
              key_is = q;
              response_is = e;
              is_success = t;
              in_flight = u;
              same_request = i;
              authorizes = x;
            }
      ]

  -- A response grants the check in flight only if it is a success, sent by the configured policy
  -- atSign, for the request in flight, with a payload that authorises.
  pub handle_policy_response-grants :
      (w : World) (n : Notification) (s : State Json)
      → grants (handle_policy_response host config w n s).1 ≡ true
      → Answered n s
  unfolding handle_policy_response
  handle_policy_response-grants w n s h = response_key-grants w n n.key s refl h

  dispatch-grants :
      (w : World) (n : Notification) (nk : NotificationKey) (from : Text) (s : State Json)
      → grants (dispatch host config w n nk from s).1 ≡ true
      → IsPermitted host config w from s
  unfolding dispatch
  dispatch-grants w n nk_ping from s h = handle_ping-grants host config w from s h
  dispatch-grants w n nk_npt_request from s h =
      (handle_npt_request-grants host config w from n.decrypted_value s h).permitted
  dispatch-grants w n nk_none from s h = absurd (nothing-grants host config s h)
  dispatch-grants w n nk_sshpublickey from s h = absurd (nothing-grants host config s h)
  dispatch-grants w n nk_ssh_request from s h = absurd (nothing-grants host config s h)
  dispatch-grants w n nk_graceful_shutdown from s h = absurd (nothing-grants host config s h)

  handle_route-grants :
      (w : World) (n : Notification) (r : Route) (s : State Json)
      → route host config n ≡ r
      → grants (handle_route host config w n r s).1 ≡ true
      → ((nk : NotificationKey) × (from : Text) × (route host config n ≡ handle nk from)
          × IsPermitted host config w from s)
        ⊎ Answered n s
  unfolding handle_route
  handle_route-grants w n ignored s q h = absurd (nothing-grants host config s h)
  handle_route-grants w n policy_response s q h = inr (handle_policy_response-grants w n s h)
  handle_route-grants w n (handle nk from) s q h =
      inl (nk, from, q, dispatch-grants w n nk from s h)

  -- Whatever notification arrives, a heartbeat is sent or a session goes on only in two cases: the
  -- notification is a request of a sender who is a manager or, in policy mode, has a remembered
  -- authorisation; or it is the policy atSign's own authorising answer to the request in flight.
  pub handle_notification-grants :
      (w : World) (n : Notification) (s : State Json)
      → grants (handle_notification host config w n s).1 ≡ true
      → ((nk : NotificationKey) × (from : Text) × (route host config n ≡ handle nk from)
          × IsPermitted host config w from s)
        ⊎ Answered n s
  unfolding handle_notification
  handle_notification-grants w n s h = handle_route-grants w n (route host config n) s refl h
