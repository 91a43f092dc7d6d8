-- ===== src/Daemon/Response.antt =====
-- noports_daemon.cpp: the policy service's answer to a check, the timeout of a check, and what follows
-- a notification that could not be decrypted.
pub mod Age
pub mod Gate
pub mod Invariant
pub mod Outcomes
use noports.Prelude.{
  ℕ, zero, suc, ◌+◌, Bool, true, false, ◌&&◌, ◌||◌, not, Option, none, some, List, [], ◌∷◌, ◌++◌,
  ◌==◌, ltb, leb, if◌then◌else◌, Text, codes, length, take,
}
use noports.Policy.Wait.{wait_over, resend_after_decrypt_failure, reconnect_after_decrypt_failure}
use noports.Daemon.Host.{Host, Notification, ResponseType, ack, nack, success, error, RpcResponse}
use noports.Daemon.State.{
  Config, PendingType, pending_none, pending_ping, pending_npt, Pending, State, World, Action,
  NotificationKey, nk_none, nk_sshpublickey, nk_ping, nk_ssh_request, nk_npt_request,
  nk_graceful_shutdown, send_heartbeat, send_npt_error, continue_npt, reconnect_worker,
}
use noports.Daemon.Notify.{same_atsign, Route, ignored, policy_response, handle, route}
use noports.Daemon.Pending.{
  next_policy_req_id, cleanup_policy_pending, send_policy_rpc_request, cache_policy_decision,
  name_len,
}
use noports.Daemon.Requests.{
  max_rules, denied_message, session_id_of, Outcome, handle_ping, handle_npt_request,
}

-- sizeof(po_buf[0])
abbrev pub rule_buffer : ℕ
rule_buffer = 64

abbrev pub late_message : Text
late_message = codes "Policy server did not respond in time"

-- An answer: whether it authorises, and its rules.
abbrev pub Answer : Type 0
Answer = Bool × List Text

-- The loop over the answer's rules: `room` is how many more it takes.
unfoldable pub keep_rule : ℕ → Option Text → List Text → List Text → List Text
keep_rule room none without rules = without
keep_rule room (some s) without rules = if ltb (length s) rule_buffer then s ∷ rules else without

unfoldable pub is_pending : PendingType → Bool
is_pending pending_ping = true
is_pending pending_npt = true
is_pending pending_none = false

unfoldable pub is_ack : ResponseType → Bool
is_ack ack = true
is_ack nack = false
is_ack success = false
is_ack error = false

module _ (host : Host) (config : Config) where
  open host use {
    Json, parse, get_object_item, get_string_value, is_true, array_items, parse_response_key,
  }

  unfoldable pub collect_rules : ℕ → List (Option Json) → List Text
  unfolding keep_rule
  collect_rules zero items = []
  collect_rules (suc room) [] = []
  collect_rules (suc room) (i ∷ is) =
      keep_rule room (get_string_value i) (collect_rules (suc room) is) (collect_rules room is)

  unfoldable pub rules_of : Option (List (Option Json)) → List Text
  rules_of none = []
  rules_of (some items) = collect_rules max_rules items

  unfoldable pub answer_of_payload : Option Json → Answer
  unfolding rules_of
  answer_of_payload none = (false, [])
  answer_of_payload (some pl) = (
    is_true (get_object_item (some pl) (codes "authorized")),
    rules_of (array_items (get_object_item (some pl) (codes "permitOpen"))),
  )

  unfoldable pub answer_of_json : Option Json → Answer
  unfolding answer_of_payload
  answer_of_json none = (false, [])
  answer_of_json (some resp) = answer_of_payload (get_object_item (some resp) (codes "payload"))

  unfoldable pub answer_of_value : Option Text → Answer
  unfolding answer_of_json
  answer_of_value none = (false, [])
  answer_of_value (some value) = answer_of_json (parse value)

  -- What a final response says; only a success can authorise.
  unfoldable pub answer_of : ResponseType → Option Text → Answer
  unfolding answer_of_value
  answer_of success value = answer_of_value value
  answer_of error value = (false, [])
  answer_of nack value = (false, [])
  answer_of ack value = (false, [])

  -- A client hears of a refusal only where it waits for a session.
  unfoldable pub error_to : Text → Text → PendingType → Option Json → List (Action Json)
  error_to to message pending_npt (some e) =
      send_npt_error to (session_id_of host config e) message ∷ []
  error_to to message pending_npt none = []
  error_to to message pending_ping envelope = []
  error_to to message pending_none envelope = []

  unfoldable pub pending_error : Text → Pending Json → List (Action Json)
  unfolding error_to
  pending_error message p = error_to p.requesting_atsign message p.type p.envelope

  -- _continueNptRequest does nothing with an envelope that is NULL.
  unfoldable pub grant_to : Text → List Text → PendingType → Option Json → List (Action Json)
  grant_to to rules pending_ping envelope = send_heartbeat to ∷ []
  grant_to to rules pending_npt (some e) = continue_npt e (take name_len to) rules ∷ []
  grant_to to rules pending_npt none = []
  grant_to to rules pending_none envelope = []

  -- What an authorised check goes on to do.
  unfoldable pub pending_granted : List Text → Pending Json → List (Action Json)
  unfolding grant_to
  pending_granted rules p = grant_to p.requesting_atsign rules p.type p.envelope

  -- The end of _handlePolicyResponse, with the answer.
  unfoldable pub finish_check : World → Answer → State Json → Outcome host config
  unfolding pending_error pending_granted cache_policy_decision cleanup_policy_pending is_pending
  finish_check w (authorized, rules) s =
      let p = s.pending in
      let cached = cache_policy_decision w p.requesting_atsign authorized rules s in
      if not authorized
      then (cleanup_policy_pending cached, pending_error denied_message p)
      else if is_pending p.type
      then (cleanup_policy_pending cached, pending_granted rules p)
      else (cached, [])

  unfoldable pub handle_parsed :
      World → Option RpcResponse → Option Text → State Json → Outcome host config
  unfolding finish_check is_ack
  handle_parsed w none value s = (s, [])
  handle_parsed w (some r) value s =
      if not s.pending.in_use
      then (s, [])
      else if not (s.pending.req_id == r.req_id)
      then (s, [])
      else if is_ack r.resp_type
      then (record s { pending = record s.pending { progress_at_ms = w.now_ms } }, [])
      else finish_check w (answer_of r.resp_type value) s

  unfoldable pub handle_keyed :
      World → Notification → Option Text → State Json → Outcome host config
  unfolding handle_parsed
  handle_keyed w n none s = (s, [])
  handle_keyed w n (some key) s =
      if not (same_atsign n.from config.policy_atsign)
      then (s, [])
      else handle_parsed w (parse_response_key key) n.decrypted_value s

  -- _handlePolicyResponse
  unfoldable pub handle_policy_response : World → Notification → State Json → Outcome host config
  unfolding handle_keyed
  handle_policy_response w n s = handle_keyed w n n.key s

  -- The timeout at the head of loop().
  unfoldable pub policy_timeout : World → State Json → Outcome host config
  unfolding pending_error cache_policy_decision cleanup_policy_pending wait_over
  policy_timeout w s =
      let p = s.pending in
      if p.in_use && wait_over p.started_at_ms p.progress_at_ms w.now_ms
      then (
        cleanup_policy_pending (cache_policy_decision w p.requesting_atsign false [] s),
        pending_error late_message p,
      )
      else (s, [])

  unfoldable pub reconnect_step : World → State Json → Outcome host config
  reconnect_step w s =
      if reconnect_after_decrypt_failure s.decrypt_reconnect_at_ms w.now_ms
      then (record s { decrypt_reconnect_at_ms = some w.now_ms }, reconnect_worker ∷ [])
      else (s, [])

  unfoldable pub resend_step : World → Option Text → State Json → Outcome host config
  unfolding send_policy_rpc_request next_policy_req_id
  resend_step w from s =
      if resend_after_decrypt_failure s.pending.in_use from config.policy_atsign
      then (let id = next_policy_req_id s.req_counter in
          send_policy_rpc_request w s.pending.requesting_atsign (record s {
            req_counter = id;
            pending = record s.pending { req_id = id; progress_at_ms = w.now_ms };
          }))
      else (s, [])

  -- _handleDecryptFailure; `_reconnectWorker` does not change what is modelled here.
  unfoldable pub handle_decrypt_failure : World → Option Text → State Json → Outcome host config
  unfolding reconnect_step resend_step
  handle_decrypt_failure w from s =
      let (s1, a1) = reconnect_step w s in let (s2, a2) = resend_step w from s1 in (s2, a1 ++ a2)

  -- The dispatch of _handleNotification, in a build without the testing shutdown.
  unfoldable pub dispatch :
      World → Notification → NotificationKey → Text → State Json → Outcome host config
  dispatch w n nk_ping from s = handle_ping host config w from s
  dispatch w n nk_npt_request from s = handle_npt_request host config w from n.decrypted_value s
  dispatch w n nk_none from s = (s, [])
  dispatch w n nk_sshpublickey from s = (s, [])
  dispatch w n nk_ssh_request from s = (s, [])
  dispatch w n nk_graceful_shutdown from s = (s, [])

  unfoldable pub handle_route : World → Notification → Route → State Json → Outcome host config
  unfolding dispatch
  handle_route w n ignored s = (s, [])
  handle_route w n policy_response s = handle_policy_response w n s
  handle_route w n (handle nk from) s = dispatch w n nk from s

  -- _handleNotification
  unfoldable pub handle_notification : World → Notification → State Json → Outcome host config
  unfolding handle_route
  handle_notification w n s = handle_route w n (route host config n) s
