-- ===== src/Daemon/Requests.antt =====
-- noports_daemon.cpp: _handlePing and _handleNptRequest, the requests that clients send.
pub mod Authorized
use mathlib.Core.Option
use noports.Prelude.{
  ℕ, ◌+◌, Bool, true, false, ◌&&◌, ◌||◌, not, Option, none, some, List, [], ◌∷◌, ◌++◌, ◌==◌, ltb,
  leb, if◌then◌else◌, Text, codes, str_eq, take, any,
}
use noports.Policy.Cache.{Decision, cache_lookup}
use noports.Daemon.Host.{Host, Notification}
use noports.Daemon.State.{
  Config, PendingType, pending_none, pending_ping, pending_npt, Pending, State, World, Action,
  send_heartbeat, send_npt_error, continue_npt, panic,
}
use noports.Daemon.Notify.{in_policy_mode}
use noports.Daemon.Envelope.{
  item, is_valid_session_id, Verdict, verified, refused, crashed, verify_envelope_signature,
}
use noports.Daemon.Pending.{cleanup_policy_pending, begin_check, policy_rate_limited}

-- _isManagerAtsign
unfoldable pub is_manager_atsign : Config → Text → Bool
is_manager_atsign config atsign = any (λ m. str_eq atsign m) config.manager_list

-- The most rules that reach _continueNptRequest: the size of `po_ptrs`.
abbrev pub max_rules : ℕ
max_rules = 16

abbrev pub denied_message : Text
denied_message = codes "Access denied by policy server"

-- A ping's check gives way to a session's, another session's does not.
unfoldable pub is_npt : PendingType → Bool
is_npt pending_npt = true
is_npt pending_ping = false
is_npt pending_none = true

module _ (host : Host) (config : Config) where
  open host use {Json, parse, get_object_item, get_string_value}

  abbrev pub Outcome : Type 0
  Outcome = State Json × List (Action Json)

  -- The session id of an envelope's payload.
  unfoldable pub session_id_of : Json → Option Text
  session_id_of envelope =
      get_string_value
        (get_object_item (get_object_item (some envelope) (codes "payload")) (codes "sessionId"))

  -- _handlePing on a cached decision, or none.
  unfoldable pub ping_decided : World → Text → Option Decision → State Json → Outcome
  unfolding begin_check
  ping_decided w from (some d) s = if d.authorized then (s, send_heartbeat from ∷ []) else (s, [])
  ping_decided w from none s =
      if s.pending.in_use then (s, []) else begin_check w pending_ping from none s

  unfoldable pub ping_by_policy : World → Text → State Json × Bool → Outcome
  unfolding ping_decided
  ping_by_policy w from (s, limited) =
      if limited
      then (s, [])
      else ping_decided w from (cache_lookup w.alloc s.decisions from w.now_ms) s

  unfoldable pub answer_ping : World → Text → State Json → Outcome
  unfolding ping_by_policy policy_rate_limited is_manager_atsign in_policy_mode
  answer_ping w from s =
      if in_policy_mode config.policy_atsign
      then ping_by_policy w from (policy_rate_limited w from pending_ping s)
      else if is_manager_atsign config from
      then (s, send_heartbeat from ∷ [])
      else (s, [])

  -- Nothing is answered until the response is built.
  unfoldable pub ping_with : World → Text → Option Text → State Json → Outcome
  unfolding answer_ping
  ping_with w from none s = (s, [])
  ping_with w from (some response) s = answer_ping w from s

  -- _handlePing
  unfoldable pub handle_ping : World → Text → State Json → Outcome
  unfolding ping_with
  handle_ping w from s = ping_with w from s.ping_response s

  unfoldable pub npt_decided : World → Text → Json → Option Decision → State Json → Outcome
  unfolding begin_check cleanup_policy_pending is_npt session_id_of
  npt_decided w from envelope (some d) s =
      if d.authorized
      then (s, continue_npt envelope from (take max_rules d.permit_open) ∷ [])
      else (s, send_npt_error from (session_id_of envelope) denied_message ∷ [])
  npt_decided w from envelope none s =
      if s.pending.in_use && is_npt s.pending.type
      then (s, [])
      else if s.pending.in_use
      then begin_check w pending_npt from (some envelope) (cleanup_policy_pending s)
      else begin_check w pending_npt from (some envelope) s

  -- _handleNptRequest from the authorisation on.
  unfoldable pub authorise_npt : World → Text → Json → State Json → Outcome
  unfolding npt_decided is_manager_atsign in_policy_mode
  authorise_npt w from envelope s =
      if in_policy_mode config.policy_atsign
      then npt_decided w from envelope (cache_lookup w.alloc s.decisions from w.now_ms) s
      else if is_manager_atsign config from
      then (s, continue_npt envelope from [] ∷ [])
      else (s, [])

  unfoldable pub npt_signed : World → Text → Json → Verdict → State Json → Outcome
  unfolding authorise_npt
  npt_signed w from envelope verified s = authorise_npt w from envelope s
  npt_signed w from envelope refused s = (s, [])
  npt_signed w from envelope crashed s = (s, panic ∷ [])

  unfoldable pub npt_parsed : World → Text → Option Json → State Json → Outcome
  unfolding npt_signed session_id_of
  npt_parsed w from none s = (s, [])
  npt_parsed w from (some envelope) s =
      if is_valid_session_id (session_id_of envelope)
      then npt_signed w from envelope (verify_envelope_signature host (some envelope) from) s
      else (s, [])

  unfoldable pub npt_value : World → Text → Option Text → State Json → Outcome
  unfolding npt_parsed
  npt_value w from none s = (s, [])
  npt_value w from (some value) s = npt_parsed w from (parse value) s

  unfoldable pub npt_limited : World → Text → Option Text → State Json × Bool → Outcome
  unfolding npt_value
  npt_limited w from value (s, limited) = if limited then (s, []) else npt_value w from value s

  -- _handleNptRequest; `value` is the notification's decrypted value.
  unfoldable pub handle_npt_request : World → Text → Option Text → State Json → Outcome
  unfolding npt_limited policy_rate_limited
  handle_npt_request w from value s =
      npt_limited w from value (policy_rate_limited w from pending_npt s)
