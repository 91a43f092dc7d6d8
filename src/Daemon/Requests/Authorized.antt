-- ===== src/Daemon/Requests/Authorized.antt =====
-- Who a request is granted to, and what the checks of others survive.
use noports.Prelude.{
  ◌≡◌, ◌⊎◌, inl, inr, refl, Bool, true, false, ◌&&◌, Option, none, some, List, [], arith,
  if◌then◌else◌, Text, any,
}
use noports.Policy.Cache.{Decision, cache_lookup}
use noports.Daemon.Host.{Host}
use noports.Daemon.State.{
  Config, PendingType, pending_ping, pending_npt, State, World, Action, send_rpc, send_heartbeat,
  send_npt_error, continue_npt, reconnect_worker, panic,
}
use noports.Daemon.Notify.{in_policy_mode}
use noports.Daemon.Envelope.{is_valid_session_id, Verdict, verified, refused, crashed}
use noports.Daemon.Envelope.Checks.{Signed, verify_envelope_signature-Signed}
use noports.Daemon.Pending.{
  cleanup_policy_pending, send_policy_rpc_request, begin_check, occupy, policy_rate_limited,
}
use noports.Daemon.Requests.{
  is_manager_atsign, Outcome, session_id_of, ping_decided, ping_by_policy, answer_ping, ping_with,
  handle_ping, is_npt, npt_decided, authorise_npt, npt_signed, npt_parsed, npt_value, npt_limited,
  handle_npt_request,
}

module _ {Json : Type 0} where
  -- The actions that only an authorised atSign may cause.
  unfoldable pub is_grant : Action Json → Bool
  is_grant (send_heartbeat a) = true
  is_grant (continue_npt e a r) = true
  is_grant (send_rpc i a) = false
  is_grant (send_npt_error a i m) = false
  is_grant reconnect_worker = false
  is_grant panic = false

  unfoldable pub grants : List (Action Json) → Bool
  unfolding is_grant
  grants actions = any is_grant actions

  pub send_policy_rpc_request-grants :
      (w : World) (c : Text) (s : State Json) → grants (send_policy_rpc_request w c s).1 ≡ false
  unfolding send_policy_rpc_request grants
  send_policy_rpc_request-grants w c s = ground arith

  pub begin_check-grants :
      (w : World) (t : PendingType) (from : Text) (e : Option Json) (s : State Json)
      → grants (begin_check w t from e s).1 ≡ false
  unfolding begin_check
  begin_check-grants w t from e s = send_policy_rpc_request-grants w from (occupy w t from e s)

module _ (host : Host) (config : Config) where
  open host use {Json, parse}

  -- The sender is a manager, or in policy mode a decision that is still remembered authorises it.
  abbrev pub IsPermitted : World → Text → State Json → Type 0
  IsPermitted w from s =
      ((in_policy_mode config.policy_atsign ≡ false) × (is_manager_atsign config from ≡ true))
      ⊎ ((in_policy_mode config.policy_atsign ≡ true)
          × ((d : Decision) × (cache_lookup w.alloc s.decisions from w.now_ms ≡ some d)
              × (d.authorized ≡ true)))

  policy_rate_limited-decisions :
      (w : World) (a : Text) (t : PendingType) (s : State Json)
      → (policy_rate_limited w a t s).0.decisions ≡ s.decisions
  unfolding policy_rate_limited
  policy_rate_limited-decisions w a t s = refl

  -- A test whose result is granted: the branch that is taken is.
  pub if-grants :
      (b : Bool) (x y : Outcome host config)
      → grants (if b then x else y).1 ≡ true
      → ((b ≡ true) × (grants x.1 ≡ true)) ⊎ ((b ≡ false) × (grants y.1 ≡ true))
  if-grants true x y h = inl (refl, h)
  if-grants false x y h = inr (refl, h)

  pub nothing-grants : (s : State Json) → grants {Json = Json} [] ≡ true → ⊥
  unfolding grants
  nothing-grants s h = cc

  ping_decided-grants :
      (w : World) (from : Text) (o : Option Decision) (s : State Json)
      → grants (ping_decided host config w from o s).1 ≡ true
      → (d : Decision) × (o ≡ some d) × (d.authorized ≡ true)
  unfolding ping_decided
  ping_decided-grants w from (some d) s h = elim (if-grants d.authorized _ _ h) [
    | inl (a, g) ↦ (d, refl, a)
    | inr (a, g) ↦ absurd (nothing-grants s g)
  ]
  ping_decided-grants w from none s h = elim (if-grants s.pending.in_use _ _ h) [
    | inl (a, g) ↦ absurd (nothing-grants s g)
    | inr (a, g) ↦ absurd (let e = begin_check-grants w pending_ping from none s in cc)
  ]

  ping_by_policy-grants :
      (w : World) (from : Text) (s : State Json) (b : Bool)
      → grants (ping_by_policy host config w from (s, b)).1 ≡ true
      → (d : Decision) × (cache_lookup w.alloc s.decisions from w.now_ms ≡ some d)
        × (d.authorized ≡ true)
  unfolding ping_by_policy
  ping_by_policy-grants w from s b h = elim (if-grants b _ _ h) [
    | inl (a, g) ↦ absurd (nothing-grants s g)
    | inr (a, g) ↦ ping_decided-grants w from _ s g
  ]

  answer_ping-grants :
      (w : World) (from : Text) (s : State Json)
      → grants (answer_ping host config w from s).1 ≡ true
      → IsPermitted w from s
  unfolding answer_ping policy_rate_limited
  answer_ping-grants w from s h = elim (if-grants (in_policy_mode config.policy_atsign) _ _ h) [
    | inl (p, g) ↦ inr (p, ping_by_policy-grants w from _ _ g)
    | inr (p, g) ↦ elim (if-grants (is_manager_atsign config from) _ _ g) [
      | inl (m, _) ↦ inl (p, m)
      | inr (_, f) ↦ absurd (nothing-grants s f)
    ]
  ]

  ping_with-grants :
      (w : World) (from : Text) (o : Option Text) (s : State Json)
      → grants (ping_with host config w from o s).1 ≡ true
      → IsPermitted w from s
  unfolding ping_with
  ping_with-grants w from none s h = absurd (nothing-grants s h)
  ping_with-grants w from (some r) s h = answer_ping-grants w from s h

  -- A ping is answered at once only for a manager, or in policy mode for a sender that a remembered
  -- decision authorises.
  pub handle_ping-grants :
      (w : World) (from : Text) (s : State Json)
      → grants (handle_ping host config w from s).1 ≡ true
      → IsPermitted w from s
  unfolding handle_ping
  handle_ping-grants w from s h = ping_with-grants w from s.ping_response s h

  npt_decided-grants :
      (w : World) (from : Text) (e : Json) (o : Option Decision) (s : State Json)
      → grants (npt_decided host config w from e o s).1 ≡ true
      → (d : Decision) × (o ≡ some d) × (d.authorized ≡ true)
  unfolding npt_decided
  npt_decided-grants w from e (some d) s h = elim (if-grants d.authorized _ _ h) [
    | inl (a, g) ↦ (d, refl, a)
    | inr (a, g) ↦ absurd (unfold grants in cc)
  ]
  npt_decided-grants w from e none s h =
      elim (if-grants (s.pending.in_use && is_npt s.pending.type) _ _ h) [
        | inl (a, g) ↦ absurd (nothing-grants s g)
        | inr (a, g) ↦ elim (if-grants s.pending.in_use _ _ g) [
          | inl (b, f) ↦ absurd (
              let q = begin_check-grants w pending_npt from (some e) (cleanup_policy_pending s) in
              cc)
          | inr (b, f) ↦ absurd (let q = begin_check-grants w pending_npt from (some e) s in cc)
        ]
      ]

  authorise_npt-grants :
      (w : World) (from : Text) (e : Json) (s : State Json)
      → grants (authorise_npt host config w from e s).1 ≡ true
      → IsPermitted w from s
  unfolding authorise_npt
  authorise_npt-grants w from e s h = elim (if-grants (in_policy_mode config.policy_atsign) _ _ h) [
    | inl (p, g) ↦ inr (p, npt_decided-grants w from e _ s g)
    | inr (p, g) ↦ elim (if-grants (is_manager_atsign config from) _ _ g) [
      | inl (m, _) ↦ inl (p, m)
      | inr (_, f) ↦ absurd (nothing-grants s f)
    ]
  ]

  -- A session request that may go on: it parses to an envelope with a session id that is a UUID and
  -- a signature by the sender's key, and the sender is permitted.
  pub record MayContinue (w : World) (from : Text) (value : Option Text) (s : State Json)
      : Type 0 where
    pub text : Text
    pub envelope : Json
    pub value_is : value ≡ some text
    pub envelope_is : parse text ≡ some envelope
    pub session_id_valid : is_valid_session_id (session_id_of host config envelope) ≡ true
    pub signed : Signed host (some envelope) from
    pub permitted : IsPermitted w from s

  npt_signed-grants :
      (w : World) (from : Text) (e : Json) (v : Verdict) (s : State Json)
      → grants (npt_signed host config w from e v s).1 ≡ true
      → (v ≡ verified) × IsPermitted w from s
  unfolding npt_signed
  npt_signed-grants w from e verified s h = (refl, authorise_npt-grants w from e s h)
  npt_signed-grants w from e refused s h = absurd (nothing-grants s h)
  npt_signed-grants w from e crashed s h = absurd (unfold grants in cc)

  npt_parsed-grants :
      (w : World) (from text : Text) (o : Option Json) (s : State Json)
      → parse text ≡ o
      → grants (npt_parsed host config w from o s).1 ≡ true
      → MayContinue w from (some text) s
  unfolding npt_parsed
  npt_parsed-grants w from text none s q h = absurd (nothing-grants s h)
  npt_parsed-grants w from text (some e) s q h =
      elim (if-grants (is_valid_session_id (session_id_of host config e)) _ _ h) [
        | inr (_, g) ↦ absurd (nothing-grants s g)
        | inl (v, g) ↦
            let (x, p) = npt_signed-grants w from e _ s g in
            record {
              text = text;
              envelope = e;
              value_is = refl;
              envelope_is = q;
              session_id_valid = v;
              signed = verify_envelope_signature-Signed host (some e) from x;
              permitted = p;
            }
      ]

  npt_limited-grants :
      (w : World) (from : Text) (value : Option Text) (s : State Json) (b : Bool)
      → grants (npt_limited host config w from value (s, b)).1 ≡ true
      → MayContinue w from value s
  unfolding npt_limited npt_value
  npt_limited-grants w from none s true h = absurd (nothing-grants s h)
  npt_limited-grants w from (some t) s true h = absurd (nothing-grants s h)
  npt_limited-grants w from none s false h = absurd (nothing-grants s h)
  npt_limited-grants w from (some t) s false h = npt_parsed-grants w from t _ s refl h

  -- A session request goes on at once only if its envelope parses, its session id is a UUID, its
  -- signature verifies with the sender's key, and the sender is a manager or, in policy mode, a
  -- remembered decision authorises it.
  pub handle_npt_request-grants :
      (w : World) (from : Text) (value : Option Text) (s : State Json)
      → grants (handle_npt_request host config w from value s).1 ≡ true
      → MayContinue w from value s
  unfolding handle_npt_request policy_rate_limited
  handle_npt_request-grants w from value s h =
      let r = npt_limited-grants w from value _ _ h in
      record {
        text = r.text;
        envelope = r.envelope;
        value_is = r.value_is;
        envelope_is = r.envelope_is;
        session_id_valid = r.session_id_valid;
        signed = r.signed;
        permitted = r.permitted;
      }
