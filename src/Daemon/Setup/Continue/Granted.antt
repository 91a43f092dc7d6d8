-- ===== src/Daemon/Setup/Continue/Granted.antt =====
-- Which requests get a session.
use noports.Prelude.{
  ℕ, ◌≡◌, ◌⊎◌, inl, inr, refl, sym, ◌∙◌, Bool, true, false, Option, none, some, List, arith,
  if◌then◌else◌, Text, codes, map,
}
use noports.Daemon.Host.{Host}
use noports.Daemon.Envelope.{verify_envelope_contents}
use noports.Daemon.Slots.{ask_relays, find_free_relay_slot}
use noports.Daemon.Enrollment.Advert.{Library, Why}
use noports.Daemon.Enrollment.Verify.{
  Signature, absent, verified, refused, unchecked, verify_enrollment_signature,
}
use noports.Daemon.Setup.{SessionConfig, SetupWorld, Table, Outcome}
use noports.Daemon.Setup.SigningKey.{
  KeyVerdict, goes_on, is_refused, session_live, judge, check_client_signing_key,
}
use noports.Daemon.Setup.Denial.{permits}
use noports.Daemon.Setup.Continue.{
  put_back, stop_with, permitted_request, check_permit, with_verdict, with_session_id,
  continue_npt_request,
}
use noports.Daemon.Setup.Continue.Target.{if-session}
use noports.Daemon.Setup.Continue.Told.{take_slot-session, Reaches, Reaches-of-Follows}
use noports.Relay.Start.{RelayConfig, RelaySlot}

module _ (host : Host) (lib : Library host) (config : SessionConfig) (w : SetupWorld host) where
  open host use {Json, get_object_item, get_string_value, to_uint16}

  -- What the signature check asks of a request: a verified signature, or none where none is required
  -- and it is missing or cannot be checked.
  abbrev pub Accepted : Signature → Type 0
  Accepted s =
      ((key : Text) × (s ≡ verified key))
      ⊎ ((config.require_enrollment_signature ≡ false)
          × ((s ≡ absent) ⊎ ((y : Why) × (s ≡ unchecked y))))

  judge-Accepted :
      (s : Signature) (key : Option Text)
      → judge config.require_enrollment_signature s ≡ goes_on key
      → Accepted s
  unfolding judge
  judge-Accepted (verified k) key h = inl (k, refl)
  judge-Accepted (refused y) key h = absurd cc
  judge-Accepted (unchecked y) key h = inr (ground arith, inr (y, refl))
  judge-Accepted absent key h = inr (ground arith, inl refl)

  -- What a request with a session has passed.
  pub record IsGranted (envelope : Json) (from : Text) (rules : List Text) (t : Table)
      (p : ℕ × RelayConfig) : Type 0 where
    pub id : Text
    pub rhost : Text
    pub contents : verify_envelope_contents host (some envelope) true ≡ true
    pub id_is :
        get_string_value
          (get_object_item (get_object_item (some envelope) (codes "payload")) (codes "sessionId"))
        ≡ some id
    pub not_live : session_live id t.keys t.relays ≡ false
    pub accepted : Accepted (verify_enrollment_signature host lib w.lookup (some envelope) from)
    pub rhost_is :
        get_string_value (
          get_object_item
            (get_object_item (some envelope) (codes "payload"))
            (codes "requestedHost"))
        ≡ some rhost
    pub permitted :
        permits config rhost
          (to_uint16 (
            get_object_item
              (get_object_item (some envelope) (codes "payload"))
              (codes "requestedPort")))
          rules
        ≡ true
    pub slot_free :
        find_free_relay_slot config.max_relays (map (λ (s : RelaySlot). s.relay) t.relays)
        ≡ some p.0
    pub reaches :
        Reaches host lib config w (get_object_item (some envelope) (codes "payload")) rhost p.1

  if-last :
      (b : Bool) (x y : Outcome) (p : ℕ × RelayConfig)
      → x.session ≡ none
      → (if b then x else y).session ≡ some p
      → y.session ≡ some p
  if-last true x y p e h = absurd (let q : none ≡ some p = sym e ∙ h in cc)
  if-last false x y p e h = h

  permitted_request-session :
      (from rhost id : Text) (payload : Option Json) (key : Option Text) (t : Table)
      (p : ℕ × RelayConfig)
      → (permitted_request host lib config w from rhost id payload key t).session ≡ some p
      → (find_free_relay_slot config.max_relays (map (λ (s : RelaySlot). s.relay) t.relays)
          ≡ some p.0)
        × Reaches host lib config w payload rhost p.1
  unfolding permitted_request stop_with
  permitted_request-session from rhost id payload key t p h =
      let (e, f) =
        take_slot-session host lib config w from rhost id payload key
          (record t {
            relays =
                put_back t.relays
                  (ask_relays config.max_relays (map (λ (s : RelaySlot). s.relay) t.relays)).0;
          })
          (find_free_relay_slot config.max_relays (map (λ (s : RelaySlot). s.relay) t.relays)) p
          (if-last _ _ _ p refl h) in
      (e, Reaches-of-Follows host lib config w payload rhost id p.1 f)

  check_permit-session :
      (from id : Text) (payload : Option Json) (rules : List Text) (key : Option Text) (t : Table)
      (o : Option Text) (p : ℕ × RelayConfig)
      → (check_permit host lib config w from id payload rules key t o).session ≡ some p
      → (rhost : Text) × (o ≡ some rhost)
        × (permits config rhost (to_uint16 (get_object_item payload (codes "requestedPort"))) rules
            ≡ true)
        × (find_free_relay_slot config.max_relays (map (λ (s : RelaySlot). s.relay) t.relays)
            ≡ some p.0)
        × Reaches host lib config w payload rhost p.1
  unfolding check_permit stop_with
  check_permit-session from id payload rules key t none p h = absurd cc
  check_permit-session from id payload rules key t (some rhost) p h =
      let (a, g) = if-session host lib config w _ _ _ p refl h in
      let (e, r) = permitted_request-session from rhost id payload key t p g in
      (rhost, refl, a, e, r)

  with_verdict-session :
      (from id : Text) (payload : Option Json) (rules : List Text) (t : Table) (v : KeyVerdict)
      (p : ℕ × RelayConfig)
      → (with_verdict host lib config w from id payload rules t v).session ≡ some p
      → (key : Option Text) × (v ≡ goes_on key)
        × ((check_permit host lib config w from id payload rules key t
              (get_string_value (get_object_item payload (codes "requestedHost")))).session
            ≡ some p)
  unfolding with_verdict stop_with
  with_verdict-session from id payload rules t (is_refused r) p h = absurd cc
  with_verdict-session from id payload rules t (goes_on key) p h =
      (key, refl, (if-session host lib config w _ _ _ p refl h).1)

  if-goes_on :
      (b : Bool) (v : KeyVerdict) (r : noports.Daemon.Setup.Refusal) (key : Option Text)
      → (if b then is_refused r else v) ≡ goes_on key
      → (b ≡ false) × (v ≡ goes_on key)
  if-goes_on true v r key h = absurd cc
  if-goes_on false v r key h = (refl, h)

  with_session_id-session :
      (envelope : Json) (from : Text) (rules : List Text) (t : Table) (o : Option Text)
      (p : ℕ × RelayConfig)
      → verify_envelope_contents host (some envelope) true ≡ true
      → get_string_value
          (get_object_item (get_object_item (some envelope) (codes "payload")) (codes "sessionId"))
        ≡ o
      → (with_session_id host lib config w envelope from rules t o).session ≡ some p
      → IsGranted envelope from rules t p
  unfolding with_session_id stop_with
  with_session_id-session envelope from rules t none p c e h = absurd cc
  with_session_id-session envelope from rules t (some id) p c e h =
      let payload = get_object_item (some envelope) (codes "payload") in
      let (key, v, g) =
        with_verdict-session from id payload rules t
          (check_client_signing_key host lib config w (some envelope) from id t.keys t.relays) p
          h in
      let (live, j) =
        if-goes_on (session_live id t.keys t.relays)
          (judge config.require_enrollment_signature
            (verify_enrollment_signature host lib w.lookup (some envelope) from))
          noports.Daemon.Setup.already_live key (unfold check_client_signing_key in v) in
      let (rhost, a, b, f, r) =
        check_permit-session from id payload rules key t
          (get_string_value (get_object_item payload (codes "requestedHost"))) p g in
      record {
        id = id;
        rhost = rhost;
        contents = c;
        id_is = e;
        not_live = live;
        accepted =
            judge-Accepted (verify_enrollment_signature host lib w.lookup (some envelope) from) key
              j;
        rhost_is = a;
        permitted = b;
        slot_free = f;
        reaches = r;
      }

  -- A request gets a session only if its contents pass, no watched session has its id, its enrollment
  -- signature is verified or, where none is required, missing or impossible to check, its host and
  -- port are permitted, and a relay is free; the relay goes to that host and port, and encrypts with
  -- whole pairs of keys exactly if the request asked for encryption.
  pub continue_npt_request-IsGranted :
      (envelope : Json) (from : Text) (rules : List Text) (t : Table) (p : ℕ × RelayConfig)
      → (continue_npt_request host lib config w envelope from rules t).session ≡ some p
      → IsGranted envelope from rules t p
  unfolding continue_npt_request stop_with
  continue_npt_request-IsGranted envelope from rules t p h =
      let (c, g) = if-session host lib config w _ _ _ p refl h in
      with_session_id-session envelope from rules t _ p c refl g
