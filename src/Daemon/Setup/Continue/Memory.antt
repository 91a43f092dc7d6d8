-- ===== src/Daemon/Setup/Continue/Memory.antt =====
-- What a request without a session leaves allocated.
use noports.Prelude.{
  subst, ℕ, ◌+◌, ◌≤◌, ◌<◌, ◌≡◌, refl, ap, ◌∙◌, Bool, true, false, ◌&&◌, not, Option, none, zero,
  suc, some, List, [], ◌∷◌, arith, length, if◌then◌else◌, Text, codes, map, get_elem?,
}
use noports.Daemon.Host.{Host}
use noports.Daemon.Envelope.{verify_envelope_contents}
use noports.Daemon.Slots.{Relay, ask_relays, find_free_relay_slot}
use noports.Daemon.Slots.Free.{FirstFree, find_free_relay_slot-FirstFree}
use noports.Daemon.Enrollment.Advert.{Library}
use noports.Daemon.Setup.{SessionConfig, SetupWorld, SetupAction, send_error, Table, Outcome}
use noports.Daemon.Setup.SigningKey.{KeyVerdict, goes_on, is_refused, check_client_signing_key}
use noports.Daemon.Setup.Auth.{authenticate}
use noports.Daemon.Setup.Encryption.{Keys, no_keys, session_keys, keys_ok}
use noports.Daemon.Setup.Respond.{respond, response_fields}
use noports.Daemon.Setup.Continue.{
  put_back, stop_with, with_keys, release_all, hold, started, relay_result, start_in,
  answer_and_start, encrypt_session, take_slot, permitted_request, check_permit, with_verdict,
  with_session_id, continue_npt_request, base_config,
}
use noports.Relay.Start.{RelayConfig, RelaySlot, relay_start}
use noports.Relay.Start.Memory.{relay_start-failed}

-- An outcome with no session holds one block less than there were: the envelope's.
abbrev pub Clean : ℕ → Outcome → Type 0
Clean live o = o.session ≡ none → o.table.live + 1 ≡ live

get_elem?-some :
    (xs : List RelaySlot) (i : ℕ) → i < length xs → (x : RelaySlot) × (get_elem? xs i ≡ some x)
get_elem?-some [] i h = absurd (omega arith)
get_elem?-some (x ∷ xs) zero h = (x, refl)
get_elem?-some (x ∷ xs) (suc i) h = get_elem?-some xs i (omega arith)

get_elem?-lt : (xs : List Relay) (i : ℕ) {x : Relay} → get_elem? xs i ≡ some x → i < length xs
get_elem?-lt [] i h = absurd cc
get_elem?-lt (x ∷ xs) zero h = omega arith
get_elem?-lt (x ∷ xs) (suc i) h = omega (arith, get_elem?-lt xs i h)

length-map : (xs : List RelaySlot) → length (map (λ (s : RelaySlot). s.relay) xs) ≡ length xs
length-map [] = refl
length-map (x ∷ xs) = ap suc (length-map xs)

length-put_back : (xs : List RelaySlot) (rs : List Relay) → length (put_back xs rs) ≡ length xs
unfolding put_back
length-put_back [] rs = refl
length-put_back (x ∷ xs) [] = refl
length-put_back (x ∷ xs) (r ∷ rs) = ap suc (length-put_back xs rs)

-- A slot that is found is one of the relays.
found-some :
    (n slot : ℕ) (xs : List RelaySlot) (rs : List Relay)
    → find_free_relay_slot n (map (λ (s : RelaySlot). s.relay) xs) ≡ some slot
    → (x : RelaySlot) × (get_elem? (put_back xs rs) slot ≡ some x)
found-some n slot xs rs h =
    let f =
      subst (FirstFree n (map (λ (s : RelaySlot). s.relay) xs)) h
        (find_free_relay_slot-FirstFree n (map (λ (s : RelaySlot). s.relay) xs)) in
    let l = get_elem?-lt (map (λ (s : RelaySlot). s.relay) xs) slot f.1.1 in
    get_elem?-some (put_back xs rs) slot (omega (arith, l, length-map xs, length-put_back xs rs))

if-Clean : (n : ℕ) (b : Bool) (x y : Outcome) → Clean n x → Clean n y → Clean n (if b then x else y)
if-Clean n true x y p q = p
if-Clean n false x y p q = q

module _ (host : Host) (lib : Library host) (config : SessionConfig) (w : SetupWorld host) where
  open host use {Json}

  stop_with-Clean :
      (t : Table) (actions : List SetupAction)
      → 0 < t.live
      → Clean t.live (stop_with host lib config w t actions)
  unfolding stop_with
  stop_with-Clean t actions h e = omega arith

  release-hold :
      (c : RelayConfig) (k : Keys) (t : Table)
      → (release_all host lib config w c k (hold host lib config w c k t)).live ≡ t.live
  unfolding release_all hold
  release-hold c k t = omega arith

  hold-live :
      (c : RelayConfig) (k : Keys) (t : Table) → t.live ≤ (hold host lib config w c k t).live
  unfolding hold
  hold-live c k t = omega arith

  module _ (made : w.start.decrypter_made ≡ true) where
    start-failed :
        (c : RelayConfig) (s : RelaySlot) (live : ℕ)
        → (relay_start w.start c s live).2 ≡ false
        → (relay_start w.start c s live).1 ≡ live
    start-failed c s live h = ground (arith, relay_start-failed w.start c s live h, made)

    relay_result-Clean :
        (slot : ℕ) (rhost : Text) (c : RelayConfig) (k : Keys) (key : Option Text)
        (actions : List SetupAction) (t u : Table) (q : RelaySlot × ℕ × Bool)
        → 0 < u.live
        → t.live ≡ (hold host lib config w c k u).live
        → (q.2 ≡ false → q.1 ≡ t.live)
        → Clean u.live (relay_result host lib config w slot rhost c k key actions t q)
    unfolding relay_result started stop_with release_all hold
    relay_result-Clean slot rhost c k key actions t u (s, live, true) a e f h = absurd cc
    relay_result-Clean slot rhost c k key actions t u (s, live, false) a e f h =
        omega (arith, f refl)

    start_in-Clean :
        (slot : ℕ) (rhost : Text) (c : RelayConfig) (k : Keys) (key : Option Text)
        (actions : List SetupAction) (u : Table) (x : RelaySlot) (o : Option RelaySlot)
        → o ≡ some x
        → 0 < u.live
        → Clean u.live
            (start_in host lib config w slot rhost c k key actions (hold host lib config w c k u) o)
    unfolding start_in
    start_in-Clean slot rhost c k key actions u x none e a = absurd cc
    start_in-Clean slot rhost c k key actions u x (some y) e a =
        relay_result-Clean slot rhost c k key actions (hold host lib config w c k u) u
          (relay_start w.start c y (hold host lib config w c k u).live) a refl
          (start-failed c y (hold host lib config w c k u).live)

    hold-relays :
        (c : RelayConfig) (k : Keys) (t : Table) → (hold host lib config w c k t).relays ≡ t.relays
    unfolding hold
    hold-relays c k t = refl

    answer_and_start-Clean :
        (from rhost id : Text) (payload : Option Json) (slot : ℕ) (c : RelayConfig) (k : Keys)
        (key : Option Text) (u : Table) (x : RelaySlot)
        → get_elem? u.relays slot ≡ some x
        → 0 < u.live
        → Clean u.live (
            answer_and_start host lib config w from rhost id payload slot c k key
              (hold host lib config w c k u))
    unfolding answer_and_start
    answer_and_start-Clean from rhost id payload slot c k key u x e a =
        start_in-Clean slot rhost c k key
          (respond host config w from id (
            response_fields host
              (host.is_true (host.get_object_item payload (codes "encryptRvdTraffic")))
              (host.is_true (host.get_object_item payload (codes "encryptRvdTraffic"))
                && host.is_true (host.get_object_item payload (codes "twinKeys")))
              (host.get_object_item payload (codes "sessionId")) k))
          u x (get_elem? (hold host lib config w c k u).relays slot)
          (ap (λ (l : List RelaySlot). get_elem? l slot) (hold-relays c k u) ∙ e) a

    encrypt_session-Clean :
        (from rhost id : Text) (payload : Option Json) (slot : ℕ) (c : RelayConfig)
        (key : Option Text) (t : Table) (x : RelaySlot)
        → get_elem? t.relays slot ≡ some x
        → 0 < t.live
        → Clean t.live (encrypt_session host lib config w from rhost id payload slot c key t)
    unfolding encrypt_session
    encrypt_session-Clean from rhost id payload slot c key t x e a =
        let encrypt = host.is_true (host.get_object_item payload (codes "encryptRvdTraffic")) in
        let twin = encrypt && host.is_true (host.get_object_item payload (codes "twinKeys")) in
        let k = session_keys host w twin payload in
        let d = with_keys host lib config w k c in
        let r = release-hold d k t in
        if-Clean t.live (not encrypt)
          (answer_and_start host lib config w from rhost id payload slot c no_keys key
            (hold host lib config w c no_keys t))
          (if keys_ok host w twin k
            then answer_and_start host lib config w from rhost id payload slot d k key
                (hold host lib config w d k t)
            else stop_with host lib config w
                (release_all host lib config w d k (hold host lib config w d k t))
                (send_error from id (codes "Failed to set up session encryption") ∷ []))
          (answer_and_start-Clean from rhost id payload slot c no_keys key t x e a)
          (if-Clean t.live (keys_ok host w twin k)
            (answer_and_start host lib config w from rhost id payload slot d k key
              (hold host lib config w d k t))
            (stop_with host lib config w
              (release_all host lib config w d k (hold host lib config w d k t))
              (send_error from id (codes "Failed to set up session encryption") ∷ []))
            (answer_and_start-Clean from rhost id payload slot d k key t x e a)
            (λ n.
              stop_with-Clean (release_all host lib config w d k (hold host lib config w d k t))
                (send_error from id (codes "Failed to set up session encryption") ∷ [])
                (omega (arith, r)) n
              ∙ r))

    take_slot-Clean :
        (from rhost id : Text) (payload : Option Json) (key : Option Text) (t : Table)
        (o : Option ℕ)
        → ((slot : ℕ) → o ≡ some slot → (x : RelaySlot) × (get_elem? t.relays slot ≡ some x))
        → 0 < t.live
        → Clean t.live (take_slot host lib config w from rhost id payload key t o)
    unfolding take_slot
    take_slot-Clean from rhost id payload key t none e a = stop_with-Clean t _ a
    take_slot-Clean from rhost id payload key t (some slot) e a =
        let (x, g) = e slot refl in
        encrypt_session-Clean from rhost id payload slot
          (authenticate host config w payload (base_config host lib config w payload rhost id)) key
          t x g a

    permitted_request-Clean :
        (from rhost id : Text) (payload : Option Json) (key : Option Text) (t : Table)
        → 0 < t.live
        → Clean t.live (permitted_request host lib config w from rhost id payload key t)
    unfolding permitted_request
    permitted_request-Clean from rhost id payload key t a =
        if-Clean t.live _ _ _ (stop_with-Clean t _ a) (
          take_slot-Clean from rhost id payload key
            (record t {
              relays =
                  put_back t.relays
                    (ask_relays config.max_relays (map (λ (s : RelaySlot). s.relay) t.relays)).0;
            })
            (find_free_relay_slot config.max_relays (map (λ (s : RelaySlot). s.relay) t.relays))
            (λ slot.
              found-some config.max_relays slot t.relays
                (ask_relays config.max_relays (map (λ (s : RelaySlot). s.relay) t.relays)).0)
            a)

    check_permit-Clean :
        (from id : Text) (payload : Option Json) (rules : List Text) (key : Option Text) (t : Table)
        (o : Option Text)
        → 0 < t.live
        → Clean t.live (check_permit host lib config w from id payload rules key t o)
    unfolding check_permit
    check_permit-Clean from id payload rules key t none a = stop_with-Clean t _ a
    check_permit-Clean from id payload rules key t (some rhost) a =
        if-Clean t.live _ _ _ (permitted_request-Clean from rhost id payload key t a)
          (stop_with-Clean t _ a)

    with_verdict-Clean :
        (from id : Text) (payload : Option Json) (rules : List Text) (t : Table) (v : KeyVerdict)
        → 0 < t.live
        → Clean t.live (with_verdict host lib config w from id payload rules t v)
    unfolding with_verdict
    with_verdict-Clean from id payload rules t (is_refused r) a = stop_with-Clean t _ a
    with_verdict-Clean from id payload rules t (goes_on key) a =
        if-Clean t.live _ _ _
          (check_permit-Clean from id payload rules key t
            (host.get_string_value (host.get_object_item payload (codes "requestedHost"))) a)
          (stop_with-Clean t [] a)

    with_session_id-Clean :
        (envelope : Json) (from : Text) (rules : List Text) (t : Table) (o : Option Text)
        → 0 < t.live
        → Clean t.live (with_session_id host lib config w envelope from rules t o)
    unfolding with_session_id
    with_session_id-Clean envelope from rules t none a = stop_with-Clean t _ a
    with_session_id-Clean envelope from rules t (some id) a =
        with_verdict-Clean from id (host.get_object_item (some envelope) (codes "payload")) rules t
          (check_client_signing_key host lib config w (some envelope) from id t.keys t.relays) a

    -- A request that gets no session leaves nothing of it allocated, its envelope included, on every
    -- return, unless the decrypter of the relay's control channel could not be made.
    pub continue_npt_request-Clean :
        (envelope : Json) (from : Text) (rules : List Text) (t : Table)
        → 0 < t.live
        → (continue_npt_request host lib config w envelope from rules t).session ≡ none
        → (continue_npt_request host lib config w envelope from rules t).table.live + 1 ≡ t.live
    unfolding continue_npt_request
    continue_npt_request-Clean envelope from rules t a =
        if-Clean t.live (verify_envelope_contents host (some envelope) true)
          (with_session_id host lib config w envelope from rules t (
            host.get_string_value (
              host.get_object_item (host.get_object_item (some envelope) (codes "payload"))
                (codes "sessionId"))))
          (stop_with host lib config w t [])
          (with_session_id-Clean envelope from rules t
            (host.get_string_value (
              host.get_object_item (host.get_object_item (some envelope) (codes "payload"))
                (codes "sessionId")))
            a)
          (stop_with-Clean t [] a)
