-- ===== src/Daemon/Setup/Continue/Target.antt =====
-- What the relay of a session is told: its target, and its keys.
use noports.Prelude.{
  ℕ, ◌≡◌, refl, sym, ap, subst, ◌∙◌, Bool, true, false, ◌&&◌, ◌||◌, not, Option, none, some, List,
  arith, if◌then◌else◌, Text, codes,
}
use noports.Daemon.Host.{Host}
use noports.Daemon.Enrollment.Advert.{Library}
use noports.Daemon.Setup.{SessionConfig, SetupWorld, SetupAction, Table, Outcome}
use noports.Daemon.Setup.Auth.{legacy_auth, escr_auth, auth_by_id, is_escr, authenticate}
use noports.Daemon.Setup.Encryption.{
  Keys, no_pair, Pair, is_whole, session_keys, keys_ok, seal_all, seal_with, client_key,
}
use noports.Daemon.Setup.Continue.{stop_with, with_keys, started, relay_result, start_in}
use noports.Relay.Start.{RelayConfig, RelaySlot, copied, is_present, relay_start}
use noports.Relay.Start.Memory.{relay_start-done}

-- What authentication leaves of a configuration: where the relay goes, and whether it encrypts.
abbrev pub SameTarget : RelayConfig → RelayConfig → Type 0
SameTarget c d =
    (c.local_host ≡ d.local_host)
    × (c.local_port ≡ d.local_port)
    × (c.rv_e2ee ≡ d.rv_e2ee)
    × (c.multi ≡ d.multi)

module _ (host : Host) (lib : Library host) (config : SessionConfig) (w : SetupWorld host) where
  open host use {Json, get_object_item, get_string_value, is_true, to_uint16}

  escr_auth-target :
      (payload : Option Json) (id : Text) (raw : Option Text) (c : RelayConfig)
      → SameTarget (escr_auth host config w payload id raw c) c
  unfolding escr_auth legacy_auth
  escr_auth-target payload id none c = (refl, refl, refl, refl)
  escr_auth-target payload id (some raw) c = (refl, refl, refl, refl)

  if-target :
      (b : Bool) (x y c : RelayConfig)
      → SameTarget x c
      → SameTarget y c
      → SameTarget (if b then x else y) c
  if-target true x y c p q = p
  if-target false x y c p q = q

  auth_by_id-target :
      (payload : Option Json) (o : Option Text) (c : RelayConfig)
      → SameTarget (auth_by_id host config w payload o c) c
  unfolding auth_by_id legacy_auth
  auth_by_id-target payload none c = (refl, refl, refl, refl)
  auth_by_id-target payload (some id) c =
      if-target
        (is_escr host config w (get_string_value (get_object_item payload (codes "relayAuthMode")))
          && config.pkam_signing_key)
        _ (legacy_auth host config w payload c) c
        (escr_auth-target payload id
          (get_string_value (get_object_item payload (codes "relayAuthAesKey"))) c)
        (refl, refl, refl, refl)

  pub authenticate-target :
      (payload : Option Json) (c : RelayConfig)
      → SameTarget (authenticate host config w payload c) c
  unfolding authenticate
  authenticate-target payload c =
      if-target (is_true (get_object_item payload (codes "authenticateToRvd"))) _ c c
        (auth_by_id-target payload config.enrollment_id c) (refl, refl, refl, refl)

  pub if-session :
      (b : Bool) (x y : Outcome) (p : ℕ × RelayConfig)
      → y.session ≡ none
      → (if b then x else y).session ≡ some p
      → (b ≡ true) × (x.session ≡ some p)
  if-session true x y p e h = (refl, h)
  if-session false x y p e h = absurd (let q : none ≡ some p = sym e ∙ h in cc)

  relay_result-session :
      (slot : ℕ) (rhost : Text) (c : RelayConfig) (k : Keys) (key : Option Text)
      (actions : List SetupAction) (t : Table) (q : RelaySlot × ℕ × Bool) (p : ℕ × RelayConfig)
      → (relay_result host lib config w slot rhost c k key actions t q).session ≡ some p
      → (q.2 ≡ true) × ((slot, q.0.config) ≡ p)
  unfolding relay_result started stop_with
  relay_result-session slot rhost c k key actions t (s, live, true) p h = (refl, cc)
  relay_result-session slot rhost c k key actions t (s, live, false) p h = absurd cc

  pub start_in-session :
      (slot : ℕ) (rhost : Text) (c : RelayConfig) (k : Keys) (key : Option Text)
      (actions : List SetupAction) (t : Table) (o : Option RelaySlot) (p : ℕ × RelayConfig)
      → (start_in host lib config w slot rhost c k key actions t o).session ≡ some p
      → p ≡ (slot, copied w.start c)
  unfolding start_in
  start_in-session slot rhost c k key actions t none p h = absurd (unfold stop_with in cc)
  start_in-session slot rhost c k key actions t (some s) p h =
      let (d, e) =
        relay_result-session slot rhost c k key actions t (relay_start w.start c s t.live) p h in
      let f = (relay_start-done w.start c s t.live d).1 in
      sym e ∙ ap (λ (x : RelayConfig). (slot, x)) f

  -- The relay's encryption: a request for it is met with a whole pair of keys, or with two.
  pub record IsEncrypted (payload : Option Json) (c : RelayConfig) : Type 0 where
    pub keys : Keys
    pub e2ee : c.rv_e2ee ≡ true
    pub key_kept : c.session_aes_key ≡ keys.plain.key
    pub iv_kept : c.session_iv ≡ keys.plain.iv
    pub key_d2c_kept : c.session_aes_key_d2c ≡ keys.plain_d2c.key
    pub iv_d2c_kept : c.session_iv_d2c ≡ keys.plain_d2c.iv
    pub whole : is_whole keys.plain ≡ true
    pub sealed_whole : is_whole keys.sealed ≡ true
    pub twin_whole :
        is_true (get_object_item payload (codes "twinKeys")) ≡ true
        → (is_whole keys.plain_d2c ≡ true) × (is_whole keys.sealed_d2c ≡ true)

  seal_with-plain :
      (twin : Bool) (o : Option host.PublicKey) (p q : Pair)
      → ((seal_with host w twin o p q).plain ≡ p) × ((seal_with host w twin o p q).plain_d2c ≡ q)
  unfolding seal_with
  seal_with-plain twin none p q = (refl, refl)
  seal_with-plain twin (some pk) p q = (ground arith, ground arith)

  if-keys :
      (b : Bool) (x y : Keys) (twin : Bool)
      → keys_ok host w twin y ≡ false
      → keys_ok host w twin (if b then x else y) ≡ true
      → (b ≡ true) × ((if b then x else y) ≡ x)
  if-keys true x y twin e h = (refl, refl)
  if-keys false x y twin e h = absurd (let q : false ≡ true = sym e ∙ h in cc)

  unsealed :
      (twin : Bool) (p q : Pair)
      → keys_ok host w twin
          (record { plain = p; plain_d2c = q; sealed = no_pair; sealed_d2c = no_pair })
        ≡ false
  unfolding keys_ok is_whole is_present
  unsealed twin p q = refl

  and-parts : (a b : Bool) → (a && b) ≡ true → (a ≡ true) × (b ≡ true)
  and-parts a b h = (ground arith, ground arith)

  or-right : (a b : Bool) → (not a || b) ≡ true → a ≡ true → b ≡ true
  or-right a b h e = ground arith

  seal_all-whole :
      (twin : Bool) (payload : Option Json) (p q : Pair)
      → keys_ok host w twin (seal_all host w twin payload p q) ≡ true
      → (is_whole (seal_all host w twin payload p q).plain ≡ true)
        × (twin ≡ true → is_whole (seal_all host w twin payload p q).plain_d2c ≡ true)
  unfolding seal_all
  seal_all-whole twin payload p q h =
      let (g, e) =
        if-keys (is_whole p && (not twin || is_whole q))
          (seal_with host w twin (client_key host w payload) p q)
          (record { plain = p; plain_d2c = q; sealed = no_pair; sealed_d2c = no_pair }) twin
          (unsealed twin p q) h in
      let (a, b) = and-parts (is_whole p) (not twin || is_whole q) g in
      let (u, v) = seal_with-plain twin (client_key host w payload) p q in
      (
        ap (λ (k : Keys). is_whole k.plain) e ∙ ap is_whole u ∙ a,
        λ t.
            ap (λ (k : Keys). is_whole k.plain_d2c) e
            ∙ ap is_whole v
            ∙ or-right twin (is_whole q) b t,
      )

  session_keys-whole :
      (twin : Bool) (payload : Option Json)
      → keys_ok host w twin (session_keys host w twin payload) ≡ true
      → (is_whole (session_keys host w twin payload).plain ≡ true)
        × (twin ≡ true → is_whole (session_keys host w twin payload).plain_d2c ≡ true)
  unfolding session_keys
  session_keys-whole twin payload h = seal_all-whole twin payload _ _ h

  keys_ok-sealed :
      (twin : Bool) (k : Keys)
      → keys_ok host w twin k ≡ true
      → (is_whole k.sealed ≡ true) × (twin ≡ true → is_whole k.sealed_d2c ≡ true)
  unfolding keys_ok
  keys_ok-sealed twin k h =
      let (a, b) = and-parts (is_whole k.sealed) (not twin || is_whole k.sealed_d2c) h in
      (a, or-right twin (is_whole k.sealed_d2c) b)

  pub IsEncrypted-keys :
      (payload : Option Json) (c : RelayConfig) (k : Keys)
      → is_true (get_object_item payload (codes "encryptRvdTraffic")) ≡ true
      → k
        ≡ session_keys host w
            (is_true (get_object_item payload (codes "encryptRvdTraffic"))
              && is_true (get_object_item payload (codes "twinKeys")))
            payload
      → keys_ok host w
          (is_true (get_object_item payload (codes "encryptRvdTraffic"))
            && is_true (get_object_item payload (codes "twinKeys")))
          k
        ≡ true
      → IsEncrypted payload (copied w.start (with_keys host lib config w k c))
  unfolding copied with_keys
  IsEncrypted-keys payload c k e q h =
      let twin =
        is_true (get_object_item payload (codes "encryptRvdTraffic"))
        && is_true (get_object_item payload (codes "twinKeys")) in
      let both : is_true (get_object_item payload (codes "twinKeys")) ≡ true → twin ≡ true =
        λ t. ground (arith, e, t) in
      let h' = subst (λ (x : Keys). keys_ok host w twin x ≡ true) q h in
      let (a, b) = session_keys-whole twin payload h' in
      let (f, g) = keys_ok-sealed twin k h in
      record {
        keys = k;
        e2ee = refl;
        key_kept = refl;
        iv_kept = refl;
        key_d2c_kept = refl;
        iv_d2c_kept = refl;
        whole = ap (λ (x : Keys). is_whole x.plain) q ∙ a;
        sealed_whole = f;
        twin_whole = λ t. (ap (λ (x : Keys). is_whole x.plain_d2c) q ∙ b (both t), g (both t));
      }
