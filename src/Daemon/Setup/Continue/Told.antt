-- ===== src/Daemon/Setup/Continue/Told.antt =====
-- What the relay of a session is told, from its slot's choice on.
use noports.Prelude.{
  ℕ, ◌≡◌, inl, inr, refl, sym, ap, subst, ◌∙◌, Bool, true, false, ◌&&◌, not, Option, none, some,
  if◌then◌else◌, Text, codes, get_elem?, Bool-cases,
}
use noports.Daemon.Host.{Host}
use noports.Daemon.Enrollment.Advert.{Library}
use noports.Daemon.Setup.{SessionConfig, SetupWorld, Table, Outcome}
use noports.Daemon.Setup.Auth.{authenticate}
use noports.Daemon.Setup.Encryption.{Keys, no_keys, session_keys, keys_ok}
use noports.Daemon.Setup.Continue.{
  stop_with, base_config, with_keys, answer_and_start, encrypt_session, take_slot,
}
use noports.Daemon.Setup.Continue.Target.{
  authenticate-target, if-session, start_in-session, IsEncrypted, IsEncrypted-keys,
}
use noports.Relay.Start.{RelayConfig, copied, dup_text}

module _ (host : Host) (lib : Library host) (config : SessionConfig) (w : SetupWorld host) where
  open host use {Json, get_object_item, get_string_value, is_true, to_uint16}

  answer_and_start-session :
      (from rhost id : Text) (payload : Option Json) (slot : ℕ) (c : RelayConfig) (k : Keys)
      (key : Option Text) (t : Table) (p : ℕ × RelayConfig)
      → (answer_and_start host lib config w from rhost id payload slot c k key t).session ≡ some p
      → p ≡ (slot, copied w.start c)
  unfolding answer_and_start
  answer_and_start-session from rhost id payload slot c k key t p h =
      start_in-session host lib config w slot rhost c k key _ t (get_elem? t.relays slot) p h

  -- A configuration that the relay of a session follows.
  pub record Follows (payload : Option Json) (c d : RelayConfig) : Type 0 where
    pub local_host : d.local_host ≡ dup_text (w.start.dup 1) c.local_host
    pub local_port : d.local_port ≡ c.local_port
    pub multi : d.multi ≡ c.multi
    pub encrypted :
        is_true (get_object_item payload (codes "encryptRvdTraffic")) ≡ true
        → IsEncrypted host lib config w payload d
    pub plain :
        is_true (get_object_item payload (codes "encryptRvdTraffic")) ≡ false
        → d.rv_e2ee ≡ c.rv_e2ee

  if-not-false :
      (b : Bool) (x y : Outcome) (p : ℕ × RelayConfig)
      → b ≡ false
      → (if not b then x else y).session ≡ some p
      → x.session ≡ some p
  if-not-false true x y p e h = absurd cc
  if-not-false false x y p e h = h

  if-not-true :
      (b : Bool) (x y : Outcome) (p : ℕ × RelayConfig)
      → b ≡ true
      → (if not b then x else y).session ≡ some p
      → y.session ≡ some p
  if-not-true true x y p e h = h
  if-not-true false x y p e h = absurd cc

  plain-Follows :
      (payload : Option Json) (c : RelayConfig)
      → is_true (get_object_item payload (codes "encryptRvdTraffic")) ≡ false
      → Follows payload c (copied w.start c)
  unfolding copied
  plain-Follows payload c e = record {
    local_host = refl;
    local_port = refl;
    multi = refl;
    encrypted = λ f. absurd (let q : true ≡ false = sym f ∙ e in cc);
    plain = λ f. refl;
  }

  keyed-Follows :
      (payload : Option Json) (c : RelayConfig) (k : Keys)
      → is_true (get_object_item payload (codes "encryptRvdTraffic")) ≡ true
      → IsEncrypted host lib config w payload (copied w.start (with_keys host lib config w k c))
      → Follows payload c (copied w.start (with_keys host lib config w k c))
  unfolding copied with_keys
  keyed-Follows payload c k e h = record {
    local_host = refl;
    local_port = refl;
    multi = refl;
    encrypted = λ f. h;
    plain = λ f. absurd (let q : true ≡ false = sym e ∙ f in cc);
  }

  encrypt_session-session :
      (from rhost id : Text) (payload : Option Json) (slot : ℕ) (c : RelayConfig)
      (key : Option Text) (t : Table) (p : ℕ × RelayConfig)
      → (encrypt_session host lib config w from rhost id payload slot c key t).session ≡ some p
      → (p.0 ≡ slot) × Follows payload c p.1
  unfolding encrypt_session stop_with
  encrypt_session-session from rhost id payload slot c key t p h =
      let encrypt = is_true (get_object_item payload (codes "encryptRvdTraffic")) in
      let twin = encrypt && is_true (get_object_item payload (codes "twinKeys")) in
      let k = session_keys host w twin payload in
      elim (Bool-cases encrypt) [
        | inr e ↦
            let q =
              answer_and_start-session from rhost id payload slot c no_keys key _ p
                (if-not-false encrypt _ _ p e h) in
            (
              ap (λ (x : ℕ × RelayConfig). x.0) q,
              subst (λ (x : ℕ × RelayConfig). Follows payload c x.1) (sym q)
                  (plain-Follows payload c e),
            )
        | inl e ↦
            let (ok, g) =
              if-session host lib config w (keys_ok host w twin k) _ _ p refl
                (if-not-true encrypt _ _ p e h) in
            let q =
              answer_and_start-session from rhost id payload slot (with_keys host lib config w k c)
                k key _ p g in
            (
              ap (λ (x : ℕ × RelayConfig). x.0) q,
              subst (λ (x : ℕ × RelayConfig). Follows payload c x.1) (sym q)
                  (keyed-Follows payload c k e
                    (IsEncrypted-keys host lib config w payload c k e refl ok)),
            )
      ]

  pub take_slot-session :
      (from rhost id : Text) (payload : Option Json) (key : Option Text) (t : Table) (o : Option ℕ)
      (p : ℕ × RelayConfig)
      → (take_slot host lib config w from rhost id payload key t o).session ≡ some p
      → (o ≡ some p.0)
        × Follows payload
            (authenticate host config w payload (base_config host lib config w payload rhost id))
            p.1
  unfolding take_slot stop_with
  take_slot-session from rhost id payload key t none p h = absurd cc
  take_slot-session from rhost id payload key t (some slot) p h =
      let (e, f) = encrypt_session-session from rhost id payload slot _ key t p h in
      (ap some (sym e), f)

  -- Where the relay goes, as the request asked: the device copies the host's name.
  pub record Reaches (payload : Option Json) (rhost : Text) (d : RelayConfig) : Type 0 where
    pub local_host : d.local_host ≡ dup_text (w.start.dup 1) (some rhost)
    pub local_port : d.local_port ≡ to_uint16 (get_object_item payload (codes "requestedPort"))
    pub multi : d.multi ≡ true
    pub encrypted :
        is_true (get_object_item payload (codes "encryptRvdTraffic")) ≡ true
        → IsEncrypted host lib config w payload d
    pub plain :
        is_true (get_object_item payload (codes "encryptRvdTraffic")) ≡ false → d.rv_e2ee ≡ false

  pub Reaches-of-Follows :
      (payload : Option Json) (rhost id : Text) (d : RelayConfig)
      → Follows payload
          (authenticate host config w payload (base_config host lib config w payload rhost id))
          d
      → Reaches payload rhost d
  Reaches-of-Follows payload rhost id d f =
      let (a, b, c, m) =
        authenticate-target host lib config w payload
          (base_config host lib config w payload rhost id) in
      record {
        local_host = f.local_host ∙ ap (dup_text (w.start.dup 1)) (a ∙ unfold base_config in refl);
        local_port = f.local_port ∙ (b ∙ unfold base_config in refl);
        multi = f.multi ∙ (m ∙ unfold base_config in refl);
        encrypted = f.encrypted;
        plain = λ e. f.plain e ∙ (c ∙ unfold base_config in refl);
      }
