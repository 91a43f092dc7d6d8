-- ===== src/Daemon/Setup/Auth.antt =====
-- noports_daemon.cpp, _continueNptRequest: how the relay authenticates to the rendezvous server.
use noports.Prelude.{
  Bool, true, false, ◌&&◌, Option, none, some, List, [], ◌∷◌, ◌++◌, if◌then◌else◌, Text, codes,
  str_eq,
}
use noports.Daemon.Host.{Host}
use noports.Daemon.Setup.{SessionConfig, Item, reference, SetupWorld, uri_buffer}
use noports.Relay.Start.{RelayConfig, dup_text}

module _ (host : Host) (config : SessionConfig) (w : SetupWorld host) where
  open host use {Json, get_object_item, get_string_value, is_string, is_true}
  open w use {print_object, print_envelope, rsa_sign, base64_encode, buffer, dup_key}

  unfoldable pub envelope_of : List (Text × Item Json) → Option Text → Option Text
  envelope_of payload none = none
  envelope_of payload (some signature) = print_envelope payload (
      (codes "signature", signature)
      ∷ (codes "hashingAlgo", codes "sha256")
      ∷ (codes "signingAlgo", codes "rsa2048")
      ∷ [])

  unfoldable pub encode_signature : Option Text → Option Text
  encode_signature none = none
  encode_signature (some s) = base64_encode s

  unfoldable pub sign_printed : Option Text → Option Text
  sign_printed none = none
  sign_printed (some input) = rsa_sign input

  -- The legacy payload, if it can be printed, signed and encoded.
  unfoldable pub auth_string : List (Text × Item Json) → Option Text
  unfolding envelope_of encode_signature sign_printed
  auth_string payload = envelope_of payload (encode_signature (sign_printed (print_object payload)))

  unfoldable pub legacy_auth : Option Json → RelayConfig → RelayConfig
  unfolding auth_string
  legacy_auth payload c =
      let client = get_object_item payload (codes "clientNonce") in
      let rvd = get_object_item payload (codes "rvdNonce") in
      record c {
        rv_auth = true;
        rvd_auth_string =
            if is_string client && is_string rvd
            then auth_string (
                (codes "sessionId", reference (get_object_item payload (codes "sessionId")))
                ∷ (codes "clientNonce", reference client)
                ∷ (codes "rvdNonce", reference rvd)
                ∷ [])
            else c.rvd_auth_string;
      }

  unfoldable pub signing_key_uri : Text → Text
  signing_key_uri id = codes "public:_apsk." ++ (id ++ (codes ".a.__e" ++ config.base.atsign))

  -- ESCR, with the raw key of the payload, or the legacy payload where it is missing.
  unfoldable pub escr_auth : Option Json → Text → Option Text → RelayConfig → RelayConfig
  unfolding legacy_auth signing_key_uri dup_text
  escr_auth payload id none c = legacy_auth payload c
  escr_auth payload id (some raw) c = record c {
    escr_auth = true;
    relay_auth_aes_key = dup_text dup_key (some raw);
    escr_signing_key = true;
    escr_signing_key_uri =
        if buffer uri_buffer then some (signing_key_uri id) else c.escr_signing_key_uri;
  }

  unfoldable pub is_escr : Option Text → Bool
  unfolding str_eq
  is_escr none = false
  is_escr (some mode) = str_eq mode (codes "escr")

  unfoldable pub auth_by_id : Option Json → Option Text → RelayConfig → RelayConfig
  unfolding escr_auth is_escr
  auth_by_id payload none c = legacy_auth payload c
  auth_by_id payload (some id) c =
      if is_escr (get_string_value (get_object_item payload (codes "relayAuthMode")))
        && config.pkam_signing_key
      then escr_auth payload id
          (get_string_value (get_object_item payload (codes "relayAuthAesKey"))) c
      else legacy_auth payload c

  -- The block "Handle RVD authentication".
  unfoldable pub authenticate : Option Json → RelayConfig → RelayConfig
  unfolding auth_by_id
  authenticate payload c =
      if is_true (get_object_item payload (codes "authenticateToRvd"))
      then auth_by_id payload config.enrollment_id c
      else c
