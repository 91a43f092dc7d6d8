-- ===== src/Daemon/Setup/Respond.antt =====
-- noports_daemon.cpp: the success response of _continueNptRequest, its fields and its signature.
use noports.Prelude.{Bool, Option, none, some, List, [], ◌∷◌, ◌++◌, if◌then◌else◌, Text, codes}
use noports.Daemon.Host.{Host}
use noports.Daemon.Envelope.{text_or_empty}
use noports.Daemon.Setup.{
  SessionConfig, Item, text, reference, SetupWorld, name_buffer, SetupAction, reconnect_worker,
  send_response,
}
use noports.Daemon.Setup.Auth.{sign_printed}
use noports.Daemon.Setup.Encryption.{Keys}

module _ (host : Host) where
  open host use {Json}

  -- The payload of the success response.
  unfoldable pub response_fields : Bool → Bool → Option Json → Keys → List (Text × Item Json)
  unfolding text_or_empty
  response_fields encrypt twin id k =
      (codes "status", text (codes "connected"))
      ∷ (codes "sessionId", reference id)
      ∷ (if twin
          then ((codes "aesKeyC2D", text (text_or_empty host k.sealed.key))
              ∷ (codes "ivC2D", text (text_or_empty host k.sealed.iv))
              ∷ (codes "aesKeyD2C", text (text_or_empty host k.sealed_d2c.key))
              ∷ (codes "ivD2C", text (text_or_empty host k.sealed_d2c.iv))
              ∷ [])
          else if encrypt
          then ((codes "sessionAESKey", text (text_or_empty host k.sealed.key))
              ∷ (codes "sessionIV", text (text_or_empty host k.sealed.iv))
              ∷ [])
          else [])

module _ (host : Host) (config : SessionConfig) (w : SetupWorld host) where
  open host use {Json}
  open w use {print_object, print_envelope, base64_encode, buffer}

  -- The response is sent if its value and its name can be built.
  unfoldable pub send_value : Text → Text → Option Text → List SetupAction
  send_value from id none = []
  send_value from id (some value) =
      if buffer name_buffer
      then (reconnect_worker
          ∷ send_response from (id ++ (b'.' ∷ config.base.device_name)) value
          ∷ [])
      else []

  unfoldable pub send_signed :
      Text → Text → List (Text × Item Json) → Option Text → List SetupAction
  unfolding send_value text_or_empty
  send_signed from id fields none = []
  send_signed from id fields (some signature) = send_value from id (
      print_envelope fields (
        (codes "signature", text_or_empty host (base64_encode signature))
        ∷ (codes "hashingAlgo", codes "sha256")
        ∷ (codes "signingAlgo", codes "rsa2048")
        ∷ []))

  unfoldable pub respond : Text → Text → List (Text × Item Json) → List SetupAction
  unfolding send_signed sign_printed
  respond from id fields =
      send_signed from id fields (sign_printed host config w (print_object fields))
