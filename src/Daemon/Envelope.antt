-- ===== src/Daemon/Envelope.antt =====
-- noports_daemon.cpp: the checks of a session request's envelope.
pub mod Checks
use noports.Prelude.{
  ℕ, zero, suc, ◌+◌, Bool, true, false, ◌&&◌, ◌||◌, not, Option, none, some, List, [], ◌∷◌, ◌++◌,
  leb, ltb, ◌==◌, if◌then◌else◌, Text, codes, str_eq, length, drop,
}
use noports.Daemon.Host.{Host}

-- `isxdigit`
unfoldable pub is_xdigit : ℕ → Bool
is_xdigit c = (leb b'0' c && leb c b'9') || (leb b'a' c && leb c b'f') || (leb b'A' c && leb c b'F')

unfoldable pub dash_expected : ℕ → Bool
dash_expected i = i == 8 || i == 13 || i == 18 || i == 23

unfoldable pub session_id_byte : ℕ → ℕ → Bool
unfolding is_xdigit dash_expected
session_id_byte i c = if dash_expected i then c == b'-' else is_xdigit c

unfoldable pub session_id_from : ℕ → Text → Bool
unfolding session_id_byte
session_id_from i [] = true
session_id_from i (c ∷ cs) = session_id_byte i c && session_id_from (i + 1) cs

-- _is_valid_session_id
unfoldable pub is_valid_session_id : Option Text → Bool
unfolding session_id_from
is_valid_session_id none = false
is_valid_session_id (some s) = if length s == 36 then session_id_from 0 s else false

-- _is_rsa2048_public_key: leading zeros of the modulus do not count.
unfoldable pub skip_zeros : Text → Text
skip_zeros [] = []
skip_zeros (c ∷ cs) = if c == 0 then skip_zeros cs else c ∷ cs

unfoldable pub is_rsa2048_modulus : Text → Bool
unfolding skip_zeros
is_rsa2048_modulus n = length (skip_zeros n) == 256

-- The result of the signature check; `crashed` is a read through NULL.
pub data Verdict : Type 0 where
  verified refused crashed : Verdict

module _ (host : Host) where
  open host use {
    Json, print, get_object_item, get_string_value, is_string, is_number, is_object, is_true,
    below_one, above_uint16, create_public_key, get_public_key, PublicKey, populate_public_key,
    modulus, base64_decode, rsa_verify,
  }

  abbrev pub item : Option Json → Text → Option Json
  item = get_object_item

  -- `strlen(payload_str)` comes before the call, so a payload that cannot be printed is a crash.
  unfoldable pub verify_printed : PublicKey → Option Text → Text → Verdict
  verify_printed pk none sig = crashed
  verify_printed pk (some payload) sig = if rsa_verify pk payload sig then verified else refused

  -- `strcmp` of a value that is no string would read through NULL; the guards keep it from that.
  unfoldable pub is_text : Option Text → Text → Bool
  is_text none t = false
  is_text (some s) t = str_eq s t

  -- The decoded signature overwrites the front of the buffer that held the public key.
  unfoldable pub verify_decoded : Json → Option Json → PublicKey → Text → Option Text → Verdict
  unfolding verify_printed is_text
  verify_decoded payload envelope pk pk_text none = refused
  verify_decoded payload envelope pk pk_text (some sig) =
      if is_text (get_string_value (item envelope (codes "hashingAlgo"))) (codes "sha256")
        && is_text (get_string_value (item envelope (codes "signingAlgo"))) (codes "rsa2048")
      then verify_printed pk (print payload) (sig ++ drop (length sig) pk_text)
      else refused

  unfoldable pub text_or_empty : Option Text → Text
  text_or_empty none = []
  text_or_empty (some s) = s

  unfoldable pub verify_with_key : Json → Option Json → Text → Option PublicKey → Verdict
  unfolding verify_decoded is_rsa2048_modulus text_or_empty
  verify_with_key payload envelope pk_text none = refused
  verify_with_key payload envelope pk_text (some pk) =
      if is_rsa2048_modulus (modulus pk)
      then verify_decoded payload envelope pk pk_text (
          base64_decode (text_or_empty (get_string_value (item envelope (codes "signature"))))
            (length pk_text))
      else refused

  unfoldable pub verify_with_text : Json → Option Json → Option Text → Verdict
  unfolding verify_with_key
  verify_with_text payload envelope none = refused
  verify_with_text payload envelope (some pk_text) =
      verify_with_key payload envelope pk_text (populate_public_key pk_text)

  unfoldable pub verify_payload : Option Json → Option Json → Text → Verdict
  unfolding verify_with_text
  verify_payload none envelope from = refused
  verify_payload (some payload) envelope from =
      if is_string (item envelope (codes "signature"))
        && is_string (item envelope (codes "hashingAlgo"))
        && is_string (item envelope (codes "signingAlgo"))
        && is_object (some payload)
      then (if create_public_key from
          then verify_with_text payload envelope (get_public_key from)
          else refused)
      else refused

  -- _verifyEnvelopeSignature
  unfoldable pub verify_envelope_signature : Option Json → Text → Verdict
  unfolding verify_payload
  verify_envelope_signature envelope from =
      verify_payload (item envelope (codes "payload")) envelope from

  unfoldable pub port_ok : Option Json → Bool
  port_ok j = is_number j && not (below_one j || above_uint16 j)

  -- _verifyEnvelopeContents; the flag says that the payload is a session request's.
  unfoldable pub verify_envelope_contents : Option Json → Bool → Bool
  unfolding port_ok
  verify_envelope_contents envelope npt =
      let payload = item envelope (codes "payload") in
      is_object payload
      && is_string (item envelope (codes "signature"))
      && is_string (item envelope (codes "hashingAlgo"))
      && is_string (item envelope (codes "signingAlgo"))
      && is_string (item payload (codes "sessionId"))
      && (if npt
          then (is_string (item payload (codes "rvdHost"))
              && is_string (item payload (codes "requestedHost"))
              && port_ok (item payload (codes "rvdPort"))
              && port_ok (item payload (codes "requestedPort")))
          else true)
