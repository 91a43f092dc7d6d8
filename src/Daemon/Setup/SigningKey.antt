-- ===== src/Daemon/Setup/SigningKey.antt =====
-- noports_client_keys.cpp: _checkClientSigningKey.
use noports.Prelude.{
  Bool, false, ◌&&◌, ◌||◌, Option, none, some, List, [], ◌∷◌, if◌then◌else◌, Text, str_eq,
}
use noports.Daemon.Host.{Host}
use noports.Daemon.ClientKeys.{Key, is_watched}
use noports.Daemon.Enrollment.Advert.{Library}
use noports.Daemon.Enrollment.Verify.{
  Signature, absent, verified, refused, unchecked, verify_enrollment_signature,
}
use noports.Daemon.Setup.{
  SessionConfig, Refusal, already_live, signature_required, not_verified, not_checked, SetupWorld,
}
use noports.Relay.Start.{RelaySlot}

-- The request goes on, with the key to watch if its signature was verified, or is refused.
pub data KeyVerdict : Type 0 where
  goes_on : Option Text → KeyVerdict
  is_refused : Refusal → KeyVerdict

-- A watched session with this id is live.
unfoldable pub session_live : Text → List Key → List RelaySlot → Bool
unfolding is_watched str_eq
session_live id [] relays = false
session_live id (k ∷ ks) [] = false
session_live id (k ∷ ks) (r ∷ rs) =
    (is_watched k.signing_key && str_eq r.config.session_id id) || session_live id ks rs

unfoldable pub judge : Bool → Signature → KeyVerdict
judge required (verified key) = goes_on (some key)
judge required (refused w) = is_refused (not_verified w)
judge required (unchecked w) = if required then is_refused (not_checked w) else goes_on none
judge required absent = if required then is_refused signature_required else goes_on none

-- _checkClientSigningKey
unfoldable pub check_client_signing_key :
    (host : Host)
    → Library host
    → SessionConfig
    → SetupWorld host
    → Option host.Json
    → Text
    → Text
    → List Key
    → List RelaySlot
    → KeyVerdict
unfolding session_live judge verify_enrollment_signature
check_client_signing_key host lib config w envelope from id keys relays =
    if session_live id keys relays
    then is_refused already_live
    else judge config.require_enrollment_signature
        (verify_enrollment_signature host lib w.lookup envelope from)
