-- ===== src/Examples/Keys.antt =====
-- The theorems on the check of a client's key, on the example device.
use noports.Prelude.{◌≡◌, refl, true, none, some, arith, if◌then◌else◌, Text, codes, str_eq}
use noports.Daemon.ClientKeys.Lookup.{path_segment, decode_segment, decode-path_segment}
use noports.Daemon.ClientKeys.Check.{Server, CheckWorld, at_revoked, check_of, check_key}
use noports.Daemon.ClientKeys.Check.Sound.{Withdrawn, check_key-Withdrawn}
use noports.Daemon.Enrollment.Advert.{found, not_found}

abbrev segment : Text
segment = codes "_apsk.a b"

decode-path_segment_example : decode_segment (path_segment segment) ≡ segment
decode-path_segment_example = decode-path_segment segment (omega arith)

abbrev server : Server
server = record { host = codes "host"; port = 443 }

-- An atServer that holds the key's record only under "r.__e".
abbrev withdrawn : CheckWorld
withdrawn = record {
  lookup = λ s uri ms.
      if str_eq uri (codes "public:_apsk.ab.r.__e@alice") then found (codes "key") else not_found;
  find_at_server = λ a. some server;
  spent = λ i. 100;
  uri_memory = true;
}

abbrev live_uri : Text
live_uri = codes "public:_apsk.ab.a.__e@alice"

key_revoked : (check_key withdrawn live_uri none).1 ≡ check_of (some (some at_revoked))
unfolding check_key str_eq
key_revoked = refl

check_key-Withdrawn_example :
    Withdrawn withdrawn live_uri (check_key withdrawn live_uri none).0 at_revoked
check_key-Withdrawn_example = check_key-Withdrawn withdrawn live_uri none at_revoked key_revoked
