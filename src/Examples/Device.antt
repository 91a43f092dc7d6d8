-- ===== src/Examples/Device.antt =====
-- A device for the examples: documents that are named by their texts, and keys that verify a signature
-- that starts with the signed text.
use noports.Prelude.{
  ℕ, ◌≡◌, refl, Bool, true, false, Option, none, some, List, [], ◌∷◌, arith, ltb, if◌then◌else◌,
  Text, codes, str_eq, replicate,
}
use noports.Daemon.Host.{Host, success}
use noports.Daemon.State.{Config, State, World, pending_npt}
use noports.Daemon.Pending.{idle}
use noports.Policy.Cache.{no_entry}
use noports.Policy.Cooldown.{Slot}

pub data Doc : Type 0 where
  envelope payload answer answer_payload yes rules signed : Doc
  text : Text → Doc
  number : ℕ → Doc

abbrev pub session : Text
session = codes "01234567-89ab-cdef-0123-456789abcdef"

abbrev field : Doc → Text → Option Doc
field envelope name =
    if str_eq name (codes "payload")
    then some payload
    else if str_eq name (codes "signature")
    then some (text (codes "{}"))
    else if str_eq name (codes "hashingAlgo")
    then some (text (codes "sha256"))
    else if str_eq name (codes "signingAlgo")
    then some (text (codes "rsa2048"))
    else none
field payload name =
    if str_eq name (codes "sessionId")
    then some (text session)
    else if str_eq name (codes "rvdPort")
    then some (number 40001)
    else if str_eq name (codes "requestedPort")
    then some (number 22)
    else if str_eq name (codes "rvdHost")
    then some (text (codes "rvd"))
    else if str_eq name (codes "requestedHost")
    then some (text (codes "localhost"))
    else none
field answer name = if str_eq name (codes "payload") then some answer_payload else none
field answer_payload name =
    if str_eq name (codes "authorized")
    then some yes
    else if str_eq name (codes "permitOpen")
    then some rules
    else none
field yes name = none
field signed name = none
field rules name = none
field (text t) name = none
field (number n) name = none

abbrev field_of : Option Doc → Text → Option Doc
field_of none name = none
field_of (some d) name = field d name

abbrev string_of : Option Doc → Option Text
string_of (some (text t)) = some t
string_of (some envelope) = none
string_of (some payload) = none
string_of (some answer) = none
string_of (some signed) = none
string_of (some answer_payload) = none
string_of (some yes) = none
string_of (some rules) = none
string_of (some (number n)) = none
string_of none = none

abbrev has_string : Option Text → Bool
has_string none = false
has_string (some t) = true

abbrev number_of : Option Doc → Option ℕ
number_of (some (number n)) = some n
number_of (some (text t)) = none
number_of (some envelope) = none
number_of (some payload) = none
number_of (some answer) = none
number_of (some signed) = none
number_of (some answer_payload) = none
number_of (some yes) = none
number_of (some rules) = none
number_of none = none

abbrev has_number : Option ℕ → Bool
has_number none = false
has_number (some n) = true

abbrev or_zero : Option ℕ → ℕ
or_zero none = 0
or_zero (some n) = n

abbrev is_object_doc : Option Doc → Bool
is_object_doc (some envelope) = true
is_object_doc (some payload) = true
is_object_doc (some answer) = true
is_object_doc (some signed) = true
is_object_doc (some answer_payload) = true
is_object_doc (some yes) = false
is_object_doc (some rules) = false
is_object_doc (some (text t)) = false
is_object_doc (some (number n)) = false
is_object_doc none = false

abbrev is_yes : Option Doc → Bool
is_yes (some yes) = true
is_yes (some envelope) = false
is_yes (some payload) = false
is_yes (some answer) = false
is_yes (some signed) = false
is_yes (some answer_payload) = false
is_yes (some rules) = false
is_yes (some (text t)) = false
is_yes (some (number n)) = false
is_yes none = false

abbrev items_of : Option Doc → Option (List (Option Doc))
items_of (some rules) = some (some (text (codes "localhost:22")) ∷ some yes ∷ [])
items_of (some yes) = none
items_of (some envelope) = none
items_of (some payload) = none
items_of (some answer) = none
items_of (some signed) = none
items_of (some answer_payload) = none
items_of (some (text t)) = none
items_of (some (number n)) = none
items_of none = none

pub string-value :
    (j : Option Doc) → has_string (string_of j) ≡ true → (s : Text) × (string_of j ≡ some s)
string-value j h = from (string_of j) h
  where
    from : (o : Option Text) → has_string o ≡ true → (s : Text) × (o ≡ some s)
    from none q = absurd cc
    from (some t) q = (t, refl)

abbrev pub device : Host
device = record {
  Json = Doc;
  parse = λ t.
      if str_eq t (codes "request")
      then some envelope
      else if str_eq t (codes "answer")
      then some answer
      else none;
  print = λ d. some (codes "{}");
  get_object_item = field_of;
  get_string_value = string_of;
  is_string = λ d. has_string (string_of d);
  is_number = λ d. has_number (number_of d);
  is_object = is_object_doc;
  is_true = is_yes;
  array_items = items_of;
  below_one = λ d. ltb (or_zero (number_of d)) 1;
  above_uint16 = λ d. ltb 65535 (or_zero (number_of d));
  to_uint16 = λ d. or_zero (number_of d);
  is_response_key = λ k. str_eq k (codes "response");
  parse_response_key = λ k. some (record { resp_type = success; req_id = 7 });
  create_public_key = λ a. true;
  get_public_key = λ a. some a;
  PublicKey = Text;
  populate_public_key = λ t. some t;
  modulus = λ k. replicate 256 1;
  base64_decode = λ t n. some t;
  rsa_verify = λ k signed sig. str_eq signed (codes "{}");
  string_has_value = string-value;
  port_converts = λ j a b c. ground arith;
}

abbrev pub policy : Text
policy = codes "@policy"

abbrev pub alice : Text
alice = codes "@alice"

abbrev pub config : Config
config = record {
  atsign = codes "@device";
  device_name = codes "dev";
  manager_list = [];
  policy_atsign = some policy;
  permitopen = [];
}

abbrev pub managed : Config
managed = record config { manager_list = alice ∷ []; policy_atsign = none }

abbrev pub world : World
world = record { now_ms = 1000; alloc = λ i. true; payload_built = true; rpc_sent = true }

abbrev pub slots : List Slot
slots = replicate 2 (record { used = false; atsign = []; ping_at_ms = none; npt_at_ms = none })

-- A state with no check in flight, and one with a check for a session by Alice.
abbrev pub calm : State Doc
calm = record {
  ping_response = some (codes "{}");
  pending = idle;
  cooldown = slots;
  decisions = record { entries = replicate 2 no_entry };
  req_counter = 7;
  decrypt_reconnect_at_ms = none;
}

abbrev pub waiting : State Doc
waiting = record calm {
  pending = record {
    in_use = true;
    type = pending_npt;
    req_id = 7;
    started_at_ms = 100;
    progress_at_ms = 100;
    requesting_atsign = alice;
    envelope = some envelope;
  };
}
