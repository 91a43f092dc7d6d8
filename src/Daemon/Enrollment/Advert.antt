-- ===== src/Daemon/Enrollment/Advert.antt =====
-- noports_enrollment_signature.c: active_apsk_keys, the keys that a record's value offers.
use noports.Prelude.{
  ℕ, ◌+◌, ◌/◌, ◌%◌, Bool, true, false, ◌||◌, not, Option, none, some, List, [], ◌∷◌, ltb, ◌==◌,
  if◌then◌else◌, Text, codes, str_eq, any, take,
}
use noports.Daemon.Host.{Host}

-- ATCHOPS_MD_SHA256 and ATCHOPS_MD_SHA512
pub data Hashing : Type 0 where
  sha256_hash sha512_hash : Hashing

-- The allocations that the check makes.
pub data Allocation : Type 0 where
  kid_bytes key_list uri_texts signature_bytes : Allocation

-- noports_lookup_result, with the value that was found.
pub data Lookup : Type 0 where
  found : Text → Lookup
  not_found not_served failed : Lookup

-- What the check calls beside the daemon's other calls: cJSON with names in their case, base64 with
-- room for the whole text, SHA-256 and RSA, and which allocations succeed.
pub record Library (host : Host) : Type 0 where
  pub get_item : Option host.Json → Text → Option host.Json
  pub is_null : Option host.Json → Bool
  pub parse_whole : Text → Option host.Json
  pub decode : Text → Option Text
  pub sha256 : Text → Option Text
  pub verify_hashed : host.PublicKey → Hashing → Text → Text → Bool
  pub alloc : Allocation → Bool

-- The reasons that `explain` writes, with what tells them apart.
pub data Why : Type 0 where
  not_an_object not_a_key_uri not_the_requester unknown_algorithm mldsa_unsupported kid_not_string :
      Why
  no_string unsupported_algorithm unsupported_hashing : Text → Why
  out_of_memory record_missing lookup_failed key_not_base64 advert_not_json advert_not_object : Why
  no_usable_key stronger_offered key_not_advertised payload_not_printed not_rsa_key : Why
  names_no_key : ℕ → Why
  signature_not_base64 signature_mismatch : Why

-- apsk_key
pub record ApskKey : Type 0 where
  pub kid_text : Text
  pub alg : Text
  pub key_text : Text

-- The result of active_apsk_keys.
pub data Offer : Type 0 where
  offered : List ApskKey → Offer
  offer_refused offer_unchecked : Why → Offer

abbrev pub rsa2048 : Text
rsa2048 = codes "rsa2048"

abbrev pub mldsa65 : Text
mldsa65 = codes "mldsa65"

-- is_one_of
unfoldable pub is_one_of : Text → List Text → Bool
is_one_of s names = any (λ n. str_eq s n) names

abbrev pub signing_algorithms : List Text
signing_algorithms =
    codes "ecc_secp256r1" ∷ rsa2048 ∷ codes "rsa4096" ∷ codes "ed25519" ∷ mldsa65 ∷ []

abbrev pub hashing_algorithms : List Text
hashing_algorithms = codes "sha256" ∷ codes "sha512" ∷ codes "md5" ∷ codes "argon2id" ∷ []

unfoldable pub is_blank : ℕ → Bool
is_blank c = c == b' ' || c == 9 || c == 13 || c == 10

unfoldable pub trim_front : Text → Text
unfolding is_blank
trim_front [] = []
trim_front (c ∷ cs) = if is_blank c then trim_front cs else c ∷ cs

unfoldable pub trim_step : ℕ → Text → Text
unfolding is_blank
trim_step c [] = if is_blank c then [] else c ∷ []
trim_step c (d ∷ ds) = c ∷ d ∷ ds

unfoldable pub trim_back : Text → Text
unfolding trim_step
trim_back [] = []
trim_back (c ∷ cs) = trim_step c (trim_back cs)

unfoldable pub starts_object : Text → Bool
starts_object [] = false
starts_object (c ∷ cs) = c == b'{'

-- "%02x" of each byte.
unfoldable pub hex_digit : ℕ → ℕ
hex_digit n = if ltb n 10 then b'0' + n else n + 87

unfoldable pub hex_bytes : Text → Text
unfolding hex_digit
hex_bytes [] = []
hex_bytes (c ∷ cs) = hex_digit (c / 16) ∷ hex_digit (c % 16) ∷ hex_bytes cs

module _ (host : Host) (lib : Library host) where
  open host use {Json, get_string_value, is_string, is_object, array_items}
  open lib use {get_item, is_null, parse_whole, decode, sha256, alloc}

  unfoldable pub kid_of_hash : Option Text → Option Text
  unfolding hex_bytes
  kid_of_hash none = none
  kid_of_hash (some hash) = some (hex_bytes (take 8 hash))

  unfoldable pub kid_of_bytes : Option Text → Option Text
  unfolding kid_of_hash
  kid_of_bytes none = none
  kid_of_bytes (some raw) = kid_of_hash (sha256 raw)

  -- kid_of
  unfoldable pub kid_of : Text → Option Text
  unfolding kid_of_bytes
  kid_of key = if alloc kid_bytes then kid_of_bytes (decode key) else none

  unfoldable pub bare_key : Text → Option Text → Offer
  bare_key value none = offer_refused key_not_base64
  bare_key value (some kid) =
      offered (record { kid_text = kid; alg = rsa2048; key_text = value } ∷ [])

  -- The text of an item that is a string.
  unfoldable pub text_of : Option Json → Option Text
  text_of j = if is_string j then get_string_value j else none

  unfoldable pub has_text : Option Text → Text → Bool
  has_text none t = false
  has_text (some s) t = str_eq s t

  unfoldable pub is_active : Option Json → Bool
  unfolding text_of has_text
  is_active none = true
  is_active (some s) = is_null (some s) || has_text (text_of (some s)) (codes "active")

  unfoldable pub usable_key : Text → Text → Text → Text → Option Json → Option ApskKey
  unfolding is_one_of is_active
  usable_key kid use_text alg key status =
      if not (str_eq use_text (codes "sign")) || not (is_one_of alg signing_algorithms)
      then none
      else if not (is_active status) || not (str_eq alg rsa2048 || str_eq alg mldsa65)
      then none
      else some (record { kid_text = kid; alg = alg; key_text = key })

  -- The four texts that an entry must have.
  unfoldable pub entry_texts :
      Option Text → Option Text → Option Text → Option Text → Option Json → Option ApskKey
  unfolding usable_key
  entry_texts (some kid) (some u) (some alg) (some key) status = usable_key kid u alg key status
  entry_texts none u alg key status = none
  entry_texts (some kid) none alg key status = none
  entry_texts (some kid) (some u) none key status = none
  entry_texts (some kid) (some u) (some alg) none status = none

  unfoldable pub entry_key : Option Json → Option ApskKey
  unfolding entry_texts text_of
  entry_key e =
      if is_object e
      then entry_texts (text_of (get_item e (codes "kid"))) (text_of (get_item e (codes "use")))
          (text_of (get_item e (codes "alg"))) (text_of (get_item e (codes "pub")))
          (get_item e (codes "status"))
      else none

  unfoldable pub keep_key : Option ApskKey → List ApskKey → List ApskKey
  keep_key none keys = keys
  keep_key (some k) keys = k ∷ keys

  unfoldable pub entry_keys : List (Option Json) → List ApskKey
  unfolding keep_key entry_key
  entry_keys [] = []
  entry_keys (e ∷ es) = keep_key (entry_key e) (entry_keys es)

  unfoldable pub offer_of : List ApskKey → Offer
  offer_of [] = offer_refused no_usable_key
  offer_of (k ∷ ks) = offered (k ∷ ks)

  -- `keys` that is no array counts as an empty one.
  unfoldable pub items_or_none : Option (List (Option Json)) → List (Option Json)
  items_or_none none = []
  items_or_none (some items) = items

  unfoldable pub advertised : Option Json → Offer
  unfolding offer_of entry_keys items_or_none
  advertised none = offer_refused advert_not_json
  advertised (some json) =
      if not (is_object (some json))
      then offer_refused advert_not_object
      else if not (alloc key_list)
      then offer_unchecked out_of_memory
      else offer_of (entry_keys (items_or_none (array_items (get_item (some json) (codes "keys")))))

  unfoldable pub offer_of_value : Text → Offer
  unfolding bare_key kid_of advertised starts_object
  offer_of_value value =
      if starts_object value
      then advertised (parse_whole value)
      else if alloc key_list
      then bare_key value (kid_of value)
      else offer_unchecked out_of_memory

  -- active_apsk_keys
  unfoldable pub active_apsk_keys : Text → Offer
  unfolding offer_of_value trim_front trim_back
  active_apsk_keys apsk = offer_of_value (trim_back (trim_front apsk))
