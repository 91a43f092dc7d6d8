-- ===== src/Daemon/Enrollment/Verify.antt =====
-- noports_enrollment_signature.c: noports_verify_enrollment_signature.
pub mod Keys
pub mod Sound
use noports.Prelude.{
  ℕ, ◌+◌, Bool, true, false, ◌&&◌, ◌||◌, not, Option, none, some, List, [], ◌∷◌, ◌++◌, ◌==◌,
  if◌then◌else◌, Text, codes, str_eq, length,
}
use noports.Daemon.Host.{Host}
use noports.Daemon.Envelope.{skip_zeros}
use noports.Daemon.Enrollment.Uri.{is_signing_key_uri, from_last_at, lower_ascii, canonical_uri}
use noports.Daemon.Enrollment.Advert.{
  Hashing, sha256_hash, sha512_hash, Allocation, kid_bytes, key_list, uri_texts, signature_bytes,
  Lookup, found, not_found, not_served, failed, Library, Why, ApskKey, Offer, offered,
  offer_refused, offer_unchecked, rsa2048, mldsa65, is_one_of, signing_algorithms,
  hashing_algorithms, text_of, active_apsk_keys, not_an_object, not_a_key_uri, not_the_requester,
  unknown_algorithm, mldsa_unsupported, kid_not_string, no_string, unsupported_algorithm,
  unsupported_hashing, out_of_memory, record_missing, lookup_failed, stronger_offered,
  key_not_advertised, payload_not_printed, not_rsa_key, names_no_key, signature_not_base64,
  signature_mismatch,
}

-- noports_enrollment_signature; a verified one comes with the record's canonical uri.
pub data Signature : Type 0 where
  absent : Signature
  verified : Text → Signature
  refused unchecked : Why → Signature

-- What the loop over the offered keys has found.
pub record Scan : Type 0 where
  pub offers_mldsa : Bool
  pub candidates : ℕ
  pub key : Option ApskKey

unfoldable pub matches_kid : Option Text → ApskKey → Bool
matches_kid none k = true
matches_kid (some kid) k = str_eq k.kid_text kid

unfoldable pub pick_key : Option Text → ApskKey → Option ApskKey → Option ApskKey
unfolding matches_kid
pick_key kid k (some chosen) = some chosen
pick_key kid k none = if matches_kid kid k then some k else none

-- One round of the loop.
unfoldable pub scan_key : Option Text → ApskKey → Scan → Scan
unfolding pick_key
scan_key kid k s =
    if str_eq k.alg mldsa65
    then record s { offers_mldsa = true }
    else record s { candidates = s.candidates + 1; key = pick_key kid k s.key }

unfoldable pub scan_keys : Option Text → List ApskKey → Scan → Scan
unfolding scan_key
scan_keys kid [] s = s
scan_keys kid (k ∷ ks) s = scan_keys kid ks (scan_key kid k s)

abbrev pub scan_start : Scan
scan_start = record { offers_mldsa = false; candidates = 0; key = none }

unfoldable pub hashing_of : Text → Hashing
hashing_of ha = if str_eq ha (codes "sha256") then sha256_hash else sha512_hash

module _ (host : Host) (lib : Library host) where
  open host use {Json, print, is_string, is_object, PublicKey, populate_public_key, modulus}
  open lib use {get_item, is_null, decode, verify_hashed, alloc}

  -- The end of verify_rsa, with the decoded signature.
  unfoldable pub verify_bytes : Text → PublicKey → Hashing → Text → Option Text → Signature
  verify_bytes uri key hashing signed_text none = refused signature_not_base64
  verify_bytes uri key hashing signed_text (some raw) =
      if not (length raw == length (skip_zeros (modulus key)))
        || not (verify_hashed key hashing signed_text raw)
      then refused signature_mismatch
      else verified uri

  unfoldable pub verify_with : Text → Hashing → Text → Text → Option PublicKey → Signature
  unfolding verify_bytes
  verify_with uri hashing signed_text signature none = refused not_rsa_key
  verify_with uri hashing signed_text signature (some key) =
      verify_bytes uri key hashing signed_text (decode signature)

  -- verify_rsa
  unfoldable pub verify_rsa : Text → ApskKey → Hashing → Text → Text → Signature
  unfolding verify_with
  verify_rsa uri key hashing signed_text signature =
      if alloc signature_bytes
      then verify_with uri hashing signed_text signature (populate_public_key key.key_text)
      else unchecked out_of_memory

  unfoldable pub print_item : Option Json → Option Text
  print_item none = none
  print_item (some j) = print j

  unfoldable pub verify_payload : Text → ApskKey → Text → Text → Option Text → Signature
  unfolding verify_rsa hashing_of
  verify_payload uri key ha signature none = unchecked payload_not_printed
  verify_payload uri key ha signature (some signed_text) =
      verify_rsa uri key (hashing_of ha) signed_text signature

  unfoldable pub with_key : Text → Text → Text → Option Text → Option ApskKey → Signature
  unfolding verify_payload
  with_key uri ha signature payload none = refused key_not_advertised
  with_key uri ha signature payload (some key) =
      if not (str_eq ha (codes "sha256")) && not (str_eq ha (codes "sha512"))
      then refused (unsupported_hashing ha)
      else verify_payload uri key ha signature payload

  unfoldable pub names_none : Option Text → Bool
  names_none none = true
  names_none (some k) = false

  -- What the scan of the offered keys leads to.
  unfoldable pub choose : Text → Text → Text → Option Text → Option Text → Scan → Signature
  unfolding with_key names_none
  choose uri ha signature kid payload s =
      if s.offers_mldsa
      then refused stronger_offered
      else if names_none kid && not (s.candidates == 1)
      then refused (names_no_key s.candidates)
      else with_key uri ha signature payload s.key

  unfoldable pub with_offer : Text → Text → Text → Option Text → Option Text → Offer → Signature
  unfolding choose scan_keys
  with_offer uri ha signature kid payload (offered keys) =
      choose uri ha signature kid payload (scan_keys kid keys scan_start)
  with_offer uri ha signature kid payload (offer_refused w) = refused w
  with_offer uri ha signature kid payload (offer_unchecked w) = unchecked w

  unfoldable pub looked_up : Text → Text → Text → Option Text → Option Text → Lookup → Signature
  unfolding with_offer active_apsk_keys
  looked_up uri ha signature kid payload (found apsk) =
      with_offer uri ha signature kid payload (active_apsk_keys host lib apsk)
  looked_up uri ha signature kid payload not_found = unchecked record_missing
  looked_up uri ha signature kid payload not_served = unchecked lookup_failed
  looked_up uri ha signature kid payload failed = unchecked lookup_failed

  -- The kid is absent, null or a string.
  unfoldable pub kid_item_ok : Option Json → Bool
  kid_item_ok none = true
  kid_item_ok (some j) = is_null (some j) || is_string (some j)

  unfoldable pub same_signer : Option Text → Text → Bool
  unfolding lower_ascii
  same_signer none requester = false
  same_signer (some at) requester = str_eq (lower_ascii at) (lower_ascii requester)

  -- From the four texts on.
  unfoldable pub verify_texts :
      (Text → Lookup) → Option Json → Option Json → Text → Text → Text → Text → Text → Signature
  unfolding looked_up kid_item_ok same_signer text_of is_one_of canonical_uri is_signing_key_uri
      from_last_at print_item
  verify_texts lookup envelope field requester uri sa ha signature =
      if not (is_signing_key_uri uri)
      then refused not_a_key_uri
      else if not (alloc uri_texts)
      then unchecked out_of_memory
      else if not (same_signer (from_last_at uri) requester)
      then refused not_the_requester
      else if not (is_one_of sa signing_algorithms) || not (is_one_of ha hashing_algorithms)
      then refused unknown_algorithm
      else if str_eq sa mldsa65
      then refused mldsa_unsupported
      else if not (str_eq sa rsa2048)
      then refused (unsupported_algorithm sa)
      else if not (kid_item_ok (get_item field (codes "kid")))
      then refused kid_not_string
      else looked_up (canonical_uri uri) ha signature
          (text_of host lib (get_item field (codes "kid")))
          (print_item (get_item envelope (codes "payload"))) (lookup (canonical_uri uri))

  unfoldable pub four_texts :
      (Text → Lookup)
      → Option Json
      → Option Json
      → Text
      → Option Text
      → Option Text
      → Option Text
      → Option Text
      → Signature
  unfolding verify_texts
  four_texts lookup envelope field requester (some uri) (some sa) (some ha) (some s) =
      verify_texts lookup envelope field requester uri sa ha s
  four_texts lookup envelope field requester none sa ha s = refused (no_string (codes "sk"))
  four_texts lookup envelope field requester (some uri) none ha s = refused (no_string (codes "sa"))
  four_texts lookup envelope field requester (some uri) (some sa) none s =
      refused (no_string (codes "ha"))
  four_texts lookup envelope field requester (some uri) (some sa) (some ha) none =
      refused (no_string (codes "s"))

  unfoldable pub verify_field : (Text → Lookup) → Option Json → Text → Option Json → Signature
  unfolding four_texts text_of
  verify_field lookup envelope requester none = absent
  verify_field lookup envelope requester (some field) =
      if is_null (some field)
      then absent
      else if not (is_object (some field))
      then refused not_an_object
      else four_texts lookup envelope (some field) requester
          (text_of host lib (get_item (some field) (codes "sk")))
          (text_of host lib (get_item (some field) (codes "sa")))
          (text_of host lib (get_item (some field) (codes "ha")))
          (text_of host lib (get_item (some field) (codes "s")))

  -- noports_verify_enrollment_signature
  unfoldable pub verify_enrollment_signature : (Text → Lookup) → Option Json → Text → Signature
  unfolding verify_field
  verify_enrollment_signature lookup envelope requester =
      verify_field lookup envelope requester (get_item envelope (codes "enrollmentSignature"))
