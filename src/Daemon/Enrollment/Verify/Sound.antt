-- ===== src/Daemon/Enrollment/Verify/Sound.antt =====
-- What a verified enrollment signature says: whose key made it, and over what.
use noports.Prelude.{
  ◌≡◌, ◌⊎◌, inl, inr, refl, sym, ap, ◌∙◌, true, false, ◌||◌, Option, none, some, List, [], ◌∷◌,
  arith, Text, codes, str_eq, subst, eq_of_str_eq, All, length,
}
use noports.Daemon.Host.{Host}
use noports.Daemon.Enrollment.Uri.{is_signing_key_uri, from_last_at, lower_ascii, canonical_uri}
use noports.Daemon.Enrollment.Uri.Shape.{
  IsSigningKey, is_signing_key_uri_iff, from_last_at-owner_of,
}
use noports.Daemon.Enrollment.Advert.{
  Lookup, found, not_found, not_served, failed, Library, ApskKey, Offer, offered, offer_refused,
  offer_unchecked, rsa2048, text_of, active_apsk_keys, trim_back, trim_front,
}
use noports.Daemon.Enrollment.Verify.{
  verified, Scan, matches_kid, scan_keys, scan_start, print_item, names_none, choose, looked_up,
  same_signer, verify_texts, with_offer, four_texts, verify_field, verify_enrollment_signature,
  with_key,
}
use noports.Daemon.Enrollment.Verify.Keys.{
  Member, IsOther, scan_keys-offers, scan_keys-key, SignedBy, with_key-verified,
  offer_of_value-IsUsable, Member-rsa2048,
}

module _ (host : Host) (lib : Library host) where
  open host use {Json}
  open lib use {get_item}

  -- What a verified signature says. The envelope's signature names a record of the requester's
  -- own; the record offers RSA keys only, and one of them, the named one or the only one, verifies
  -- the signature over the payload under SHA-256 or SHA-512.
  pub record IsSigned (lookup : Text → Lookup) (envelope : Option Json) (requester canonical : Text)
      : Type 0 where
    pub uri : Text
    pub id : Text
    pub owner : Text
    pub hashing : Text
    pub signature : Text
    pub payload : Text
    pub apsk : Text
    pub keys : List ApskKey
    pub key : ApskKey
    pub field : Option Json
    pub field_is : get_item envelope (codes "enrollmentSignature") ≡ field
    pub uri_is : text_of host lib (get_item field (codes "sk")) ≡ some uri
    pub hashing_is : text_of host lib (get_item field (codes "ha")) ≡ some hashing
    pub signature_is : text_of host lib (get_item field (codes "s")) ≡ some signature
    pub uri_shape : IsSigningKey uri id owner
    pub own_record : lower_ascii (b'@' ∷ owner) ≡ lower_ascii requester
    pub canonical_is : canonical ≡ canonical_uri uri
    pub found_is : lookup canonical ≡ found apsk
    pub keys_are : active_apsk_keys host lib apsk ≡ offered keys
    pub none_stronger : All IsOther keys
    pub offers_key : Member key keys
    pub key_is_rsa : key.alg ≡ rsa2048
    pub key_named :
        ((kid : Text) × (text_of host lib (get_item field (codes "kid")) ≡ some kid)
          × (key.kid_text ≡ kid))
        ⊎ (keys ≡ key ∷ [])
    pub hash_known : (str_eq hashing (codes "sha256") || str_eq hashing (codes "sha512")) ≡ true
    pub payload_is : print_item host lib (get_item envelope (codes "payload")) ≡ some payload
    pub signed : SignedBy host lib key hashing payload signature

  -- What the scan of the offered keys leaves.
  pub record Chosen (kid : Option Text) (keys : List ApskKey) (key : ApskKey) : Type 0 where
    pub none_stronger : All IsOther keys
    pub offers_key : Member key keys
    pub key_named : ((name : Text) × (kid ≡ some name) × (key.kid_text ≡ name)) ⊎ (keys ≡ key ∷ [])

  only-Member :
      (key : ApskKey) (keys : List ApskKey) → length keys ≡ 1 → Member key keys → keys ≡ key ∷ []
  only-Member key [] l m = absurd m
  only-Member key (x ∷ []) l (inl e) = ap (λ (y : ApskKey). y ∷ []) (sym e)
  only-Member key (x ∷ []) l (inr m) = absurd m
  only-Member key (x ∷ y ∷ ys) l m = absurd (omega arith)

  named-or-only :
      (kid : Option Text) (keys : List ApskKey) (key : ApskKey)
      → ((names_none host lib kid ≡ true) → length keys ≡ 1)
      → Member key keys
      → matches_kid kid key ≡ true
      → ((name : Text) × (kid ≡ some name) × (key.kid_text ≡ name)) ⊎ (keys ≡ key ∷ [])
  unfolding matches_kid names_none
  named-or-only none keys key l m h = inr (only-Member key keys (l refl) m)
  named-or-only (some name) keys key l m h = inl (name, refl, eq_of_str_eq key.kid_text name h)

  choose-parts :
      (uri c ha s : Text) (kid payload : Option Text) (r : Scan)
      → choose host lib uri ha s kid payload r ≡ verified c
      → (r.offers_mldsa ≡ false)
        × ((names_none host lib kid ≡ true) → r.candidates ≡ 1)
        × (with_key host lib uri ha s payload r.key ≡ verified c)
  unfolding choose
  choose-parts uri c ha s kid payload r h = (ground arith, λ n. ground arith, ground arith)

  scanned-Member :
      (kid : Option Text) (key : ApskKey) (keys : List ApskKey)
      → (scan_keys kid keys scan_start).key ≡ some key
      → Member key keys × (matches_kid kid key ≡ true)
  scanned-Member kid key keys h = elim (scan_keys-key kid key keys scan_start h) [
    | inl e ↦ absurd cc
    | inr m ↦ m
  ]

  choose-verified :
      (uri c ha s : Text) (kid payload : Option Text) (keys : List ApskKey)
      → choose host lib uri ha s kid payload (scan_keys kid keys scan_start) ≡ verified c
      → (key : ApskKey) × (t : Text) × Chosen kid keys key
        × (payload ≡ some t)
        × SignedBy host lib key ha t s
        × (uri ≡ c)
        × ((str_eq ha (codes "sha256") || str_eq ha (codes "sha512")) ≡ true)
  choose-verified uri c ha s kid payload keys h =
      let (o, n, w) = choose-parts uri c ha s kid payload (scan_keys kid keys scan_start) h in
      let (a, b, l) = scan_keys-offers kid keys scan_start o in
      let (key, t, e, p, g, q, m) =
        with_key-verified host lib uri c ha s payload (scan_keys kid keys scan_start).key w in
      let (i, k) = scanned-Member kid key keys e in
      (
        key,
        t,
        record {
          none_stronger = b;
          offers_key = i;
          key_named = named-or-only kid keys key (λ d. omega (arith, n d)) i k;
        },
        p,
        g,
        q,
        m,
      )

  looked_up-parts :
      (uri c ha s : Text) (kid payload : Option Text) (l : Lookup)
      → looked_up host lib uri ha s kid payload l ≡ verified c
      → (apsk : Text) × (keys : List ApskKey) × (l ≡ found apsk)
        × (active_apsk_keys host lib apsk ≡ offered keys)
        × (choose host lib uri ha s kid payload (scan_keys kid keys scan_start) ≡ verified c)
  unfolding looked_up
  looked_up-parts uri c ha s kid payload (found apsk) h = at (active_apsk_keys host lib apsk) refl h
    where
      at :
          (o : Offer)
          → active_apsk_keys host lib apsk ≡ o
          → with_offer host lib uri ha s kid payload o ≡ verified c
          → (a : Text) × (keys : List ApskKey) × (found apsk ≡ found a)
            × (active_apsk_keys host lib a ≡ offered keys)
            × (choose host lib uri ha s kid payload (scan_keys kid keys scan_start) ≡ verified c)
      at (offered keys) e q = (apsk, keys, refl, e, q)
      at (offer_refused w) e q = absurd cc
      at (offer_unchecked w) e q = absurd cc
  looked_up-parts uri c ha s kid payload not_found h = absurd cc
  looked_up-parts uri c ha s kid payload not_served h = absurd cc
  looked_up-parts uri c ha s kid payload failed h = absurd cc

  verify_texts-parts :
      (lookup : Text → Lookup) (envelope field : Option Json) (requester uri sa ha s c : Text)
      → verify_texts host lib lookup envelope field requester uri sa ha s ≡ verified c
      → (is_signing_key_uri uri ≡ true)
        × (same_signer host lib (from_last_at uri) requester ≡ true)
        × (looked_up host lib
              (canonical_uri uri)
              ha
              s
              (text_of host lib (get_item field (codes "kid")))
              (print_item host lib (get_item envelope (codes "payload")))
              (lookup (canonical_uri uri))
            ≡ verified c)
  unfolding verify_texts
  verify_texts-parts lookup envelope field requester uri sa ha s c h =
      (ground arith, ground arith, ground arith)

  four_texts-parts :
      (lookup : Text → Lookup) (envelope field : Option Json) (requester c : Text)
      (sk sa ha s : Option Text)
      → four_texts host lib lookup envelope field requester sk sa ha s ≡ verified c
      → (uri a g t : Text) × (sk ≡ some uri)
        × (ha ≡ some g)
        × (s ≡ some t)
        × (verify_texts host lib lookup envelope field requester uri a g t ≡ verified c)
  unfolding four_texts
  four_texts-parts lookup envelope field requester c (some uri) (some a) (some g) (some t) h =
      (uri, a, g, t, refl, refl, refl, h)
  four_texts-parts lookup envelope field requester c none sa ha s h = absurd cc
  four_texts-parts lookup envelope field requester c (some uri) none ha s h = absurd cc
  four_texts-parts lookup envelope field requester c (some uri) (some a) none s h = absurd cc
  four_texts-parts lookup envelope field requester c (some uri) (some a) (some g) none h = absurd cc

  verify_field-parts :
      (lookup : Text → Lookup) (envelope : Option Json) (requester c : Text) (o : Option Json)
      → verify_field host lib lookup envelope requester o ≡ verified c
      → four_texts host lib lookup envelope o requester
          (text_of host lib (get_item o (codes "sk")))
          (text_of host lib (get_item o (codes "sa")))
          (text_of host lib (get_item o (codes "ha")))
          (text_of host lib (get_item o (codes "s")))
        ≡ verified c
  unfolding verify_field
  verify_field-parts lookup envelope requester c none h = absurd cc
  verify_field-parts lookup envelope requester c (some field) h = ground arith

  signer-is-owner :
      (uri id owner requester : Text)
      → IsSigningKey uri id owner
      → same_signer host lib (from_last_at uri) requester ≡ true
      → lower_ascii (b'@' ∷ owner) ≡ lower_ascii requester
  signer-is-owner uri id owner requester k h =
      let e =
        subst (λ (o : Option Text). same_signer host lib o requester ≡ true)
          (from_last_at-owner_of uri id owner k) h in
      eq_of_str_eq (lower_ascii (b'@' ∷ owner)) (lower_ascii requester) (unfold same_signer in e)

  -- A request's enrollment signature is verified only if it names a record of the requester's own,
  -- the record's lookup finds keys of which none is stronger than RSA, and one of them, the one that
  -- is named or the only one, verifies the signature over the printed payload under SHA-256 or
  -- SHA-512; the key that is watched from then on is that record.
  pub verify_enrollment_signature-IsSigned :
      (lookup : Text → Lookup) (envelope : Option Json) (requester canonical : Text)
      → verify_enrollment_signature host lib lookup envelope requester ≡ verified canonical
      → IsSigned lookup envelope requester canonical
  verify_enrollment_signature-IsSigned lookup envelope requester canonical h =
      let field = get_item envelope (codes "enrollmentSignature") in
      let (uri, a, ha, s, ek, eh, es, v) =
        four_texts-parts lookup envelope field requester canonical
          (text_of host lib (get_item field (codes "sk")))
          (text_of host lib (get_item field (codes "sa")))
          (text_of host lib (get_item field (codes "ha")))
          (text_of host lib (get_item field (codes "s")))
          (verify_field-parts lookup envelope requester canonical field
            (unfold verify_enrollment_signature in h)) in
      let (shape, own, l) =
        verify_texts-parts lookup envelope field requester uri a ha s canonical v in
      let (id, owner, k) = (is_signing_key_uri_iff uri).0 shape in
      let (apsk, keys, f, ks, ch) =
        looked_up-parts (canonical_uri uri) canonical ha s
          (text_of host lib (get_item field (codes "kid")))
          (print_item host lib (get_item envelope (codes "payload"))) (lookup (canonical_uri uri))
          l in
      let (key, t, chosen, p, g, q, m) =
        choose-verified (canonical_uri uri) canonical ha s
          (text_of host lib (get_item field (codes "kid")))
          (print_item host lib (get_item envelope (codes "payload"))) keys ch in
      let usable =
        offer_of_value-IsUsable host lib (trim_back (trim_front apsk)) keys
          (unfold active_apsk_keys in ks) in
      record {
        uri = uri;
        id = id;
        owner = owner;
        hashing = ha;
        signature = s;
        payload = t;
        apsk = apsk;
        keys = keys;
        key = key;
        field = field;
        field_is = refl;
        uri_is = ek;
        hashing_is = eh;
        signature_is = es;
        uri_shape = k;
        own_record = signer-is-owner uri id owner requester k own;
        canonical_is = sym q;
        found_is = ap lookup (sym q) ∙ f;
        keys_are = ks;
        none_stronger = chosen.none_stronger;
        offers_key = chosen.offers_key;
        key_is_rsa = Member-rsa2048 host lib key keys usable chosen.none_stronger chosen.offers_key;
        key_named = chosen.key_named;
        hash_known = m;
        payload_is = p;
        signed = g;
      }
