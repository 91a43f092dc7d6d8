-- ===== src/Daemon/Enrollment/Verify/Keys.antt =====
-- Which key a record offers for a signature, and when that key verifies it.
use noports.Prelude.{
  ◌+◌, ◌≡◌, ◌⊎◌, inl, inr, refl, ap, subst, ◌∙◌, Bool, true, false, ◌||◌, Option, none, some, List,
  [], ◌∷◌, arith, if◌then◌else◌, Text, codes, str_eq, eq_of_str_eq, All, length, Bool-cases,
}
use noports.Daemon.Host.{Host}
use noports.Daemon.Envelope.{skip_zeros}
use noports.Daemon.Enrollment.Advert.{
  items_or_none, starts_object, Hashing, Library, ApskKey, offered, rsa2048, mldsa65, text_of,
  usable_key, entry_texts, entry_key, keep_key, entry_keys, offer_of, advertised, offer_of_value,
  bare_key, kid_of,
}
use noports.Daemon.Enrollment.Verify.{
  verified, Scan, matches_kid, pick_key, scan_key, scan_keys, hashing_of, verify_bytes, verify_with,
  verify_rsa, verify_payload, with_key,
}

abbrev pub Member : ApskKey → List ApskKey → Type 0
Member a [] = ⊥
Member a (x ∷ xs) = (a ≡ x) ⊎ Member a xs

-- The scan of the offered keys.
abbrev pub IsOther : ApskKey → Type 0
IsOther k = str_eq k.alg mldsa65 ≡ false

scan_key-offers :
    (kid : Option Text) (k : ApskKey) (s : Scan)
    → (scan_key kid k s).offers_mldsa ≡ false
    → (s.offers_mldsa ≡ false) × IsOther k × ((scan_key kid k s).candidates ≡ s.candidates + 1)
unfolding scan_key
scan_key-offers kid k s h = ground arith

pub scan_keys-offers :
    (kid : Option Text) (ks : List ApskKey) (s : Scan)
    → (scan_keys kid ks s).offers_mldsa ≡ false
    → (s.offers_mldsa ≡ false)
      × All IsOther ks
      × ((scan_keys kid ks s).candidates ≡ s.candidates + length ks)
unfolding scan_keys
scan_keys-offers kid [] s h = (h, tt, omega arith)
scan_keys-offers kid (k ∷ ks) s h =
    let (a, b, c) = scan_keys-offers kid ks (scan_key kid k s) h in
    let (d, e, f) = scan_key-offers kid k s a in (d, (e, b), omega arith)

pick_key-some :
    (kid : Option Text) (x k : ApskKey) (o : Option ApskKey)
    → pick_key kid x o ≡ some k
    → (o ≡ some k) ⊎ ((k ≡ x) × (matches_kid kid k ≡ true))
unfolding pick_key
pick_key-some kid x k (some c) h = inl h
pick_key-some kid x k none h = elim (Bool-cases (matches_kid kid x)) [
  | inl m ↦ let e : k ≡ x = ground (arith, m) in inr (e, rw e m)
  | inr m ↦ absurd (ground (arith, m))
]

scan_key-key :
    (kid : Option Text) (k x : ApskKey) (s : Scan)
    → (scan_key kid x s).key ≡ some k
    → (s.key ≡ some k) ⊎ ((k ≡ x) × (matches_kid kid k ≡ true))
scan_key-key kid k x s h = elim (Bool-cases (str_eq x.alg mldsa65)) [
  | inl m ↦ inl (unfold scan_key in ground arith)
  | inr m ↦ pick_key-some kid x k s.key (unfold scan_key in ground arith)
]

pub scan_keys-key :
    (kid : Option Text) (k : ApskKey) (ks : List ApskKey) (s : Scan)
    → (scan_keys kid ks s).key ≡ some k
    → (s.key ≡ some k) ⊎ (Member k ks × (matches_kid kid k ≡ true))
unfolding scan_keys
scan_keys-key kid k [] s h = inl h
scan_keys-key kid k (x ∷ xs) s h = elim (scan_keys-key kid k xs (scan_key kid x s) h) [
  | inl e ↦ elim (scan_key-key kid k x s e) [ inl f ↦ inl f | inr (f, m) ↦ inr (inl f, m) ]
  | inr (f, m) ↦ inr (inr f, m)
]

verify_bytes-verified :
    (host : Host) (lib : Library host) (uri c : Text) (pk : host.PublicKey) (g : Hashing) (t : Text)
    (o : Option Text)
    → verify_bytes host lib uri pk g t o ≡ verified c
    → (raw : Text) × (o ≡ some raw)
      × (length raw ≡ length (skip_zeros (host.modulus pk)))
      × (lib.verify_hashed pk g t raw ≡ true)
      × (uri ≡ c)
unfolding verify_bytes
verify_bytes-verified host lib uri c pk g t none h = absurd cc
verify_bytes-verified host lib uri c pk g t (some raw) h =
    (raw, refl, ground arith, ground arith, ground arith)

module _ (host : Host) (lib : Library host) where
  open host use {Json, PublicKey, populate_public_key, modulus}
  open lib use {get_item, decode, verify_hashed}

  -- What makes a signature that a key verifies over a text.
  pub record SignedBy (key : ApskKey) (ha signed_text signature : Text) : Type 0 where
    pub public_key : PublicKey
    pub raw : Text
    pub key_is : populate_public_key key.key_text ≡ some public_key
    pub raw_is : decode signature ≡ some raw
    pub raw_length : length raw ≡ length (skip_zeros (modulus public_key))
    pub verifies : verify_hashed public_key (hashing_of ha) signed_text raw ≡ true

  verify_with-verified :
      (uri c ha t s : Text) (key : ApskKey) (o : Option PublicKey)
      → populate_public_key key.key_text ≡ o
      → verify_with host lib uri (hashing_of ha) t s o ≡ verified c
      → SignedBy key ha t s × (uri ≡ c)
  unfolding verify_with
  verify_with-verified uri c ha t s key none e h = absurd cc
  verify_with-verified uri c ha t s key (some pk) e h =
      let (raw, r, l, v, q) =
        verify_bytes-verified host lib uri c pk (hashing_of ha) t (decode s) h in
      (
        record { public_key = pk; raw = raw; key_is = e; raw_is = r; raw_length = l; verifies = v },
        q,
      )

  verify_rsa-verified :
      (uri c ha t s : Text) (key : ApskKey)
      → verify_rsa host lib uri key (hashing_of ha) t s ≡ verified c
      → verify_with host lib uri (hashing_of ha) t s (populate_public_key key.key_text) ≡ verified c
  unfolding verify_rsa
  verify_rsa-verified uri c ha t s key h = ground arith

  pub with_key-verified :
      (uri c ha s : Text) (payload : Option Text) (o : Option ApskKey)
      → with_key host lib uri ha s payload o ≡ verified c
      → (key : ApskKey) × (t : Text) × (o ≡ some key)
        × (payload ≡ some t)
        × SignedBy key ha t s
        × (uri ≡ c)
        × ((str_eq ha (codes "sha256") || str_eq ha (codes "sha512")) ≡ true)
  unfolding with_key verify_payload
  with_key-verified uri c ha s payload none h = absurd cc
  with_key-verified uri c ha s none (some key) h = absurd (ground arith)
  with_key-verified uri c ha s (some t) (some key) h =
      elim (Bool-cases (str_eq ha (codes "sha256") || str_eq ha (codes "sha512"))) [
        | inl m ↦
            let r : verify_rsa host lib uri key (hashing_of ha) t s ≡ verified c =
              ground (arith, m) in
            let (g, q) =
              verify_with-verified uri c ha t s key (populate_public_key key.key_text) refl
                (verify_rsa-verified uri c ha t s key r) in
            (key, t, refl, refl, g, q, m)
        | inr m ↦ absurd (ground (arith, m))
      ]

  -- A key that is offered is of one of the two algorithms that NoPorts reads.
  abbrev pub IsUsable : ApskKey → Type 0
  IsUsable k = (str_eq k.alg rsa2048 || str_eq k.alg mldsa65) ≡ true

  usable_key-IsUsable :
      (kid u alg key : Text) (st : Option Json) (k : ApskKey)
      → usable_key host lib kid u alg key st ≡ some k
      → IsUsable k
  unfolding usable_key
  usable_key-IsUsable kid u alg key st k h =
      elim (Bool-cases (str_eq alg rsa2048 || str_eq alg mldsa65)) [
        | inl m ↦
            let e : alg ≡ k.alg = ground (arith, m) in
            subst (λ (t : Text). (str_eq t rsa2048 || str_eq t mldsa65) ≡ true) e m
        | inr m ↦ absurd (ground (arith, m))
      ]

  entry_texts-IsUsable :
      (a b c d : Option Text) (st : Option Json) (k : ApskKey)
      → entry_texts host lib a b c d st ≡ some k
      → IsUsable k
  unfolding entry_texts
  entry_texts-IsUsable (some a) (some b) (some c) (some d) st k h =
      usable_key-IsUsable a b c d st k h
  entry_texts-IsUsable none b c d st k h = absurd cc
  entry_texts-IsUsable (some a) none c d st k h = absurd cc
  entry_texts-IsUsable (some a) (some b) none d st k h = absurd cc
  entry_texts-IsUsable (some a) (some b) (some c) none st k h = absurd cc

  if-some :
      (b : Bool) (o : Option ApskKey) (k : ApskKey) → (if b then o else none) ≡ some k → o ≡ some k
  if-some true o k h = h
  if-some false o k h = absurd cc

  entry_key-IsUsable : (e : Option Json) (k : ApskKey) → entry_key host lib e ≡ some k → IsUsable k
  unfolding entry_key
  entry_key-IsUsable e k h =
      entry_texts-IsUsable (text_of host lib (get_item e (codes "kid")))
        (text_of host lib (get_item e (codes "use"))) (text_of host lib (get_item e (codes "alg")))
        (text_of host lib (get_item e (codes "pub"))) (get_item e (codes "status")) k
        (if-some (host.is_object e) _ k h)

  keep_key-IsUsable :
      (o : Option ApskKey) (ks : List ApskKey)
      → ((k : ApskKey) → o ≡ some k → IsUsable k)
      → All IsUsable ks
      → All IsUsable (keep_key host lib o ks)
  unfolding keep_key
  keep_key-IsUsable none ks h a = a
  keep_key-IsUsable (some k) ks h a = (h k refl, a)

  entry_keys-IsUsable : (es : List (Option Json)) → All IsUsable (entry_keys host lib es)
  unfolding entry_keys
  entry_keys-IsUsable [] = tt
  entry_keys-IsUsable (e ∷ es) =
      keep_key-IsUsable (entry_key host lib e) (entry_keys host lib es) (entry_key-IsUsable e)
        (entry_keys-IsUsable es)

  offer_of-IsUsable :
      (es ks : List ApskKey) → All IsUsable es → offer_of host lib es ≡ offered ks → All IsUsable ks
  unfolding offer_of
  offer_of-IsUsable [] ks a h = absurd cc
  offer_of-IsUsable (e ∷ es) ks a h =
      let q : e ∷ es ≡ ks = cc in subst (λ (l : List ApskKey). All IsUsable l) q a

  advertised-IsUsable :
      (o : Option Json) (ks : List ApskKey) → advertised host lib o ≡ offered ks → All IsUsable ks
  unfolding advertised
  advertised-IsUsable none ks h = absurd cc
  advertised-IsUsable (some j) ks h = offer_of-IsUsable _ ks (entry_keys-IsUsable _) (
      let q : offer_of host lib (
            entry_keys host lib
              (items_or_none host lib (host.array_items (get_item (some j) (codes "keys")))))
          ≡ offered ks =
        ground arith in
      q)

  bare_key-IsUsable :
      (value : Text) (o : Option Text) (ks : List ApskKey)
      → bare_key host lib value o ≡ offered ks
      → All IsUsable ks
  unfolding bare_key
  bare_key-IsUsable value none ks h = absurd cc
  bare_key-IsUsable value (some kid) ks h =
      let q : record { kid_text = kid; alg = rsa2048; key_text = value } ∷ [] ≡ ks = cc in
      subst (λ (l : List ApskKey). All IsUsable l) q (unfold str_eq in (refl, tt))

  pub offer_of_value-IsUsable :
      (value : Text) (ks : List ApskKey)
      → offer_of_value host lib value ≡ offered ks
      → All IsUsable ks
  unfolding offer_of_value
  offer_of_value-IsUsable value ks h = elim (Bool-cases (starts_object value)) [
    | inl m ↦ advertised-IsUsable (lib.parse_whole value) ks (ground (arith, m))
    | inr m ↦ bare_key-IsUsable value (kid_of host lib value) ks (ground (arith, m))
  ]

  -- Where no other algorithm is offered, the member of an offer is an RSA key.
  pub Member-rsa2048 :
      (k : ApskKey) (ks : List ApskKey)
      → All IsUsable ks
      → All IsOther ks
      → Member k ks
      → k.alg ≡ rsa2048
  Member-rsa2048 k [] a b m = absurd m
  Member-rsa2048 k (x ∷ xs) a b (inl e) =
      let q : str_eq x.alg rsa2048 ≡ true = ground (arith, a.0, b.0) in
      ap (λ (y : ApskKey). y.alg) e ∙ eq_of_str_eq x.alg rsa2048 q
  Member-rsa2048 k (x ∷ xs) a b (inr m) = Member-rsa2048 k xs a.1 b.1 m
