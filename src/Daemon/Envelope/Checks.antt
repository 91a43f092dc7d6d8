-- ===== src/Daemon/Envelope/Checks.antt =====
-- What an envelope that passes the checks is.
use noports.Prelude.{
  ℕ, zero, suc, ◌+◌, ◌≤◌, ◌≡◌, ◌⊎◌, ◌↔◌, ◌==◌, true, inl, inr, refl, subst, Bool, Option, none,
  some, [], ◌∷◌, ◌++◌, arith, if◌then◌else◌, Text, codes, length, drop, get_elem?, some_inj,
  Option-cases,
}
use noports.Daemon.Host.{Host}
use noports.Daemon.Envelope.{
  is_xdigit, dash_expected, session_id_byte, session_id_from, is_valid_session_id,
  is_rsa2048_modulus, Verdict, verified, refused, verify_printed, verify_decoded, verify_with_key,
  verify_with_text, verify_payload, verify_envelope_signature, port_ok, verify_envelope_contents,
}

-- A hexadecimal digit, by its code: 0 to 9, a to f or A to F.
abbrev pub IsHexDigit : ℕ → Type 0
IsHexDigit c = ((48 ≤ c) × (c ≤ 57)) ⊎ (((97 ≤ c) × (c ≤ 102)) ⊎ ((65 ≤ c) × (c ≤ 70)))

abbrev pub IsDashPlace : ℕ → Type 0
IsDashPlace j = (j ≡ 8) ⊎ ((j ≡ 13) ⊎ ((j ≡ 18) ⊎ (j ≡ 23)))

-- A byte of a UUID at its place: a dash (45) at the four places, a hexadecimal digit elsewhere.
abbrev pub IsUuidByte : ℕ → ℕ → Type 0
IsUuidByte j c = (IsDashPlace j × (c ≡ 45)) ⊎ ((IsDashPlace j → ⊥) × IsHexDigit c)

session_id_byte-IsUuidByte : (j c : ℕ) → session_id_byte j c ≡ true → IsUuidByte j c
unfolding session_id_byte is_xdigit dash_expected
session_id_byte-IsUuidByte j c h = ground arith

IsUuidByte-session_id_byte : (j c : ℕ) → IsUuidByte j c → session_id_byte j c ≡ true
unfolding session_id_byte is_xdigit dash_expected
IsUuidByte-session_id_byte j c (inl (p, e)) = ground (arith, p, e)
IsUuidByte-session_id_byte j c (inr (n, h)) = ground (arith, n, h)

session_id_from-get :
    (i j : ℕ) (s : Text) (c : ℕ)
    → session_id_from i s ≡ true
    → get_elem? s j ≡ some c
    → session_id_byte (i + j) c ≡ true
session_id_from-get i j [] c h g = cc
session_id_from-get i zero (x ∷ xs) c h g =
    let e : i ≡ i + 0 = omega arith in
    subst (λ k. session_id_byte k c ≡ true) e
      (subst (λ d. session_id_byte i d ≡ true) (some_inj g) (head h))
  where
    head : session_id_from i (x ∷ xs) ≡ true → session_id_byte i x ≡ true
    head q = unfold session_id_from in ground arith
session_id_from-get i (suc j) (x ∷ xs) c h g =
    let e : i + 1 + j ≡ i + suc j = omega arith in
    subst (λ k. session_id_byte k c ≡ true) e (session_id_from-get (i + 1) j xs c (tail h) g)
  where
    tail : session_id_from i (x ∷ xs) ≡ true → session_id_from (i + 1) xs ≡ true
    tail q = unfold session_id_from in ground arith

get-session_id_from :
    (i : ℕ) (s : Text)
    → ((j c : ℕ) → get_elem? s j ≡ some c → session_id_byte (i + j) c ≡ true)
    → session_id_from i s ≡ true
unfolding session_id_from
get-session_id_from i [] f = refl
get-session_id_from i (x ∷ xs) f =
    let e : i + 0 ≡ i = omega arith in
    let a : session_id_byte i x ≡ true = subst (λ k. session_id_byte k x ≡ true) e (f 0 x refl) in
    let b = get-session_id_from (i + 1) xs (λ j c g.
      let q : i + suc j ≡ i + 1 + j = omega arith in
      subst (λ k. session_id_byte k c ≡ true) q (f (suc j) c g)) in
    rw (a, b) refl

-- A session id is accepted exactly if it has 36 bytes, a dash at the indices 8, 13, 18 and 23, and
-- one of 0 to 9, a to f and A to F at every other index.
pub is_valid_session_id_iff :
    (s : Text)
    → (is_valid_session_id (some s) ≡ true)
      ↔ ((length s ≡ 36) × ((j c : ℕ) → get_elem? s j ≡ some c → IsUuidByte j c))
unfolding is_valid_session_id
is_valid_session_id_iff s = (
  λ h.
      let f : session_id_from 0 s ≡ true = ground arith in
      (
        ground arith,
        λ j c g.
            let e : 0 + j ≡ j = omega arith in
            session_id_byte-IsUuidByte j c
              (subst (λ k. session_id_byte k c ≡ true) e (session_id_from-get 0 j s c f g)),
      ),
  λ (l, u).
      let b : (length s == 36) ≡ true = ground arith in
      rw b (
        get-session_id_from 0 s (λ j c g.
          let e : j ≡ 0 + j = omega arith in
          subst (λ k. session_id_byte k c ≡ true) e (IsUuidByte-session_id_byte j c (u j c g)))),
)

if_verified :
    (b : Bool) (v : Verdict) → (if b then v else refused) ≡ verified → (b ≡ true) × (v ≡ verified)
if_verified b v h = ground arith

module _ (host : Host) where
  open host use {
    Json, print, get_object_item, get_string_value, get_public_key, PublicKey, populate_public_key,
    modulus, rsa_verify, to_uint16, port_converts,
  }

  -- The envelope's payload, printed, carries a signature that the sender's own 2048-bit key verifies.
  pub record Signed (envelope : Option Json) (from : Text) : Type 0 where
    pub payload : Json
    pub printed : Text
    pub key_text : Text
    pub key : PublicKey
    pub sig : Text
    pub payload_is : get_object_item envelope (codes "payload") ≡ some payload
    pub printed_is : print payload ≡ some printed
    pub key_text_is : get_public_key from ≡ some key_text
    pub key_is : populate_public_key key_text ≡ some key
    pub key_size : is_rsa2048_modulus (modulus key) ≡ true
    pub verifies : rsa_verify key printed sig ≡ true

  verify_printed-key :
      (pk : PublicKey) (o : Option Text) (sig : Text)
      → verify_printed host pk o sig ≡ verified
      → (printed : Text) × (o ≡ some printed) × (rsa_verify pk printed sig ≡ true)
  unfolding verify_printed
  verify_printed-key pk none sig h = cc
  verify_printed-key pk (some printed) sig h = (printed, refl, (if_verified _ _ h).0)

  verify_decoded-key :
      (payload : Json) (envelope : Option Json) (pk : PublicKey) (pk_text : Text) (o : Option Text)
      → verify_decoded host payload envelope pk pk_text o ≡ verified
      → (printed sig : Text) × (print payload ≡ some printed) × (rsa_verify pk printed sig ≡ true)
  unfolding verify_decoded
  verify_decoded-key payload envelope pk pk_text none h = cc
  verify_decoded-key payload envelope pk pk_text (some raw) h =
      let (printed, e, v) = verify_printed-key pk (print payload) _ (if_verified _ _ h).1 in
      (printed, raw ++ drop (length raw) pk_text, e, v)

  verify_text-key :
      (payload : Json) (envelope : Option Json) (o : Option Text)
      → verify_with_text host payload envelope o ≡ verified
      → (key_text : Text) × (key : PublicKey) × (o ≡ some key_text)
        × (populate_public_key key_text ≡ some key)
        × (is_rsa2048_modulus (modulus key) ≡ true)
        × ((printed sig : Text) × (print payload ≡ some printed)
            × (rsa_verify key printed sig ≡ true))
  unfolding verify_with_text
  verify_text-key payload envelope none h = cc
  verify_text-key payload envelope (some t) h = elim (Option-cases (populate_public_key t)) [
    | inl e ↦ absurd (unfold verify_with_key in cc (rw e at h))
    | inr (pk, e) ↦
        let (m, v) = if_verified _ _ (unfold verify_with_key in (rw e at h)) in
        (t, pk, refl, e, m, verify_decoded-key payload envelope pk t _ v)
  ]

  verify_payload-Signed :
      (envelope o : Option Json) (from : Text)
      → get_object_item envelope (codes "payload") ≡ o
      → verify_payload host o envelope from ≡ verified
      → Signed envelope from
  unfolding verify_payload
  verify_payload-Signed envelope none from q h = absurd cc
  verify_payload-Signed envelope (some payload) from q h =
      let (t, pk, a, b, m, (printed, sig, c, v)) =
        verify_text-key payload envelope (get_public_key from)
          (if_verified _ _ (if_verified _ _ h).1).1 in
      record {
        payload = payload;
        printed = printed;
        key_text = t;
        key = pk;
        sig = sig;
        payload_is = q;
        printed_is = c;
        key_text_is = a;
        key_is = b;
        key_size = m;
        verifies = v;
      }

  -- An envelope is taken as signed only if the printed payload verifies against the public key that
  -- is looked up for the sender, and that key is an RSA key of 2048 bits.
  pub verify_envelope_signature-Signed :
      (envelope : Option Json) (from : Text)
      → verify_envelope_signature host envelope from ≡ verified
      → Signed envelope from
  unfolding verify_envelope_signature
  verify_envelope_signature-Signed envelope from h =
      verify_payload-Signed envelope (get_object_item envelope (codes "payload")) from refl h

  port_ok-range :
      (j : Option Json) → port_ok host j ≡ true → (1 ≤ to_uint16 j) × (to_uint16 j ≤ 65535)
  unfolding port_ok
  port_ok-range j h = ground (arith, port_converts j)

  -- The two ports of a session request whose contents pass are in 1..65535 after their conversion.
  pub verify_envelope_contents-ports :
      (envelope : Option Json)
      → verify_envelope_contents host envelope true ≡ true
      → let port = λ (name : Text).
        to_uint16 (get_object_item (get_object_item envelope (codes "payload")) name) in
        (1 ≤ port (codes "rvdPort"))
        × (port (codes "rvdPort") ≤ 65535)
        × (1 ≤ port (codes "requestedPort"))
        × (port (codes "requestedPort") ≤ 65535)
  unfolding verify_envelope_contents
  verify_envelope_contents-ports envelope h =
      let payload = get_object_item envelope (codes "payload") in
      let r : port_ok host (get_object_item payload (codes "rvdPort")) ≡ true = ground arith in
      let q : port_ok host (get_object_item payload (codes "requestedPort")) ≡ true =
        ground arith in
      let (a, b) = port_ok-range _ r in let (c, d) = port_ok-range _ q in (a, b, c, d)
