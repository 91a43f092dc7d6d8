-- ===== src/Relay/Escr/Opened.antt =====
-- What the rendezvous server finds in a reply of _escr_authenticate, and when a reply is made.
use noports.Prelude.{
  ℕ, ◌≡◌, refl, ap, ◌∙◌, Bool, true, false, Option, none, some, leb, Text, length,
}
use noports.Relay.Escr.{
  Coder, EscrConfig, EscrWorld, Block, envelope_text, ciphertext_text, reply_text, given, then_some,
  encoded_size, encoded_max, encode_into, pad, raw_key, sealed, wrapped, sealed_reply,
}
use noports.Relay.Escr.Padding.{unpad, unpad-pad}

pub given-some {ℓ} :
    {A : Type ℓ} (b : Bool) (o : Option A) (y : A) → given b o ≡ some y → (b ≡ true) × (o ≡ some y)
unfolding given
given-some true o y h = (refl, h)
given-some false o y h = absurd cc

pub then_some-some {ℓ κ} :
    {A : Type ℓ} {B : Type κ} (o : Option A) (f : A → Option B) (y : B)
    → then_some o f ≡ some y
    → (x : A) × (o ≡ some x) × (f x ≡ some y)
unfolding then_some
then_some-some none f y h = absurd cc
then_some-some (some x) f y h = (x, refl, h)

module _ (coder : Coder) where
  open coder use {
    sign, base64_encode, base64_decode, crypt_ctr, print_object, print_envelope, parse_outer,
    base64_decode_encode, crypt_crypt, parse_print,
  }

  -- What a server with the key makes of a reply: the two items of the outer object, decoded, decrypted
  -- and without the padding, and the envelope in it.
  unfoldable pub open_items : Text → Option (Text × Text) → Option Text
  unfolding then_some unpad
  open_items key none = none
  open_items key (some (iv64, e64)) =
      then_some (base64_decode iv64)
        λ iv. then_some (base64_decode e64) λ e. base64_decode (unpad (crypt_ctr key iv e))

  unfoldable pub open_reply : Text → Text → Option Text
  unfolding then_some open_items
  open_reply key r = then_some (base64_decode r) λ outer. open_items key (parse_outer outer)

  module _ (w : EscrWorld) where
    pub encode_into-some :
        (b : Block) (size : ℕ) (t y : Text)
        → encode_into coder w b size t ≡ some y
        → y ≡ base64_encode t
    unfolding encode_into
    encode_into-some b size t y h =
        let (a, g) = given-some (w.alloc b) _ y h in
        let (c, f) = given-some (leb (encoded_size (length t)) size) (some (base64_encode t)) y g in
        cc

    wrapped-some :
        (e r : Text)
        → wrapped coder w e ≡ some r
        → (outer : Text) × (r ≡ base64_encode outer)
          × (parse_outer outer ≡ some (base64_encode w.random_iv, e))
    unfolding wrapped
    wrapped-some e r h =
        let (outer, a, b) = then_some-some _ _ r h in
        let (x, p) = given-some _ _ outer a in
        (
          outer,
          encode_into-some reply_text (encoded_max (length outer)) outer r b,
          parse_print (base64_encode w.random_iv) e outer p,
        )

    sealed-some :
        (key env64 e : Text)
        → sealed coder w key env64 ≡ some e
        → e ≡ base64_encode (crypt_ctr key w.random_iv (pad env64))
    unfolding sealed
    sealed-some key env64 e h =
        let (a, g) = given-some _ _ e h in
        let (b, f) = given-some _ _ e g in
        encode_into-some ciphertext_text (encoded_max (length (pad env64)))
          (crypt_ctr key w.random_iv (pad env64)) e f

    open_items-sealed :
        (key env : Text)
        → open_items key (
            some (
              base64_encode w.random_iv,
              base64_encode (crypt_ctr key w.random_iv (pad (base64_encode env))),
            ))
          ≡ some env
    unfolding open_items then_some
    open_items-sealed key env = rw (base64_decode_encode w.random_iv) (
        rw (base64_decode_encode (crypt_ctr key w.random_iv (pad (base64_encode env)))) (
          rw (crypt_crypt key w.random_iv (pad (base64_encode env)))
            (rw (unpad-pad (base64_encode env)) (base64_decode_encode env))))

    open_reply-wrapped :
        (key env outer : Text)
        → parse_outer outer
          ≡ some (
            base64_encode w.random_iv,
            base64_encode (crypt_ctr key w.random_iv (pad (base64_encode env))),
          )
        → open_reply key (base64_encode outer) ≡ some env
    unfolding open_reply then_some
    open_reply-wrapped key env outer p =
        rw (base64_decode_encode outer) (rw p (open_items-sealed key env))

    pub sealed_reply-opened :
        (c : EscrConfig) (env r : Text)
        → sealed_reply coder w c env ≡ some r
        → (key : Text) × (raw_key coder w c ≡ some key) × (open_reply key r ≡ some env)
    unfolding sealed_reply
    sealed_reply-opened c env r h =
        let (env64, a, g) = then_some-some _ _ r h in
        let (key, k, f) = then_some-some _ _ r g in
        let (e, s, v) = then_some-some _ _ r f in
        let (outer, q, p) = wrapped-some e r v in
        let x = encode_into-some envelope_text (encoded_max (length env)) env env64 a in
        let y = sealed-some key env64 e s in
        (
          key,
          k,
          ap (open_reply key) q
              ∙ open_reply-wrapped key env outer (
                  p
                  ∙ ap (λ (t : Text). some (base64_encode w.random_iv, t))
                      (y ∙ ap (λ (t : Text). base64_encode (crypt_ctr key w.random_iv (pad t))) x)),
        )
