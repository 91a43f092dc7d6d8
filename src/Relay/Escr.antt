-- ===== src/Relay/Escr.antt =====
-- noports_relay.cpp: _escr_authenticate, the answer to the challenge of the rendezvous server.
pub mod Padding
pub mod Opened
pub mod Answered
pub mod Sends
use noports.Prelude.{
  ℕ, zero, suc, ◌+◌, ◌-◌, ◌*◌, ◌/◌, ◌%◌, ◌≡◌, Bool, true, false, Option, none, some, List, [], ◌∷◌,
  ◌++◌, leb, ◌==◌, if◌then◌else◌, Text, codes, length, str_eq, replicate,
}

-- sizeof(challenge) and sizeof(response), less the zero, and the size of sig_b64.
abbrev pub challenge_room : ℕ
challenge_room = 63

abbrev pub answer_room : ℕ
answer_room = 15

abbrev pub signature_size : ℕ
signature_size = 352

abbrev pub newline : ℕ
newline = 10

-- A text with a zero in it, as a C string.
unfoldable pub c_string : Text → Text
c_string [] = []
c_string (c ∷ cs) = if c == 0 then [] else c ∷ c_string cs

-- The reads of a line, one byte each, in the time there is; `none` is a read that gives nothing.
unfoldable pub read_line : List (Option ℕ) → ℕ → Text
read_line [] room = []
read_line (r ∷ rs) zero = []
read_line (none ∷ rs) (suc room) = read_line rs (suc room)
read_line (some c ∷ rs) (suc room) = if c == newline then [] else c ∷ read_line rs room

abbrev pub pad_byte : Text → ℕ
pad_byte t = 16 - length t % 16

-- PKCS7, for blocks of 16 bytes.
unfoldable pub pad : Text → Text
pad t = t ++ replicate (pad_byte t) (pad_byte t)

-- The buffers and the objects whose allocation can fail.
pub data Block : Type 0 where
  payload_object signature_buffer signature_text reparsed envelope_object envelope_text : Block
  padded ciphertext ciphertext_text outer_object reply_text : Block

-- What mbedtls, cJSON and RSA do. A printed object is its text, with every field that was added to it.
-- The law on printing says that a parser reads its two items back, those on base64 and on AES-256-CTR
-- that they undo themselves and that CTR keeps a text's length, and the one on signatures that an RSA
-- key of 2048 bits makes 256 bytes, which is the whole of the buffer that the code encodes.
pub record Coder : Type 0 where
  pub sign : Text → Option Text
  pub base64_encode : Text → Text
  pub base64_decode : Text → Option Text
  pub crypt_ctr : Text → Text → Text → Text
  pub print_object : List (Text × Text) → Option Text
  pub print_envelope : Text → List (Text × Text) → Option Text
  pub parse_outer : Text → Option (Text × Text)
  pub length-sign : (p s : Text) → sign p ≡ some s → length s ≡ 256
  pub base64_decode_encode : (t : Text) → base64_decode (base64_encode t) ≡ some t
  pub crypt_crypt : (key iv t : Text) → crypt_ctr key iv (crypt_ctr key iv t) ≡ t
  pub length-crypt : (key iv t : Text) → length (crypt_ctr key iv t) ≡ length t
  pub parse_print :
      (iv e t : Text)
      → print_object ((codes "iv", iv) ∷ (codes "e", e) ∷ []) ≡ some t
      → parse_outer t ≡ some (iv, e)

-- The fields of NoPortsRelayConfig that are read.
pub record EscrConfig : Type 0 where
  pub session_id : Text
  pub signing_key_uri : Text
  pub relay_auth_aes_key : Text

-- What one attempt meets.
pub record EscrWorld : Type 0 where
  pub alloc : Block → Bool
  pub random_iv : Text
  pub challenge_reads : List (Option ℕ)
  pub answer_reads : List (Option ℕ)

-- The next step of a chain that stops at a failure.
unfoldable pub then_some {ℓ κ} : {A : Type ℓ} {B : Type κ} → Option A → (A → Option B) → Option B
then_some none f = none
then_some (some x) f = f x

unfoldable pub given {ℓ} : {A : Type ℓ} → Bool → Option A → Option A
given b o = if b then o else none

-- The bytes that mbedtls_base64_encode needs for n bytes, its zero included.
abbrev pub encoded_size : ℕ → ℕ
encoded_size n = (n + 2) / 3 * 4 + 1

-- The size of the buffers that hold base64 of n bytes.
abbrev pub encoded_max : ℕ → ℕ
encoded_max n = (n / 3 + 2) * 4 + 4

module _ (coder : Coder) (w : EscrWorld) where
  open coder use {
    sign, base64_encode, base64_decode, crypt_ctr, print_object, print_envelope, parse_outer,
  }

  unfoldable pub encode_into : Block → ℕ → Text → Option Text
  unfolding given
  encode_into b size t =
      given (w.alloc b) (given (leb (encoded_size (length t)) size) (some (base64_encode t)))

  -- Step 2: the payload that is signed.
  unfoldable pub payload : EscrConfig → Text → Option Text
  unfolding given
  payload c challenge = given (w.alloc payload_object) (
      print_object
        ((codes "sid", c.session_id) ∷ (codes "c", challenge) ∷ (codes "side", codes "b") ∷ []))

  -- Steps 3 to 5: the envelope of a payload.
  unfoldable pub envelope : EscrConfig → Text → Option Text
  unfolding given then_some encode_into
  envelope c p = then_some (given (w.alloc signature_buffer) (sign p)) λ s.
      then_some (encode_into signature_text signature_size s) λ s64. given (w.alloc reparsed) (
        given (w.alloc envelope_object) (
          print_envelope p (
            (codes "s", s64)
            ∷ (codes "ha", codes "sha256")
            ∷ (codes "sa", codes "rsa2048")
            ∷ (codes "sk", c.signing_key_uri)
            ∷ [])))

  -- Step 7: a key of 32 bytes.
  unfoldable pub raw_key : EscrConfig → Option Text
  unfolding then_some given
  raw_key c = then_some (base64_decode c.relay_auth_aes_key) λ k. given (length k == 32) (some k)

  -- Steps 8 to 10: the ciphertext in base64.
  unfoldable pub sealed : Text → Text → Option Text
  unfolding given pad encode_into
  sealed key env64 = given (w.alloc padded) (
      given (w.alloc ciphertext) (
        encode_into ciphertext_text (encoded_max (length (pad env64)))
          (crypt_ctr key w.random_iv (pad env64))))

  -- Steps 11 and 12: the reply in base64.
  unfoldable pub wrapped : Text → Option Text
  unfolding given then_some encode_into
  wrapped e =
      then_some
        (given (w.alloc outer_object)
          (print_object ((codes "iv", base64_encode w.random_iv) ∷ (codes "e", e) ∷ [])))
        λ outer. encode_into reply_text (encoded_max (length outer)) outer

  -- Steps 6 to 12: the reply that carries an envelope.
  unfoldable pub sealed_reply : EscrConfig → Text → Option Text
  unfolding then_some encode_into raw_key sealed wrapped
  sealed_reply c env =
      then_some (encode_into envelope_text (encoded_max (length env)) env)
        λ env64. then_some (raw_key c) λ key. then_some (sealed key env64) λ e. wrapped e

  unfoldable pub reply : EscrConfig → Text → Option Text
  unfolding then_some payload envelope sealed_reply
  reply c challenge =
      then_some (payload c challenge) λ p. then_some (envelope c p) λ env. sealed_reply c env

  -- Steps 13 and 14: what is sent, and whether the server accepts it.
  unfoldable pub finish : EscrConfig → Option Text → Option Text × Bool
  unfolding read_line c_string str_eq
  finish c none = (none, false)
  finish c (some r) = (
    some (c.session_id ++ (codes ":" ++ (r ++ (newline ∷ [])))),
    str_eq (c_string (read_line w.answer_reads answer_room)) (codes "ok"),
  )

  -- _escr_authenticate
  unfoldable pub escr_authenticate : EscrConfig → Option Text × Bool
  unfolding finish reply read_line c_string
  escr_authenticate c =
      let challenge = read_line w.challenge_reads challenge_room in
      if length challenge == 0 then (none, false) else finish c (reply c (c_string challenge))
