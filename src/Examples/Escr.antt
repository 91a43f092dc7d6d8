-- ===== src/Examples/Escr.antt =====
-- The theorems on the authentication of a relay, with a small coder.
use noports.Prelude.{
  some_inj, ◌≡◌, refl, ap, ◌∙◌, true, Option, none, some, List, [], ◌∷◌, ◌++◌, Text, codes, length,
  take, drop, str_eq, sym, replicate,
}
use noports.Relay.Escr.{
  Coder, EscrConfig, EscrWorld, escr_authenticate, finish, reply, payload, envelope, sealed_reply,
  sealed, wrapped, raw_key, encode_into, given, then_some, read_line, c_string, pad, newline,
}
use noports.Relay.Escr.Padding.{take-length}
use noports.Relay.Escr.Answered.{IsAnswered, escr_authenticate-IsAnswered}

-- An object is printed as its values, each behind its length.
abbrev print_fields : List (Text × Text) → Text
print_fields [] = []
print_fields ((k, v) ∷ fs) = length v ∷ (v ++ print_fields fs)

abbrev parse_second : Text → Text → Option (Text × Text)
parse_second iv [] = none
parse_second iv (m ∷ u) = some (iv, take m u)

abbrev parse_items : Text → Option (Text × Text)
parse_items [] = none
parse_items (n ∷ t) = parse_second (take n t) (drop n t)

abbrev decoded : Text → Option Text
decoded [] = none
decoded (b ∷ t) = some t

drop-length : (t u : Text) → drop (length t) (t ++ u) ≡ u
drop-length [] u = refl
drop-length (x ∷ t) u = drop-length t u

parse_items-printed :
    (iv e t : Text)
    → some (print_fields ((codes "iv", iv) ∷ (codes "e", e) ∷ [])) ≡ some t
    → parse_items t ≡ some (iv, e)
parse_items-printed iv e t h =
    let u = length e ∷ (e ++ []) in
    let q : length iv ∷ (iv ++ u) ≡ t = cc in
    ap parse_items (sym q)
    ∙ ap (λ (x : Text). parse_second x (drop (length iv) (iv ++ u))) (take-length iv u)
    ∙ ap (parse_second iv) (drop-length iv u)
    ∙ ap (λ (x : Text). some (iv, x)) (take-length e [])

signature_length : (p s : Text) → some (replicate 256 7) ≡ some s → length s ≡ 256
signature_length p s h = let q : replicate 256 7 ≡ s = some_inj h in sym (ap length q)

abbrev coder : Coder
coder = record {
  sign = λ p. some (replicate 256 7);
  base64_encode = λ t. 61 ∷ t;
  base64_decode = decoded;
  crypt_ctr = λ key iv t. t;
  print_object = λ fs. some (print_fields fs);
  print_envelope = λ p fs. some (length p ∷ (p ++ print_fields fs));
  parse_outer = parse_items;
  length-sign = signature_length;
  base64_decode_encode = λ t. refl;
  crypt_crypt = λ key iv t. refl;
  length-crypt = λ key iv t. refl;
  parse_print = parse_items-printed;
}

abbrev escr_config : EscrConfig
escr_config = record {
  session_id = codes "id";
  signing_key_uri = codes "uri";
  relay_auth_aes_key = 61 ∷ replicate 32 1;
}

-- The server says "c", and then "ok".
abbrev server : EscrWorld
server = record {
  alloc = λ b. true;
  random_iv = replicate 16 5;
  challenge_reads = none ∷ some 99 ∷ some newline ∷ [];
  answer_reads = some 111 ∷ none ∷ some 107 ∷ some newline ∷ [];
}

abbrev printed_payload : Text
printed_payload =
    print_fields
      ((codes "sid", codes "id") ∷ (codes "c", codes "c") ∷ (codes "side", codes "b") ∷ [])

abbrev printed_envelope : Text
printed_envelope =
    length printed_payload
    ∷ (printed_payload
        ++ print_fields (
            (codes "s", 61 ∷ replicate 256 7)
            ∷ (codes "ha", codes "sha256")
            ∷ (codes "sa", codes "rsa2048")
            ∷ (codes "sk", codes "uri")
            ∷ []))

abbrev answer_text : Text
answer_text =
    61
    ∷ print_fields
        ((codes "iv", 61 ∷ replicate 16 5) ∷ (codes "e", 61 ∷ pad (61 ∷ printed_envelope)) ∷ [])

has_answered :
    escr_authenticate coder server escr_config
    ≡ (some (codes "id:" ++ (answer_text ++ (newline ∷ []))), true)
unfolding escr_authenticate finish reply payload envelope sealed_reply sealed wrapped raw_key
    encode_into given then_some read_line c_string pad str_eq
has_answered = refl

escr_authenticate-IsAnswered_example :
    IsAnswered coder server escr_config (codes "id:" ++ (answer_text ++ (newline ∷ []))) true
escr_authenticate-IsAnswered_example =
    escr_authenticate-IsAnswered coder server escr_config
      (codes "id:" ++ (answer_text ++ (newline ∷ []))) true has_answered
