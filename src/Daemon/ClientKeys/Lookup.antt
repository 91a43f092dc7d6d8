-- ===== src/Daemon/ClientKeys/Lookup.antt =====
-- noports_client_keys.cpp: _append_path_segment and _lookup_at, a record's lookup over HTTPS.
use noports.Prelude.{
  ℕ, ◌+◌, ◌-◌, ◌*◌, ◌/◌, ◌%◌, ◌<◌, ◌≡◌, inl, inr, refl, ap, ◌∙◌, Bool, true, false, ◌&&◌, ◌||◌,
  Option, none, some, [], ◌∷◌, ◌++◌, arith, leb, ltb, ◌==◌, if◌then◌else◌, Text, codes, All, any,
  Bool-cases,
}
use noports.Daemon.Enrollment.Advert.{Lookup, found, not_found, not_served, failed}
use noports.Daemon.Enrollment.Uri.{strip_prefix, public_prefix}
use noports.Permit.Denial.{print_port}

-- `keep`, and the letters and digits.
unfoldable pub is_kept : ℕ → Bool
is_kept c =
    (leb b'A' c && leb c b'Z')
    || (leb b'a' c && leb c b'z')
    || (leb b'0' c && leb c b'9')
    || any (λ k. k == c) (codes "-._~!$&'()*+,;=:@")

-- "%02X"
unfoldable pub upper_hex : ℕ → ℕ
upper_hex n = if ltb n 10 then b'0' + n else n + 55

-- _append_path_segment
unfoldable pub encode_byte : ℕ → Text
unfolding is_kept upper_hex
encode_byte c = if is_kept c then c ∷ [] else b'%' ∷ upper_hex (c / 16) ∷ upper_hex (c % 16) ∷ []

unfoldable pub path_segment : Text → Text
unfolding encode_byte
path_segment [] = []
path_segment (c ∷ cs) = encode_byte c ++ path_segment cs

-- A percent-encoded text read back, as RFC 3986 says.
unfoldable pub hex_value : ℕ → ℕ
hex_value c = if ltb c b'A' then c - b'0' else c - 55

unfoldable pub decode_segment : Text → Text
unfolding hex_value
decode_segment [] = []
decode_segment (c ∷ []) = c ∷ []
decode_segment (c ∷ d ∷ []) = c ∷ d ∷ []
decode_segment (c ∷ d ∷ e ∷ cs) = elim (c == b'%') [
  | true ↦ (hex_value d * 16 + hex_value e) ∷ decode_segment cs
  | false ↦ c ∷ decode_segment (d ∷ e ∷ cs)
]

-- `strrchr(uri, '@')`: what is in front of the last '@', and the text from it on.
unfoldable pub split_at_at : ℕ → Text → Option (Text × Text) → Option (Text × Text)
split_at_at c cs (some (a, b)) = some (c ∷ a, b)
split_at_at c cs none = if c == b'@' then some ([], c ∷ cs) else none

unfoldable pub split_last_at : Text → Option (Text × Text)
unfolding split_at_at
split_last_at [] = none
split_last_at (c ∷ cs) = split_at_at c cs (split_last_at cs)

-- What a GET comes to: it cannot begin, it is answered, it times out, or it fails otherwise. The body
-- of an answer is missing if it is too long, no text, or cannot be copied.
pub data Answer : Type 0 where
  no_begin answered_not_found answered_other timed_out no_https : Answer
  answered : Option Text → Answer

pub record Http : Type 0 where
  pub heap_low : Bool
  pub get : Text → ℕ → Answer

unfoldable pub lookup_of : Answer → Lookup
lookup_of no_begin = not_served
lookup_of (answered none) = failed
lookup_of (answered (some value)) = found value
lookup_of answered_not_found = not_found
lookup_of answered_other = not_served
lookup_of timed_out = failed
lookup_of no_https = not_served

unfoldable pub url_of : Text → ℕ → Text × Text → Text
unfolding path_segment print_port
url_of host port (name, at) =
    codes "https://"
    ++ (host ++ (b':' ∷ print_port port ++ (b'/' ∷ path_segment at ++ (b'/' ∷ path_segment name))))

unfoldable pub lookup_parts : Http → Text → ℕ → ℕ → Option (Text × Text) → Lookup
unfolding url_of lookup_of
lookup_parts http host port timeout none = failed
lookup_parts http host port timeout (some parts) =
    if http.heap_low then failed else lookup_of (http.get (url_of host port parts) timeout)

unfoldable pub split_public : Option Text → Option (Text × Text)
unfolding split_last_at
split_public none = none
split_public (some rest) = split_last_at rest

-- _lookup_at
unfoldable pub lookup_at : Http → Text → ℕ → Text → ℕ → Lookup
unfolding lookup_parts split_public strip_prefix
lookup_at http host port uri timeout =
    lookup_parts http host port timeout (split_public (strip_prefix public_prefix uri))

percent_not_kept : (c : ℕ) → is_kept c ≡ true → (c == b'%') ≡ false
unfolding is_kept
percent_not_kept c h = ground arith

decode-kept :
    (c : ℕ) (cs : Text) → (c == b'%') ≡ false → decode_segment (c ∷ cs) ≡ c ∷ decode_segment cs
unfolding decode_segment
decode-kept c [] h = refl
decode-kept c (d ∷ []) h = refl
decode-kept c (d ∷ e ∷ cs) h = rw (h, decode_segment) refl

hex_value-upper_hex : (n : ℕ) → n < 16 → hex_value (upper_hex n) ≡ n
unfolding hex_value upper_hex
hex_value-upper_hex n h = ground arith

decode-escaped :
    (c : ℕ) (cs : Text)
    → c < 256
    → decode_segment (b'%' ∷ upper_hex (c / 16) ∷ upper_hex (c % 16) ∷ cs) ≡ c ∷ decode_segment cs
unfolding decode_segment
decode-escaped c cs h =
    ap (λ (v : ℕ). v ∷ decode_segment cs)
      (omega (arith, hex_value-upper_hex (c / 16), hex_value-upper_hex (c % 16)))

-- A text of bytes that is percent-encoded as a segment of a url's path is read back as it was.
pub decode-path_segment : (s : Text) → All (λ c. c < 256) s → decode_segment (path_segment s) ≡ s
unfolding path_segment encode_byte
decode-path_segment [] h = unfold decode_segment in refl
decode-path_segment (c ∷ cs) h = elim (Bool-cases (is_kept c)) [
  | inl k ↦ rw k (
      decode-kept c (path_segment cs) (percent_not_kept c k)
      ∙ ap (◌∷◌ c) (decode-path_segment cs h.1))
  | inr k ↦ rw k (decode-escaped c (path_segment cs) h.0 ∙ ap (◌∷◌ c) (decode-path_segment cs h.1))
]
