-- ===== src/Daemon/Enrollment/Uri.antt =====
-- noports_enrollment_signature.c: is_signing_key_uri, and the texts that are made from a uri.
pub mod Shape
use noports.Prelude.{
  ℕ, ◌+◌, Bool, true, false, ◌&&◌, ◌||◌, not, Option, none, some, List, [], ◌∷◌, ◌++◌, map, leb,
  ◌==◌, if◌then◌else◌, Text, codes, any,
}

-- `strncmp(s, prefix, strlen(prefix)) == 0`, with what follows the prefix.
unfoldable pub strip_prefix : Text → Text → Option Text
strip_prefix [] s = some s
strip_prefix (p ∷ ps) [] = none
strip_prefix (p ∷ ps) (c ∷ cs) = if p == c then strip_prefix ps cs else none

unfoldable pub or_whole : Text → Option Text → Text
or_whole s none = s
or_whole s (some r) = r

abbrev pub public_prefix : Text
public_prefix = codes "public:"

abbrev pub apsk_prefix : Text
apsk_prefix = codes "_apsk."

-- The end of the enrollment's namespace, with the atSign's first byte.
abbrev pub approved_infix : Text
approved_infix = codes ".a.__e@"

unfoldable pub unprefixed : Text → Text
unfolding or_whole strip_prefix
unprefixed uri = or_whole uri (strip_prefix public_prefix uri)

-- id_chars
unfoldable pub is_id_char : ℕ → Bool
is_id_char c =
    (leb b'A' c && leb c b'Z')
    || (leb b'a' c && leb c b'z')
    || (leb b'0' c && leb c b'9')
    || (c == b'_' || c == b'-')

-- `strspn(p, id_chars)`, as the two parts of the text.
unfoldable pub push_front : ℕ → Text × Text → Text × Text
push_front c (a, b) = (c ∷ a, b)

unfoldable pub span_id : Text → Text × Text
unfolding is_id_char push_front
span_id [] = ([], [])
span_id (c ∷ cs) = if is_id_char c then push_front c (span_id cs) else ([], c ∷ cs)

-- The bytes of `strpbrk(p, "@: \t\r\n\f\v")`.
unfoldable pub is_separator : ℕ → Bool
is_separator c = c == b'@' || c == b':' || c == b' ' || (leb 9 c && leb c 13)

unfoldable pub owner_ok : Text → Bool
unfolding is_separator
owner_ok [] = false
owner_ok (c ∷ cs) = not (any is_separator (c ∷ cs))

unfoldable pub owner_of : Option Text → Bool
unfolding owner_ok
owner_of none = false
owner_of (some o) = owner_ok o

unfoldable pub owner_part : Text × Text → Bool
unfolding owner_of strip_prefix
owner_part ([], r) = false
owner_part (c ∷ cs, r) = owner_of (strip_prefix approved_infix r)

unfoldable pub id_part : Option Text → Bool
unfolding owner_part span_id
id_part none = false
id_part (some p) = owner_part (span_id p)

-- is_signing_key_uri
unfoldable pub is_signing_key_uri : Text → Bool
unfolding id_part unprefixed
is_signing_key_uri uri = id_part (strip_prefix apsk_prefix (unprefixed uri))

-- `strrchr(uri, '@')`
unfoldable pub last_at : ℕ → Text → Option Text → Option Text
last_at c cs (some t) = some t
last_at c cs none = if c == b'@' then some (c ∷ cs) else none

unfoldable pub from_last_at : Text → Option Text
unfolding last_at
from_last_at [] = none
from_last_at (c ∷ cs) = last_at c cs (from_last_at cs)

-- lower_ascii
unfoldable pub lower_byte : ℕ → ℕ
lower_byte c = if leb b'A' c && leb c b'Z' then c + 32 else c

unfoldable pub lower_ascii : Text → Text
unfolding lower_byte
lower_ascii s = map lower_byte s

-- The uri that is looked up.
unfoldable pub canonical_uri : Text → Text
unfolding lower_ascii unprefixed
canonical_uri uri = lower_ascii (public_prefix ++ unprefixed uri)
