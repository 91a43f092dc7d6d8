-- ===== src/Policy/Atsign.antt =====
-- noports_policy_limits.c: the canonical form of an atSign, and the comparison of two atSigns.
pub mod Normal
pub mod Same
use mathlib.Core.Option
use noports.Prelude.{
  ℕ, zero, suc, ◌+◌, ◌≤◌, ◌<◌, ◌≡◌, refl, Bool, true, false, ◌&&◌, ◌||◌, Option, none, some, List,
  [], ◌∷◌, arith, ltb, leb, ◌==◌, if◌then◌else◌, any, Text, codes, str_eq, length,
}

abbrev pub max_len : ℕ
max_len = 55

-- NOPORTS_ATSIGN_BUFFER_LEN
abbrev pub buffer_len : ℕ
buffer_len = max_len + 2

abbrev reserved_characters : Text
reserved_characters = codes "!*'`();:&=+$,/?#[]{}"

-- What the loop does with one byte: `return 1`, `continue`, or write a byte.
pub data Verdict : Type 0 where
  refused skipped : Verdict
  kept : ℕ → Verdict

unfoldable pub is_refused : ℕ → Bool
is_refused c =
    c == b'@' || leb c 0x1F || c == 0x7F || c == b' ' || any (λ r. r == c) reserved_characters

unfoldable pub to_lower : ℕ → ℕ
to_lower c = if leb b'A' c && leb c b'Z' then c + 32 else c

unfoldable pub classify : ℕ → Verdict
classify c = if is_refused c then refused else if c == b'.' then skipped else kept (to_lower c)

-- The loop over the bytes behind the leading '@'. `o` bytes of `out` are written already.
unfoldable pub normalize_from : ℕ → ℕ → Text → Option Text
normalize_from out_len o [] = some []
normalize_from out_len o (c ∷ cs) = elim (classify c) [
  | refused ↦ none
  | skipped ↦ normalize_from out_len o cs
  | kept d ↦ elim (leb out_len (o + 1)) [
    | true ↦ none
    | false ↦ Option.map (◌∷◌ d) (normalize_from out_len (o + 1) cs)
  ]
]

-- `atsign[0] == '@' ? atsign + 1 : atsign`
unfoldable pub strip_at : Text → Text
strip_at [] = []
strip_at (c ∷ cs) = if c == b'@' then cs else c ∷ cs

-- The check `o == 1` at the end, and the leading '@'.
unfoldable pub finish_normal : Option Text → Option Text
finish_normal none = none
finish_normal (some []) = none
finish_normal (some (c ∷ cs)) = some (b'@' ∷ c ∷ cs)

unfoldable pub normalize_text : Text → ℕ → Option Text
normalize_text [] out_len = none
normalize_text (c ∷ cs) out_len =
    if ltb out_len 2 then none else finish_normal (normalize_from out_len 1 (strip_at (c ∷ cs)))

-- noports_normalize_atsign: `none` is the non-zero return, and a missing argument is NULL.
unfoldable pub normalize_atsign : Option Text → ℕ → Option Text
normalize_atsign none out_len = none
normalize_atsign (some s) out_len = normalize_text s out_len

both_equal : Option Text → Option Text → Bool
both_equal none nb = false
both_equal (some a) none = false
both_equal (some a) (some b) = str_eq a b

unfoldable pub atsign_equals : Option Text → Option Text → Bool
unfolding both_equal
atsign_equals a b = both_equal (normalize_atsign a buffer_len) (normalize_atsign b buffer_len)
