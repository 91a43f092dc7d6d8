-- ===== src/Policy/Atsign/Normal.antt =====
-- What the canonical form of an atSign is, and that comparing atSigns compares canonical forms.
use noports.Prelude.{
  ℕ, zero, suc, ◌+◌, ◌-◌, ◌≤◌, ◌<◌, ◌≡◌, refl, ap, sym, ◌∙◌, subst, Bool, true, false, ◌↔◌, Option,
  none, some, [], ◌∷◌, arith, leb, ◌==◌, if◌then◌else◌, any, ◌||◌, Text, str_eq_refl, eq_of_str_eq,
  length,
}
use noports.Policy.Atsign.{
  kept, is_refused, to_lower, classify, normalize_from, strip_at, finish_normal, normalize_text,
  normalize_atsign, both_equal, atsign_equals, buffer_len,
}

-- A byte that normalization leaves as it is.
abbrev pub IsCanonicalByte : ℕ → Type 0
IsCanonicalByte d = classify d ≡ kept d

-- A run of letters that are all accepted, from the byte `c` on.
abbrev letters_accepted : ℕ → ℕ → Bool
letters_accepted c zero = true
letters_accepted c (suc count) = if is_refused c then false else letters_accepted (c + 1) count

letters_accepted-get :
    (count c k : ℕ) → letters_accepted c count ≡ true → k < count → is_refused (c + k) ≡ false
letters_accepted-get zero c k h l = absurd (omega arith)
letters_accepted-get (suc count) c zero h l =
    let e : c ≡ c + 0 = omega arith in subst (λ b. is_refused b ≡ false) e (ground arith)
letters_accepted-get (suc count) c (suc k) h l =
    let e : c + 1 + k ≡ c + suc k = omega arith in
    subst (λ b. is_refused b ≡ false) e
      (letters_accepted-get count (c + 1) k (ground arith) (omega arith))

letter_table : letters_accepted 97 26 ≡ true
unfolding is_refused
letter_table = refl

letter_accepted : (k : ℕ) → k < 26 → is_refused (97 + k) ≡ false
letter_accepted k h = letters_accepted-get 26 97 k letter_table h

lowered_accepted : (c : ℕ) → 65 ≤ c → c ≤ 90 → is_refused (c + 32) ≡ false
lowered_accepted c l h =
    let e : 97 + (c - 65) ≡ c + 32 = omega arith in
    subst (λ d. is_refused d ≡ false) e (letter_accepted (c - 65) (omega arith))

pub classify-IsCanonicalByte : (c : ℕ) {d : ℕ} → classify c ≡ kept d → IsCanonicalByte d
unfolding classify to_lower
classify-IsCanonicalByte c h = ground (arith, lowered_accepted c)

-- The bytes of an atSign that name it: no dots, lower case.
unfoldable pub canonical_bytes : Text → Text
canonical_bytes [] = []
canonical_bytes (c ∷ cs) = if c == b'.' then canonical_bytes cs else to_lower c ∷ canonical_bytes cs

dot_accepted : is_refused b'.' ≡ false
unfolding is_refused
dot_accepted = refl

-- The loop is the reference: it fails on a refused byte or on a full buffer, and nowhere else.
normalize_from_lem :
    (n o : ℕ) (s : Text)
    → o < n
    → normalize_from n o s ≡ (
        if any is_refused s || leb n (o + length (canonical_bytes s))
        then none
        else some (canonical_bytes s))
unfolding normalize_from canonical_bytes classify
normalize_from_lem n o [] h = ground arith
normalize_from_lem n o (c ∷ cs) h =
    ground (arith, dot_accepted, normalize_from_lem n o cs h, normalize_from_lem n (o + 1) cs)

-- What an atSign normalizes to, said without the loop.
abbrev pub canonical : Text → ℕ → Option Text
canonical s n =
    if any is_refused (strip_at s) || leb n (length (canonical_bytes (strip_at s)) + 1)
    then none
    else finish_normal (some (canonical_bytes (strip_at s)))

-- An atSign normalizes exactly when, behind an optional leading '@', it holds no refused byte, and
-- the bytes that are no dot are at least one and fit the buffer with the '@' and the zero; the
-- result is then '@' and those bytes in lower case.
pub normalize_text-canonical : (s : Text) (n : ℕ) → normalize_text s n ≡ canonical s n
unfolding normalize_text finish_normal strip_at canonical_bytes
normalize_text-canonical [] n = ground arith
normalize_text-canonical (c ∷ cs) n =
    ground (arith, normalize_from_lem n 1 cs, normalize_from_lem n 1 (c ∷ cs))

lower_accepted : (c : ℕ) → is_refused c ≡ false → is_refused (to_lower c) ≡ false
unfolding to_lower
lower_accepted c h = ground (arith, lowered_accepted c)

lower_idem : (c : ℕ) → to_lower (to_lower c) ≡ to_lower c
unfolding to_lower
lower_idem c = ground arith

lower-ne-dot : (c : ℕ) → (c == b'.') ≡ false → (to_lower c == b'.') ≡ false
unfolding to_lower
lower-ne-dot c h = ground arith

canonical_bytes_idem : (s : Text) → canonical_bytes (canonical_bytes s) ≡ canonical_bytes s
unfolding canonical_bytes
canonical_bytes_idem [] = refl
canonical_bytes_idem (c ∷ cs) =
    ground (arith, lower_idem c, lower-ne-dot c, canonical_bytes_idem cs)

canonical_bytes_accepted :
    (s : Text) → any is_refused s ≡ false → any is_refused (canonical_bytes s) ≡ false
unfolding canonical_bytes
canonical_bytes_accepted [] h = refl
canonical_bytes_accepted (c ∷ cs) h = ground (arith, lower_accepted c, canonical_bytes_accepted cs)

pub finish_normal-some : (s : Text) {t : Text} → finish_normal (some s) ≡ some t → t ≡ b'@' ∷ s
unfolding finish_normal
finish_normal-some [] h = cc
finish_normal-some (c ∷ cs) h = ground arith

pub canonical-some :
    (s : Text) (n : ℕ) {t : Text}
    → canonical s n ≡ some t
    → (any is_refused (strip_at s) ≡ false)
      × (leb n (length (canonical_bytes (strip_at s)) + 1) ≡ false)
      × (finish_normal (some (canonical_bytes (strip_at s))) ≡ some t)
canonical-some s n h = ground arith

canonical_again :
    (s : Text) (n : ℕ) {t : Text}
    → any is_refused s ≡ false
    → leb n (length (canonical_bytes s) + 1) ≡ false
    → finish_normal (some (canonical_bytes s)) ≡ some t
    → canonical (b'@' ∷ canonical_bytes s) n ≡ some t
unfolding strip_at
canonical_again s n a b h = ground (arith, canonical_bytes_accepted s, canonical_bytes_idem s)

-- The canonical form of an atSign that has one is its own canonical form.
pub normalize_text_idem :
    (s : Text) (n : ℕ) {t : Text} → normalize_text s n ≡ some t → normalize_text t n ≡ some t
normalize_text_idem s n {t} h =
    let (a, b, f) = canonical-some s n (sym (normalize_text-canonical s n) ∙ h) in
    let e : t ≡ b'@' ∷ canonical_bytes (strip_at s) = finish_normal-some _ f in
    normalize_text-canonical t n
    ∙ subst (λ u. canonical u n ≡ some t) (sym e) (canonical_again (strip_at s) n a b f)

both_equal_iff :
    (na nb : Option Text) → (both_equal na nb ≡ true) ↔ ((t : Text) × (na ≡ some t) × (nb ≡ some t))
unfolding both_equal
both_equal_iff none nb = (λ h. cc, λ (t, p, q). cc)
both_equal_iff (some a) none = (λ h. cc, λ (t, p, q). cc)
both_equal_iff (some a) (some b) =
    (λ h. (a, refl, ap some (sym (eq_of_str_eq a b h))), λ (t, p, q). ground (arith, str_eq_refl t))

-- Two atSigns are the same exactly when both normalize, and to one text.
pub atsign_equals_iff :
    (a b : Option Text)
    → (atsign_equals a b ≡ true) ↔ (
        (t : Text) × (normalize_atsign a buffer_len ≡ some t)
        × (normalize_atsign b buffer_len ≡ some t))
unfolding atsign_equals
atsign_equals_iff a b =
    both_equal_iff (normalize_atsign a buffer_len) (normalize_atsign b buffer_len)
