-- ===== src/Policy/Atsign/Same.antt =====
-- When two atSigns are the same, said without the canonical form.
use noports.Prelude.{
  ℕ, suc, ◌+◌, ◌≤◌, ◌≡◌, ◌≢◌, ◌⊎◌, ◌↔◌, inl, inr, refl, ap, sym, ◌∙◌, subst, true, false, ◌||◌,
  none, some, [], ◌∷◌, arith, leb, ◌==◌, if◌then◌else◌, any, All, Text, codes, length, Bool-cases,
}
use noports.Policy.Atsign.{
  is_refused, to_lower, strip_at, finish_normal, normalize_atsign, atsign_equals, buffer_len,
}
use noports.Policy.Atsign.Normal.{
  canonical_bytes, canonical, normalize_text-canonical, canonical-some, finish_normal-some,
  atsign_equals_iff,
}

-- A byte that may stand in an atSign behind the '@': no control byte, no space, no DEL, and none of
-- the reserved characters.
abbrev pub IsNameByte : ℕ → Type 0
IsNameByte c = (33 ≤ c) × (c ≢ 127) × All (λ r. c ≢ r) (codes "@!*'`();:&=+$,/?#[]{}")

unfoldable pub without_dots : Text → Text
without_dots [] = []
without_dots (c ∷ cs) = if c == 46 then without_dots cs else c ∷ without_dots cs

-- The name of an atSign: its bytes are allowed, and there are 1 to 55 of them that are no dot.
abbrev pub IsName : Text → Type 0
IsName x = All IsNameByte x × (1 ≤ length (without_dots x)) × (length (without_dots x) ≤ 55)

-- The name stands behind an optional '@'.
abbrev pub IsNameOf : Text → Text → Type 0
IsNameOf s x = (s ≡ 64 ∷ x) ⊎ ((s ≡ x) × ((cs : Text) → s ≢ 64 ∷ cs))

-- One letter, in upper or in lower case, or the same byte.
abbrev pub IsSameLetter : ℕ → ℕ → Type 0
IsSameLetter c d =
    (c ≡ d) ⊎ (((65 ≤ c) × (c ≤ 90) × (d ≡ c + 32)) ⊎ ((65 ≤ d) × (d ≤ 90) × (c ≡ d + 32)))

abbrev pub IsSameName : Text → Text → Type 0
IsSameName [] [] = Unit
IsSameName [] (d ∷ ds) = ⊥
IsSameName (c ∷ cs) [] = ⊥
IsSameName (c ∷ cs) (d ∷ ds) = IsSameLetter c d × IsSameName cs ds

accepted-IsNameByte : (c : ℕ) → is_refused c ≡ false → IsNameByte c
unfolding is_refused
accepted-IsNameByte c h = ground arith

IsNameByte-accepted : (c : ℕ) → IsNameByte c → is_refused c ≡ false
unfolding is_refused
IsNameByte-accepted c h = ground (arith, h)

lower-IsSameLetter : (c d : ℕ) → to_lower c ≡ to_lower d → IsSameLetter c d
unfolding to_lower
lower-IsSameLetter c d h = ground (arith, h)

IsSameLetter-lower : (c d : ℕ) → IsSameLetter c d → to_lower c ≡ to_lower d
unfolding to_lower
IsSameLetter-lower c d (inl e) = ground (arith, e)
IsSameLetter-lower c d (inr (inl h)) = ground (arith, h)
IsSameLetter-lower c d (inr (inr h)) = ground (arith, h)

lowered : Text → Text
lowered [] = []
lowered (c ∷ cs) = to_lower c ∷ lowered cs

canonical_bytes-lowered : (x : Text) → canonical_bytes x ≡ lowered (without_dots x)
unfolding canonical_bytes without_dots lowered
canonical_bytes-lowered [] = refl
canonical_bytes-lowered (c ∷ cs) = elim (Bool-cases (c == 46)) [
  | inl e ↦ rw e (canonical_bytes-lowered cs)
  | inr e ↦ rw e (ap (◌∷◌ (to_lower c)) (canonical_bytes-lowered cs))
]

length-lowered : (x : Text) → length (lowered x) ≡ length x
unfolding lowered
length-lowered [] = refl
length-lowered (c ∷ cs) = ap suc (length-lowered cs)

cons_inj : (c d : ℕ) (cs ds : Text) → c ∷ cs ≡ d ∷ ds → (c ≡ d) × (cs ≡ ds)
cons_inj c d cs ds h = (cc, cc)

lowered-IsSameName : (x y : Text) → lowered x ≡ lowered y → IsSameName x y
unfolding lowered
lowered-IsSameName [] [] h = tt
lowered-IsSameName [] (d ∷ ds) h = cc
lowered-IsSameName (c ∷ cs) [] h = cc
lowered-IsSameName (c ∷ cs) (d ∷ ds) h =
    let (a, b) = cons_inj (to_lower c) (to_lower d) (lowered cs) (lowered ds) h in
    (lower-IsSameLetter c d a, lowered-IsSameName cs ds b)

IsSameName-lowered : (x y : Text) → IsSameName x y → lowered x ≡ lowered y
unfolding lowered
IsSameName-lowered [] [] h = refl
IsSameName-lowered [] (d ∷ ds) h = absurd h
IsSameName-lowered (c ∷ cs) [] h = absurd h
IsSameName-lowered (c ∷ cs) (d ∷ ds) (a, b) =
    ap (λ (z : ℕ). z ∷ lowered cs) (IsSameLetter-lower c d a)
    ∙ ap (◌∷◌ (to_lower d)) (IsSameName-lowered cs ds b)

accepted-All : (x : Text) → any is_refused x ≡ false → All IsNameByte x
accepted-All [] h = tt
accepted-All (c ∷ cs) h =
    (accepted-IsNameByte c (ground (arith, h)), accepted-All cs (ground (arith, h)))

All-accepted : (x : Text) → All IsNameByte x → any is_refused x ≡ false
All-accepted [] h = refl
All-accepted (c ∷ cs) h = rw (IsNameByte-accepted c h.0) (All-accepted cs h.1)

strip_at-IsNameOf : (s x : Text) → IsNameOf s x → strip_at s ≡ x
unfolding strip_at
strip_at-IsNameOf s x (inl e) = ap strip_at e
strip_at-IsNameOf [] x (inr (e, n)) = e
strip_at-IsNameOf (c ∷ cs) x (inr (e, n)) = elim (Bool-cases (c == 64)) [
  | inl q ↦ let d : c ≡ 64 = ground (arith, q) in absurd (n cs (ap (λ (z : ℕ). z ∷ cs) d))
  | inr q ↦ rw q e
]

length-canonical_bytes : (x : Text) → length (canonical_bytes x) ≡ length (without_dots x)
length-canonical_bytes x = ap length (canonical_bytes-lowered x) ∙ length-lowered (without_dots x)

finish-cons : (t : Text) → 1 ≤ length t → finish_normal (some t) ≡ some (64 ∷ t)
unfolding finish_normal
finish-cons [] h = absurd (omega arith)
finish-cons (c ∷ cs) h = refl

finish-length : (t u : Text) → finish_normal (some t) ≡ some u → 1 ≤ length t
unfolding finish_normal
finish-length [] u h = absurd cc
finish-length (c ∷ cs) u h = omega arith

-- The canonical form of a name, and what has one.
canonical-IsName :
    (s x t : Text)
    → strip_at s ≡ x
    → canonical s buffer_len ≡ some t
    → IsName x × (t ≡ 64 ∷ lowered (without_dots x))
canonical-IsName s x t e h =
    let (a, b, f) = canonical-some s buffer_len h in
    let a' = subst (λ (z : Text). any is_refused z ≡ false) e a in
    let b' = subst (λ (z : Text). leb buffer_len (length (canonical_bytes z) + 1) ≡ false) e b in
    let f' = subst (λ (z : Text). finish_normal (some (canonical_bytes z)) ≡ some t) e f in
    let l = length-canonical_bytes x in
    let m = finish-length (canonical_bytes x) t f' in
    (
      (accepted-All x a', omega (arith, l, m), upper_bound x b'),
      finish_normal-some (canonical_bytes x) f' ∙ ap (◌∷◌ 64) (canonical_bytes-lowered x),
    )
  where
    upper_bound :
        (x : Text)
        → leb buffer_len (length (canonical_bytes x) + 1) ≡ false
        → length (without_dots x) ≤ 55
    upper_bound x b = ground (arith, b, length-canonical_bytes x)

IsName-canonical :
    (s x : Text)
    → strip_at s ≡ x
    → IsName x
    → canonical s buffer_len ≡ some (64 ∷ lowered (without_dots x))
IsName-canonical s x e (a, m, l) =
    let k = length-canonical_bytes x in
    let p = All-accepted x a in
    let q : leb buffer_len (length (canonical_bytes x) + 1) ≡ false = ground (arith, k, l) in
    let f = finish-cons (canonical_bytes x) (omega (arith, k, m)) in
    subst
      (λ (z : Text).
        (if any is_refused z || leb buffer_len (length (canonical_bytes z) + 1)
          then none
          else finish_normal (some (canonical_bytes z)))
        ≡ some (64 ∷ lowered (without_dots x)))
      (sym e) (rw (p, q) (f ∙ ap (λ (z : Text). some (64 ∷ z)) (canonical_bytes-lowered x)))

-- Two atSigns, each a name behind an optional "@", are equal exactly if both names are valid and the
-- names without their dots are the same up to the case of the letters: valid are 1 to 55 bytes beside
-- the dots, none of them a control byte, a space or a reserved character.
pub atsign_equals-IsSameName :
    (a b x y : Text)
    → IsNameOf a x
    → IsNameOf b y
    → (atsign_equals (some a) (some b) ≡ true)
      ↔ (IsName x × IsName y × IsSameName (without_dots x) (without_dots y))
unfolding normalize_atsign
atsign_equals-IsSameName a b x y p q =
    let e = strip_at-IsNameOf a x p in
    let f = strip_at-IsNameOf b y q in
    (
      λ h.
          let (t, u, v) = (atsign_equals_iff (some a) (some b)).0 h in
          let (n, c) = canonical-IsName a x t e (sym (normalize_text-canonical a buffer_len) ∙ u) in
          let (m, d) = canonical-IsName b y t f (sym (normalize_text-canonical b buffer_len) ∙ v) in
          (
            n,
            m,
            lowered-IsSameName (without_dots x) (without_dots y)
                (cons_inj 64 64 (lowered (without_dots x)) (lowered (without_dots y))
                  (sym c ∙ d)).1,
          ),
      λ (n, m, s). (atsign_equals_iff (some a) (some b)).1 (
        64 ∷ lowered (without_dots x),
        normalize_text-canonical a buffer_len ∙ IsName-canonical a x e n,
        normalize_text-canonical b buffer_len
            ∙ IsName-canonical b y f m
            ∙ ap (λ (z : Text). some (64 ∷ z))
                (sym (IsSameName-lowered (without_dots x) (without_dots y) s)),
      ),
    )
