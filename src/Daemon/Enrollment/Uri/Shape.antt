-- ===== src/Daemon/Enrollment/Uri/Shape.antt =====
-- The shape of a signing key uri: what it is made of, and that the atSign read from it is its owner.
use noports.Prelude.{
  ℕ, ◌≡◌, ◌≢◌, ◌↔◌, ◌⊎◌, inl, inr, refl, ap, ◌∙◌, true, false, Option, none, some, [], ◌∷◌, ◌++◌,
  arith, Text, codes, any, All, Bool-cases,
}
use mathlib.Core.List.{append_assoc}
use noports.Daemon.Enrollment.Uri.{
  strip_prefix, or_whole, public_prefix, apsk_prefix, approved_infix, unprefixed, is_id_char,
  push_front, span_id, is_separator, owner_ok, owner_of, owner_part, id_part, is_signing_key_uri,
  last_at, from_last_at,
}

pub strip_prefix-append : (p r : Text) → strip_prefix p (p ++ r) ≡ some r
unfolding strip_prefix
strip_prefix-append [] r = refl
strip_prefix-append (c ∷ cs) r = ground (arith, strip_prefix-append cs r)

pub eq-of-strip_prefix : (p s r : Text) → strip_prefix p s ≡ some r → s ≡ p ++ r
unfolding strip_prefix
eq-of-strip_prefix [] s r h = cc
eq-of-strip_prefix (c ∷ cs) [] r h = cc
eq-of-strip_prefix (c ∷ cs) (d ∷ ds) r h = ground (arith, eq-of-strip_prefix cs ds r)

abbrev pub IsId : ℕ → Type 0
IsId c = is_id_char c ≡ true

-- The text behind the longest front of id characters starts with no such character.
push_front-parts :
    (c : ℕ) (s : Text) (q : Text × Text)
    → s ≡ q.0 ++ q.1
    → All IsId q.0
    → IsId c
    → (c ∷ s ≡ (push_front c q).0 ++ (push_front c q).1) × All IsId (push_front c q).0
unfolding push_front
push_front-parts c s (a, b) e h i = (ap (◌∷◌ c) e, (i, h))

span_id-parts : (s : Text) → (s ≡ (span_id s).0 ++ (span_id s).1) × All IsId (span_id s).0
unfolding span_id
span_id-parts [] = (refl, tt)
span_id-parts (c ∷ cs) = elim (Bool-cases (is_id_char c)) [
  | inl i ↦ let (e, h) = span_id-parts cs in rw i (push_front-parts c cs (span_id cs) e h i)
  | inr i ↦ rw i (refl, tt)
]

span_id-append : (id r : Text) → All IsId id → span_id (id ++ (b'.' ∷ r)) ≡ (id, b'.' ∷ r)
unfolding span_id push_front is_id_char
span_id-append [] r h = refl
span_id-append (c ∷ cs) r h = rw (h.0, span_id-append cs r h.1) refl

abbrev pub IsOwner : ℕ → Type 0
IsOwner c = is_separator c ≡ false

any-false : (o : Text) → any is_separator o ≡ false → All IsOwner o
any-false [] h = tt
any-false (c ∷ cs) h = ground (arith, any-false cs)

any-All : (o : Text) → All IsOwner o → any is_separator o ≡ false
any-All [] h = refl
any-All (c ∷ cs) h = ground (arith, any-All cs)

from_last_at-owner : (o : Text) → All IsOwner o → from_last_at o ≡ none
unfolding from_last_at last_at is_separator
from_last_at-owner [] h = refl
from_last_at-owner (c ∷ cs) h = ground (arith, from_last_at-owner cs)

from_last_at-append :
    (s o : Text) → All IsOwner o → from_last_at (s ++ (b'@' ∷ o)) ≡ some (b'@' ∷ o)
unfolding from_last_at last_at
from_last_at-append [] o h = rw (from_last_at-owner o h) refl
from_last_at-append (c ∷ cs) o h = rw (from_last_at-append cs o h) refl

abbrev pub body_of : Text → Text → Text
body_of id owner = apsk_prefix ++ (id ++ (approved_infix ++ owner))

-- A uri that is made of an enrollment's id and an owner, with or without "public:" in front.
pub record IsSigningKey (uri id owner : Text) : Type 0 where
  pub shape : unprefixed uri ≡ body_of id owner
  pub id_some : id ≢ []
  pub id_chars : All IsId id
  pub owner_some : owner ≢ []
  pub owner_chars : All IsOwner owner

owner_ok-parts : (o : Text) → owner_ok o ≡ true → (o ≢ []) × All IsOwner o
unfolding owner_ok
owner_ok-parts [] h = absurd cc
owner_ok-parts (c ∷ cs) h = (λ (e : c ∷ cs ≡ []). cc, any-false (c ∷ cs) (ground arith))

owner_ok-true : (o : Text) → o ≢ [] → All IsOwner o → owner_ok o ≡ true
unfolding owner_ok
owner_ok-true [] n h = absurd (n refl)
owner_ok-true (c ∷ cs) n h = rw (any-All (c ∷ cs) h) refl

owner_of-parts :
    (r : Text) (o : Option Text)
    → strip_prefix approved_infix r ≡ o
    → owner_of o ≡ true
    → (owner : Text) × (r ≡ approved_infix ++ owner) × (owner ≢ []) × All IsOwner owner
unfolding owner_of
owner_of-parts r none e h = absurd cc
owner_of-parts r (some o) e h =
    let (n, a) = owner_ok-parts o h in (o, eq-of-strip_prefix approved_infix r o e, n, a)

owner_part-parts :
    (q : Text × Text)
    → owner_part q ≡ true
    → (q.0 ≢ [])
      × ((owner : Text) × (q.1 ≡ approved_infix ++ owner) × (owner ≢ []) × All IsOwner owner)
unfolding owner_part
owner_part-parts ([], r) h = absurd cc
owner_part-parts (c ∷ cs, r) h =
    (λ (e : c ∷ cs ≡ []). cc, owner_of-parts r (strip_prefix approved_infix r) refl h)

id_part-parts :
    (s : Text) (o : Option Text)
    → strip_prefix apsk_prefix s ≡ o
    → id_part o ≡ true
    → (id owner : Text) × (s ≡ body_of id owner)
      × (id ≢ [])
      × All IsId id
      × (owner ≢ [])
      × All IsOwner owner
unfolding id_part
id_part-parts s none e h = absurd cc
id_part-parts s (some p) e h =
    let (n, (owner, f, m, b)) = owner_part-parts (span_id p) h in
    let (g, a) = span_id-parts p in
    (
      (span_id p).0,
      owner,
      eq-of-strip_prefix apsk_prefix s p e
          ∙ ap (λ (t : Text). apsk_prefix ++ t) (g ∙ ap (λ (t : Text). (span_id p).0 ++ t) f),
      n,
      a,
      m,
      b,
    )

owner_part-body :
    (id owner : Text)
    → id ≢ []
    → owner ≢ []
    → All IsOwner owner
    → owner_part (id, approved_infix ++ owner) ≡ true
unfolding owner_part owner_of
owner_part-body [] owner n m b = absurd (n refl)
owner_part-body (c ∷ cs) owner n m b =
    ap owner_of (strip_prefix-append approved_infix owner) ∙ owner_ok-true owner m b

-- A signing key uri is accepted exactly if, without "public:" in front, it is "_apsk.", an
-- enrollment id of id characters, ".a.__e@" and an owner with no separator, neither of them empty.
pub is_signing_key_uri_iff :
    (uri : Text) → (is_signing_key_uri uri ≡ true) ↔ ((id owner : Text) × IsSigningKey uri id owner)
unfolding is_signing_key_uri id_part
is_signing_key_uri_iff uri = (
  λ h.
      let (id, owner, e, n, a, m, b) =
        id_part-parts (unprefixed uri) (strip_prefix apsk_prefix (unprefixed uri)) refl h in
      (id, owner, record { shape = e; id_some = n; id_chars = a; owner_some = m; owner_chars = b }),
  λ (id, owner, k).
      ap (λ (t : Text). id_part (strip_prefix apsk_prefix t)) k.shape
      ∙ ap id_part (strip_prefix-append apsk_prefix (id ++ (approved_infix ++ owner)))
      ∙ ap owner_part (span_id-append id (codes "a.__e@" ++ owner) k.id_chars)
      ∙ owner_part-body id owner k.id_some k.owner_some k.owner_chars,
)

or_whole-at :
    (uri body : Text) (o : Option Text)
    → strip_prefix public_prefix uri ≡ o
    → or_whole uri o ≡ body
    → (uri ≡ body) ⊎ (uri ≡ public_prefix ++ body)
unfolding or_whole
or_whole-at uri body none e h = inl h
or_whole-at uri body (some r) e h =
    inr (eq-of-strip_prefix public_prefix uri r e ∙ ap (λ (t : Text). public_prefix ++ t) h)

-- The atSign that is read from an accepted uri is the owner.
pub from_last_at-owner_of :
    (uri id owner : Text) → IsSigningKey uri id owner → from_last_at uri ≡ some (b'@' ∷ owner)
unfolding unprefixed
from_last_at-owner_of uri id owner k =
    let regroup : body_of id owner ≡ (apsk_prefix ++ (id ++ codes ".a.__e")) ++ (b'@' ∷ owner) =
      simp (append_assoc) in
    elim (or_whole-at uri (body_of id owner) (strip_prefix public_prefix uri) refl k.shape) [
      | inl e ↦
          rw (e, regroup)
            (from_last_at-append (apsk_prefix ++ (id ++ codes ".a.__e")) owner k.owner_chars)
      | inr e ↦
          rw (e, regroup)
            (from_last_at-append (public_prefix ++ (apsk_prefix ++ (id ++ codes ".a.__e"))) owner
              k.owner_chars)
    ]
