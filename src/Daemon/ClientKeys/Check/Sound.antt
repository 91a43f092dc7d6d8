-- ===== src/Daemon/ClientKeys/Check/Sound.antt =====
-- What makes a key's record withdrawn.
use noports.Prelude.{
  ℕ, ◌*◌, ◌/◌, ◌≤◌, ◌<◌, ◌≡◌, inl, inr, refl, subst, Bool, true, false, Option, none, some, arith,
  ltb, ◌==◌, if◌then◌else◌, Text, codes, Bool-cases,
}
use noports.Daemon.ClientKeys.{KeyCheck, unknown}
use noports.Daemon.ClientKeys.Check.{
  budget_ms, budget_left, Server, CheckWorld, Location, at_revoked, at_deleted, withdrawn_uri,
  is_found, is_not_served, locate, locate_parts, withdrawn_to, check_of, settle_missing, conclude,
  first_lookup, second_lookup, look_up_key, check_key, is_apsk_uri,
}
use noports.Daemon.Enrollment.Advert.{Lookup, found, not_found, not_served, failed}
use noports.Daemon.Enrollment.Uri.{from_last_at}
use noports.Daemon.Notify.{split_at_sub}

-- An answer of the atServer that is kept for a key: it does not hold the key's record, and it holds
-- the record's withdrawn copy, under the location that the result stands for.
pub record Withdrawn (w : CheckWorld) (uri : Text) (kept : Option Server) (l : Location)
    : Type 0 where
  pub server : Server
  pub parts : Text × Text
  pub live_ms : ℕ
  pub each_ms : ℕ
  pub kept_is : kept ≡ some server
  pub parts_are : split_at_sub (codes ".a.__e@") uri ≡ some parts
  pub live_gone : w.lookup server uri live_ms ≡ not_found
  pub copy_found : is_found (w.lookup server (withdrawn_uri parts l) each_ms) ≡ true
  pub live_bound : live_ms ≤ budget_ms
  pub each_bound : 2 * each_ms ≤ budget_ms
  pub each_pos : 0 < each_ms

budget_left-le : (n : ℕ) → budget_left n ≤ budget_ms
unfolding budget_left
budget_left-le n = ground arith

-- A lookup that says that the live record is gone.
abbrev Gone : CheckWorld → Text → Option Server × Lookup → Type 0
Gone w uri q =
    (t : Server) × (ms : ℕ) × (q.0 ≡ some t) × (w.lookup t uri ms ≡ not_found) × (ms ≤ budget_ms)

second_lookup-Gone :
    (w : CheckWorld) (uri : Text) (s o : Option Server)
    → (second_lookup w uri s o).1 ≡ not_found
    → Gone w uri (second_lookup w uri s o)
unfolding second_lookup
second_lookup-Gone w uri s none h = absurd cc
second_lookup-Gone w uri s (some t) h = elim (Bool-cases (ltb 0 (budget_left (w.spent 1)))) [
  | inl e ↦
      (t, budget_left (w.spent 2), ground (arith, e), ground (arith, e), budget_left-le (w.spent 2))
  | inr e ↦ absurd (ground (arith, e))
]

first_lookup-Gone :
    (w : CheckWorld) (uri : Text) (s : Option Server)
    → first_lookup w uri s ≡ not_found
    → Gone w uri (s, first_lookup w uri s)
unfolding first_lookup
first_lookup-Gone w uri none h = absurd cc
first_lookup-Gone w uri (some t) h =
    (t, budget_left (w.spent 0), refl, h, budget_left-le (w.spent 0))

if-Gone :
    (w : CheckWorld) (uri : Text) (b : Bool) (x y : Option Server × Lookup)
    → (x.1 ≡ not_found → Gone w uri x)
    → (y.1 ≡ not_found → Gone w uri y)
    → (if b then x else y).1 ≡ not_found
    → Gone w uri (if b then x else y)
if-Gone w uri true x y f g h = f h
if-Gone w uri false x y f g h = g h

look_up_key-Gone :
    (w : CheckWorld) (uri : Text) (s : Option Server)
    → (look_up_key w uri s).1 ≡ not_found
    → Gone w uri (look_up_key w uri s)
unfolding look_up_key
look_up_key-Gone w uri s =
    if-Gone w uri (is_not_served (first_lookup w uri s))
      (second_lookup w uri s (w.find_at_server (from_last_at uri))) (s, first_lookup w uri s)
      (second_lookup-Gone w uri s (w.find_at_server (from_last_at uri))) (first_lookup-Gone w uri s)

conclude-parts :
    (w : CheckWorld) (uri : Text) (q : Option Server × Lookup) (l : Location)
    → conclude w uri q ≡ check_of (some (some l))
    → (q.1 ≡ not_found) × (settle_missing w q.0 uri ≡ check_of (some (some l)))
unfolding conclude check_of
conclude-parts w uri (s, found v) at_revoked h = absurd cc
conclude-parts w uri (s, found v) at_deleted h = absurd cc
conclude-parts w uri (s, not_found) l h = (refl, h)
conclude-parts w uri (s, not_served) at_revoked h = absurd cc
conclude-parts w uri (s, not_served) at_deleted h = absurd cc
conclude-parts w uri (s, failed) at_revoked h = absurd cc
conclude-parts w uri (s, failed) at_deleted h = absurd cc

check_of-inj :
    (o : Option (Option Location)) (l : Location)
    → check_of o ≡ check_of (some (some l))
    → o ≡ some (some l)
unfolding check_of
check_of-inj none at_revoked h = absurd cc
check_of-inj none at_deleted h = absurd cc
check_of-inj (some none) at_revoked h = absurd cc
check_of-inj (some none) at_deleted h = absurd cc
check_of-inj (some (some at_revoked)) at_revoked h = refl
check_of-inj (some (some at_revoked)) at_deleted h = absurd cc
check_of-inj (some (some at_deleted)) at_revoked h = absurd cc
check_of-inj (some (some at_deleted)) at_deleted h = refl

locate-found :
    (w : CheckWorld) (s : Server) (each : ℕ) (parts : Text × Text) (l : Location)
    → locate w s each parts ≡ some (some l)
    → is_found (w.lookup s (withdrawn_uri parts l) each) ≡ true
unfolding locate
locate-found w s each parts at_revoked h = ground arith
locate-found w s each parts at_deleted h = ground arith

locate_parts-found :
    (w : CheckWorld) (s : Server) (uri : Text) (each : ℕ) (o : Option (Text × Text)) (l : Location)
    → locate_parts w s uri each o ≡ some (some l)
    → (parts : Text × Text) × (o ≡ some parts)
      × (is_found (w.lookup s (withdrawn_uri parts l) each) ≡ true)
unfolding locate_parts
locate_parts-found w s uri each none l h = absurd cc
locate_parts-found w s uri each (some parts) l h = (parts, refl, locate-found w s each parts l h)

withdrawn_to-found :
    (w : CheckWorld) (s : Server) (uri : Text) (each : ℕ) (l : Location)
    → withdrawn_to w s uri each ≡ some (some l)
    → locate_parts w s uri each (split_at_sub (codes ".a.__e@") uri) ≡ some (some l)
unfolding withdrawn_to
withdrawn_to-found w s uri each l h =
    elim (Bool-cases (is_apsk_uri uri (split_at_sub (codes ".a.__e@") uri))) [
      | inl e ↦ ground (arith, e)
      | inr e ↦ absurd (ground (arith, e))
    ]

unknown-ne : (l : Location) → unknown ≡ check_of (some (some l)) → ⊥
unfolding check_of
unknown-ne at_revoked h = cc
unknown-ne at_deleted h = cc

if-unknown :
    (b : Bool) (x : KeyCheck) (l : Location)
    → (if b then unknown else x) ≡ check_of (some (some l))
    → (b ≡ false) × (x ≡ check_of (some (some l)))
if-unknown true x l h = absurd (unknown-ne l h)
if-unknown false x l h = (refl, h)

pos_of_ne : (n : ℕ) → (n == 0) ≡ false → 0 < n
pos_of_ne n h = ground arith

settle_missing-parts :
    (w : CheckWorld) (t : Server) (uri : Text) (l : Location)
    → settle_missing w (some t) uri ≡ check_of (some (some l))
    → (0 < budget_left (w.spent 3) / 2)
      × (withdrawn_to w t uri (budget_left (w.spent 3) / 2) ≡ some (some l))
unfolding settle_missing
settle_missing-parts w t uri l h =
    let (z, e) = if-unknown (budget_left (w.spent 3) / 2 == 0) _ l h in
    (
      pos_of_ne (budget_left (w.spent 3) / 2) z,
      check_of-inj (withdrawn_to w t uri (budget_left (w.spent 3) / 2)) l e,
    )

settle-on :
    (w : CheckWorld) (uri : Text) (l : Location) (s : Option Server) (t : Server)
    → s ≡ some t
    → settle_missing w s uri ≡ check_of (some (some l))
    → settle_missing w (some t) uri ≡ check_of (some (some l))
settle-on w uri l s t e h =
    subst (λ (o : Option Server). settle_missing w o uri ≡ check_of (some (some l))) e h

-- A key counts as revoked, or as deleted, only if one atServer, the one that is kept for it, answers
-- that it does not hold the key's record and holds the record's copy under that location; the lookup
-- has at most five seconds, and the two lookups of copies no more than that together.
pub check_key-Withdrawn :
    (w : CheckWorld) (uri : Text) (s : Option Server) (l : Location)
    → (check_key w uri s).1 ≡ check_of (some (some l))
    → Withdrawn w uri (check_key w uri s).0 l
unfolding check_key
check_key-Withdrawn w uri s l h =
    let (n, m) = conclude-parts w uri (look_up_key w uri s) l h in
    let (t, ms, e, g, b) = look_up_key-Gone w uri s n in
    let (pos, r) =
      settle_missing-parts w t uri l (settle-on w uri l (look_up_key w uri s).0 t e m) in
    let (parts, q, f) =
      locate_parts-found w t uri (budget_left (w.spent 3) / 2) (split_at_sub (codes ".a.__e@") uri)
        l (withdrawn_to-found w t uri (budget_left (w.spent 3) / 2) l r) in
    record {
      server = t;
      parts = parts;
      live_ms = ms;
      each_ms = budget_left (w.spent 3) / 2;
      kept_is = e;
      parts_are = q;
      live_gone = g;
      copy_found = f;
      live_bound = b;
      each_bound = omega (arith, budget_left-le (w.spent 3));
      each_pos = pos;
    }
