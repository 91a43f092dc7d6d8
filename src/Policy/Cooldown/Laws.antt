-- ===== src/Policy/Cooldown/Laws.antt =====
-- A sender's checks of one kind stand two seconds apart, and nothing else holds a sender back.
use noports.Prelude.{
  ℕ, zero, suc, ◌+◌, ◌-◌, ◌<◌, ◌≡◌, inl, inr, refl, sym, ◌∙◌, true, Option, ◌≢◌, none, some, List,
  [], ◌∷◌, arith, leb, if◌then◌else◌, Text, str_eq_refl, length, find_index, update_at,
  find_index-zero, find_index-lt, find_index-suc, Bool-cases, not,
}
use noports.Policy.Atsign.{normalize_text, buffer_len}
use noports.Policy.Cooldown.{
  CheckKind, ping, npt, Slot, cooldown_ms, at_kind, record_check, is_recent, holds, recent_at,
  allows_slot, allows_normal, cooldown_allows, free_slot, least_active, least_active_slot,
  new_sender, last_active_ms, before,
}

-- When a sender of the table was last let through for a kind of request.
pub last_check : CheckKind → Text → List Slot → Option ℕ
last_check kind name [] = none
last_check kind name (s ∷ ss) = if holds name s then at_kind kind s else last_check kind name ss

recent_at-last_check :
    (kind : CheckKind) (name : Text) (now i : ℕ) (ss : List Slot)
    → find_index (holds name) ss ≡ some i
    → recent_at kind now i ss ≡ is_recent (last_check kind name ss) now
unfolding recent_at last_check
recent_at-last_check kind name now i [] h = unfold find_index in cc
recent_at-last_check kind name now zero (s ∷ ss) h = rw (find_index-zero (holds name) s ss h)
recent_at-last_check kind name now (suc i) (s ∷ ss) h =
    let (n, q) = find_index-suc (holds name) s ss i h in
    rw n (recent_at-last_check kind name now i ss q)

absent-last_check :
    (kind : CheckKind) (name : Text) (ss : List Slot)
    → find_index (holds name) ss ≡ none
    → last_check kind name ss ≡ none
unfolding last_check find_index
absent-last_check kind name [] h = refl
absent-last_check kind name (s ∷ ss) h = ground (arith, absent-last_check kind name ss)

allows_slot-is_recent :
    (kind : CheckKind) (now : ℕ) (name : Text) (o : Option ℕ) (ss : List Slot)
    → find_index (holds name) ss ≡ o
    → (allows_slot kind now name o ss).1 ≡ not (is_recent (last_check kind name ss) now)
unfolding allows_slot
allows_slot-is_recent kind now name none ss h = rw (absent-last_check kind name ss h)
allows_slot-is_recent kind now name (some i) ss h =
    rw (← recent_at-last_check kind name now i ss h) (ground arith)

-- A request passes exactly when its sender was not let through for that kind in the last two
-- seconds, as far as the table still knows.
pub allows-is_recent :
    (ss : List Slot) (atsign name : Text) (kind : CheckKind) (now : ℕ)
    → normalize_text atsign buffer_len ≡ some name
    → (cooldown_allows ss atsign kind now).1 ≡ not (is_recent (last_check kind name ss) now)
unfolding cooldown_allows allows_normal
allows-is_recent ss atsign name kind now n =
    rw n (allows_slot-is_recent kind now name (find_index (holds name) ss) ss refl)

-- A slot written for a name is where that name's next check looks.
last_check-update_at :
    (kind : CheckKind) (name : Text) (f : Slot → Slot) (i : ℕ) (ss : List Slot)
    → find_index (holds name) ss ≡ some i
    → ((s : Slot) → holds name s ≡ true → holds name (f s) ≡ true)
    → (t : ℕ) → ((s : Slot) → at_kind kind (f s) ≡ some t)
    → last_check kind name (update_at f i ss) ≡ some t
unfolding last_check update_at
last_check-update_at kind name f i [] h k t g = unfold find_index in cc
last_check-update_at kind name f zero (s ∷ ss) h k t g =
    rw (k s (find_index-zero (holds name) s ss h)) (g s)
last_check-update_at kind name f (suc i) (s ∷ ss) h k t g =
    let (n, q) = find_index-suc (holds name) s ss i h in
    rw n (last_check-update_at kind name f i ss q k t g)

last_check-new :
    (kind : CheckKind) (name : Text) (x : Slot) (i : ℕ) (ss : List Slot)
    → find_index (holds name) ss ≡ none
    → holds name x ≡ true
    → i < length ss
    → last_check kind name (update_at (λ _. x) i ss) ≡ at_kind kind x
unfolding last_check update_at find_index
last_check-new kind name x i [] h k l = absurd (omega arith)
last_check-new kind name x zero (s ∷ ss) h k l = rw k
last_check-new kind name x (suc i) (s ∷ ss) h k l = ground (arith, last_check-new kind name x i ss)

at_kind-record_check :
    (kind : CheckKind) (now : ℕ) (s : Slot) → at_kind kind (record_check kind now s) ≡ some now
at_kind-record_check ping now s = refl
at_kind-record_check npt now s = refl

record_check-other :
    (k j : CheckKind) (now : ℕ) (s : Slot) → k ≢ j → at_kind j (record_check k now s) ≡ at_kind j s
record_check-other ping ping now s h = absurd (h refl)
record_check-other ping npt now s h = refl
record_check-other npt ping now s h = refl
record_check-other npt npt now s h = absurd (h refl)

holds-record_check :
    (kind : CheckKind) (now : ℕ) (name : Text) (s : Slot)
    → holds name (record_check kind now s) ≡ holds name s
unfolding holds
holds-record_check ping now name s = refl
holds-record_check npt now name s = refl

least_active-lt :
    (slot : ℕ) (at : Option ℕ) (i : ℕ) (ss : List Slot)
    → slot < i
    → least_active slot at i ss < i + length ss
unfolding least_active
least_active-lt slot at i [] h = omega arith
least_active-lt slot at i (s ∷ ss) h = omega (
  arith,
  least_active-lt (if before (last_active_ms s) at then i else slot)
      (if before (last_active_ms s) at then last_active_ms s else at) (i + 1) ss (ground arith),
)

least_active_slot-lt : (ss : List Slot) → 0 < length ss → least_active_slot ss < length ss
unfolding least_active_slot
least_active_slot-lt [] h = absurd (omega arith)
least_active_slot-lt (s ∷ ss) h =
    omega (arith, least_active-lt 0 (last_active_ms s) 1 ss (omega arith))

free_slot-lt :
    (o : Option ℕ) (ss : List Slot)
    → 0 < length ss
    → ((i : ℕ) → o ≡ some i → i < length ss)
    → free_slot o ss < length ss
unfolding free_slot
free_slot-lt none ss h g = least_active_slot-lt ss h
free_slot-lt (some i) ss h g = g i refl

holds-new_sender :
    (kind : CheckKind) (now : ℕ) (name : Text)
    → holds name (record_check kind now (new_sender name)) ≡ true
unfolding holds new_sender
holds-new_sender ping now name = str_eq_refl name
holds-new_sender npt now name = str_eq_refl name

last_check-record_same :
    (kind : CheckKind) (now : ℕ) (name : Text) (o : Option ℕ) (ss : List Slot)
    → 0 < length ss
    → find_index (holds name) ss ≡ o
    → (allows_slot kind now name o ss).1 ≡ true
    → last_check kind name (allows_slot kind now name o ss).0 ≡ some now
unfolding allows_slot
last_check-record_same kind now name none ss l h p =
    last_check-new kind name (record_check kind now (new_sender name)) _ ss h
      (holds-new_sender kind now name) (free_slot-lt _ ss l (find_index-lt (λ s. not s.used) ss))
    ∙ at_kind-record_check kind now (new_sender name)
last_check-record_same kind now name (some i) ss l h p =
    elim (Bool-cases (recent_at kind now i ss)) [
      | inl r ↦ absurd (cc (rw r at p))
      | inr r ↦ rw r (
          last_check-update_at kind name (record_check kind now) i ss h
            (λ s q. holds-record_check kind now name s ∙ q) now (at_kind-record_check kind now))
    ]

-- A request that passes is what the next request of its sender and kind is measured against.
pub last_check-allows :
    (ss : List Slot) (atsign name : Text) (kind : CheckKind) (now : ℕ)
    → 0 < length ss
    → normalize_text atsign buffer_len ≡ some name
    → (cooldown_allows ss atsign kind now).1 ≡ true
    → last_check kind name (cooldown_allows ss atsign kind now).0 ≡ some now
unfolding cooldown_allows allows_normal
last_check-allows ss atsign name kind now l n p =
    rw n (last_check-record_same kind now name (find_index (holds name) ss) ss l refl (rw n at p))

last_check-update_kept :
    (kind : CheckKind) (name : Text) (f : Slot → Slot) (i : ℕ) (ss : List Slot)
    → find_index (holds name) ss ≡ some i
    → ((s : Slot) → holds name s ≡ true → holds name (f s) ≡ true)
    → ((s : Slot) → at_kind kind (f s) ≡ at_kind kind s)
    → last_check kind name (update_at f i ss) ≡ last_check kind name ss
unfolding last_check update_at
last_check-update_kept kind name f i [] h k g = refl
last_check-update_kept kind name f zero (s ∷ ss) h k g =
    let q = find_index-zero (holds name) s ss h in rw (k s q, q) (g s)
last_check-update_kept kind name f (suc i) (s ∷ ss) h k g =
    let (n, q) = find_index-suc (holds name) s ss i h in
    rw n (last_check-update_kept kind name f i ss q k g)

kind_of_new :
    (k j : CheckKind) (now : ℕ) (name : Text)
    → k ≢ j
    → at_kind j (record_check k now (new_sender name)) ≡ none
unfolding new_sender
kind_of_new ping ping now name h = absurd (h refl)
kind_of_new ping npt now name h = refl
kind_of_new npt ping now name h = refl
kind_of_new npt npt now name h = absurd (h refl)

last_check-record_other :
    (k j : CheckKind) (now : ℕ) (name : Text) (o : Option ℕ) (ss : List Slot)
    → k ≢ j
    → 0 < length ss
    → find_index (holds name) ss ≡ o
    → last_check j name (allows_slot k now name o ss).0 ≡ last_check j name ss
unfolding allows_slot
last_check-record_other k j now name none ss ne l h =
    last_check-new j name (record_check k now (new_sender name)) _ ss h
      (holds-new_sender k now name) (free_slot-lt _ ss l (find_index-lt (λ s. not s.used) ss))
    ∙ kind_of_new k j now name ne
    ∙ sym (absent-last_check j name ss h)
last_check-record_other k j now name (some i) ss ne l h = elim (Bool-cases (recent_at k now i ss)) [
  | inl r ↦ rw r
  | inr r ↦ rw r (
      last_check-update_kept j name (record_check k now) i ss h
        (λ s q. holds-record_check k now name s ∙ q) (λ s. record_check-other k j now s ne))
]

-- In a table with any slot, a request of one kind leaves what its sender's requests of the other
-- kind are measured against.
pub kinds_independent :
    (ss : List Slot) (atsign name : Text) (k j : CheckKind) (now : ℕ)
    → k ≢ j
    → 0 < length ss
    → normalize_text atsign buffer_len ≡ some name
    → last_check j name (cooldown_allows ss atsign k now).0 ≡ last_check j name ss
unfolding cooldown_allows allows_normal
kinds_independent ss atsign name k j now ne l n =
    rw n (last_check-record_other k j now name (find_index (holds name) ss) ss ne l refl)

-- In a table with any slot, where a request of a sender passes, another of the same kind
-- straight after it, under any spelling of the atSign, passes exactly when it comes at least two
-- seconds later.
pub allows_twice :
    (ss : List Slot) (first second name : Text) (kind : CheckKind) (now later : ℕ)
    → 0 < length ss
    → normalize_text first buffer_len ≡ some name
    → normalize_text second buffer_len ≡ some name
    → (cooldown_allows ss first kind now).1 ≡ true
    → (cooldown_allows (cooldown_allows ss first kind now).0 second kind later).1
      ≡ leb cooldown_ms (later - now)
allows_twice ss first second name kind now later l n m p =
    allows-is_recent (cooldown_allows ss first kind now).0 second name kind later m
    ∙ rw (last_check-allows ss first name kind now l n p) (ground arith)
