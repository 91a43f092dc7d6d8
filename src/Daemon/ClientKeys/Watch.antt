-- ===== src/Daemon/ClientKeys/Watch.antt =====
-- Whose session a key check ends, and how long a key that cannot be checked is left alone.
use noports.Prelude.{
  ℕ, zero, suc, ◌≤◌, ◌≡◌, refl, ap, true, false, Option, none, some, List, [], ◌∷◌, arith, leb,
  ◌==◌, Text, eq_of_str_eq, map, get_elem?, some_inj, Bool-cases, All, inl, inr, ◌∙◌,
}
use noports.Relay.Sub.{elapsed}
use noports.Daemon.ClientKeys.{
  max_skip, Key, KeyCheck, next_backoff, start_round, begin_round, interval_ms, is_withdrawn,
  has_name, settle, is_stopped, settle_all, check_round, check_client_keys,
}

-- A key's waits are bounded: no round is skipped more than 30 times in a row.
abbrev pub IsBounded : Key → Type 0
IsBounded k = (k.backoff ≤ max_skip) × (k.skip_rounds ≤ max_skip)

next_backoff-le : (b : ℕ) → next_backoff b ≤ max_skip
unfolding next_backoff
next_backoff-le b = ground arith

start_round-IsBounded : (k : Key) → IsBounded k → IsBounded (start_round k)
unfolding start_round
start_round-IsBounded k (a, b) = (a, omega arith)

settle-IsBounded :
    (name : Text) (f : KeyCheck) (k : Key) → IsBounded k → IsBounded (settle name f k)
unfolding settle
settle-IsBounded name f k (a, b) =
    let n = next_backoff-le k.backoff in (ground (arith, n), ground (arith, n))

All-map :
    (g : Key → Key) (ks : List Key)
    → ((k : Key) → IsBounded k → IsBounded (g k))
    → All IsBounded ks
    → All IsBounded (map g ks)
All-map g [] h a = tt
All-map g (k ∷ ks) h a = (h k a.0, All-map g ks h a.1)

begin_round-IsBounded :
    (now last interval : ℕ) (ks : List Key)
    → All IsBounded ks
    → All IsBounded (begin_round now last interval ks).0
unfolding begin_round
begin_round-IsBounded now last interval ks a = elim (Bool-cases (leb interval (elapsed now last))) [
  | inl e ↦ rw e (All-map start_round ks start_round-IsBounded a)
  | inr e ↦ rw e a
]

settle_all-IsBounded :
    (check : Text → KeyCheck) (o : Option Text) (ks : List Key)
    → All IsBounded ks
    → All IsBounded (settle_all check o ks).0
unfolding settle_all
settle_all-IsBounded check none ks a = a
settle_all-IsBounded check (some name) ks a =
    All-map (settle name (check name)) ks (settle-IsBounded name (check name)) a

-- Every check of the client keys keeps all their waits within 30 rounds, whatever the lookups answer.
pub check_client_keys-IsBounded :
    (secs now last : ℕ) (check : Text → KeyCheck) (ks : List Key)
    → All IsBounded ks
    → All IsBounded (check_client_keys secs now last check ks).0.0
unfolding check_client_keys check_round
check_client_keys-IsBounded secs now last check ks a = elim (Bool-cases (secs == 0)) [
  | inl e ↦ rw e a
  | inr e ↦ rw e (
      settle_all-IsBounded check _ (begin_round now last (interval_ms secs) ks).0
        (begin_round-IsBounded now last (interval_ms secs) ks a))
]

stopped-get :
    (name : Text) (f : KeyCheck) (ks : List Key) (i : ℕ)
    → get_elem? (map (is_stopped name f) ks) i ≡ some true
    → (k : Key) × (get_elem? ks i ≡ some k) × (is_stopped name f k ≡ true)
stopped-get name f [] i h = absurd cc
stopped-get name f (k ∷ ks) zero h = (k, refl, some_inj h)
stopped-get name f (k ∷ ks) (suc i) h = stopped-get name f ks i h

none-stopped : (ks : List Key) (i : ℕ) → get_elem? (map (λ _. false) ks) i ≡ some true → ⊥
none-stopped [] i h = cc
none-stopped (k ∷ ks) zero h = let e = some_inj h in cc
none-stopped (k ∷ ks) (suc i) h = none-stopped ks i h

-- What stops the session of a key: its own name was looked up, and found withdrawn.
abbrev pub IsWithdrawn : (Text → KeyCheck) → Key → Type 0
IsWithdrawn check k =
    (name : Text) × (k.signing_key ≡ some name)
    × (is_withdrawn (check name) ≡ true)
    × (k.ending ≡ false)

has_name-is : (name : Text) (o : Option Text) → has_name name o ≡ true → o ≡ some name
unfolding has_name
has_name-is name none h = absurd cc
has_name-is name (some t) h = ap some (eq_of_str_eq t name h)

is_stopped-IsWithdrawn :
    (check : Text → KeyCheck) (name : Text) (k : Key)
    → is_stopped name (check name) k ≡ true
    → IsWithdrawn check k
unfolding is_stopped
is_stopped-IsWithdrawn check name k h =
    (name, has_name-is name k.signing_key (ground arith), ground arith, ground arith)

settle_all-stopped :
    (check : Text → KeyCheck) (o : Option Text) (ks : List Key) (i : ℕ)
    → get_elem? (settle_all check o ks).1 i ≡ some true
    → (k : Key) × (get_elem? ks i ≡ some k) × IsWithdrawn check k
unfolding settle_all
settle_all-stopped check none ks i h = absurd (none-stopped ks i h)
settle_all-stopped check (some name) ks i h =
    let (k, g, s) = stopped-get name (check name) ks i h in
    (k, g, is_stopped-IsWithdrawn check name k s)

-- The keys that a pass looks at: the same ones, in the same slots, as `start_round` leaves them.
map-get :
    (ks : List Key) (i : ℕ) (k : Key)
    → get_elem? (map start_round ks) i ≡ some k
    → (j : Key) × (get_elem? ks i ≡ some j) × (start_round j ≡ k)
map-get [] i k h = absurd cc
map-get (x ∷ xs) zero k h = (x, refl, some_inj h)
map-get (x ∷ xs) (suc i) k h = map-get xs i k h

start_round-IsWithdrawn :
    (check : Text → KeyCheck) (j k : Key)
    → start_round j ≡ k
    → IsWithdrawn check k
    → IsWithdrawn check j
unfolding start_round
start_round-IsWithdrawn check j k e (name, s, w, n) =
    (name, ap (λ x. x.signing_key) e ∙ s, w, ap (λ x. x.ending) e ∙ n)

begin_round-stopped :
    (check : Text → KeyCheck) (now last interval i : ℕ) (ks : List Key) (k : Key)
    → get_elem? (begin_round now last interval ks).0 i ≡ some k
    → IsWithdrawn check k
    → (j : Key) × (get_elem? ks i ≡ some j) × IsWithdrawn check j
unfolding begin_round
begin_round-stopped check now last interval i ks k g w =
    elim (Bool-cases (leb interval (elapsed now last))) [
      | inl e ↦
          let (j, f, s) = map-get ks i k (rw e at g) in
          (j, f, start_round-IsWithdrawn check j k s w)
      | inr e ↦ (k, (rw e at g), w)
    ]

-- A live session is ended by a key check only if the key that signed it was looked up and found
-- revoked or deleted: a key that is missing, or that could not be checked, ends none. A session that
-- is ending already is not ended again.
pub check_client_keys-IsWithdrawn :
    (secs now last i : ℕ) (check : Text → KeyCheck) (ks : List Key)
    → get_elem? (check_client_keys secs now last check ks).0.1 i ≡ some true
    → (k : Key) × (get_elem? ks i ≡ some k) × IsWithdrawn check k
unfolding check_client_keys check_round
check_client_keys-IsWithdrawn secs now last i check ks h = elim (Bool-cases (secs == 0)) [
  | inl e ↦ absurd (none-stopped ks i (rw e at h))
  | inr e ↦
      let (k, g, w) =
        settle_all-stopped check _ (begin_round now last (interval_ms secs) ks).0 i (rw e at h) in
      begin_round-stopped check now last (interval_ms secs) i ks k g w
]
