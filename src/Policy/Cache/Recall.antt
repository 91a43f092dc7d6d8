-- ===== src/Policy/Cache/Recall.antt =====
-- What a lookup returns: a decision that was stored for this very client, its latest, and recently.
use noports.Prelude.{
  ℕ, ◌-◌, ◌<◌, ◌≡◌, refl, Bool, Option, none, some, List, [], ◌∷◌, arith, Text, eq_of_str_eq, All,
}
use noports.Policy.Atsign.{normalize_text, buffer_len}
use noports.Policy.Cache.{
  Decision, Entry, Cache, Allocator, init, holds, find_entry, fresh_copy, lookup_normal,
  cache_lookup, ttl_ms,
}
use noports.Policy.Cache.Laws.{copy_decision_lem}
use noports.Policy.Cache.Refine.{
  Noted, Store, last, run, IsLogged, Refines, init-Refines, run-Refines,
}

-- A decision for the name is the latest one logged, and it has not run out.
abbrev pub Recalls : List Noted → Option Text → ℕ → Decision → Type 0
Recalls log none now d = ⊥
Recalls log (some name) now d =
    (r : Noted) × (last name log ≡ some r) × (r.decision ≡ d) × (now - r.at_ms < ttl_ms)

find_entry-IsLogged :
    (name : Text) (log : List Noted) (es : List Entry) (e : Entry)
    → All (IsLogged log) es
    → find_entry name es ≡ some e
    → last name log
      ≡ some (record { atsign = name; at_ms = e.checked_at_ms; decision = e.decision })
unfolding find_entry holds
find_entry-IsLogged name log [] e l h = cc
find_entry-IsLogged name log (x ∷ xs) e l h =
    ground (arith, l.0, eq_of_str_eq x.atsign name, find_entry-IsLogged name log xs e l.1)

fresh_copy-some :
    (alloc : Allocator) (now : ℕ) (e : Entry) (d : Decision)
    → fresh_copy alloc now (some e) ≡ some d
    → (now - e.checked_at_ms < ttl_ms) × (e.decision ≡ d)
unfolding fresh_copy
fresh_copy-some alloc now e d h = ground (arith, copy_decision_lem alloc e.decision)

found-Recalls :
    (alloc : Allocator) (log : List Noted) (name : Text) (now : ℕ) (d : Decision) (es : List Entry)
    → All (IsLogged log) es
    → (o : Option Entry) → find_entry name es ≡ o
    → fresh_copy alloc now o ≡ some d
    → Recalls log (some name) now d
found-Recalls alloc log name now d es l none e h = unfold fresh_copy in cc
found-Recalls alloc log name now d es l (some x) e h =
    let (young, same) = fresh_copy-some alloc now x d h in
    (
      record { atsign = name; at_ms = x.checked_at_ms; decision = x.decision },
      find_entry-IsLogged name log es x l e,
      same,
      young,
    )

lookup_normal-Recalls :
    (alloc : Allocator) (c : Cache) (log : List Noted) (name : Option Text) (now : ℕ) (d : Decision)
    → Refines log c
    → lookup_normal alloc c name now ≡ some d
    → Recalls log name now d
unfolding lookup_normal
lookup_normal-Recalls alloc c log none now d r h = unfold lookup_normal in cc
lookup_normal-Recalls alloc c log (some name) now d r h =
    found-Recalls alloc log name now d c.entries r.logged (find_entry name c.entries) refl h

-- After any calls of the store on a new cache, whichever allocations fail, a lookup returns only the
-- decision of the latest store for the same client that reported success, and only while it is less
-- than 15 seconds old.
pub cache_lookup-run :
    (alloc : Bool) (size : ℕ) (ops : List Store) (a : Allocator) (atsign : Text) (now : ℕ)
    (d : Decision)
    → cache_lookup a (run (init alloc size).0 [] ops).0 atsign now ≡ some d
    → Recalls (run (init alloc size).0 [] ops).1 (normalize_text atsign buffer_len) now d
unfolding cache_lookup
cache_lookup-run alloc size ops a atsign now d h =
    lookup_normal-Recalls a _ _ (normalize_text atsign buffer_len) now d
      (run-Refines _ [] ops (init-Refines alloc size)) h
