-- ===== src/Policy/Cache/Refine.antt =====
-- The cache against the log of all decisions ever stored: it forgets, and never misremembers.
use noports.Prelude.{
  ℕ, zero, suc, ◌≡◌, inl, inr, refl, sym, subst, Bool, true, false, Option, none, some, List, [],
  ◌∷◌, arith, ◌==◌, if◌then◌else◌, Text, str_eq, str_eq_refl, eq_of_str_eq, length, update_at, All,
  replicate, Bool-cases,
}
use noports.Policy.Atsign.{normalize_text, buffer_len}
use noports.Policy.Cache.{
  Decision, Entry, Cache, Allocator, copy_decision, init, no_entry, holds, refill, store_normal,
  cache_store,
}
use noports.Policy.Cache.Laws.{
  NoneHold, OnlyAt, IsDistinct, pick_slot-OnlyAt, store-IsDistinct, copy_decision_lem,
}

-- A decision as it was stored.
pub record Noted : Type 0 where
  pub atsign : Text
  pub at_ms : ℕ
  pub decision : Decision

-- The latest decision for a name; the log is newest first.
unfoldable pub last : Text → List Noted → Option Noted
last name [] = none
last name (r ∷ rs) = if str_eq r.atsign name then some r else last name rs

-- A call of the store.
pub record Store : Type 0 where
  pub alloc : Allocator
  pub atsign : Text
  pub decision : Decision
  pub now_ms : ℕ

note : Option Text → Store → List Noted → List Noted
note none op log = log
note (some name) op log = record { atsign = name; at_ms = op.now_ms; decision = op.decision } ∷ log

unfoldable pub log_store : Bool → Store → List Noted → List Noted
unfolding note
log_store stored op log = if stored then note (normalize_text op.atsign buffer_len) op log else log

-- The calls in turn, each logged if it reports success.
unfoldable pub run : Cache → List Noted → List Store → Cache × List Noted
unfolding log_store
run c log [] = (c, log)
run c log (op ∷ ops) =
    let (c', stored) = cache_store op.alloc c op.atsign op.decision op.now_ms in
    run c' (log_store stored op log) ops

-- A used entry is the latest decision logged for its name.
abbrev pub IsLogged : List Noted → Entry → Type 0
IsLogged log e =
    e.used ≡ true
    → last e.atsign log
      ≡ some (record { atsign = e.atsign; at_ms = e.checked_at_ms; decision = e.decision })

pub record Refines (log : List Noted) (c : Cache) : Type 0 where
  pub distinct : IsDistinct c.entries
  pub logged : All (IsLogged log) c.entries

module _ (op : Store) (name : Text) (log : List Noted) where
  abbrev noted : Noted
  noted = record { atsign = name; at_ms = op.now_ms; decision = op.decision }

  abbrev filled : Entry → Entry
  filled = refill op.alloc name op.decision op.now_ms

  other-IsLogged : (e : Entry) → holds name e ≡ false → IsLogged log e → IsLogged (noted ∷ log) e
  unfolding last holds
  other-IsLogged e h l u = ground (arith, l u, eq_of_str_eq name e.atsign, str_eq_refl name)

  others-IsLogged :
      (es : List Entry) → NoneHold name es → All (IsLogged log) es → All (IsLogged (noted ∷ log)) es
  others-IsLogged [] n l = tt
  others-IsLogged (e ∷ es) n l = (other-IsLogged e n.0 l.0, others-IsLogged es n.1 l.1)

  filled-IsLogged :
      (e : Entry)
      → (copy_decision op.alloc op.decision).1 ≡ true
      → IsLogged (noted ∷ log) (filled e)
  unfolding last refill
  filled-IsLogged e c u = ground (arith, copy_decision_lem op.alloc op.decision c, str_eq_refl name)

  unfilled-IsLogged :
      (e : Entry) → (copy_decision op.alloc op.decision).1 ≡ false → IsLogged log (filled e)
  unfolding refill
  unfilled-IsLogged e c u = ground arith

  update-IsLogged :
      (i : ℕ) (es : List Entry)
      → (copy_decision op.alloc op.decision).1 ≡ true
      → OnlyAt name i es
      → All (IsLogged log) es
      → All (IsLogged (noted ∷ log)) (update_at filled i es)
  unfolding update_at
  update-IsLogged i [] c o l = tt
  update-IsLogged zero (e ∷ es) c o l = (filled-IsLogged e c, others-IsLogged es o l.1)
  update-IsLogged (suc i) (e ∷ es) c o l =
      (other-IsLogged e o.0 l.0, update-IsLogged i es c o.1 l.1)

  failed-IsLogged :
      (i : ℕ) (es : List Entry)
      → (copy_decision op.alloc op.decision).1 ≡ false
      → All (IsLogged log) es
      → All (IsLogged log) (update_at filled i es)
  unfolding update_at
  failed-IsLogged i [] c l = tt
  failed-IsLogged zero (e ∷ es) c l = (unfilled-IsLogged e c, l.1)
  failed-IsLogged (suc i) (e ∷ es) c l = (l.0, failed-IsLogged i es c l.1)

  store_normal-Refines :
      (c : Cache)
      → Refines log c
      → Refines
          (if (copy_decision op.alloc op.decision).1 then noted ∷ log else log)
          (store_normal op.alloc c (some name) op.decision op.now_ms).0
  unfolding store_normal
  store_normal-Refines c r = elim (Bool-cases (copy_decision op.alloc op.decision).1) [
    | inl e ↦ rw e (record {
      distinct = store-IsDistinct op.alloc name op.decision op.now_ms c.entries r.distinct;
      logged = update-IsLogged _ c.entries e (pick_slot-OnlyAt name c.entries r.distinct) r.logged;
    })
    | inr e ↦ rw e (record {
      distinct = store-IsDistinct op.alloc name op.decision op.now_ms c.entries r.distinct;
      logged = failed-IsLogged _ c.entries e r.logged;
    })
  ]

store_normal-log-Refines :
    (op : Store) (name : Option Text) (log : List Noted) (c : Cache)
    → Refines log c
    → Refines
        (if (store_normal op.alloc c name op.decision op.now_ms).1 then note name op log else log)
        (store_normal op.alloc c name op.decision op.now_ms).0
unfolding store_normal note
store_normal-log-Refines op none log c r = r
store_normal-log-Refines op (some name) log c r = store_normal-Refines op name log c r

empty-Refines : (log : List Noted) (c : Cache) → (length c.entries == 0) ≡ true → Refines log c
empty-Refines log c e =
    let q : c.entries ≡ [] = empty c.entries e in
    record {
      distinct = subst IsDistinct (sym q) tt;
      logged = subst (All (IsLogged log)) (sym q) tt;
    }
  where
    empty : (es : List Entry) → (length es == 0) ≡ true → es ≡ []
    empty [] h = refl
    empty (x ∷ xs) h = ground arith

-- A store keeps the cache true to the log.
pub store-Refines :
    (op : Store) (log : List Noted) (c : Cache)
    → Refines log c
    → Refines
        (log_store (cache_store op.alloc c op.atsign op.decision op.now_ms).1 op log)
        (cache_store op.alloc c op.atsign op.decision op.now_ms).0
unfolding cache_store log_store
store-Refines op log c r = elim (Bool-cases (length c.entries == 0)) [
  | inl e ↦ rw e (empty-Refines (note (normalize_text op.atsign buffer_len) op log) c e)
  | inr e ↦ rw e (store_normal-log-Refines op (normalize_text op.atsign buffer_len) log c r)
]

pub run-Refines :
    (c : Cache) (log : List Noted) (ops : List Store)
    → Refines log c
    → Refines (run c log ops).1 (run c log ops).0
unfolding run
run-Refines c log [] r = r
run-Refines c log (op ∷ ops) r =
    let (c', stored) = cache_store op.alloc c op.atsign op.decision op.now_ms in
    run-Refines c' (log_store stored op log) ops (store-Refines op log c r)

unused-IsDistinct : (n : ℕ) → IsDistinct (replicate n no_entry)
unused-IsDistinct zero = tt
unused-IsDistinct (suc n) = (λ h. cc, unused-IsDistinct n)

unused-IsLogged : (n : ℕ) → All (IsLogged []) (replicate n no_entry)
unused-IsLogged zero = tt
unused-IsLogged (suc n) = (λ h. cc, unused-IsLogged n)

pub init-Refines : (alloc : Bool) (size : ℕ) → Refines [] (init alloc size).0
unfolding init
init-Refines alloc size = record {
  distinct = ground (arith, unused-IsDistinct size);
  logged = ground (arith, unused-IsLogged size);
}
