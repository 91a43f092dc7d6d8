-- ===== src/Policy/Cache/Fill.antt =====
-- A store that succeeds can be looked up.
use noports.Prelude.{
  ℕ, zero, suc, ◌+◌, ◌-◌, ◌<◌, ◌≡◌, refl, true, false, Option, none, some, List, [], ◌∷◌, arith,
  ltb, ◌==◌, if◌then◌else◌, Text, str_eq_refl, length, update_at, not, find_index, find_index-lt,
}
use noports.Policy.Atsign.{normalize_text, buffer_len}
use noports.Policy.Cache.{
  Decision, Entry, Cache, Allocator, copy_decision, holds, find_entry, fresh_copy, lookup_normal,
  cache_lookup, pick_slot, vacant_slot, oldest_slot, oldest, or_else, refill, store_normal,
  cache_store, ttl_ms,
}
use noports.Policy.Cache.Laws.{copy_decision_lem, OnlyAt, IsDistinct, pick_slot-OnlyAt}
use noports.Policy.Cache.Refine.{Noted, Refines}

oldest-lt : (slot at i : ℕ) (es : List Entry) → slot < i → oldest slot at i es < i + length es
unfolding oldest
oldest-lt slot at i [] h = omega arith
oldest-lt slot at i (e ∷ es) h = omega (
  arith,
  oldest-lt (if ltb e.checked_at_ms at then i else slot)
      (if ltb e.checked_at_ms at then e.checked_at_ms else at) (i + 1) es (ground arith),
)

or_else-lt : (o : Option ℕ) (d n : ℕ) → ((i : ℕ) → o ≡ some i → i < n) → d < n → or_else o d < n
unfolding or_else
or_else-lt none d n h l = l
or_else-lt (some i) d n h l = h i refl

oldest_slot-lt : (e : Entry) (es : List Entry) → oldest_slot (e ∷ es) < length (e ∷ es)
unfolding oldest_slot
oldest_slot-lt e es = omega (arith, oldest-lt 0 e.checked_at_ms 1 es (omega arith))

-- The slot of a store is one of the table's.
pick_slot-lt : (name : Text) (es : List Entry) → 0 < length es → pick_slot name es < length es
unfolding pick_slot vacant_slot
pick_slot-lt name [] h = absurd (omega arith)
pick_slot-lt name (e ∷ es) h =
    or_else-lt (find_index (holds name) (e ∷ es)) _ _ (find_index-lt (holds name) (e ∷ es)) (
      or_else-lt (find_index (λ x. not x.used) (e ∷ es)) _ _
        (find_index-lt (λ x. not x.used) (e ∷ es)) (oldest_slot-lt e es))

find_entry-update_at :
    (name : Text) (f : Entry → Entry) (e : Entry) (i : ℕ) (es : List Entry)
    → ((x : Entry) → f x ≡ e)
    → holds name e ≡ true
    → OnlyAt name i es
    → i < length es
    → find_entry name (update_at f i es) ≡ some e
unfolding find_entry update_at
find_entry-update_at name f e i [] h t o l = absurd (omega arith)
find_entry-update_at name f e zero (x ∷ xs) h t o l = ground (arith, h x)
find_entry-update_at name f e (suc i) (x ∷ xs) h t o l =
    ground (arith, o.0, find_entry-update_at name f e i xs h t o.1 (omega arith))

abbrev stored : Text → Decision → ℕ → Entry
stored name d now = record { used = true; atsign = name; checked_at_ms = now; decision = d }

holds-stored : (name : Text) (d : Decision) (now : ℕ) → holds name (stored name d now) ≡ true
unfolding holds
holds-stored name d now = str_eq_refl name

refill_copied :
    (alloc : Allocator) (name : Text) (d : Decision) (now : ℕ) (x : Entry)
    → (copy_decision alloc d).1 ≡ true
    → refill alloc name d now x ≡ stored name d now
unfolding refill
refill_copied alloc name d now x c = ground (arith, copy_decision_lem alloc d)

fresh_copy-stored :
    (a : Allocator) (name : Text) (d : Decision) (now later : ℕ)
    → (copy_decision a d).1 ≡ true
    → later - now < ttl_ms
    → fresh_copy a later (some (stored name d now)) ≡ some d
unfolding fresh_copy
fresh_copy-stored a name d now later c h = ground (arith, copy_decision_lem a d)

lookup-store_normal :
    (c : Cache) (alloc a : Allocator) (name : Text) (d : Decision) (now later : ℕ)
    → IsDistinct c.entries
    → 0 < length c.entries
    → (copy_decision alloc d).1 ≡ true
    → (copy_decision a d).1 ≡ true
    → later - now < ttl_ms
    → lookup_normal a (store_normal alloc c (some name) d now).0 (some name) later ≡ some d
unfolding lookup_normal store_normal
lookup-store_normal c alloc a name d now later u l p q h =
    rw
      (find_entry-update_at name (refill alloc name d now) (stored name d now)
        (pick_slot name c.entries) c.entries (λ x. refill_copied alloc name d now x p)
        (holds-stored name d now) (pick_slot-OnlyAt name c.entries u)
        (pick_slot-lt name c.entries l))
      (fresh_copy-stored a name d now later q h)

-- A store into a cache that holds anything at all, whose copy can be made, reports success, and its
-- decision is what a lookup less than 15 seconds later returns, under any spelling of the atSign.
pub lookup-store :
    (c : Cache) (log : List Noted) (alloc a : Allocator) (atsign spelled name : Text) (d : Decision)
    (now later : ℕ)
    → Refines log c
    → 0 < length c.entries
    → normalize_text atsign buffer_len ≡ some name
    → normalize_text spelled buffer_len ≡ some name
    → (copy_decision alloc d).1 ≡ true
    → (copy_decision a d).1 ≡ true
    → later - now < ttl_ms
    → ((cache_store alloc c atsign d now).1 ≡ true)
      × (cache_lookup a (cache_store alloc c atsign d now).0 spelled later ≡ some d)
unfolding cache_store cache_lookup
lookup-store c log alloc a atsign spelled name d now later r l n m p q h =
    let full : (length c.entries == 0) ≡ false = ground arith in
    rw (full, n, m) (p, lookup-store_normal c alloc a name d now later r.distinct l p q h)
