-- ===== src/Policy/Cache/Evict.antt =====
-- A store gives up another client's decision only when it must, and then the oldest.
use noports.Prelude.{
  ℕ, zero, suc, ◌+◌, ◌≤◌, ◌≡◌, ◌≢◌, inl, inr, refl, sym, subst, ◌∙◌, Bool, true, false, none, some,
  List, [], ◌∷◌, arith, ltb, ◌==◌, if◌then◌else◌, Text, str_eq, eq_of_str_eq, length, All,
  Option-cases, Bool-cases, update_at, not, find_index, get_elem?, find_index-zero, find_index-suc,
  All-get_elem?,
}
use noports.Policy.Atsign.{normalize_text, buffer_len}
use noports.Policy.Cache.{
  Decision, Entry, Cache, Allocator, holds, find_entry, pick_slot, vacant_slot, oldest_slot, oldest,
  or_else, refill, store_normal, cache_store,
}
use noports.Policy.Cache.Laws.{holds-atsign, refill-other, NoneHold, IsDistinct}
use noports.Policy.Cache.Refine.{Noted, Refines}

-- An entry is no younger than any other.
abbrev pub IsOldest : ℕ → List Entry → Type 0
IsOldest at = All (λ x. at ≤ x.checked_at_ms)

-- The loop ends at an entry of the table, whose time is a least one. `P` says which index has which
-- time.
module _ (P : ℕ → ℕ → Type 0) where
  oldest-IsOldest :
      (slot at i : ℕ) (es : List Entry)
      → P slot at
      → ((k : ℕ) (w : Entry) → get_elem? es k ≡ some w → P (i + k) w.checked_at_ms)
      → (t : ℕ) × P (oldest slot at i es) t × (t ≤ at) × IsOldest t es
  unfolding oldest
  oldest-IsOldest slot at i [] p h = (at, p, omega arith, tt)
  oldest-IsOldest slot at i (e ∷ es) p h =
      let step : P (if ltb e.checked_at_ms at then i else slot)
          (if ltb e.checked_at_ms at then e.checked_at_ms else at) =
        elim (Bool-cases (ltb e.checked_at_ms at)) [
          | inl y ↦ rw y (subst (λ j. P j e.checked_at_ms) (omega arith) (h 0 e refl))
          | inr n ↦ rw n p
        ] in
      let (t, q, l, o) =
        oldest-IsOldest (if ltb e.checked_at_ms at then i else slot)
          (if ltb e.checked_at_ms at then e.checked_at_ms else at) (i + 1) es step
          (λ k w g. subst (λ j. P j w.checked_at_ms) (omega arith) (h (suc k) w g)) in
      (t, q, ground arith, (ground arith, o))

oldest_slot-IsOldest :
    (e : Entry) (es : List Entry)
    → (w : Entry) × (get_elem? (e ∷ es) (oldest_slot (e ∷ es)) ≡ some w)
      × IsOldest w.checked_at_ms (e ∷ es)
unfolding oldest_slot
oldest_slot-IsOldest e es =
    let (t, (w, g, q), l, o) =
      oldest-IsOldest (λ j t. (w : Entry) × (get_elem? (e ∷ es) j ≡ some w) × (w.checked_at_ms ≡ t))
        0 e.checked_at_ms 1 es (e, refl, refl)
        (λ k w g.
          let q : suc k ≡ 1 + k = omega arith in
          (w, subst (λ j. get_elem? (e ∷ es) j ≡ some w) q g, refl)) in
    (w, g, subst (λ u. IsOldest u (e ∷ es)) (sym q) (l, o))

-- A write that concerns another name leaves a name's entry.
find_entry-update_other :
    (other : Text) (f : Entry → Entry) (i : ℕ) (es : List Entry)
    → ((x : Entry) → holds other (f x) ≡ false)
    → ((x : Entry) → get_elem? es i ≡ some x → holds other x ≡ false)
    → find_entry other (update_at f i es) ≡ find_entry other es
unfolding find_entry update_at
find_entry-update_other other f i [] h g = refl
find_entry-update_other other f zero (e ∷ es) h g = ground (arith, h e, g e refl)
find_entry-update_other other f (suc i) (e ∷ es) h g =
    ground (arith, find_entry-update_other other f i es h g)

get_elem?-holds :
    (p : Entry → Bool) (es : List Entry) (i : ℕ) (x : Entry)
    → find_index p es ≡ some i
    → get_elem? es i ≡ some x
    → p x ≡ true
get_elem?-holds p [] i x h g = cc
get_elem?-holds p (e ∷ es) zero x h g = ground (arith, find_index-zero p e es h)
get_elem?-holds p (e ∷ es) (suc i) x h g = get_elem?-holds p es i x (find_index-suc p e es i h).1 g

find_index-none :
    (p : Entry → Bool) (es : List Entry) → find_index p es ≡ none → All (λ x. p x ≡ false) es
unfolding find_index
find_index-none p [] h = tt
find_index-none p (e ∷ es) h = ground (arith, find_index-none p es)

-- In a table of distinct names an entry that holds a name is the one that is found.
find_entry-get_elem? :
    (name : Text) (es : List Entry) (i : ℕ) (x : Entry)
    → IsDistinct es
    → get_elem? es i ≡ some x
    → holds name x ≡ true
    → find_entry name es ≡ some x
unfolding find_entry
find_entry-get_elem? name [] i x d g h = cc
find_entry-get_elem? name (e ∷ es) zero x d g h = ground arith
find_entry-get_elem? name (e ∷ es) (suc i) x d g h = elim (Bool-cases (holds name e)) [
  | inl y ↦
      let (u, q) = holds-atsign name e y in
      let n : holds name x ≡ false =
        All-get_elem? (λ z. holds name z ≡ false) es i (subst (λ t. NoneHold t es) q (d.0 u)) g in
      absurd (cc n)
  | inr n ↦ rw n (find_entry-get_elem? name es i x d.1 g h)
]

vacant_slot_full :
    (es : List Entry) → find_index (λ x. not x.used) es ≡ none → vacant_slot es ≡ oldest_slot es
unfolding vacant_slot or_else
vacant_slot_full es q = rw (q, or_else)

vacant_slot_free :
    (es : List Entry) (i : ℕ) → find_index (λ x. not x.used) es ≡ some i → vacant_slot es ≡ i
unfolding vacant_slot or_else
vacant_slot_free es i q = rw (q, or_else)

pick_slot_miss :
    (name : Text) (es : List Entry)
    → find_index (holds name) es ≡ none
    → pick_slot name es ≡ vacant_slot es
unfolding pick_slot or_else
pick_slot_miss name es q = rw (q, or_else)

pick_slot_hit :
    (name : Text) (es : List Entry) (i : ℕ)
    → find_index (holds name) es ≡ some i
    → pick_slot name es ≡ i
unfolding pick_slot or_else
pick_slot_hit name es i q = rw (q, or_else)

module _ (alloc : Allocator) (name other : Text) (d : Decision) (now : ℕ) (e : Entry) where
  -- Which index a store of `name` writes, if it takes the entry of another name away.
  abbrev Evicts : List Entry → ℕ → Type 0
  Evicts es i =
      (find_entry other es ≡ some e)
      × (find_entry other (update_at (refill alloc name d now) i es) ≢ some e)

  kept :
      (es : List Entry) (i : ℕ)
      → str_eq name other ≡ false
      → ((x : Entry) → get_elem? es i ≡ some x → holds other x ≡ false)
      → Evicts es i
      → ⊥
  kept es i n g h =
      h.1 (
        find_entry-update_other other _ i es (λ x. refill-other alloc name d now other x n) g ∙ h.0)

  hit_is_other :
      (x : Entry) → str_eq name other ≡ false → holds name x ≡ true → holds other x ≡ false
  unfolding holds
  hit_is_other x n h = ground (arith, eq_of_str_eq x.atsign name)

  unused_holds_none : (x : Entry) → not x.used ≡ true → holds other x ≡ false
  unfolding holds
  unused_holds_none x h = ground arith

  All-used : (es : List Entry) → All (λ x. not x.used ≡ false) es → All (λ x. x.used ≡ true) es
  All-used [] h = tt
  All-used (x ∷ xs) h = (ground (arith, h.0), All-used xs h.1)

  IsOldest-evicted :
      (es : List Entry)
      → IsDistinct es
      → str_eq name other ≡ false
      → Evicts es (oldest_slot es)
      → IsOldest e.checked_at_ms es
  IsOldest-evicted [] u n h = tt
  IsOldest-evicted (y ∷ ys) u n h =
      let (w, g, o) = oldest_slot-IsOldest y ys in
      elim (Bool-cases (holds other w)) [
        | inl t ↦
            let q : some w ≡ some e = sym (find_entry-get_elem? other (y ∷ ys) _ w u g t) ∙ h.0 in
            subst (λ (v : ℕ). IsOldest v (y ∷ ys)) (ground arith) o
        | inr f ↦ absurd (
            kept (y ∷ ys) _ n (λ x q. subst (λ z. holds other z ≡ false) (ground (arith, q, g)) f)
              h)
      ]

  vacant_evicted :
      (es : List Entry)
      → IsDistinct es
      → str_eq name other ≡ false
      → Evicts es (vacant_slot es)
      → All (λ x. x.used ≡ true) es × IsOldest e.checked_at_ms es
  vacant_evicted es u n h = elim (Option-cases (find_index (λ x. not x.used) es)) [
    | inl q ↦ (
      All-used es (find_index-none _ es q),
      IsOldest-evicted es u n (subst (Evicts es) (vacant_slot_full es q) h),
    )
    | inr (i, q) ↦ absurd (
        kept es i n (λ x g. unused_holds_none x (get_elem?-holds _ es i x q g))
          (subst (Evicts es) (vacant_slot_free es i q) h))
  ]

  evicted :
      (es : List Entry)
      → IsDistinct es
      → str_eq name other ≡ false
      → Evicts es (pick_slot name es)
      → All (λ x. x.used ≡ true) es × NoneHold name es × IsOldest e.checked_at_ms es
  evicted es u n h = elim (Option-cases (find_index (holds name) es)) [
    | inl q ↦
        let (a, o) = vacant_evicted es u n (subst (Evicts es) (pick_slot_miss name es q) h) in
        (a, find_index-none _ es q, o)
    | inr (i, q) ↦ absurd (
        kept es i n (λ x g. hit_is_other x n (get_elem?-holds _ es i x q g))
          (subst (Evicts es) (pick_slot_hit name es i q) h))
  ]

-- When a store for one client takes away what the cache holds for another, then every entry was in
-- use, none was for the client that is stored, and the one lost was no younger than any.
pub cache_store_evicts-IsOldest :
    (c : Cache) (log : List Noted) (alloc : Allocator) (atsign name other : Text) (d : Decision)
    (now : ℕ) (e : Entry)
    → Refines log c
    → normalize_text atsign buffer_len ≡ some name
    → str_eq name other ≡ false
    → find_entry other c.entries ≡ some e
    → find_entry other (cache_store alloc c atsign d now).0.entries ≢ some e
    → All (λ x. x.used ≡ true) c.entries
      × NoneHold name c.entries
      × IsOldest e.checked_at_ms c.entries
unfolding cache_store store_normal
cache_store_evicts-IsOldest c log alloc atsign name other d now e r m n h g =
    elim (Bool-cases (length c.entries == 0)) [
      | inl z ↦ absurd ((rw z at g) h)
      | inr z ↦ evicted alloc name other d now e c.entries r.distinct n (h, rw (z, m) at g)
    ]
