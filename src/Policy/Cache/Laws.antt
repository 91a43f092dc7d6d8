-- ===== src/Policy/Cache/Laws.antt =====
-- What the cache's searches find, and what its writes keep.
use noports.Prelude.{
  ℕ, zero, suc, ◌≡◌, inl, inr, refl, sym, subst, find_index-zero, find_index-suc, true, false, none,
  some, List, [], ◌∷◌, arith, ◌==◌, Text, str_eq, str_eq_refl, eq_of_str_eq, length, find_index,
  update_at, All, Option-cases,
}
use noports.Policy.Cache.{
  Decision, Entry, Allocator, copy_decision, holds, or_else, pick_slot, refill,
}

-- No entry holds a decision for the name.
abbrev pub NoneHold : Text → List Entry → Type 0
NoneHold name = All (λ e. holds name e ≡ false)

-- No entry but the one at the index holds a decision for the name.
abbrev pub OnlyAt : Text → ℕ → List Entry → Type 0
OnlyAt name i [] = Unit
OnlyAt name zero (e ∷ es) = NoneHold name es
OnlyAt name (suc i) (e ∷ es) = (holds name e ≡ false) × OnlyAt name i es

-- No two used entries are for one name.
abbrev pub IsDistinct : List Entry → Type 0
IsDistinct [] = Unit
IsDistinct (e ∷ es) = (e.used ≡ true → NoneHold e.atsign es) × IsDistinct es

NoneHold-find_index :
    (name : Text) (es : List Entry) → find_index (holds name) es ≡ none → NoneHold name es
unfolding find_index
NoneHold-find_index name [] h = tt
NoneHold-find_index name (e ∷ es) h = ground (arith, NoneHold-find_index name es)

NoneHold-OnlyAt : (name : Text) (i : ℕ) (es : List Entry) → NoneHold name es → OnlyAt name i es
NoneHold-OnlyAt name i [] h = tt
NoneHold-OnlyAt name zero (e ∷ es) h = h.1
NoneHold-OnlyAt name (suc i) (e ∷ es) h = (h.0, NoneHold-OnlyAt name i es h.1)

pub holds-atsign :
    (name : Text) (e : Entry) → holds name e ≡ true → (e.used ≡ true) × (e.atsign ≡ name)
unfolding holds
holds-atsign name e h = ground (arith, eq_of_str_eq e.atsign name)

find_index-OnlyAt :
    (name : Text) (i : ℕ) (es : List Entry)
    → IsDistinct es
    → find_index (holds name) es ≡ some i
    → OnlyAt name i es
find_index-OnlyAt name i [] d h = tt
find_index-OnlyAt name zero (e ∷ es) d h =
    let (u, q) = holds-atsign name e (find_index-zero _ e es h) in
    subst (λ n. NoneHold n es) q (d.0 u)
find_index-OnlyAt name (suc i) (e ∷ es) d h =
    let (u, q) = find_index-suc (holds name) e es i h in (u, find_index-OnlyAt name i es d.1 q)

pub pick_slot-OnlyAt :
    (name : Text) (es : List Entry) → IsDistinct es → OnlyAt name (pick_slot name es) es
unfolding pick_slot
pick_slot-OnlyAt name es d = elim (Option-cases (find_index (holds name) es)) [
  | inl e ↦ NoneHold-OnlyAt name _ es (NoneHold-find_index name es e)
  | inr (i, e) ↦ rw (e, or_else) (find_index-OnlyAt name i es d e)
]

NoneHold-update_at :
    (name : Text) (f : Entry → Entry) (i : ℕ) (es : List Entry)
    → ((e : Entry) → holds name e ≡ false → holds name (f e) ≡ false)
    → NoneHold name es
    → NoneHold name (update_at f i es)
unfolding update_at
NoneHold-update_at name f i [] h n = tt
NoneHold-update_at name f zero (e ∷ es) h n = (h e n.0, n.1)
NoneHold-update_at name f (suc i) (e ∷ es) h n = (n.0, NoneHold-update_at name f i es h n.1)

module _ (alloc : Allocator) (name : Text) (d : Decision) (now : ℕ) where
  -- A slot that a store has filled, or failed to fill, is for no other name.
  pub refill-other :
      (other : Text) (e : Entry)
      → str_eq name other ≡ false
      → holds other (refill alloc name d now e) ≡ false
  unfolding refill holds
  refill-other other e h = ground arith

  refill-used :
      (e : Entry)
      → (refill alloc name d now e).used ≡ true
      → (refill alloc name d now e).atsign ≡ name
  unfolding refill
  refill-used e h = ground arith

  not-holds_ne : (e : Entry) → e.used ≡ true → holds name e ≡ false → str_eq name e.atsign ≡ false
  unfolding holds
  not-holds_ne e u h = ground (arith, eq_of_str_eq name e.atsign, str_eq_refl name)

  refill-IsDistinct :
      (i : ℕ) (es : List Entry)
      → OnlyAt name i es
      → IsDistinct es
      → IsDistinct (update_at (refill alloc name d now) i es)
  unfolding update_at
  refill-IsDistinct i [] o h = tt
  refill-IsDistinct zero (e ∷ es) o h =
      (λ u. subst (λ n. NoneHold n es) (sym (refill-used e u)) o, h.1)
  refill-IsDistinct (suc i) (e ∷ es) o h = (
    λ u.
        NoneHold-update_at e.atsign _ i es (λ f _. refill-other e.atsign f (not-holds_ne e u o.0))
          (h.0 u),
    refill-IsDistinct i es o.1 h.1,
  )

  -- A store keeps every name in one entry at most.
  pub store-IsDistinct :
      (es : List Entry)
      → IsDistinct es
      → IsDistinct (update_at (refill alloc name d now) (pick_slot name es) es)
  store-IsDistinct es h = refill-IsDistinct (pick_slot name es) es (pick_slot-OnlyAt name es h) h

strdup_all-length : (rules : List Text) → (length rules == 0) ≡ true → rules ≡ []
strdup_all-length [] h = refl
strdup_all-length (r ∷ rs) h = ground arith

-- A copy that is made is the decision.
pub copy_decision_lem :
    (alloc : Allocator) (d : Decision)
    → (copy_decision alloc d).1 ≡ true
    → (copy_decision alloc d).0 ≡ d
unfolding copy_decision
copy_decision_lem alloc d h = ground (arith, strdup_all-length d.permit_open)
