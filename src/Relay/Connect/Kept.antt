-- ===== src/Relay/Connect/Kept.antt =====
-- Whom a `connect:` message leaves alone.
use noports.Prelude.{
  ℕ, zero, suc, ◌+◌, ◌≡◌, ◌≢◌, refl, Bool, true, false, not, Option, none, some, List, [], ◌∷◌,
  arith, ltb, if◌then◌else◌, Text, get_elem?, update_at, find_index, find_index-zero,
  find_index-suc, subst, some_inj, sym, ◌∙◌,
}
use noports.Relay.Sub.{Sub, both_dead, reclaim, reclaim_dead_subs, is_evictable, find_evictable_sub}
use noports.Relay.Connect.{
  Table, Device, close_sub, close_at, reclaim_table, evict_for_budget, budget_guard, heap_guard,
  slot_or_victim, find_slot, activated, open_in, after_budget, handle_connect_msg, session_pcbs,
  max_pcbs,
}
use noports.Relay.Connect.Budget.{find_evictable_sub-get}

get-update_other :
    (f : Sub → Sub) (i j : ℕ) (ss : List Sub) (s : Sub)
    → i ≢ j
    → get_elem? ss j ≡ some s
    → get_elem? (update_at f i ss) j ≡ some s
unfolding update_at
get-update_other f i j [] s n g = g
get-update_other f zero zero (x ∷ xs) s n g = absurd (n refl)
get-update_other f zero (suc j) (x ∷ xs) s n g = g
get-update_other f (suc i) zero (x ∷ xs) s n g = g
get-update_other f (suc i) (suc j) (x ∷ xs) s n g =
    get-update_other f i j xs s (λ e. n (omega arith)) g

module _ (now j : ℕ) (s : Sub) where
  -- A connection that is open, not dead on both sides, and not evictable now.
  abbrev IsLive : Type 0
  IsLive = (s.slot.active ≡ true) × (both_dead s.peers ≡ false) × (is_evictable now s ≡ false)

  abbrev Holds : List Sub → Type 0
  Holds ss = get_elem? ss j ≡ some s

  reclaim-kept : IsLive → reclaim s ≡ s
  unfolding reclaim
  reclaim-kept (a, b, _) = ground arith

  reclaim_dead_subs-kept :
      (i : ℕ) (ss : List Sub)
      → IsLive
      → get_elem? ss i ≡ some s
      → get_elem? (reclaim_dead_subs ss) i ≡ some s
  unfolding reclaim_dead_subs
  reclaim_dead_subs-kept i [] l g = absurd cc
  reclaim_dead_subs-kept zero (x ∷ xs) l g =
      let r = reclaim-kept l in
      subst (λ y. some (reclaim y) ≡ some s) (sym (some_inj g)) (rw r refl)
  reclaim_dead_subs-kept (suc i) (x ∷ xs) l g = reclaim_dead_subs-kept i xs l g

  -- A victim is another slot.
  victim-other :
      (v : ℕ) (ss : List Sub) → IsLive → Holds ss → find_evictable_sub now ss ≡ some v → v ≢ j
  victim-other v ss (_, _, n) g h e =
      let (x, f, t) = find_evictable_sub-get now v ss h in
      let q : x ≡ s = some_inj (sym f ∙ subst (λ k. get_elem? ss k ≡ some s) (sym e) g) in
      let u : is_evictable now s ≡ true = subst (λ y. is_evictable now y ≡ true) q t in cc

  close_at-kept :
      (v : ℕ) (t : Table)
      → IsLive
      → find_evictable_sub now t.subs ≡ some v
      → Holds t.subs
      → Holds (close_at v t).subs
  unfolding close_at
  close_at-kept v t l h g = get-update_other close_sub v j t.subs s (victim-other v t.subs l g h) g

  evict_for_budget-kept :
      (t : Table) (o : Option ℕ)
      → IsLive
      → find_evictable_sub now t.subs ≡ o
      → Holds t.subs
      → Holds (evict_for_budget o t).0.subs
  unfolding evict_for_budget
  evict_for_budget-kept t none l h g = g
  evict_for_budget-kept t (some v) l h g = close_at-kept v t l h g

  if-kept :
      (b : Bool) (x y : Table × Bool)
      → Holds x.0.subs
      → Holds y.0.subs
      → Holds (if b then x else y).0.subs
  if-kept true x y p q = p
  if-kept false x y p q = q

  budget_guard-kept : (t : Table) → IsLive → Holds t.subs → Holds (budget_guard now t).0.subs
  unfolding budget_guard
  budget_guard-kept t l g =
      if-kept (ltb max_pcbs (session_pcbs t.subs + 2)) _ _
        (evict_for_budget-kept t (find_evictable_sub now t.subs) l refl g) g

  -- A free slot is another one too.
  free-other :
      (i k : ℕ) (ss : List Sub)
      → s.slot.active ≡ true
      → get_elem? ss k ≡ some s
      → find_index (λ x. not x.slot.active) ss ≡ some i
      → i ≢ k
  free-other i k [] a g h e = absurd cc
  free-other zero zero (x ∷ xs) a g h e =
      let f = find_index-zero (λ y. not y.slot.active) x xs h in
      let q : x ≡ s = some_inj g in
      let u : not s.slot.active ≡ true = subst (λ y. not y.slot.active ≡ true) q f in ground arith
  free-other zero (suc k) (x ∷ xs) a g h e = omega arith
  free-other (suc i) zero (x ∷ xs) a g h e = omega arith
  free-other (suc i) (suc k) (x ∷ xs) a g h e =
      free-other i k xs a g (find_index-suc (λ y. not y.slot.active) x xs i h).1 (omega arith)

  -- The slot that is set up, and the table that it is set up in.
  Fits : Table × Option ℕ → Type 0
  Fits (t, o) = Holds t.subs × ((i : ℕ) → o ≡ some i → i ≢ j)

  slot_or_victim-kept :
      (t : Table) (o v : Option ℕ)
      → IsLive
      → find_index (λ x. not x.slot.active) t.subs ≡ o
      → find_evictable_sub now t.subs ≡ v
      → Holds t.subs
      → Fits (slot_or_victim o v t)
  unfolding slot_or_victim Fits
  slot_or_victim-kept t (some i) v l h f g = (g, λ k e. free-other k j t.subs l.0 g (h ∙ e))
  slot_or_victim-kept t none none l h f g = (g, λ k e. absurd cc)
  slot_or_victim-kept t none (some v) l h f g =
      (close_at-kept v t l f g, λ k e. victim-other k t.subs l g (f ∙ e))

  open_in-kept :
      (d : Device) (a : Text) (t : Table) (o : Option ℕ)
      → Fits (t, o)
      → Holds (open_in d a (t, o)).0.subs
  unfolding open_in Fits
  open_in-kept d a t none f = f.0
  open_in-kept d a t (some i) f =
      if-kept _ _ _ (get-update_other (activated d.now_ms) i j t.subs s (f.1 i refl) f.0) f.0

  after_budget-kept :
      (d : Device) (a : Text) (t : Table) (go : Bool)
      → d.now_ms ≡ now
      → IsLive
      → Holds t.subs
      → Holds (after_budget d a (t, go)).0.subs
  unfolding after_budget find_slot
  after_budget-kept d a t go e l g = if-kept (not go) _ _ g (
      if-kept (not (heap_guard d.heap t)) _ _ g (
        open_in-kept d a _ _ (
          slot_or_victim-kept t (find_index (λ x. not x.slot.active) t.subs)
            (find_evictable_sub d.now_ms t.subs) l refl (rw e refl) g)))

-- Room is never made at the cost of a live connection: one that is active, whose peers have not
-- both closed, and that is not evictable at the time, is the same after any `connect:` message.
pub handle_connect_msg-kept :
    (d : Device) (arguments : Text) (t : Table) (j : ℕ) (s : Sub)
    → s.slot.active ≡ true
    → both_dead s.peers ≡ false
    → is_evictable d.now_ms s ≡ false
    → get_elem? t.subs j ≡ some s
    → get_elem? (handle_connect_msg d arguments t).0.subs j ≡ some s
unfolding handle_connect_msg reclaim_table
handle_connect_msg-kept d a t j s x y z g =
    after_budget-kept d.now_ms j s d a _ _ refl (x, y, z)
      (budget_guard-kept d.now_ms j s (reclaim_table t) (x, y, z)
        (reclaim_dead_subs-kept d.now_ms j s j t.subs (x, y, z) g))
