-- ===== src/Relay/Connect/Budget.antt =====
-- A session never holds more sockets than its share.
use noports.Prelude.{
  ℕ, zero, suc, ◌+◌, ◌≤◌, ◌≡◌, refl, Bool, true, false, not, Option, none, some, List, [], ◌∷◌,
  arith, ltb, if◌then◌else◌, Text, get_elem?, update_at, find_index, Bool-cases, subst, inl, inr,
}
use noports.Relay.Sub.{
  close_slot, Sub, reclaim, reclaim_dead_subs, is_evictable, find_evictable_sub, latest,
}
use noports.Relay.Sub.Eviction.{longest_idle-get}
use noports.Relay.Connect.{
  max_pcbs, Table, Device, active_subs, close_sub, close_at, reclaim_table, session_pcbs,
  evict_for_budget, budget_guard, heap_guard, slot_or_victim, find_slot, activated, open_in,
  after_budget, handle_connect_msg,
}

reclaim-active :
    (s : Sub) → (if (reclaim s).slot.active then 1 else 0) ≤ (if s.slot.active then 1 else 0)
unfolding reclaim close_slot
reclaim-active s = ground arith

reclaim_dead_subs-active : (ss : List Sub) → active_subs (reclaim_dead_subs ss) ≤ active_subs ss
unfolding reclaim_dead_subs active_subs
reclaim_dead_subs-active [] = omega arith
reclaim_dead_subs-active (s ∷ ss) = omega (arith, reclaim-active s, reclaim_dead_subs-active ss)

-- One more connection at most.
activated-active :
    (now i : ℕ) (ss : List Sub) → active_subs (update_at (activated now) i ss) ≤ active_subs ss + 1
unfolding activated active_subs update_at
activated-active now i [] = omega arith
activated-active now zero (s ∷ ss) = ground arith
activated-active now (suc i) (s ∷ ss) = omega (arith, activated-active now i ss)

-- A connection that gives way leaves one less.
close_at-active :
    (i : ℕ) (ss : List Sub) (s : Sub)
    → get_elem? ss i ≡ some s
    → s.slot.active ≡ true
    → active_subs (update_at close_sub i ss) + 1 ≡ active_subs ss
unfolding active_subs update_at close_slot
close_at-active i [] s g a = absurd cc
close_at-active zero (x ∷ xs) s g a = ground arith
close_at-active (suc i) (x ∷ xs) s g a = omega (arith, close_at-active i xs s g a)

-- The connection that gives way is there, and it is evictable.
pub find_evictable_sub-get :
    (now v : ℕ) (ss : List Sub)
    → find_evictable_sub now ss ≡ some v
    → (s : Sub) × (get_elem? ss v ≡ some s) × (is_evictable now s ≡ true)
unfolding find_evictable_sub
find_evictable_sub-get now v ss h =
    elim (longest_idle-get (is_evictable now) none latest 0 ss v h) [
      | inl e ↦ absurd cc
      | inr (k, s, a, g, t) ↦
          let q : k ≡ v = omega arith in (s, subst (λ j. get_elem? ss j ≡ some s) q g, t)
    ]

evictable-active : (now : ℕ) (s : Sub) → is_evictable now s ≡ true → s.slot.active ≡ true
unfolding is_evictable
evictable-active now s h = ground arith

victim-active :
    (now v : ℕ) (ss : List Sub)
    → find_evictable_sub now ss ≡ some v
    → active_subs (update_at close_sub v ss) + 1 ≡ active_subs ss
victim-active now v ss h =
    let (s, g, e) = find_evictable_sub-get now v ss h in
    close_at-active v ss s g (evictable-active now s e)

evict_for_budget-room :
    (now : ℕ) (t : Table) (o : Option ℕ)
    → find_evictable_sub now t.subs ≡ o
    → session_pcbs t.subs ≤ max_pcbs
    → (session_pcbs (evict_for_budget o t).0.subs ≤ max_pcbs)
      × ((evict_for_budget o t).1 ≡ true
          → session_pcbs (evict_for_budget o t).0.subs + 2 ≤ max_pcbs)
unfolding evict_for_budget session_pcbs close_at
evict_for_budget-room now t none h l = (l, λ e. absurd cc)
evict_for_budget-room now t (some v) h l =
    let d = victim-active now v t.subs h in (omega arith, λ e. omega arith)

budget_guard-room :
    (now : ℕ) (t : Table)
    → session_pcbs t.subs ≤ max_pcbs
    → (session_pcbs (budget_guard now t).0.subs ≤ max_pcbs)
      × ((budget_guard now t).1 ≡ true → session_pcbs (budget_guard now t).0.subs + 2 ≤ max_pcbs)
unfolding budget_guard
budget_guard-room now t l = elim (Bool-cases (ltb max_pcbs (session_pcbs t.subs + 2))) [
  | inl e ↦ rw e (evict_for_budget-room now t (find_evictable_sub now t.subs) refl l)
  | inr e ↦ rw e (l, λ _. ground arith)
]

slot_or_victim-room :
    (now : ℕ) (t : Table) (o v : Option ℕ)
    → find_evictable_sub now t.subs ≡ v
    → session_pcbs (slot_or_victim o v t).0.subs ≤ session_pcbs t.subs
unfolding slot_or_victim session_pcbs close_at
slot_or_victim-room now t (some i) v h = omega arith
slot_or_victim-room now t none none h = omega arith
slot_or_victim-room now t none (some v) h = let d = victim-active now v t.subs h in omega arith

open_in-room :
    (d : Device) (a : Text) (t : Table) (o : Option ℕ)
    → session_pcbs t.subs + 2 ≤ max_pcbs
    → session_pcbs (open_in d a (t, o)).0.subs ≤ max_pcbs
open_in-room d a t none l = unfold open_in in omega arith
open_in-room d a t (some i) l =
    let n = activated-active d.now_ms i t.subs in unfold open_in session_pcbs in ground arith

if-room :
    (b : Bool) (x y : Table × Bool)
    → session_pcbs x.0.subs ≤ max_pcbs
    → session_pcbs y.0.subs ≤ max_pcbs
    → session_pcbs (if b then x else y).0.subs ≤ max_pcbs
if-room true x y p q = p
if-room false x y p q = q

after_budget-room :
    (d : Device) (a : Text) (t : Table) (go : Bool)
    → session_pcbs t.subs ≤ max_pcbs
    → (go ≡ true → session_pcbs t.subs + 2 ≤ max_pcbs)
    → session_pcbs (after_budget d a (t, go)).0.subs ≤ max_pcbs
after_budget-room d a t false l r = unfold after_budget in l
after_budget-room d a t true l r =
    let n =
      slot_or_victim-room d.now_ms t (find_index (λ s. not s.slot.active) t.subs)
        (find_evictable_sub d.now_ms t.subs) refl in
    let m : session_pcbs (find_slot d.now_ms t).0.subs ≤ session_pcbs t.subs =
      unfold find_slot in n in
    let k : session_pcbs (find_slot d.now_ms t).0.subs + 2 ≤ max_pcbs = omega (arith, m, r refl) in
    unfold after_budget in
    if-room (not (heap_guard d.heap t)) _ _ l
      (open_in-room d a (find_slot d.now_ms t).0 (find_slot d.now_ms t).1 k)

-- A session whose sockets are within the relay's share stays within it, whatever message comes: the
-- control socket and two for each active connection are never more than MAX_RELAY_PCBS.
pub handle_connect_msg-room :
    (d : Device) (arguments : Text) (t : Table)
    → session_pcbs t.subs ≤ max_pcbs
    → session_pcbs (handle_connect_msg d arguments t).0.subs ≤ max_pcbs
unfolding handle_connect_msg reclaim_table
handle_connect_msg-room d a t l =
    let r : session_pcbs (reclaim_dead_subs t.subs) ≤ max_pcbs =
      (let q = reclaim_dead_subs-active t.subs in unfold session_pcbs in omega arith) in
    let (x, y) = budget_guard-room d.now_ms (reclaim_table t) r in after_budget-room d a _ _ x y
