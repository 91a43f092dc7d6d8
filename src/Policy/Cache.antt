-- ===== src/Policy/Cache.antt =====
-- noports_policy_limits.c: the policy decisions that are reused for a while, one for each client.
-- A time is the number of milliseconds since boot. The C code subtracts times in `int64_t`, here
-- `-` stops at 0: the two agree wherever the difference is compared with a positive constant.
pub mod Laws
pub mod Refine
pub mod Recall
pub mod Fill
pub mod Evict
use noports.Prelude.{
  ℕ, zero, suc, ◌+◌, ◌-◌, Bool, true, false, ◌&&◌, Option, none, some, List, [], ◌∷◌, ltb, leb,
  ◌==◌, if◌then◌else◌, Text, str_eq, length, get_elem?, replicate, not, find_index, update_at,
}
use noports.Policy.Atsign.{normalize_text, buffer_len}

-- NOPORTS_POLICY_CACHE_TTL_MS
abbrev pub ttl_ms : ℕ
ttl_ms = 15000

-- NOPORTS_POLICY_CACHE_MAX_SIZE
abbrev pub max_size : ℕ
max_size = 64

pub record Decision : Type 0 where
  pub authorized : Bool
  pub permit_open : List Text

pub record Entry : Type 0 where
  pub used : Bool
  pub atsign : Text
  pub checked_at_ms : ℕ
  pub decision : Decision

-- `size` is the length of `entries`.
pub record Cache : Type 0 where
  pub entries : List Entry

-- noports_policy_decision_free
abbrev pub no_decision : Decision
no_decision = record { authorized = false; permit_open = [] }

abbrev pub no_entry : Entry
no_entry = record { used = false; atsign = []; checked_at_ms = 0; decision = no_decision }

-- Which allocations succeed: `calloc` is the 0th of a copy, and `strdup` of the i-th rule is i + 1.
abbrev pub Allocator : Type 0
Allocator = ℕ → Bool

unfoldable pub strdup_all : Allocator → ℕ → List Text → Bool
strdup_all alloc i [] = true
strdup_all alloc i (rule ∷ rules) = alloc (i + 1) && strdup_all alloc (i + 1) rules

-- copy_decision: the copy and whether it could be made. A copy that fails holds no rule.
unfoldable pub copy_decision : Allocator → Decision → Decision × Bool
unfolding strdup_all
copy_decision alloc src =
    if length src.permit_open == 0
    then (record { authorized = src.authorized; permit_open = [] }, true)
    else if not (alloc 0)
    then (record { authorized = src.authorized; permit_open = [] }, false)
    else if strdup_all alloc 0 src.permit_open
    then (src, true)
    else (no_decision, false)

-- noports_policy_cache_init; `alloc` says whether `calloc` of the entries succeeds. The flag is
-- `return 0`.
unfoldable pub init : Bool → ℕ → Cache × Bool
init alloc size =
    if ltb max_size size
    then (record { entries = [] }, false)
    else if size == 0
    then (record { entries = [] }, true)
    else if not alloc
    then (record { entries = [] }, false)
    else (record { entries = replicate size no_entry }, true)

unfoldable pub holds : Text → Entry → Bool
holds name entry = entry.used && str_eq entry.atsign name

-- The entry at which the loop of the lookup stops.
unfoldable pub find_entry : Text → List Entry → Option Entry
find_entry name [] = none
find_entry name (e ∷ es) = if holds name e then some e else find_entry name es

-- `none` is `return false`.
unfoldable pub fresh_copy : Allocator → ℕ → Option Entry → Option Decision
fresh_copy alloc now none = none
fresh_copy alloc now (some e) =
    if leb ttl_ms (now - e.checked_at_ms)
    then none
    else if (copy_decision alloc e.decision).1
    then some (copy_decision alloc e.decision).0
    else none

unfoldable pub lookup_normal : Allocator → Cache → Option Text → ℕ → Option Decision
lookup_normal alloc cache none now = none
lookup_normal alloc cache (some name) now = fresh_copy alloc now (find_entry name cache.entries)

-- noports_policy_cache_lookup
unfoldable pub cache_lookup : Allocator → Cache → Text → ℕ → Option Decision
unfolding lookup_normal fresh_copy
cache_lookup alloc cache atsign now =
    lookup_normal alloc cache (normalize_text atsign buffer_len) now

-- The loop for the oldest entry: `slot` is the best so far and `at` its time.
unfoldable pub oldest : ℕ → ℕ → ℕ → List Entry → ℕ
oldest slot at i [] = slot
oldest slot at i (e ∷ es) =
    oldest (if ltb e.checked_at_ms at then i else slot)
      (if ltb e.checked_at_ms at then e.checked_at_ms else at) (i + 1) es

unfoldable pub or_else : Option ℕ → ℕ → ℕ
or_else none d = d
or_else (some i) d = i

unfoldable pub oldest_slot : List Entry → ℕ
oldest_slot [] = 0
oldest_slot (e ∷ es) = oldest 0 e.checked_at_ms 1 es

-- The second and the third search for a slot: an unused entry, or the oldest.
unfoldable pub vacant_slot : List Entry → ℕ
unfolding or_else oldest_slot
vacant_slot es = or_else (find_index (λ e. not e.used) es) (oldest_slot es)

-- The three searches for a slot, in their order.
unfoldable pub pick_slot : Text → List Entry → ℕ
unfolding or_else
pick_slot name es = or_else (find_index (holds name) es) (vacant_slot es)

-- The entry that a store leaves in its slot, which held `old`.
unfoldable pub refill : Allocator → Text → Decision → ℕ → Entry → Entry
unfolding copy_decision
refill alloc name d now old =
    let (copy, copied) = copy_decision alloc d in
    if copied
    then record { used = true; atsign = name; checked_at_ms = now; decision = copy }
    else record old { used = false; decision = copy }

unfoldable pub store_normal : Allocator → Cache → Option Text → Decision → ℕ → Cache × Bool
store_normal alloc cache none d now = (cache, false)
store_normal alloc cache (some name) d now = (
  record {
    entries = update_at (refill alloc name d now) (pick_slot name cache.entries) cache.entries;
  },
  (copy_decision alloc d).1,
)

-- noports_policy_cache_store; the flag is `return 0`.
unfoldable pub cache_store : Allocator → Cache → Text → Decision → ℕ → Cache × Bool
unfolding store_normal
cache_store alloc cache atsign d now =
    if length cache.entries == 0
    then (cache, true)
    else store_normal alloc cache (normalize_text atsign buffer_len) d now
