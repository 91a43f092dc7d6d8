-- ===== src/Daemon/ClientKeys/Check.antt =====
-- noports_client_keys.cpp: _checkKey, one key's lookup with its budget of time, and _withdrawn_to.
pub mod Sound
use noports.Prelude.{
  ℕ, zero, suc, ◌+◌, ◌-◌, ◌*◌, ◌/◌, ◌≤◌, ◌<◌, ◌≡◌, ◌⊎◌, inl, inr, refl, sym, ap, ◌∙◌, Bool, true,
  false, ◌&&◌, ◌||◌, not, Option, none, some, List, [], ◌∷◌, ◌++◌, arith, leb, ltb, ◌==◌,
  if◌then◌else◌, Text, codes, drop, Bool-cases,
}
use noports.Daemon.ClientKeys.{KeyCheck, published, revoked, deleted, missing, unknown}
use noports.Daemon.Enrollment.Advert.{Lookup, found, not_found, not_served, failed}
use noports.Daemon.Enrollment.Uri.{from_last_at, strip_prefix}
use noports.Daemon.Notify.{split_at_sub}

-- NOPORTS_KEY_CHECK_BUDGET_MS
abbrev pub budget_ms : ℕ
budget_ms = 5000

-- _budget_left, with the milliseconds since the check began.
unfoldable pub budget_left : ℕ → ℕ
budget_left spent = if leb budget_ms (spent + 500) then 0 else budget_ms - spent

pub record Server : Type 0 where
  pub host : Text
  pub port : ℕ

-- What a check meets: the lookups of a uri on a server within a time, the atServer of an atSign, the
-- milliseconds since the check began at each of its four readings, and whether memory is there for
-- the two uris of a withdrawn record.
pub record CheckWorld : Type 0 where
  pub lookup : Server → Text → ℕ → Lookup
  pub find_at_server : Option Text → Option Server
  pub spent : ℕ → ℕ
  pub uri_memory : Bool

-- Where a record was withdrawn to: "r.__e" or "d.__e".
pub data Location : Type 0 where
  at_revoked at_deleted : Location

unfoldable pub suffix_of : Location → Text
suffix_of at_revoked = codes "r.__e"
suffix_of at_deleted = codes "d.__e"

-- The uri of a withdrawn record, from the parts around the namespace of the live one.
unfoldable pub withdrawn_uri : Text × Text → Location → Text
unfolding suffix_of
withdrawn_uri (front, back) l = front ++ (b'.' ∷ (suffix_of l ++ drop 6 back))

unfoldable pub is_found : Lookup → Bool
is_found (found v) = true
is_found not_found = false
is_found not_served = false
is_found failed = false

unfoldable pub is_not_found : Lookup → Bool
is_not_found not_found = true
is_not_found (found v) = false
is_not_found not_served = false
is_not_found failed = false

unfoldable pub is_not_served : Lookup → Bool
is_not_served not_served = true
is_not_served (found v) = false
is_not_served not_found = false
is_not_served failed = false

unfoldable pub is_apsk_uri : Text → Option (Text × Text) → Bool
unfolding strip_prefix
is_apsk_uri uri none = false
is_apsk_uri uri (some parts) = elim (strip_prefix (codes "public:_apsk.") uri) [
  | none ↦ false
  | some r ↦ true
]

-- The two lookups: none if it cannot be told, and otherwise where the record is.
unfoldable pub locate : CheckWorld → Server → ℕ → Text × Text → Option (Option Location)
unfolding withdrawn_uri is_found is_not_found
locate w s each parts =
    let r = w.lookup s (withdrawn_uri parts at_revoked) each in
    let d = w.lookup s (withdrawn_uri parts at_deleted) each in
    if not w.uri_memory
    then none
    else if is_found r
    then some (some at_revoked)
    else if is_found d
    then some (some at_deleted)
    else if is_not_found r && is_not_found d
    then some none
    else none

unfoldable pub locate_parts :
    CheckWorld → Server → Text → ℕ → Option (Text × Text) → Option (Option Location)
unfolding locate
locate_parts w s uri each none = some none
locate_parts w s uri each (some parts) = locate w s each parts

-- _withdrawn_to
unfoldable pub withdrawn_to : CheckWorld → Server → Text → ℕ → Option (Option Location)
unfolding locate_parts is_apsk_uri split_at_sub
withdrawn_to w s uri each =
    let parts = split_at_sub (codes ".a.__e@") uri in
    if is_apsk_uri uri parts then locate_parts w s uri each parts else some none

unfoldable pub check_of : Option (Option Location) → KeyCheck
check_of none = unknown
check_of (some none) = missing
check_of (some (some at_revoked)) = revoked
check_of (some (some at_deleted)) = deleted

-- The end of _checkKey: what is left of the budget is shared by two lookups.
unfoldable pub settle_missing : CheckWorld → Option Server → Text → KeyCheck
unfolding check_of withdrawn_to budget_left
settle_missing w none uri = unknown
settle_missing w (some s) uri =
    let each = budget_left (w.spent 3) / 2 in
    if each == 0 then unknown else check_of (withdrawn_to w s uri each)

unfoldable pub conclude : CheckWorld → Text → Option Server × Lookup → KeyCheck
unfolding settle_missing
conclude w uri (s, found v) = published
conclude w uri (s, not_found) = settle_missing w s uri
conclude w uri (s, not_served) = unknown
conclude w uri (s, failed) = unknown

-- The first lookup, where the server was known at the request.
unfoldable pub first_lookup : CheckWorld → Text → Option Server → Lookup
unfolding budget_left
first_lookup w uri none = not_served
first_lookup w uri (some s) = w.lookup s uri (budget_left (w.spent 0))

-- The second, on the server that the directory names now.
unfoldable pub second_lookup :
    CheckWorld → Text → Option Server → Option Server → Option Server × Lookup
unfolding budget_left
second_lookup w uri s none = (s, not_served)
second_lookup w uri s (some t) =
    if ltb 0 (budget_left (w.spent 1))
    then (some t, w.lookup t uri (budget_left (w.spent 2)))
    else (some t, not_served)

unfoldable pub look_up_key : CheckWorld → Text → Option Server → Option Server × Lookup
unfolding first_lookup second_lookup is_not_served
look_up_key w uri s =
    if is_not_served (first_lookup w uri s)
    then second_lookup w uri s (w.find_at_server (from_last_at uri))
    else (s, first_lookup w uri s)

-- _checkKey: the result, and the server that is kept for the key.
unfoldable pub check_key : CheckWorld → Text → Option Server → Option Server × KeyCheck
unfolding look_up_key conclude
check_key w uri s = ((look_up_key w uri s).0, conclude w uri (look_up_key w uri s))
