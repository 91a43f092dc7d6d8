-- ===== src/Policy/Cooldown.antt =====
-- noports_policy_limits.c: how often one sender may ask, by the kind of its request.
-- A `checked_at_ms` that counts only under its `checked` flag is an optional time.
pub mod Laws
use noports.Prelude.{
  ℕ, zero, suc, ◌+◌, ◌-◌, Bool, true, false, ◌&&◌, Option, none, some, List, [], ◌∷◌, ltb, leb,
  ◌==◌, if◌then◌else◌, Text, str_eq, length, replicate, not, find_index, update_at,
}
use noports.Policy.Atsign.{normalize_text, buffer_len}

-- NOPORTS_POLICY_COOLDOWN_SLOTS
abbrev pub slot_count : ℕ
slot_count = 8

-- NOPORTS_POLICY_COOLDOWN_MS
abbrev pub cooldown_ms : ℕ
cooldown_ms = 2000

pub data CheckKind : Type 0 where
  ping npt : CheckKind

pub record Slot : Type 0 where
  pub used : Bool
  pub atsign : Text
  pub ping_at_ms : Option ℕ
  pub npt_at_ms : Option ℕ

abbrev pub no_slot : Slot
no_slot = record { used = false; atsign = []; ping_at_ms = none; npt_at_ms = none }

-- noports_policy_cooldown_init
unfoldable pub cooldown_init : List Slot
cooldown_init = replicate slot_count no_slot

abbrev pub at_kind : CheckKind → Slot → Option ℕ
at_kind ping s = s.ping_at_ms
at_kind npt s = s.npt_at_ms

abbrev pub record_check : CheckKind → ℕ → Slot → Slot
record_check ping now s = record s { ping_at_ms = some now }
record_check npt now s = record s { npt_at_ms = some now }

-- `a < b`, with `none` for INT64_MIN.
abbrev pub before : Option ℕ → Option ℕ → Bool
before a none = false
before none (some b) = true
before (some a) (some b) = ltb a b

unfoldable pub last_active_ms : Slot → Option ℕ
last_active_ms s = if before s.npt_at_ms s.ping_at_ms then s.ping_at_ms else s.npt_at_ms

unfoldable pub holds : Text → Slot → Bool
holds name s = s.used && str_eq s.atsign name

-- The loop for the sender active longest ago: `slot` is the best so far and `at` its time.
unfoldable pub least_active : ℕ → Option ℕ → ℕ → List Slot → ℕ
least_active slot at i [] = slot
least_active slot at i (s ∷ ss) =
    least_active (if before (last_active_ms s) at then i else slot)
      (if before (last_active_ms s) at then last_active_ms s else at) (i + 1) ss

unfoldable pub least_active_slot : List Slot → ℕ
least_active_slot [] = 0
least_active_slot (s ∷ ss) = least_active 0 (last_active_ms s) 1 ss

-- Whether a check at `last` keeps a check at `now` back.
abbrev pub is_recent : Option ℕ → ℕ → Bool
is_recent none now = false
is_recent (some last) now = ltb (now - last) cooldown_ms

-- The slot of a sender that is not in the table: a free one, or the least active.
unfoldable pub free_slot : Option ℕ → List Slot → ℕ
free_slot (some i) slots = i
free_slot none slots = least_active_slot slots

unfoldable pub new_sender : Text → Slot
new_sender name = record { used = true; atsign = name; ping_at_ms = none; npt_at_ms = none }

unfoldable pub recent_at : CheckKind → ℕ → ℕ → List Slot → Bool
recent_at kind now i [] = false
recent_at kind now zero (s ∷ ss) = is_recent (at_kind kind s) now
recent_at kind now (suc i) (s ∷ ss) = recent_at kind now i ss

unfoldable pub allows_slot : CheckKind → ℕ → Text → Option ℕ → List Slot → List Slot × Bool
unfolding free_slot new_sender
allows_slot kind now name (some i) slots =
    if recent_at kind now i slots
    then (slots, false)
    else (update_at (record_check kind now) i slots, true)
allows_slot kind now name none slots = (
  update_at (λ _. record_check kind now (new_sender name))
      (free_slot (find_index (λ s. not s.used) slots) slots) slots,
  true,
)

unfoldable pub allows_normal : CheckKind → ℕ → Option Text → List Slot → List Slot × Bool
unfolding allows_slot
allows_normal kind now none slots = (slots, false)
allows_normal kind now (some name) slots =
    allows_slot kind now name (find_index (holds name) slots) slots

-- noports_policy_cooldown_allows
unfoldable pub cooldown_allows : List Slot → Text → CheckKind → ℕ → List Slot × Bool
unfolding allows_normal
cooldown_allows slots atsign kind now =
    allows_normal kind now (normalize_text atsign buffer_len) slots
