-- ===== src/Examples/Policy.antt =====
-- The theorems on atSigns, remembered decisions and the cooldown, at concrete inputs.
use noports.Prelude.{
  ℕ, suc, ◌+◌, ◌-◌, ◌≤◌, ◌<◌, ◌≡◌, ◌≢◌, ◌⊎◌, ◌↔◌, inl, inr, refl, ap, Bool, true, false, Option,
  none, some, List, [], ◌∷◌, arith, Text, codes, length, leb, str_eq, replicate,
}
use noports.Policy.Atsign.{
  normalize_text, atsign_equals, buffer_len, finish_normal, normalize_from, strip_at, classify,
  is_refused, to_lower,
}
use noports.Policy.Atsign.Same.{IsName, IsSameName, without_dots, atsign_equals-IsSameName}
use noports.Policy.Cache.{
  Decision, Cache, Allocator, copy_decision, init, cache_lookup, cache_store,
}
use noports.Policy.Cache.Refine.{Store, run, init-Refines}
use noports.Policy.Cache.Recall.{Recalls, cache_lookup-run}
use noports.Policy.Cache.Fill.{lookup-store}
use noports.Policy.Cooldown.{Slot, CheckKind, ping, npt, cooldown_allows, cooldown_ms, no_slot}
use noports.Policy.Cooldown.Laws.{allows_twice}

abbrev spelled : Text
spelled = codes "Al.Ice"

abbrev alice : Text
alice = codes "@alice"

spelled_normal : normalize_text spelled buffer_len ≡ some alice
unfolding normalize_text finish_normal normalize_from strip_at classify is_refused to_lower
spelled_normal = refl

alice_again : normalize_text alice buffer_len ≡ some alice
unfolding normalize_text finish_normal normalize_from strip_at classify is_refused to_lower
alice_again = refl

abbrev first_byte : Text → ℕ
first_byte [] = 0
first_byte (c ∷ cs) = c

name_plain : (cs : Text) → spelled ≢ 64 ∷ cs
name_plain cs h = omega (arith, ap first_byte h)

atsign_equals-IsSameName_example : (atsign_equals (some spelled) (some alice) ≡ true) ↔ (
    IsName spelled
    × IsName (codes "alice")
    × IsSameName (without_dots spelled) (without_dots (codes "alice")))
atsign_equals-IsSameName_example =
    atsign_equals-IsSameName spelled alice spelled (codes "alice") (inr (refl, name_plain))
      (inl refl)

abbrev granted : Decision
granted = record { authorized = true; permit_open = codes "*:22" ∷ [] }

abbrev all_succeed : Allocator
all_succeed = λ i. true

granted_copies : (copy_decision all_succeed granted).1 ≡ true
unfolding copy_decision
granted_copies = refl

room : 0 < length (init true 2).0.entries
unfolding init
room = omega arith

lookup-store_example :
    ((cache_store all_succeed (init true 2).0 spelled granted 100).1 ≡ true)
    × (cache_lookup all_succeed
          (cache_store all_succeed (init true 2).0 spelled granted 100).0
          alice
          200
        ≡ some granted)
lookup-store_example =
    lookup-store (init true 2).0 [] all_succeed all_succeed spelled alice alice granted 100 200
      (init-Refines true 2) room spelled_normal alice_again granted_copies granted_copies
      (omega arith)

abbrev calls : List Store
calls = record { alloc = all_succeed; atsign = spelled; decision = granted; now_ms = 100 } ∷ []

calls_found : cache_lookup all_succeed (run (init true 2).0 [] calls).0 alice 200 ≡ some granted
unfolding run init cache_lookup cache_store normalize_text finish_normal normalize_from strip_at
    classify is_refused to_lower str_eq noports.Policy.Cache.find_entry noports.Prelude.update_at
    noports.Policy.Cache.pick_slot noports.Prelude.find_index noports.Policy.Cache.holds
    noports.Policy.Cache.vacant_slot noports.Policy.Cache.refill
calls_found = refl

cache_lookup-run_example :
    Recalls (run (init true 2).0 [] calls).1 (normalize_text alice buffer_len) 200 granted
cache_lookup-run_example = cache_lookup-run true 2 calls all_succeed alice 200 granted calls_found

abbrev slots : List Slot
slots = no_slot ∷ no_slot ∷ []

first_allowed : (cooldown_allows slots spelled ping 5000).1 ≡ true
unfolding cooldown_allows normalize_text finish_normal normalize_from strip_at classify is_refused
    to_lower noports.Prelude.find_index noports.Policy.Cooldown.holds
first_allowed = refl

allows_twice_example :
    (cooldown_allows (cooldown_allows slots spelled ping 5000).0 alice ping 6000).1
    ≡ leb cooldown_ms (6000 - 5000)
allows_twice_example =
    allows_twice slots spelled alice alice ping 5000 6000 (omega arith) spelled_normal alice_again
      first_allowed
