-- ===== src/Permit/Rules.antt =====
-- noports_daemon.cpp, _continueNptRequest: whether a request's host and port are permitted, by the
-- policy server's rules ("host:port" texts) or by the device's own list.
pub mod Spec
use noports.Prelude.{
  ℕ, zero, suc, ◌+◌, ◌-◌, ◌≤◌, ◌<◌, ◌≡◌, ◌↔◌, ◌⊎◌, inl, inr, refl, sym, ap, subst, ◌∙◌, Bool, true,
  false, ◌&&◌, ◌||◌, Option, none, some, List, [], ◌∷◌, ◌++◌, arith, ltb, leb, ◌==◌, if◌then◌else◌,
  Text, codes, str_eq, str_eq_refl, eq_of_str_eq, All, any, length, Bool-cases, Option-cases,
  ==_iff, some_inj,
}
use noports.Permit.Port.{parse_port_strict}

-- sizeof(h)
abbrev pub host_buffer : ℕ
host_buffer = 128

abbrev pub wildcard : Text
wildcard = codes "*"

-- `strrchr(entry, ':')`: the text before the last colon and the text behind it.
unfoldable pub split_at_colon : ℕ → Text → Option (Text × Text) → Option (Text × Text)
split_at_colon c cs (some (h, p)) = some (c ∷ h, p)
split_at_colon c cs none = if c == b':' then some ([], cs) else none

unfoldable pub split_last_colon : Text → Option (Text × Text)
unfolding split_at_colon
split_last_colon [] = none
split_last_colon (c ∷ cs) = split_at_colon c cs (split_last_colon cs)

-- `pm`: a malformed port matches nothing; only "*" stands for every port.
unfoldable pub port_match : ℕ → Option ℕ → Bool
port_match rport none = false
port_match rport (some p) = p == rport

unfoldable pub host_port_match : Text → ℕ → Option (Text × Text) → Bool
unfolding port_match
host_port_match rhost rport none = false
host_port_match rhost rport (some (h, p)) =
    if leb host_buffer (length h)
    then false
    else (str_eq h wildcard || str_eq h rhost)
      && (str_eq p wildcard || port_match rport (parse_port_strict p))

-- One round of the loop over the policy's rules.
unfoldable pub rule_permits : Text → ℕ → Text → Bool
unfolding host_port_match
rule_permits rhost rport entry = host_port_match rhost rport (split_last_colon entry)

unfoldable pub policy_permits : Text → ℕ → List Text → Bool
policy_permits rhost rport rules = any (rule_permits rhost rport) rules

-- NoPortsPermitOpen; port 0 stands for every port.
pub record PermitOpen : Type 0 where
  pub host : Text
  pub port : ℕ

unfoldable pub entry_permits : Text → ℕ → PermitOpen → Bool
entry_permits rhost rport e =
    (str_eq e.host wildcard || str_eq e.host rhost) && (e.port == 0 || e.port == rport)

unfoldable pub manager_permits : Text → ℕ → List PermitOpen → Bool
manager_permits rhost rport entries = any (entry_permits rhost rport) entries
