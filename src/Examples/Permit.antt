-- ===== src/Examples/Permit.antt =====
-- The theorems on permitted hosts and ports, at concrete inputs.
use noports.Prelude.{
  ◌<◌, ◌≡◌, ◌↔◌, ◌||◌, refl, true, none, some, [], ◌∷◌, arith, codes, length, ltb, ◌==◌,
  if◌then◌else◌,
}
use noports.Permit.Port.{
  is_space, is_digit, uint16_max, parse_port_strict, decimal_value, parse_port_strict-decimal,
  parse_port_strict-lenient,
}
use noports.Permit.Rules.{rule_permits}
use noports.Permit.Rules.Spec.{Allows, rule_permits_iff}
use noports.Permit.Denial.{list_size, list_policy, list_policy_fits}

rule_permits_iff_example :
    (rule_permits (codes "localhost") 22 (codes "*:22") ≡ true)
    ↔ Allows (codes "localhost") 22 (codes "*:22")
rule_permits_iff_example = rule_permits_iff (codes "localhost") 22 (codes "*:22")

two_digit : is_digit b'2' ≡ true
unfolding is_digit
two_digit = refl

blank_space : is_space b' ' ≡ true
unfolding is_space
blank_space = refl

parse_port_strict-decimal_example : parse_port_strict (codes "22") ≡ (
    if decimal_value 0 (codes "22") == 0 || ltb uint16_max (decimal_value 0 (codes "22"))
    then none
    else some (decimal_value 0 (codes "22")))
parse_port_strict-decimal_example =
    parse_port_strict-decimal b'2' (codes "2") (two_digit, (two_digit, tt))

parse_port_strict-lenient_example :
    (parse_port_strict (b' ' ∷ codes "2") ≡ parse_port_strict (codes "2"))
    × (parse_port_strict (b'+' ∷ b'2' ∷ codes "2") ≡ parse_port_strict (b'2' ∷ codes "2"))
parse_port_strict-lenient_example =
    parse_port_strict-lenient b' ' b'2' (codes "2") blank_space two_digit

list_policy_fits_example :
    length (list_policy 0 [] (codes "localhost:22" ∷ codes "*:80" ∷ [])) < list_size
list_policy_fits_example =
    list_policy_fits 0 [] (codes "localhost:22" ∷ codes "*:80" ∷ []) (omega arith)
