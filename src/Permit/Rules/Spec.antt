-- ===== src/Permit/Rules/Spec.antt =====
-- What one rule of the policy server permits, said without the loops of its parser.
use noports.Prelude.{
  ℕ, ◌<◌, ◌≡◌, ◌↔◌, ◌⊎◌, inl, inr, refl, ap, subst, true, false, ◌||◌, Option, none, some, [], ◌∷◌,
  ◌++◌, arith, leb, ◌==◌, Text, str_eq, str_eq_refl, eq_of_str_eq, All, length, Bool-cases,
  Option-cases, ==_iff, some_inj,
}
use noports.Permit.Port.{parse_port_strict}
use noports.Permit.Rules.{
  host_buffer, wildcard, split_at_colon, split_last_colon, port_match, host_port_match,
  rule_permits,
}

-- No colon in a text.
abbrev pub NoColon : Text → Type 0
NoColon = All (λ c. (c == b':') ≡ false)

-- A rule allows a host and a port, said without the loops.
pub record Allows (rhost : Text) (rport : ℕ) (entry : Text) : Type 0 where
  pub host : Text
  pub port : Text
  pub spelled : entry ≡ host ++ (b':' ∷ port)
  pub last : NoColon port
  pub fits : length host < host_buffer
  pub host_ok : (host ≡ wildcard) ⊎ (host ≡ rhost)
  pub port_ok : (port ≡ wildcard) ⊎ (parse_port_strict port ≡ some rport)

split_at_colon-none :
    (c : ℕ) (cs : Text) (o : Option (Text × Text))
    → split_at_colon c cs o ≡ none
    → ((c == b':') ≡ false) × (o ≡ none)
unfolding split_at_colon
split_at_colon-none c cs none h = (ground arith, refl)
split_at_colon-none c cs (some (x, y)) h = cc

split_last_colon-none : (s : Text) → split_last_colon s ≡ none → NoColon s
unfolding split_last_colon
split_last_colon-none [] h = tt
split_last_colon-none (c ∷ cs) h =
    let (a, b) = split_at_colon-none c cs (split_last_colon cs) h in (a, split_last_colon-none cs b)

-- The two parts of a text at its last colon.
abbrev IsSplit : Text → Text × Text → Type 0
IsSplit s r = (s ≡ r.0 ++ (b':' ∷ r.1)) × NoColon r.1

split_at_colon-some :
    (c : ℕ) (cs : Text) (r : Text × Text) (o : Option (Text × Text))
    → (o ≡ none → NoColon cs)
    → ((q : Text × Text) → o ≡ some q → IsSplit cs q)
    → split_at_colon c cs o ≡ some r
    → IsSplit (c ∷ cs) r
unfolding split_at_colon
split_at_colon-some c cs r none n k e = elim (Bool-cases (c == b':')) [
  | inl y ↦
      subst (IsSplit (c ∷ cs)) (some_inj (rw y at e))
        (ap (λ d. d ∷ cs) ((==_iff c b':').0 y), n refl)
  | inr y ↦ absurd (cc (rw y at e))
]
split_at_colon-some c cs r (some (x, y)) n k e =
    let (a, b) = k (x, y) refl in subst (IsSplit (c ∷ cs)) (some_inj e) (ap (◌∷◌ c) a, b)

split_last_colon-some : (s : Text) (r : Text × Text) → split_last_colon s ≡ some r → IsSplit s r
unfolding split_last_colon
split_last_colon-some [] r e = cc
split_last_colon-some (c ∷ cs) r e =
    split_at_colon-some c cs r (split_last_colon cs) (split_last_colon-none cs)
      (split_last_colon-some cs) e

NoColon-split : (s : Text) → NoColon s → split_last_colon s ≡ none
unfolding split_last_colon split_at_colon
NoColon-split [] n = refl
NoColon-split (c ∷ cs) n = rw (NoColon-split cs n.1, n.0)

split_last_colon-append :
    (h p : Text) → NoColon p → split_last_colon (h ++ (b':' ∷ p)) ≡ some (h, p)
unfolding split_last_colon split_at_colon
split_last_colon-append [] p n = rw (NoColon-split p n)
split_last_colon-append (c ∷ h) p n = rw (split_last_colon-append h p n)

or_eq-wildcard : (a b : Text) → str_eq a wildcard || str_eq a b ≡ true → (a ≡ wildcard) ⊎ (a ≡ b)
or_eq-wildcard a b h = ground (arith, eq_of_str_eq a wildcard, eq_of_str_eq a b)

wildcard-or_eq : (a b : Text) → (a ≡ wildcard) ⊎ (a ≡ b) → str_eq a wildcard || str_eq a b ≡ true
wildcard-or_eq a b (inl h) = rw (h, str_eq_refl wildcard)
wildcard-or_eq a b (inr h) = ground (arith, h, str_eq_refl b)

port_match_iff : (rport : ℕ) (o : Option ℕ) → (port_match rport o ≡ true) ↔ (o ≡ some rport)
unfolding port_match
port_match_iff rport none = (λ h. cc, λ h. cc)
port_match_iff rport (some p) = (λ h. ground arith, λ h. ground arith)

port_ok_of :
    (p : Text) (rport : ℕ)
    → str_eq p wildcard || port_match rport (parse_port_strict p) ≡ true
    → (p ≡ wildcard) ⊎ (parse_port_strict p ≡ some rport)
port_ok_of p rport h =
    ground (arith, eq_of_str_eq p wildcard, (port_match_iff rport (parse_port_strict p)).0)

of_port_ok :
    (p : Text) (rport : ℕ)
    → (p ≡ wildcard) ⊎ (parse_port_strict p ≡ some rport)
    → str_eq p wildcard || port_match rport (parse_port_strict p) ≡ true
of_port_ok p rport (inl h) = rw (h, str_eq_refl wildcard)
of_port_ok p rport (inr h) = ground (arith, (port_match_iff rport (parse_port_strict p)).1 h)

host_port_match-some :
    (rhost : Text) (rport : ℕ) (h p : Text)
    → host_port_match rhost rport (some (h, p)) ≡ true
    → (length h < host_buffer)
      × (str_eq h wildcard || str_eq h rhost ≡ true)
      × (str_eq p wildcard || port_match rport (parse_port_strict p) ≡ true)
unfolding host_port_match
host_port_match-some rhost rport h p e = ground arith

rule_permits-Allows :
    (rhost : Text) (rport : ℕ) (entry : Text)
    → rule_permits rhost rport entry ≡ true
    → Allows rhost rport entry
unfolding rule_permits
rule_permits-Allows rhost rport entry e = elim (Option-cases (split_last_colon entry)) [
  | inl q ↦ absurd (unfold host_port_match in cc (rw q at e))
  | inr ((h, p), q) ↦
      let (s, n) = split_last_colon-some entry (h, p) q in
      let (f, a, b) = host_port_match-some rhost rport h p (rw q at e) in
      record {
        host = h;
        port = p;
        spelled = s;
        last = n;
        fits = f;
        host_ok = or_eq-wildcard h rhost a;
        port_ok = port_ok_of p rport b;
      }
]

Allows-rule_permits :
    (rhost : Text) (rport : ℕ) (entry : Text)
    → Allows rhost rport entry
    → rule_permits rhost rport entry ≡ true
unfolding rule_permits host_port_match
Allows-rule_permits rhost rport entry a =
    let f : leb host_buffer (length a.host) ≡ false = ground (arith, a.fits) in
    rw (a.spelled, split_last_colon-append a.host a.port a.last)
      (rw (f, wildcard-or_eq a.host rhost a.host_ok, of_port_ok a.port rport a.port_ok))

-- A rule of the policy server permits a host and a port exactly when it is "h:p", split at its last
-- colon, with h shorter than 128 bytes, h "*" or the host, and p "*" or text that reads as the port.
pub rule_permits_iff :
    (rhost : Text) (rport : ℕ) (entry : Text)
    → (rule_permits rhost rport entry ≡ true) ↔ Allows rhost rport entry
rule_permits_iff rhost rport entry =
    (rule_permits-Allows rhost rport entry, Allows-rule_permits rhost rport entry)
