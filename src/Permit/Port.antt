-- ===== src/Permit/Port.antt =====
-- noports_daemon.cpp, _parse_port_strict: a TCP port from text. `none` is the return of -1.
use noports.Prelude.{
  ℕ, ◌+◌, ◌-◌, ◌*◌, ◌≤◌, ◌≡◌, refl, ap, Bool, true, false, ◌&&◌, ◌||◌, Option, none, some, [], ◌∷◌,
  arith, ltb, leb, ◌==◌, if◌then◌else◌, Text, All,
}

abbrev pub uint16_max : ℕ
uint16_max = 65535

-- What `strtol` skips at the front: `isspace`.
unfoldable pub is_space : ℕ → Bool
is_space c = c == b' ' || (leb 9 c && leb c 13)

unfoldable pub is_digit : ℕ → Bool
is_digit c = leb b'0' c && leb c b'9'

unfoldable pub skip_space : Text → Text
skip_space [] = []
skip_space (c ∷ cs) = if is_space c then skip_space cs else c ∷ cs

-- The digits that `strtol` reads, and where it stops.
unfoldable pub scan_digits : ℕ → Text → ℕ × Text
unfolding is_digit
scan_digits acc [] = (acc, [])
scan_digits acc (c ∷ cs) =
    let rest = scan_digits (acc * 10 + (c - b'0')) cs in if is_digit c then rest else (acc, c ∷ cs)

unfoldable pub starts_with_digit : Text → Bool
unfolding is_digit
starts_with_digit [] = false
starts_with_digit (c ∷ cs) = is_digit c

-- `*end != '\0'`, and the range check of a number that is not negative.
unfoldable pub port_in_range : ℕ × Text → Option ℕ
port_in_range (v, c ∷ cs) = none
port_in_range (v, []) = if v == 0 || ltb uint16_max v then none else some v

unfoldable pub port_of_digits : Text → Option ℕ
unfolding starts_with_digit
port_of_digits s = if starts_with_digit s then port_in_range (scan_digits 0 s) else none

-- The sign that `strtol` takes: what a '-' makes negative, or zero, is below 1.
unfoldable pub port_of_signed : Text → Option ℕ
unfolding port_of_digits
port_of_signed [] = none
port_of_signed (c ∷ cs) =
    if c == b'-' then none else if c == b'+' then port_of_digits cs else port_of_digits (c ∷ cs)

unfoldable pub parse_port_strict : Text → Option ℕ
unfolding port_of_signed skip_space is_space
parse_port_strict s = port_of_signed (skip_space s)

-- The number that decimal digits spell.
pub decimal_value : ℕ → Text → ℕ
decimal_value acc [] = acc
decimal_value acc (c ∷ cs) = decimal_value (acc * 10 + (c - b'0')) cs

abbrev pub IsDigits : Text → Type 0
IsDigits = All (λ c. is_digit c ≡ true)

scan_digits_lem : (acc : ℕ) (s : Text) → IsDigits s → scan_digits acc s ≡ (decimal_value acc s, [])
unfolding scan_digits decimal_value
scan_digits_lem acc [] h = refl
scan_digits_lem acc (c ∷ cs) h = rw h.0 (scan_digits_lem (acc * 10 + (c - b'0')) cs h.1)

digit_plain :
    (c : ℕ)
    → is_digit c ≡ true
    → (is_space c ≡ false) × ((c == b'-') ≡ false) × ((c == b'+') ≡ false)
unfolding is_digit is_space
digit_plain c h = ground arith

-- Text of digits alone is a port exactly when its value is in 1..65535, and it is that value.
pub parse_port_strict-decimal :
    (c : ℕ) (cs : Text)
    → IsDigits (c ∷ cs)
    → let v = decimal_value 0 (c ∷ cs) in
      parse_port_strict (c ∷ cs) ≡ (if v == 0 || ltb uint16_max v then none else some v)
unfolding parse_port_strict port_in_range
parse_port_strict-decimal c cs h =
    let (s, m, p) = digit_plain c h.0 in
    rw (s, m, p, h.0) (ap port_in_range (scan_digits_lem 0 (c ∷ cs) h))

port_in_range_bounds :
    (r : ℕ × Text) (v : ℕ) → port_in_range r ≡ some v → (1 ≤ v) × (v ≤ uint16_max)
unfolding port_in_range
port_in_range_bounds (n, c ∷ cs) v h = cc
port_in_range_bounds (n, []) v h = ground arith

port_of_digits_bounds : (s : Text) (v : ℕ) → port_of_digits s ≡ some v → (1 ≤ v) × (v ≤ uint16_max)
unfolding port_of_digits
port_of_digits_bounds s v h = ground (arith, port_in_range_bounds (scan_digits 0 s) v)

port_of_signed_bounds : (s : Text) (v : ℕ) → port_of_signed s ≡ some v → (1 ≤ v) × (v ≤ uint16_max)
unfolding port_of_signed
port_of_signed_bounds [] v h = cc
port_of_signed_bounds (c ∷ cs) v h =
    ground (arith, port_of_digits_bounds cs v, port_of_digits_bounds (c ∷ cs) v)

-- Whatever the text, a port that is returned is in 1..65535.
pub parse_port_strict_bounds :
    (s : Text) (v : ℕ) → parse_port_strict s ≡ some v → (1 ≤ v) × (v ≤ uint16_max)
unfolding parse_port_strict
parse_port_strict_bounds s v h = port_of_signed_bounds (skip_space s) v h

-- White space in front of a port, and one '+' before its digits, do not keep it from being read.
pub parse_port_strict-lenient :
    (c d : ℕ) (s : Text)
    → is_space c ≡ true
    → is_digit d ≡ true
    → (parse_port_strict (c ∷ s) ≡ parse_port_strict s)
      × (parse_port_strict (b'+' ∷ d ∷ s) ≡ parse_port_strict (d ∷ s))
unfolding parse_port_strict
parse_port_strict-lenient c d s h g = let (a, m, p) = digit_plain d g in (rw h, rw (a, m, p))
