-- ===== src/Permit/Denial.antt =====
-- noports_daemon.cpp, _continueNptRequest: the rules listed in the message that denies a request.
-- `po_list` is a buffer of 128 bytes; a text stands for what it holds before the zero.
use noports.Prelude.{
  ℕ, zero, suc, ◌+◌, ◌-◌, ◌/◌, ◌%◌, ◌≤◌, ◌<◌, ◌&&◌, List, [], ◌∷◌, ◌++◌, arith, ltb, leb,
  if◌then◌else◌, Text, codes, length, take, length-append, length-take-le, length-take-drop,
}
use noports.Permit.Rules.{PermitOpen}

-- sizeof(po_list)
abbrev pub list_size : ℕ
list_size = 128

-- The comma between two rules.
unfoldable pub put_comma : ℕ → Text → Text
put_comma i buf = if ltb 0 i && ltb (length buf + 1) list_size then buf ++ codes "," else buf

-- The bytes of a rule that are copied at an offset.
unfoldable pub room_for : ℕ → ℕ → ℕ
room_for off n = if leb list_size (off + n) then list_size - off - 1 else n

-- The loop over the policy's rules; the offset is the length of what was written.
unfoldable pub list_policy : ℕ → Text → List Text → Text
unfolding put_comma room_for
list_policy i buf [] = buf
list_policy i buf (rule ∷ rules) =
    if ltb (length buf + 2) list_size
    then list_policy (i + 1)
        (put_comma i buf ++ take (room_for (length (put_comma i buf)) (length rule)) rule) rules
    else buf

-- "%u" of a port, which has five digits at most.
unfoldable pub put_digits : ℕ → ℕ → Text → Text
put_digits zero n s = s
put_digits (suc k) n s =
    let rest = put_digits k (n / 10) ((b'0' + n % 10) ∷ s) in
    if ltb n 10 then (b'0' + n) ∷ s else rest

unfoldable pub print_port : ℕ → Text
unfolding put_digits
print_port n = put_digits 5 n []

unfoldable pub print_entry : PermitOpen → Text
unfolding print_port
print_entry e = e.host ++ (b':' ∷ print_port e.port)

-- The loop over the device's own list. `snprintf` cuts what it writes to the room that is left and
-- returns the whole length, so `off` may pass the end, which stops the loop.
unfoldable pub list_manager : ℕ → ℕ → Text → List PermitOpen → Text
list_manager i off buf [] = buf
list_manager i off buf (e ∷ es) =
    if ltb (off + 2) list_size
    then list_manager (i + 1) (length (put_comma i buf) + length (print_entry e))
        (put_comma i buf ++ take (list_size - length (put_comma i buf) - 1) (print_entry e)) es
    else buf

put_comma-le : (i : ℕ) (buf : Text) → length (put_comma i buf) ≤ length buf + 1
unfolding put_comma
put_comma-le i buf = ground (arith, length-append buf (codes ","))

step_fits :
    (i n : ℕ) (buf rule : Text)
    → length buf + 2 < list_size
    → n ≤ list_size - length (put_comma i buf) - 1
    → length (put_comma i buf ++ take n rule) < list_size
step_fits i n buf rule h l = omega (
  arith,
  put_comma-le i buf,
  length-append (put_comma i buf) (take n rule),
  length-take-le n rule,
)

room_for-le : (off n : ℕ) → room_for off n ≤ list_size - off - 1
unfolding room_for
room_for-le off n = ground arith

-- Adding rules to the list in a denial leaves its buffer of 128 bytes room for the terminating
-- zero, if there was room for it before.
pub list_policy_fits :
    (i : ℕ) (buf : Text) (rules : List Text)
    → length buf < list_size
    → length (list_policy i buf rules) < list_size
unfolding list_policy
list_policy_fits i buf [] h = h
list_policy_fits i buf (rule ∷ rules) h = ground (
  arith,
  step_fits i (room_for (length (put_comma i buf)) (length rule)) buf rule,
  room_for-le (length (put_comma i buf)) (length rule),
  list_policy_fits (i + 1)
      (put_comma i buf ++ take (room_for (length (put_comma i buf)) (length rule)) rule) rules,
)

-- So does the list of the device's own entries, with the offset at or behind what was written.
pub list_manager_fits :
    (i off : ℕ) (buf : Text) (es : List PermitOpen)
    → length buf < list_size
    → length buf ≤ off
    → length (list_manager i off buf es) < list_size
unfolding list_manager
list_manager_fits i off buf [] h l = h
list_manager_fits i off buf (e ∷ es) h l = ground (
  arith,
  step_fits i (list_size - length (put_comma i buf) - 1) buf (print_entry e),
  length-append (put_comma i buf) (take (list_size - length (put_comma i buf) - 1) (print_entry e)),
  length-take-drop (list_size - length (put_comma i buf) - 1) (print_entry e),
  list_manager_fits (i + 1) (length (put_comma i buf) + length (print_entry e))
      (put_comma i buf ++ take (list_size - length (put_comma i buf) - 1) (print_entry e)) es,
)
