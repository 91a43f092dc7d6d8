-- ===== src/Relay/Session/Lines.antt =====
-- The share of the connections, the control lines, and the end of the loop.
use noports.Prelude.{
  ℕ, zero, suc, ◌+◌, ◌*◌, ◌≤◌, ◌<◌, ◌≡◌, ◌↔◌, ◌⊎◌, inl, inr, refl, sym, ap, ◌∙◌, Bool, true, List,
  [], ◌∷◌, ◌++◌, arith, ◌==◌, Text, length, length-append, Bool-cases,
}
use noports.Relay.Sub.{elapsed}
use noports.Relay.Connect.{max_pcbs}
use noports.Relay.Session.{
  max_subs, subs_for_clients, line_len, Message, messages_of, add_byte, read_lines, Control, Limits,
  note_lost, loop_ends, control_step,
}

add_byte-fits : (c : ℕ) (line : Text) → length line ≤ line_len → length (add_byte c line) ≤ line_len
unfolding add_byte
add_byte-fits c line h = ground (arith, length-append line (c ∷ []))

-- However long a line is, what is kept of it fits the buffer.
pub read_lines-fits :
    (line input : Text) → length line ≤ line_len → length (read_lines line input).1 ≤ line_len
unfolding read_lines
read_lines-fits line [] h = h
read_lines-fits line (c ∷ cs) h =
    let a = read_lines-fits [] cs (omega arith) in
    let b = read_lines-fits (add_byte c line) cs (add_byte-fits c line h) in ground arith

append_assoc : (xs ys zs : List Message) → (xs ++ ys) ++ zs ≡ xs ++ (ys ++ zs)
append_assoc [] ys zs = refl
append_assoc (x ∷ xs) ys zs = ap (◌∷◌ x) (append_assoc xs ys zs)

-- Where the input is cut does not matter: reading two pieces, the second on the line that the first
-- left, gives the messages of the whole, in order.
pub read_lines-append :
    (line xs ys : Text)
    → (read_lines line (xs ++ ys)).0
      ≡ (read_lines line xs).0 ++ (read_lines (read_lines line xs).1 ys).0
unfolding read_lines
read_lines-append line [] ys = refl
read_lines-append line (c ∷ cs) ys =
    let a = read_lines-append [] cs ys in
    let b = read_lines-append (add_byte c line) cs ys in
    elim (Bool-cases (c == 10)) [
      | inl e ↦ rw e (ap (λ m. messages_of line ++ m) a ∙ sym (append_assoc (messages_of line) _ _))
      | inr e ↦ rw e b
    ]

-- A session's share, for one to three clients at once: it is at least 1 and at most MAX_RELAY_SUBS, and
-- all of them with their control sockets stay within MAX_RELAY_PCBS.
pub subs_for_clients-budget :
    (n : ℕ)
    → 1 ≤ n
    → n ≤ 3
    → (1 ≤ subs_for_clients n)
      × (subs_for_clients n ≤ max_subs)
      × (n * (1 + 2 * subs_for_clients n) ≤ max_pcbs)
unfolding subs_for_clients
subs_for_clients-budget zero l h = absurd (omega arith)
subs_for_clients-budget (suc zero) l h = (omega arith, omega arith, omega arith)
subs_for_clients-budget (suc (suc zero)) l h = (omega arith, omega arith, omega arith)
subs_for_clients-budget (suc (suc (suc zero))) l h = (omega arith, omega arith, omega arith)
subs_for_clients-budget (suc (suc (suc (suc n)))) l h = absurd (omega arith)

elapsed_self : (now : ℕ) → elapsed now now ≡ 0
unfolding elapsed
elapsed_self now = omega arith

-- While a connection is active, a round of a session's loop ends it exactly if its control
-- channel was already lost, and longer ago than the drain time.
pub control_step-active :
    (limits : Limits) (now active : ℕ) (gone : Bool) (c : Control)
    → 0 < active
    → ((control_step limits now active gone c).1 ≡ true)
      ↔ ((c.lost ≡ true) × (limits.drain_timeout_ms < elapsed now c.lost_since_ms))
unfolding control_step note_lost loop_ends
control_step-active limits now active gone c a =
    let z = elapsed_self now in (λ h. ground (arith, z), λ h. ground (arith, z))

-- Without an active connection, the loop ends as soon as the control channel is lost, or once the
-- idle time is over.
pub control_step-idle :
    (limits : Limits) (now : ℕ) (gone : Bool) (c : Control)
    → ((control_step limits now 0 gone c).1 ≡ true)
      ↔ ((c.lost ≡ true) ⊎ (gone ≡ true) ⊎ (limits.idle_timeout_ms < elapsed now c.idle_since_ms))
unfolding control_step note_lost loop_ends
control_step-idle limits now gone c = (λ h. ground arith, λ h. ground arith)
