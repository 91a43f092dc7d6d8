-- ===== src/Examples/Single.antt =====
-- The theorem on the single relay, with the cipher of the relay's examples.
use noports.Prelude.{◌⊎◌, ◌≡◌, refl, true, false, none, some, List, [], ◌∷◌, codes}
use noports.Relay.Forward.{transform, advanced}
use noports.Relay.Forward.Stream.{IsFront}
use noports.Relay.Sub.{elapsed}
use noports.Relay.Single.{
  Attempt, write_all, write_timeout_ms, is_done, nothing, got, SinglePass, Single, bridge,
}
use noports.Relay.Single.Stream.{bridge-IsFront}
use noports.Relay.Single.Poll.{
  Round, Socket, ends_line, read_byte, read_from, poll_socket, poll_rounds, data_socket,
}
use noports.Relay.Single.Whole.{fresh, start_state, single_relay-IsFront}
use noports.Examples.Relay.{shift}

abbrev single : Single shift
single = record {
  to_local = record { key = some 3; incoming = codes "llo"; outgoing = []; bytes = 0 };
  to_rvd = record { key = some 7; incoming = codes "bye"; outgoing = []; bytes = 0 };
  idle_since = 0;
  running = true;
}

-- Two passes; in the second, the local service takes a part and then fails.
abbrev passes : List SinglePass
passes =
    record {
      should_run = true;
      oom = false;
      now_ms = 1010;
      data_read = got 2;
      data_attempts = (some 1, 1010) ∷ (some 0, 1011) ∷ (some 1, 1012) ∷ [];
      local_read = got 9;
      local_attempts = (some 3, 1012) ∷ [];
      heartbeat = false;
      data_more = true;
      data_closed = false;
      local_more = false;
      local_closed = false;
    }
    ∷ record {
      should_run = true;
      oom = true;
      now_ms = 1020;
      data_read = got 1;
      data_attempts = (none, 1020) ∷ [];
      local_read = nothing;
      local_attempts = [];
      heartbeat = false;
      data_more = false;
      data_closed = false;
      local_more = false;
      local_closed = true;
    }
    ∷ []

-- The two bytes that were read too early go in two pieces.
abbrev early_attempts : List Attempt
early_attempts = (some 1, 1000) ∷ (some 0, 1001) ∷ (some 1, 1002) ∷ []

early_written :
    is_done (write_all false 1000 (transform shift (some 3) (codes "he")) early_attempts).1 ≡ true
unfolding write_all is_done transform elapsed write_timeout_ms
early_written = refl

bridge-IsFront_example :
    IsFront shift
      (bridge shift false 1000 early_attempts (codes "he") 60000 passes single).to_local.outgoing
      (transform shift (some 3) (codes "hello"))
    × IsFront shift
        (bridge shift false 1000 early_attempts (codes "he") 60000 passes single).to_rvd.outgoing
        (transform shift (some 7) (codes "bye"))
bridge-IsFront_example =
    bridge-IsFront shift false 1000 early_attempts (codes "he") 60000 passes single early_written

-- A byte of the second socket is read before a line comes on the first.
abbrev rounds : List Round
rounds =
    record { a_reads = false; b_reads = true; both_lost = false }
    ∷ record { a_reads = true; b_reads = false; both_lost = false }
    ∷ []

abbrev found : Socket shift
found = record { key = none; incoming = codes "ello"; early = codes "h"; message = codes "h" }

data_found :
    data_socket shift
      (poll_rounds shift rounds (fresh shift none (10 ∷ [])) (fresh shift none (codes "hello")))
    ≡ some found
unfolding data_socket poll_rounds poll_socket read_from read_byte transform advanced ends_line fresh
data_found = refl

first_written :
    is_done (write_all false 1000 (transform shift (some 3) (codes "h")) early_attempts).1 ≡ true
unfolding write_all is_done transform elapsed write_timeout_ms
first_written = refl

single_relay-IsFront_example :
    IsFront shift
      (bridge shift false 1000 early_attempts
        (codes "h")
        60000
        passes
        (start_state shift (some 3) single.to_rvd found)).to_local.outgoing
      (transform shift (some 3) (10 ∷ []))
    ⊎ IsFront shift
        (bridge shift false 1000 early_attempts
          (codes "h")
          60000
          passes
          (start_state shift (some 3) single.to_rvd found)).to_local.outgoing
        (transform shift (some 3) (codes "hello"))
single_relay-IsFront_example =
    single_relay-IsFront shift rounds none none (some 3) (10 ∷ []) (codes "hello") found false 1000
      early_attempts 60000 passes single.to_rvd data_found first_written
