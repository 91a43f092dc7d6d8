-- ===== src/Relay/Single/Poll.antt =====
-- noports_relay.cpp: phase 2 of _relay_task_inner, which reads both sockets of the rendezvous server
-- until a line comes on one of them: that is the control channel, the other the data channel.
pub mod Kept
use noports.Prelude.{
  ℕ, ◌+◌, Bool, true, false, Option, none, some, List, [], ◌∷◌, ◌++◌, ltb, ◌==◌, if◌then◌else◌,
  Text, length,
}
use noports.Relay.Forward.{Cipher, transform, advanced}

-- EARLY_BUF_SIZE, and the bytes of a message that are read.
abbrev pub early_size : ℕ
early_size = 1024

abbrev pub message_room : ℕ
message_room = 254

-- One round of the loop: whether each socket is connected and gives a byte, and whether both are lost.
pub record Round : Type 0 where
  pub a_reads : Bool
  pub b_reads : Bool
  pub both_lost : Bool

unfoldable pub ends_line : Text → Bool
ends_line [] = false
ends_line (c ∷ []) = c == 10
ends_line (c ∷ (d ∷ cs)) = ends_line (d ∷ cs)

module _ (cipher : Cipher) where
  open cipher use {Key}

  -- A socket: its control decrypter, what it has still to give, the raw bytes that were read, and
  -- these bytes decrypted.
  pub record Socket : Type 0 where
    pub key : Option Key
    pub incoming : Text
    pub early : Text
    pub message : Text

  -- How the search ends. `searching` is a search whose rounds are used up: the timeout.
  pub data Search : Type 0 where
    on_a on_b : Socket → Socket → Search
    lost searching : Search

  -- A byte is read: it is kept, and added to the message; whether it ends the line.
  unfoldable pub read_byte : ℕ → Text → Socket → Socket × Bool
  unfolding transform advanced ends_line
  read_byte c rest s =
      let d = transform cipher s.key (c ∷ []) in
      (
        record {
          key = advanced cipher s.key (c ∷ []);
          incoming = rest;
          early = if ltb (length s.early) early_size then s.early ++ (c ∷ []) else s.early;
          message = s.message ++ d;
        },
        ends_line d,
      )

  unfoldable pub read_from : Text → Socket → Socket × Bool
  unfolding read_byte
  read_from [] s = (s, false)
  read_from (c ∷ rest) s = read_byte c rest s

  -- The check of one socket.
  unfoldable pub poll_socket : Bool → Socket → Socket × Bool
  unfolding read_from
  poll_socket reads s =
      if reads
      then (if ltb (length s.message) message_room then read_from s.incoming s else (s, false))
      else (s, false)

  -- The loop.
  unfoldable pub poll_rounds : List Round → Socket → Socket → Search
  unfolding poll_socket
  poll_rounds [] a b = searching
  poll_rounds (r ∷ rs) a b =
      let x = poll_socket r.a_reads a in
      let y = poll_socket r.b_reads b in
      let rest = poll_rounds rs x.0 y.0 in
      if x.1 then on_a x.0 b else if y.1 then on_b x.0 y.0 else if r.both_lost then lost else rest

  -- The early bytes of the data socket, and what it has still to give.
  unfoldable pub data_socket : Search → Option Socket
  data_socket (on_a a b) = some b
  data_socket (on_b a b) = some a
  data_socket lost = none
  data_socket searching = none
