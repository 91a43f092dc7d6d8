-- ===== src/Relay/Forward.antt =====
-- noports_relay.cpp: one direction of one connection. What a full socket does not take waits in a
-- buffer of one chunk, and nothing more is read before the buffer is empty.
pub mod Stream
pub mod Delivery
use noports.Prelude.{
  ℕ, zero, suc, ◌+◌, ◌≡◌, Bool, true, false, ◌&&◌, ◌||◌, not, Option, none, some, List, [], ◌∷◌,
  ◌++◌, ltb, leb, ◌==◌, if◌then◌else◌, Text, length, take, drop,
}

-- RELAY_CHUNK_SIZE
abbrev pub chunk_size : ℕ
chunk_size = 1460

-- AES-CTR of mbedtls, as an interface: the bytes that a key stream position makes of a text, and the
-- position after it. A text may be cut anywhere, and no byte is added or lost.
pub record Cipher : Type 1 where
  pub Key : Type 0
  pub crypt : Key → Text → Text
  pub advance : Key → Text → Key
  pub crypt_append :
      (k : Key) (xs ys : Text) → crypt k (xs ++ ys) ≡ crypt k xs ++ crypt (advance k xs) ys
  pub crypt_length : (k : Key) (xs : Text) → length (crypt k xs) ≡ length xs

-- What the two sockets do in one pass. `flushed` and `accepted` are the results of _write_nb, `none`
-- for an error; `available` is how much the source gives.
pub record Io : Type 0 where
  pub flushed : Option ℕ
  pub available : ℕ
  pub accepted : Option ℕ

module _ (cipher : Cipher) where
  open cipher use {Key, crypt, advance}

  -- `key` is `none` on a plain connection. `incoming` is what the source has still to send and
  -- `outgoing` what was written to the sink; `pending` holds the valid bytes of the buffer.
  pub record Line : Type 0 where
    pub key : Option Key
    pub incoming : Text
    pub pending : Text
    pub outgoing : Text
    pub bytes : ℕ

  -- `_aes_ctr_crypt`, where the connection is encrypted.
  unfoldable pub transform : Option Key → Text → Text
  transform none to_send = to_send
  transform (some k) to_send = crypt k to_send

  unfoldable pub advanced : Option Key → Text → Option Key
  advanced none to_send = none
  advanced (some k) to_send = some (advance k to_send)

  pub record Pass : Type 0 where
    pub line : Line
    pub failed : Bool
    pub moved : Bool

  unfoldable pub flush_with : Option ℕ → Line → Pass
  flush_with none l = record { line = l; failed = true; moved = false }
  flush_with (some w) l = record {
    line = record l { pending = drop w l.pending; outgoing = l.outgoing ++ take w l.pending };
    failed = false;
    moved = ltb 0 w;
  }

  -- Step 1: the bytes left over from an earlier pass.
  unfoldable pub flush_pending : Option ℕ → Line → Pass
  unfolding flush_with
  flush_pending r l =
      if length l.pending == 0
      then record { line = l; failed = false; moved = false }
      else flush_with r l

  -- What `read(buf, RELAY_CHUNK_SIZE)` gives.
  abbrev pub chunk : ℕ → Line → Text
  chunk available l = take chunk_size (take available l.incoming)

  -- Step 2, with the chunk that was read. A draining connection counts the bytes and the move also
  -- when the write fails.
  unfoldable pub send_with : Bool → Option ℕ → Text → Text → Line → Pass
  unfolding transform advanced
  send_with draining none to_send rest l = record {
    line = record l {
      key = advanced l.key to_send;
      incoming = rest;
      bytes = if draining then l.bytes + length to_send else l.bytes;
    };
    failed = true;
    moved = draining;
  }
  send_with draining (some w) to_send rest l = record {
    line = record l {
      key = advanced l.key to_send;
      incoming = rest;
      pending = drop w (transform l.key to_send);
      outgoing = l.outgoing ++ take w (transform l.key to_send);
      bytes = l.bytes + length to_send;
    };
    failed = false;
    moved = true;
  }

  unfoldable pub read_new : Bool → Io → Line → Pass
  unfolding send_with
  read_new draining io l =
      let to_send = chunk io.available l in
      if (length l.pending == 0) && ltb 0 (length to_send)
      then send_with draining io.accepted to_send (drop (length to_send) l.incoming) l
      else record { line = l; failed = false; moved = false }

  -- The two steps of one direction.
  unfoldable pub direction : Bool → Io → Line → Pass
  unfolding flush_pending read_new
  direction draining io l =
      let p = flush_pending io.flushed l in
      let q = read_new draining io p.line in
      if p.failed
      then p
      else record { line = q.line; failed = q.failed; moved = p.moved || q.moved }

  -- The passes over one direction in one state, up to the first that fails; the drain that follows a
  -- failed write is in Sub/Service.
  unfoldable pub relay_line : Bool → List Io → Line → Pass
  relay_line draining [] l = record { line = l; failed = false; moved = false }
  relay_line draining (io ∷ ios) l =
      let p = direction draining io l in
      let rest = relay_line draining ios p.line in if p.failed then p else rest
