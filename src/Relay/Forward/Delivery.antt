-- ===== src/Relay/Forward/Delivery.antt =====
-- Sockets that take what they are given get everything through.
use noports.Prelude.{ℕ, ◌≤◌, ◌≡◌, false, some, [], length}
use noports.Relay.Forward.{chunk_size, Cipher, Io, Pass}

-- A pass in which each socket takes `w` bytes, and the source gives `k`.
abbrev pub open_io : ℕ → ℕ → Io
open_io w k = record { flushed = some w; available = k; accepted = some w }

module _ (cipher : Cipher) (w k : ℕ) (wide : chunk_size ≤ w) (gives : 1 ≤ k) where
  -- What a pass leaves: nothing waits, and the source has less to send or nothing.
  abbrev IsFlushed : ℕ → Pass cipher → Type 0
  IsFlushed n p = (p.failed ≡ false) × (p.line.pending ≡ []) × (length p.line.incoming ≤ n)
