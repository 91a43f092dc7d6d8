-- ===== src/Relay/Start/Memory.antt =====
-- What a start of a relay leaves allocated.
use noports.Prelude.{ℕ, ◌+◌, ◌≡◌, true, false, ◌&&◌, not, arith, if◌then◌else◌}
use noports.Daemon.Slots.{live_task}
use noports.Relay.Start.{
  RelayConfig, RelaySlot, StartWorld, copied, copies, prepared, wants_decrypter, decrypter_block,
  create_task, relay_start,
}

-- A start that fails gives back all it allocated if the task could not be created. If the control
-- channel's decrypter could not be made, the copies of the configuration's texts stay allocated.
pub relay_start-failed :
    (w : StartWorld) (c : RelayConfig) (s : RelaySlot) (live : ℕ)
    → (relay_start w c s live).2 ≡ false
    → (relay_start w c s live).1
      ≡ (if wants_decrypter c && not w.decrypter_made then live + copies (copied w c) else live)
unfolding relay_start create_task prepared decrypter_block
relay_start-failed w c s live h = ground arith

-- A start that succeeds holds the copies of the four texts, and the decrypter where it has keys; its
-- slot has a live task and these texts.
pub relay_start-done :
    (w : StartWorld) (c : RelayConfig) (s : RelaySlot) (live : ℕ)
    → (relay_start w c s live).2 ≡ true
    → ((relay_start w c s live).1 ≡ live + copies (copied w c) + decrypter_block c)
      × ((relay_start w c s live).0.config ≡ copied w c)
      × ((relay_start w c s live).0.relay.task ≡ live_task)
unfolding relay_start create_task prepared decrypter_block
relay_start-done w c s live h = (ground arith, ground arith, ground arith)
