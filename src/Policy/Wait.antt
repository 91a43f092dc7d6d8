-- ===== src/Policy/Wait.antt =====
-- noports_policy_limits.c: when a pending policy check has waited long enough, and what follows a
-- notification that could not be decrypted. Times are milliseconds since boot.
use noports.Prelude.{
  ℕ, ◌+◌, ◌-◌, ◌≤◌, ◌<◌, ◌≡◌, ◌↔◌, ◌⊎◌, Bool, true, ◌&&◌, ◌||◌, Option, none, some, arith, ltb, leb,
  Text,
}
use noports.Policy.Atsign.{atsign_equals}

-- NOPORTS_POLICY_WAIT_MS
abbrev pub wait_ms : ℕ
wait_ms = 10000

-- NOPORTS_POLICY_WAIT_CAP_MS
abbrev pub wait_cap_ms : ℕ
wait_cap_ms = 30000

-- NOPORTS_DECRYPT_RECONNECT_MS
abbrev pub decrypt_reconnect_ms : ℕ
decrypt_reconnect_ms = 30000

-- noports_policy_wait_over
unfoldable pub wait_over : ℕ → ℕ → ℕ → Bool
wait_over started progress now = ltb wait_ms (now - progress) || ltb wait_cap_ms (now - started)

-- noports_policy_resend_after_decrypt_failure
unfoldable pub resend_after_decrypt_failure : Bool → Option Text → Option Text → Bool
resend_after_decrypt_failure pending from policy_atsign =
    pending && atsign_equals from policy_atsign

-- noports_reconnect_after_decrypt_failure; a negative `last_ms` is `none`.
unfoldable pub reconnect_after_decrypt_failure : Option ℕ → ℕ → Bool
reconnect_after_decrypt_failure none now = true
reconnect_after_decrypt_failure (some last) now = leb decrypt_reconnect_ms (now - last)

-- The loop's check of the pending request is over exactly when more than 10 seconds have passed
-- since its last progress or more than 30 since it was sent.
pub wait_over_iff :
    (started progress now : ℕ)
    → (wait_over started progress now ≡ true)
      ↔ ((progress + wait_ms < now) ⊎ (started + wait_cap_ms < now))
unfolding wait_over
wait_over_iff started progress now = (λ h. ground arith, λ h. ground arith)

-- Later is no less over, so a check that is over stays over until it is cleared.
pub wait_over_mono :
    (started progress now later : ℕ)
    → now ≤ later
    → wait_over started progress now ≡ true
    → wait_over started progress later ≡ true
unfolding wait_over
wait_over_mono started progress now later l h = ground arith
