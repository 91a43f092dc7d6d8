-- ===== src/Relay/Sub/Eviction.antt =====
-- Whom the two searches name.
use noports.Prelude.{
  ℕ, suc, ◌+◌, ◌≡◌, ◌⊎◌, inl, inr, refl, Bool, true, ◌&&◌, Option, some, List, [], ◌∷◌, arith, ltb,
  get_elem?, Bool-cases,
}
use noports.Relay.Sub.{Sub, longest_idle}

-- A result of the loop is the victim that it started with, or a later slot that passes the test.
pub longest_idle-get :
    (test : Sub → Bool) (victim : Option ℕ) (at i : ℕ) (ss : List Sub) (r : ℕ)
    → longest_idle test victim at i ss ≡ some r
    → (victim ≡ some r)
      ⊎ ((k : ℕ) × (s : Sub) × (r ≡ i + k) × (get_elem? ss k ≡ some s) × (test s ≡ true))
unfolding longest_idle
longest_idle-get test victim at i [] r h = inl h
longest_idle-get test victim at i (s ∷ ss) r h =
    elim (Bool-cases (test s && ltb s.slot.last_activity_ms at)) [
      | inl e ↦
          elim (longest_idle-get test (some i) s.slot.last_activity_ms (i + 1) ss r (rw e at h)) [
            | inl q ↦ inr (0, s, ground arith, refl, ground arith)
            | inr (k, x, a, g, t) ↦ inr (suc k, x, omega arith, g, t)
          ]
      | inr e ↦ elim (longest_idle-get test victim at (i + 1) ss r (rw e at h)) [
        | inl q ↦ inl q
        | inr (k, x, a, g, t) ↦ inr (suc k, x, omega arith, g, t)
      ]
    ]
