-- ===== src/Relay/Sub/Service/Drain.antt =====
-- How long a drain can last.
use noports.Prelude.{
  ◌≤◌, ◌≡◌, ◌⊎◌, inl, inr, refl, sym, ap, ◌∙◌, subst, Bool, true, false, ◌&&◌, ◌||◌, not, List, [],
  ◌∷◌, ◌++◌, arith, leb, if◌then◌else◌, ℕ,
}
use noports.Relay.Forward.{Cipher, Pass, direction}
use noports.Relay.Sub.{elapsed, peer_drain_max_ms, close_slot}
use noports.Relay.Sub.Service.{
  Conn, Env, close_conn, local_gone, drained_rvd, drained_local, drain_pass, service, service_run,
}

module _ (cipher : Cipher) where
  -- The connection drains since the time t, or is closed.
  abbrev pub DrainsSince : ℕ → Conn cipher → Type 0
  DrainsSince t c =
      (c.slot.active ≡ false)
      ⊎ ((c.slot.active ≡ true) × (c.slot.draining ≡ true) × (c.slot.drain_start_ms ≡ t))

  if-Drains :
      (t : ℕ) (b : Bool) (x y : Conn cipher)
      → DrainsSince t x
      → DrainsSince t y
      → DrainsSince t (if b then x else y)
  if-Drains t true x y p q = p
  if-Drains t false x y p q = q

  close_conn-Drains : (t : ℕ) (c : Conn cipher) → DrainsSince t (close_conn cipher c)
  unfolding close_conn close_slot
  close_conn-Drains t c = inl refl

  drained_rvd-Drains :
      (t : ℕ) (e : Env cipher) (c : Conn cipher) (b : Bool) (p : Pass cipher)
      → DrainsSince t c
      → DrainsSince t (drained_rvd cipher e c b p)
  unfolding drained_rvd
  drained_rvd-Drains t e c b p d =
      let x = record c { to_rvd = p.line } in
      if-Drains t p.failed _ _ (close_conn-Drains t x)
        (if-Drains t (not (b || p.moved) && local_gone cipher e) _ _ (close_conn-Drains t x) d)

  drained_local-Drains :
      (t : ℕ) (e : Env cipher) (c : Conn cipher) (p : Pass cipher)
      → DrainsSince t c
      → DrainsSince t (drained_local cipher e c p)
  unfolding drained_local
  drained_local-Drains t e c p d =
      let x = record c { to_local = p.line } in
      if-Drains t p.failed _ _ (close_conn-Drains t x)
        (drained_rvd-Drains t e x p.moved (direction cipher true e.rvd_io c.to_rvd) d)

  drain_pass-Drains :
      (t : ℕ) (e : Env cipher) (c : Conn cipher)
      → DrainsSince t c
      → DrainsSince t (drain_pass cipher e c)
  unfolding drain_pass
  drain_pass-Drains t e c d =
      if-Drains t (leb peer_drain_max_ms (elapsed e.now_ms c.slot.drain_start_ms)) _ _
        (close_conn-Drains t c)
        (drained_local-Drains t e c (direction cipher true e.local_io c.to_local) d)

  closed-service :
      (e : Env cipher) (c : Conn cipher) → c.slot.active ≡ false → service cipher e c ≡ c
  unfolding service
  closed-service e c a = rw a refl

  first_case :
      (a d : Bool) (x y : Conn cipher) → a ≡ true → d ≡ true → (if a && d then x else y) ≡ x
  first_case true true x y p q = refl
  first_case true false x y p q = absurd cc
  first_case false d x y p q = absurd cc

  draining-service :
      (e : Env cipher) (c : Conn cipher)
      → c.slot.active ≡ true
      → c.slot.draining ≡ true
      → service cipher e c ≡ drain_pass cipher e c
  unfolding service
  draining-service e c a d = first_case c.slot.active c.slot.draining _ _ a d

  service-Drains :
      (t : ℕ) (e : Env cipher) (c : Conn cipher)
      → DrainsSince t c
      → DrainsSince t (service cipher e c)
  service-Drains t e c (inl a) = subst (DrainsSince t) (sym (closed-service e c a)) (inl a)
  service-Drains t e c (inr (a, d, s)) =
      subst (DrainsSince t) (sym (draining-service e c a d))
        (drain_pass-Drains t e c (inr (a, d, s)))

  closed-run :
      (es : List (Env cipher)) (c : Conn cipher)
      → c.slot.active ≡ false
      → (service_run cipher es c).slot.active ≡ false
  unfolding service_run
  closed-run [] c a = a
  closed-run (e ∷ es) c a =
      closed-run es (service cipher e c)
        (ap (λ (d : Conn cipher). d.slot.active) (closed-service e c a) ∙ a)

  pub run-Drains :
      (t : ℕ) (es : List (Env cipher)) (c : Conn cipher)
      → DrainsSince t c
      → DrainsSince t (service_run cipher es c)
  unfolding service_run
  run-Drains t [] c k = k
  run-Drains t (e ∷ es) c k = run-Drains t es (service cipher e c) (service-Drains t e c k)

  late-drain_pass :
      (t : ℕ) (e : Env cipher) (c : Conn cipher)
      → c.slot.drain_start_ms ≡ t
      → peer_drain_max_ms ≤ elapsed e.now_ms t
      → (drain_pass cipher e c).slot.active ≡ false
  unfolding drain_pass close_conn close_slot
  late-drain_pass t e c s l =
      let b : leb peer_drain_max_ms (elapsed e.now_ms c.slot.drain_start_ms) ≡ true =
        subst (λ (u : ℕ). leb peer_drain_max_ms (elapsed e.now_ms u) ≡ true) (sym s)
          (ground (arith, l)) in
      rw b refl

  late-service :
      (t : ℕ) (e : Env cipher) (c : Conn cipher)
      → DrainsSince t c
      → peer_drain_max_ms ≤ elapsed e.now_ms t
      → (service cipher e c).slot.active ≡ false
  late-service t e c (inl a) l = ap (λ (d : Conn cipher). d.slot.active) (closed-service e c a) ∙ a
  late-service t e c (inr (a, d, s)) l =
      ap (λ (x : Conn cipher). x.slot.active) (draining-service e c a d) ∙ late-drain_pass t e c s l

  run-late :
      (t : ℕ) (xs : List (Env cipher)) (e : Env cipher) (later : List (Env cipher))
      (c : Conn cipher)
      → DrainsSince t c
      → peer_drain_max_ms ≤ elapsed e.now_ms t
      → (service_run cipher (xs ++ (e ∷ later)) c).slot.active ≡ false
  unfolding service_run
  run-late t [] e later c k l = closed-run later (service cipher e c) (late-service t e c k l)
  run-late t (x ∷ xs) e later c k l =
      run-late t xs e later (service cipher x c) (service-Drains t x c k) l

  -- Whatever the sockets do, no drain outlives ten seconds: a connection that drains since some time is
  -- closed at the end of any passes of which one comes at least ten seconds after that time, for no
  -- pass begins the drain anew, ends it in another way or opens the connection again.
  pub service_run-drain_ends :
      (es : List (Env cipher)) (e : Env cipher) (later : List (Env cipher)) (c : Conn cipher)
      → c.slot.active ≡ true
      → c.slot.draining ≡ true
      → peer_drain_max_ms ≤ elapsed e.now_ms c.slot.drain_start_ms
      → (service_run cipher (es ++ (e ∷ later)) c).slot.active ≡ false
  service_run-drain_ends es e later c a d l =
      run-late c.slot.drain_start_ms es e later c (inr (a, d, refl)) l
