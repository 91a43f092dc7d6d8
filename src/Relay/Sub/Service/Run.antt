-- ===== src/Relay/Sub/Service/Run.antt =====
-- The bytes of a connection over many passes, up to the end of its normal state.
use noports.Prelude.{
  ◌≡◌, ◌⊎◌, inl, inr, refl, sym, ap, ◌∙◌, subst, Bool, true, false, ◌&&◌, ◌||◌, not, List, [], ◌∷◌,
  arith, ltb, if◌then◌else◌, Bool-cases, ℕ,
}
use noports.Relay.Forward.{Cipher, Line, Pass, direction}
use noports.Relay.Forward.Stream.{total, direction-total, direction-IsFront, IsFront}
use noports.Relay.Sub.{elapsed, stall_timeout_ms, Slot, close_slot}
use noports.Relay.Sub.Service.Drain.{DrainsSince, run-Drains}
use noports.Relay.Sub.Service.{
  Conn, Env, close_conn, local_gone, rvd_gone, noted, serve_local, serve_rvd, serve_both, end_test,
  service, service_run,
}

module _ (cipher : Cipher) where
  -- The connection is open and does not drain.
  pub record IsNormal (c : Conn cipher) : Type 0 where
    pub is_active : c.slot.active ≡ true
    pub not_draining : c.slot.draining ≡ false

  -- Both directions still have all the bytes of before: what the sinks have, what waits, and the rest
  -- of the sources, transformed.
  abbrev pub SameBytes : Conn cipher → Conn cipher → Type 0
  SameBytes c d =
      (total cipher d.to_local ≡ total cipher c.to_local)
      × (total cipher d.to_rvd ≡ total cipher c.to_rvd)

  -- Both sinks have fronts of these bytes.
  abbrev pub Fronts : Conn cipher → Conn cipher → Type 0
  Fronts c d =
      IsFront cipher d.to_local.outgoing (total cipher c.to_local)
      × IsFront cipher d.to_rvd.outgoing (total cipher c.to_rvd)

  noted-failed :
      (now : ℕ) (p : Pass cipher) (s : Slot)
      → (noted cipher now p s).draining ≡ false
      → (p.failed ≡ false) × (s.draining ≡ false)
  unfolding noted
  noted-failed now p s h = (ground arith, ground arith)

  noted-both :
      (now : ℕ) (p q : Pass cipher) (s : Slot)
      → (noted cipher now p (noted cipher now q s)).draining ≡ false
      → (p.failed ≡ false) × (q.failed ≡ false)
  noted-both now p q s h =
      let (a, b) = noted-failed now p (noted cipher now q s) h in (a, (noted-failed now q s b).0)

  -- What serving both directions comes to, in either order.
  record Served (e : Env cipher) (c d : Conn cipher) : Type 0 where
    local_is : d.to_local ≡ (direction cipher false e.local_io c.to_local).line
    rvd_is : d.to_rvd ≡ (direction cipher false e.rvd_io c.to_rvd).line
    unfailed :
        d.slot.draining ≡ false
        → ((direction cipher false e.local_io c.to_local).failed ≡ false)
          × ((direction cipher false e.rvd_io c.to_rvd).failed ≡ false)

  local_last-Served :
      (e : Env cipher) (c : Conn cipher) → Served e c (serve_local cipher e (serve_rvd cipher e c))
  unfolding serve_local serve_rvd
  local_last-Served e c = record {
    local_is = refl;
    rvd_is = refl;
    unfailed =
        noted-both e.now_ms (direction cipher false e.local_io c.to_local)
          (direction cipher false e.rvd_io c.to_rvd) c.slot;
  }

  rvd_last-Served :
      (e : Env cipher) (c : Conn cipher) → Served e c (serve_rvd cipher e (serve_local cipher e c))
  unfolding serve_local serve_rvd
  rvd_last-Served e c = record {
    local_is = refl;
    rvd_is = refl;
    unfailed = λ h.
        let (a, b) =
          noted-both e.now_ms (direction cipher false e.rvd_io c.to_rvd)
            (direction cipher false e.local_io c.to_local) c.slot h in
        (b, a);
  }

  if-Served :
      (e : Env cipher) (c : Conn cipher) (b : Bool) (x y : Conn cipher)
      → Served e c x
      → Served e c y
      → Served e c (if b then x else y)
  if-Served e c true x y p q = p
  if-Served e c false x y p q = q

  serve_both-Served : (e : Env cipher) (c : Conn cipher) → Served e c (serve_both cipher e c)
  unfolding serve_both
  serve_both-Served e c =
      let s = if-Served e c c.slot.dir_flip _ _ (local_last-Served e c) (rvd_last-Served e c) in
      record { local_is = s.local_is; rvd_is = s.rvd_is; unfailed = s.unfailed }

  Served-Fronts : (e : Env cipher) (c d : Conn cipher) → Served e c d → Fronts c d
  Served-Fronts e c d s = (
    subst (λ (l : Line cipher). IsFront cipher l.outgoing (total cipher c.to_local))
        (sym s.local_is) (direction-IsFront cipher false e.local_io c.to_local),
    subst (λ (l : Line cipher). IsFront cipher l.outgoing (total cipher c.to_rvd)) (sym s.rvd_is)
        (direction-IsFront cipher false e.rvd_io c.to_rvd),
  )

  Served-SameBytes :
      (e : Env cipher) (c d : Conn cipher) → Served e c d → d.slot.draining ≡ false → SameBytes c d
  Served-SameBytes e c d s h =
      let (a, b) = s.unfailed h in
      (
        ap (total cipher) s.local_is ∙ direction-total cipher false e.local_io c.to_local a,
        ap (total cipher) s.rvd_is ∙ direction-total cipher false e.rvd_io c.to_rvd b,
      )

  -- A pass over a connection in its normal state.
  normal-service :
      (e : Env cipher) (c : Conn cipher)
      → IsNormal c
      → service cipher e c ≡ end_test cipher e (serve_both cipher e c)
  unfolding service
  normal-service e c n = last_case c.slot.active c.slot.draining _ _ _ n.is_active n.not_draining
    where
      last_case :
          (a d : Bool) (x y z : Conn cipher)
          → a ≡ true
          → d ≡ false
          → (if a && d then x else if not a then y else z) ≡ z
      last_case true true x y z p q = absurd cc
      last_case true false x y z p q = refl
      last_case false d x y z p q = absurd cc

  end_test-cases :
      (e : Env cipher) (c : Conn cipher)
      → (end_test cipher e c ≡ c) ⊎ (end_test cipher e c ≡ close_conn cipher c)
  unfolding end_test
  end_test-cases e c =
      two_tests (rvd_gone cipher e || local_gone cipher e)
        (ltb stall_timeout_ms (elapsed e.now_ms c.slot.last_activity_ms))
    where
      two_tests :
          (a b : Bool)
          → ((if a then close_conn cipher c else if b then close_conn cipher c else c) ≡ c)
            ⊎ ((if a then close_conn cipher c else if b then close_conn cipher c else c)
                ≡ close_conn cipher c)
      two_tests true b = inr refl
      two_tests false true = inr refl
      two_tests false false = inl refl

  close_conn-closed : (c : Conn cipher) → (close_conn cipher c).slot.active ≡ false
  unfolding close_conn close_slot
  close_conn-closed c = refl

  close_conn-Fronts : (c d : Conn cipher) → Fronts c d → Fronts c (close_conn cipher d)
  unfolding close_conn
  close_conn-Fronts c d f = f

  service-Fronts : (e : Env cipher) (c : Conn cipher) → IsNormal c → Fronts c (service cipher e c)
  service-Fronts e c n =
      let d = serve_both cipher e c in
      let f = Served-Fronts e c d (serve_both-Served e c) in
      subst (Fronts c) (sym (normal-service e c n)) (elim (end_test-cases e d) [
        | inl p ↦ subst (Fronts c) (sym p) f
        | inr p ↦ subst (Fronts c) (sym p) (close_conn-Fronts c d f)
      ])

  end_test-SameBytes :
      (e : Env cipher) (c d x : Conn cipher)
      → Served e c d
      → IsNormal x
      → (x ≡ d) ⊎ (x ≡ close_conn cipher d)
      → SameBytes c x
  end_test-SameBytes e c d x s m (inl p) = subst (SameBytes c) (sym p) (
      Served-SameBytes e c d s (ap (λ (y : Conn cipher). y.slot.draining) (sym p) ∙ m.not_draining))
  end_test-SameBytes e c d x s m (inr p) = absurd (
      let q = sym m.is_active ∙ ap (λ (y : Conn cipher). y.slot.active) p ∙ close_conn-closed d in
      cc)

  service-SameBytes :
      (e : Env cipher) (c : Conn cipher)
      → IsNormal c
      → IsNormal (service cipher e c)
      → SameBytes c (service cipher e c)
  service-SameBytes e c n m =
      let d = serve_both cipher e c in
      let p = normal-service e c n in
      subst (SameBytes c) (sym p) (
        end_test-SameBytes e c d (end_test cipher e d) (serve_both-Served e c) (subst IsNormal p m)
          (end_test-cases e d))

  Drains-ne : (t : ℕ) (c : Conn cipher) → DrainsSince cipher t c → IsNormal c → ⊥
  Drains-ne t c (inl a) n = let p = sym n.is_active ∙ a in cc
  Drains-ne t c (inr (a, d, s)) n = let p = sym d ∙ n.not_draining in cc

  -- A connection in its normal state after some passes was in it before them.
  IsNormal-before :
      (es : List (Env cipher)) (c : Conn cipher) → IsNormal (service_run cipher es c) → IsNormal c
  IsNormal-before es c n = elim (Bool-cases c.slot.active) [
    | inl a ↦ elim (Bool-cases c.slot.draining) [
      | inl d ↦ absurd (
          Drains-ne c.slot.drain_start_ms (service_run cipher es c)
            (run-Drains cipher c.slot.drain_start_ms es c (inr (a, d, refl))) n)
      | inr d ↦ record { is_active = a; not_draining = d }
    ]
    | inr a ↦ absurd (Drains-ne 0 (service_run cipher es c) (run-Drains cipher 0 es c (inl a)) n)
  ]

  service_run-SameBytes :
      (es : List (Env cipher)) (c : Conn cipher)
      → IsNormal c
      → IsNormal (service_run cipher es c)
      → SameBytes c (service_run cipher es c)
  unfolding service_run
  service_run-SameBytes [] c n m = (refl, refl)
  service_run-SameBytes (e ∷ es) c n m =
      let k = IsNormal-before es (service cipher e c) m in
      let (a, b) = service-SameBytes e c n k in
      let (x, y) = service_run-SameBytes es (service cipher e c) k m in (x ∙ a, y ∙ b)

  -- While the passes of the loop leave a connection open and not draining, no byte of either
  -- direction is lost, doubled or put out of order: what a sink has been given, what waits for it and
  -- what the source has still to send, transformed, stay the same text. The next pass, also where a
  -- write fails in it, the drain begins or the connection is closed, leaves each sink with a front of
  -- that text.
  pub service_run-Fronts :
      (es : List (Env cipher)) (e : Env cipher) (c : Conn cipher)
      → IsNormal c
      → IsNormal (service_run cipher es c)
      → SameBytes c (service_run cipher es c)
        × Fronts c (service cipher e (service_run cipher es c))
  service_run-Fronts es e c n m =
      let (a, b) = service_run-SameBytes es c n m in
      let (f, g) = service-Fronts e (service_run cipher es c) m in
      ((a, b), (subst (IsFront cipher _) a f, subst (IsFront cipher _) b g))
