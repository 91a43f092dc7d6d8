-- ===== src/Relay/Sub/Service/Outcomes.antt =====
-- What a pass keeps, and what a close drops.
use noports.Prelude.{
  ℕ, ◌∙◌, ◌≤◌, ◌≡◌, refl, Bool, true, false, ◌&&◌, ◌||◌, not, [], arith, ltb, leb, if◌then◌else◌,
  length,
}
use noports.Relay.Forward.{chunk_size, Cipher, Pass, direction}
use noports.Relay.Forward.Stream.{direction-pending}
use noports.Relay.Sub.{elapsed, peer_drain_max_ms, stall_timeout_ms, Slot, close_slot}
use noports.Relay.Sub.Service.{
  Conn, Env, close_conn, local_gone, rvd_gone, drained_rvd, drained_local, drain_pass, noted,
  serve_local, serve_rvd, serve_both, end_test, service,
}

module _ (cipher : Cipher) where
  -- The two buffers hold a chunk at most, and a connection that is not active holds nothing: no socket,
  -- no waiting byte, no drain.
  pub record IsSound (c : Conn cipher) : Type 0 where
    pub local_fits : length c.to_local.pending ≤ chunk_size
    pub rvd_fits : length c.to_rvd.pending ≤ chunk_size
    pub idle_is_closed :
        c.slot.active ≡ false
        → (c.slot.rvd_open ≡ false)
          × (c.slot.local_open ≡ false)
          × (c.slot.draining ≡ false)
          × (c.to_local.pending ≡ [])
          × (c.to_rvd.pending ≡ [])

  -- The part of it that an active connection has to meet.
  record Fits (c : Conn cipher) : Type 0 where
    local_ok : length c.to_local.pending ≤ chunk_size
    rvd_ok : length c.to_rvd.pending ≤ chunk_size
    is_active : c.slot.active ≡ true

  Fits-IsSound : (c : Conn cipher) → Fits c → IsSound c
  Fits-IsSound c f = record {
    local_fits = f.local_ok;
    rvd_fits = f.rvd_ok;
    idle_is_closed = λ e. absurd (let a = f.is_active in cc);
  }

  close_conn-IsSound : (c : Conn cipher) → IsSound (close_conn cipher c)
  unfolding close_conn close_slot
  close_conn-IsSound c = record {
    local_fits = omega arith;
    rvd_fits = omega arith;
    idle_is_closed = λ e. (refl, refl, refl, refl, refl);
  }

  if-IsSound : (b : Bool) (x y : Conn cipher) → IsSound x → IsSound y → IsSound (if b then x else y)
  if-IsSound true x y p q = p
  if-IsSound false x y p q = q

  cases-IsSound :
      (a d : Bool) (x y z : Conn cipher)
      → (a ≡ true → IsSound x)
      → IsSound y
      → (a ≡ true → IsSound z)
      → IsSound (if a && d then x else if not a then y else z)
  cases-IsSound true true x y z p q r = p refl
  cases-IsSound true false x y z p q r = r refl
  cases-IsSound false d x y z p q r = q

  noted-active : (now : ℕ) (p : Pass cipher) (s : Slot) → (noted cipher now p s).active ≡ s.active
  unfolding noted
  noted-active now p s = ground arith

  serve_local-Fits : (e : Env cipher) (c : Conn cipher) → Fits c → Fits (serve_local cipher e c)
  unfolding serve_local
  serve_local-Fits e c f = record {
    local_ok = direction-pending cipher false e.local_io c.to_local f.local_ok;
    rvd_ok = f.rvd_ok;
    is_active =
        noted-active e.now_ms (direction cipher false e.local_io c.to_local) c.slot ∙ f.is_active;
  }

  serve_rvd-Fits : (e : Env cipher) (c : Conn cipher) → Fits c → Fits (serve_rvd cipher e c)
  unfolding serve_rvd
  serve_rvd-Fits e c f = record {
    local_ok = f.local_ok;
    rvd_ok = direction-pending cipher false e.rvd_io c.to_rvd f.rvd_ok;
    is_active =
        noted-active e.now_ms (direction cipher false e.rvd_io c.to_rvd) c.slot ∙ f.is_active;
  }

  if-Fits : (b : Bool) (x y : Conn cipher) → Fits x → Fits y → Fits (if b then x else y)
  if-Fits true x y p q = p
  if-Fits false x y p q = q

  serve_both-Fits : (e : Env cipher) (c : Conn cipher) → Fits c → Fits (serve_both cipher e c)
  unfolding serve_both
  serve_both-Fits e c f =
      let g =
        if-Fits c.slot.dir_flip _ _
          (serve_local-Fits e (serve_rvd cipher e c) (serve_rvd-Fits e c f))
          (serve_rvd-Fits e (serve_local cipher e c) (serve_local-Fits e c f)) in
      record { local_ok = g.local_ok; rvd_ok = g.rvd_ok; is_active = g.is_active }

  end_test-IsSound : (e : Env cipher) (c : Conn cipher) → IsSound c → IsSound (end_test cipher e c)
  unfolding end_test
  end_test-IsSound e c s =
      if-IsSound (rvd_gone cipher e || local_gone cipher e) _ _ (close_conn-IsSound c) (
        if-IsSound (ltb stall_timeout_ms (elapsed e.now_ms c.slot.last_activity_ms)) _ _
          (close_conn-IsSound c) s)

  drained_rvd-IsSound :
      (e : Env cipher) (c : Conn cipher) (moved : Bool) (p : Pass cipher)
      → Fits (record c { to_rvd = p.line })
      → IsSound (drained_rvd cipher e c moved p)
  unfolding drained_rvd
  drained_rvd-IsSound e c moved p f =
      let d : Conn cipher = record c { to_rvd = p.line } in
      if-IsSound p.failed _ _ (close_conn-IsSound d) (
        if-IsSound (not (moved || p.moved) && local_gone cipher e) _ _ (close_conn-IsSound d)
          (Fits-IsSound d f))

  drained_local-IsSound :
      (e : Env cipher) (c : Conn cipher) (p : Pass cipher)
      → Fits (record c { to_local = p.line })
      → IsSound (drained_local cipher e c p)
  unfolding drained_local
  drained_local-IsSound e c p f =
      let d : Conn cipher = record c { to_local = p.line } in
      let q = direction cipher true e.rvd_io c.to_rvd in
      if-IsSound p.failed _ _ (close_conn-IsSound d) (
        drained_rvd-IsSound e d p.moved q (record {
          local_ok = f.local_ok;
          rvd_ok = direction-pending cipher true e.rvd_io c.to_rvd f.rvd_ok;
          is_active = f.is_active;
        }))

  drain_pass-IsSound : (e : Env cipher) (c : Conn cipher) → Fits c → IsSound (drain_pass cipher e c)
  unfolding drain_pass
  drain_pass-IsSound e c f =
      if-IsSound (leb peer_drain_max_ms (elapsed e.now_ms c.slot.drain_start_ms)) _ _
        (close_conn-IsSound c)
        (drained_local-IsSound e c (direction cipher true e.local_io c.to_local) (record {
          local_ok = direction-pending cipher true e.local_io c.to_local f.local_ok;
          rvd_ok = f.rvd_ok;
          is_active = f.is_active;
        }))

  -- A connection that is sound before a pass of the loop is sound after it, whatever its sockets
  -- do: its two buffers hold a chunk at most, and if it is not active it holds no socket and no
  -- waiting byte, and it is not draining.
  pub service-IsSound :
      (e : Env cipher) (c : Conn cipher) → IsSound c → IsSound (service cipher e c)
  unfolding service
  service-IsSound e c s =
      cases-IsSound c.slot.active c.slot.draining _ _ _ (λ a. drain_pass-IsSound e c (open_fits a))
        s
        (λ a.
          end_test-IsSound e (serve_both cipher e c)
            (Fits-IsSound (serve_both cipher e c) (serve_both-Fits e c (open_fits a))))
    where
      open_fits : c.slot.active ≡ true → Fits c
      open_fits a = record { local_ok = s.local_fits; rvd_ok = s.rvd_fits; is_active = a }
