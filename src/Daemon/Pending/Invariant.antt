-- ===== src/Daemon/Pending/Invariant.antt =====
-- The policy check in flight: what its record holds from the request to the end of the check.
use noports.Prelude.{
  ℕ, ◌≤◌, ◌<◌, ◌≡◌, ◌≢◌, ◌⊎◌, inl, inr, refl, Bool, true, false, not, Option, none, some, List,
  arith, subst, if◌then◌else◌, Text, length, length-take-le,
}
use noports.Daemon.State.{
  PendingType, pending_none, pending_ping, pending_npt, Pending, State, World, Action,
}
use noports.Daemon.Pending.{
  next_policy_req_id, counter_size, idle, name_len, cleanup_policy_pending, send_policy_rpc_request,
  occupy, begin_check,
}

-- A request id is never 0, fits 32 bits and differs from the one before it, also where the counter
-- wraps.
pub next_policy_req_id_lem :
    (c : ℕ)
    → c < counter_size
    → (1 ≤ next_policy_req_id c)
      × (next_policy_req_id c < counter_size)
      × (next_policy_req_id c ≢ c)
unfolding next_policy_req_id
next_policy_req_id_lem c h = (ground arith, ground arith, λ e. ground arith)

module _ {Json : Type 0} where
  -- The envelope is kept for a session's check, and only for that.
  abbrev pub HasEnvelope : PendingType → Option Json → Type 0
  HasEnvelope pending_ping none = Unit
  HasEnvelope pending_ping (some e) = ⊥
  HasEnvelope pending_npt none = ⊥
  HasEnvelope pending_npt (some e) = Unit
  HasEnvelope pending_none o = ⊥

  pub record InFlight (p : Pending Json) (counter : ℕ) : Type 0 where
    pub used : p.in_use ≡ true
    pub id_lower : 1 ≤ p.req_id
    pub id_upper : p.req_id < counter_size
    pub id_is : p.req_id ≡ counter
    pub name_fits : length p.requesting_atsign ≤ name_len
    pub envelope_fits : HasEnvelope p.type p.envelope

  -- The counter fits 32 bits, and the record is cleared or holds a whole check.
  abbrev pub IsValid : State Json → Type 0
  IsValid s =
      (s.req_counter < counter_size) × ((s.pending ≡ idle) ⊎ InFlight s.pending s.req_counter)

  -- A state that differs in other fields only.
  pub IsValid-pending :
      (s t : State Json)
      → s.pending ≡ t.pending
      → s.req_counter ≡ t.req_counter
      → IsValid s
      → IsValid t
  IsValid-pending s t p c v =
      subst (λ k. (k < counter_size) × ((t.pending ≡ idle) ⊎ InFlight t.pending k)) c
        (subst (λ q. (s.req_counter < counter_size) × ((q ≡ idle) ⊎ InFlight q s.req_counter)) p v)

  pub if-IsValid :
      (b : Bool) (x y : State Json × List (Action Json))
      → IsValid x.0
      → IsValid y.0
      → IsValid (if b then x else y).0
  if-IsValid true x y p q = p
  if-IsValid false x y p q = q

  pub cases-IsValid :
      (b : Bool) (x y : State Json × List (Action Json))
      → (b ≡ true → IsValid x.0)
      → (b ≡ false → IsValid y.0)
      → IsValid (if b then x else y).0
  cases-IsValid true x y p q = p refl
  cases-IsValid false x y p q = q refl

  pub cleanup_policy_pending-IsValid :
      (s : State Json) → IsValid s → IsValid (cleanup_policy_pending s)
  unfolding cleanup_policy_pending
  cleanup_policy_pending-IsValid s v = (v.0, inl refl)

  pub send_policy_rpc_request-IsValid :
      (w : World) (c : Text) (s : State Json)
      → IsValid s
      → IsValid (send_policy_rpc_request w c s).0
  unfolding send_policy_rpc_request
  send_policy_rpc_request-IsValid w c s v =
      if-IsValid (not w.payload_built) _ _ (cleanup_policy_pending-IsValid s v)
        (if-IsValid w.rpc_sent _ _ v (cleanup_policy_pending-IsValid s v))

  pub begin_check-IsValid :
      (w : World) (t : PendingType) (from : Text) (e : Option Json) (s : State Json)
      → HasEnvelope t e
      → IsValid s
      → IsValid (begin_check w t from e s).0
  unfolding begin_check occupy
  begin_check-IsValid w t from e s h v =
      let (a, b, _) = next_policy_req_id_lem s.req_counter v.0 in
      send_policy_rpc_request-IsValid w from _ (
        b,
        inr (record {
          used = refl;
          id_lower = a;
          id_upper = b;
          id_is = refl;
          name_fits = length-take-le name_len from;
          envelope_fits = h;
        }),
      )
