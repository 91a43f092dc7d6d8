-- ===== src/Daemon/Response/Outcomes.antt =====
-- What a check comes to: the rules it takes, its timeout, and the denial that is remembered.
use noports.Prelude.{
  ℕ, zero, suc, ◌-◌, ◌≤◌, ◌<◌, ◌≡◌, inl, inr, refl, Bool, true, false, Option, none, some, List, [],
  ◌∷◌, arith, ltb, if◌then◌else◌, Text, length, All, Bool-cases,
}
use noports.Policy.Atsign.{normalize_text, buffer_len}
use noports.Policy.Cache.{Decision, copy_decision, cache_lookup, cache_store, ttl_ms}
use noports.Policy.Cache.Refine.{Noted, Refines}
use noports.Policy.Cache.Fill.{lookup-store}
use noports.Policy.Wait.{wait_over}
use noports.Daemon.Host.{Host}
use noports.Daemon.State.{Config, pending_ping, pending_npt, Pending, State, World}
use noports.Daemon.Notify.{in_policy_mode}
use noports.Daemon.Envelope.{Verdict, verified, refused, crashed, is_valid_session_id}
use noports.Daemon.Pending.{cleanup_policy_pending, policy_rate_limited, cache_policy_decision}
use noports.Daemon.Requests.{
  Outcome, session_id_of, is_manager_atsign, ping_decided, ping_by_policy, answer_ping, ping_with,
  handle_ping, is_npt, npt_decided, authorise_npt, npt_signed, npt_parsed, npt_value, npt_limited,
  handle_npt_request,
}
use noports.Daemon.Response.{rule_buffer, keep_rule, collect_rules, policy_timeout}

module _ (host : Host) (config : Config) where
  open host use {Json, get_string_value, parse}

  keep_rule-fit :
      (room : ℕ) (o : Option Text) (without rules : List Text)
      → length without ≤ suc room
      → length rules ≤ room
      → All (λ r. length r < rule_buffer) without
      → All (λ r. length r < rule_buffer) rules
      → (length (keep_rule room o without rules) ≤ suc room)
        × All (λ r. length r < rule_buffer) (keep_rule room o without rules)
  unfolding keep_rule
  keep_rule-fit room none without rules a b p q = (a, p)
  keep_rule-fit room (some s) without rules a b p q =
      elim (Bool-cases (ltb (length s) rule_buffer)) [
        | inl e ↦ rw e (omega arith, (ground arith, q))
        | inr e ↦ rw e (a, p)
      ]

  -- At most as many rules as there is room for are taken from a policy answer, each of them
  -- shorter than 64 bytes.
  pub collect_rules-fit :
      (room : ℕ) (items : List (Option Json))
      → (length (collect_rules host config room items) ≤ room)
        × All (λ r. length r < rule_buffer) (collect_rules host config room items)
  unfolding collect_rules
  collect_rules-fit zero items = (omega arith, tt)
  collect_rules-fit (suc room) [] = (omega arith, tt)
  collect_rules-fit (suc room) (i ∷ is) =
      let (a, p) = collect_rules-fit (suc room) is in
      let (b, q) = collect_rules-fit room is in
      keep_rule-fit room (get_string_value i) (collect_rules host config (suc room) is)
        (collect_rules host config room is) a b p q

  if-kept :
      (b : Bool) (x y : Outcome host config) (p : Pending Json)
      → x.0.pending ≡ p
      → y.0.pending ≡ p
      → (if b then x else y).0.pending ≡ p
  if-kept true x y p a c = a
  if-kept false x y p a c = c

  if-same :
      (b : Bool) (x y : Outcome host config) → x.1 ≡ [] → y.1 ≡ [] → (if b then x else y).1 ≡ []
  if-same true x y p q = p
  if-same false x y p q = q

  npt_decided-kept :
      (w : World) (from : Text) (e : Json) (o : Option Decision) (s : State Json)
      → s.pending.in_use ≡ true
      → s.pending.type ≡ pending_npt
      → (npt_decided host config w from e o s).0.pending ≡ s.pending
  unfolding npt_decided
  npt_decided-kept w from e (some d) s u t = ground arith
  npt_decided-kept w from e none s u t =
      let n : is_npt s.pending.type ≡ true = unfold is_npt in (rw t refl) in rw (u, n) refl

  npt_signed-kept :
      (w : World) (from : Text) (e : Json) (v : Verdict) (s : State Json)
      → s.pending.in_use ≡ true
      → s.pending.type ≡ pending_npt
      → (npt_signed host config w from e v s).0.pending ≡ s.pending
  unfolding npt_signed authorise_npt
  npt_signed-kept w from e verified s u t =
      if-kept (in_policy_mode config.policy_atsign) _ _ s.pending
        (npt_decided-kept w from e _ s u t)
        (if-kept (is_manager_atsign config from) _ _ s.pending refl refl)
  npt_signed-kept w from e refused s u t = refl
  npt_signed-kept w from e crashed s u t = refl

  npt_parsed-kept :
      (w : World) (from : Text) (o : Option Json) (s : State Json)
      → s.pending.in_use ≡ true
      → s.pending.type ≡ pending_npt
      → (npt_parsed host config w from o s).0.pending ≡ s.pending
  unfolding npt_parsed
  npt_parsed-kept w from none s u t = refl
  npt_parsed-kept w from (some e) s u t =
      if-kept (is_valid_session_id (session_id_of host config e)) _ _ s.pending
        (npt_signed-kept w from e _ s u t) refl

  npt_value-kept :
      (w : World) (from : Text) (o : Option Text) (s : State Json)
      → s.pending.in_use ≡ true
      → s.pending.type ≡ pending_npt
      → (npt_value host config w from o s).0.pending ≡ s.pending
  unfolding npt_value
  npt_value-kept w from none s u t = refl
  npt_value-kept w from (some v) s u t = npt_parsed-kept w from (parse v) s u t

  ping_decided-kept :
      (w : World) (from : Text) (o : Option Decision) (s : State Json)
      → s.pending.in_use ≡ true
      → (ping_decided host config w from o s).0.pending ≡ s.pending
  unfolding ping_decided
  ping_decided-kept w from (some d) s u = if-kept d.authorized _ _ s.pending refl refl
  ping_decided-kept w from none s u = rw u refl

  ping_with-kept :
      (w : World) (from : Text) (o : Option Text) (s : State Json)
      → s.pending.in_use ≡ true
      → (ping_with host config w from o s).0.pending ≡ s.pending
  unfolding ping_with answer_ping ping_by_policy policy_rate_limited
  ping_with-kept w from none s u = refl
  ping_with-kept w from (some r) s u =
      if-kept (in_policy_mode config.policy_atsign) _ _ s.pending
        (if-kept (policy_rate_limited w from pending_ping s).1 _ _ s.pending refl
          (ping_decided-kept w from _ (policy_rate_limited w from pending_ping s).0 u))
        (if-kept (is_manager_atsign config from) _ _ s.pending refl refl)

  -- A session's check in flight is never displaced: a ping or another session request, from anyone,
  -- leaves its record as it is.
  pub session_check-kept :
      (w : World) (from : Text) (value : Option Text) (s : State Json)
      → s.pending.in_use ≡ true
      → s.pending.type ≡ pending_npt
      → ((handle_ping host config w from s).0.pending ≡ s.pending)
        × ((handle_npt_request host config w from value s).0.pending ≡ s.pending)
  unfolding handle_ping handle_npt_request npt_limited policy_rate_limited
  session_check-kept w from value s u t = (
    ping_with-kept w from s.ping_response s u,
    if-kept (policy_rate_limited w from pending_npt s).1 _ _ s.pending refl
        (npt_value-kept w from value (policy_rate_limited w from pending_npt s).0 u t),
  )

  policy_timeout-decisions :
      (w : World) (s : State Json)
      → s.pending.in_use ≡ true
      → wait_over s.pending.started_at_ms s.pending.progress_at_ms w.now_ms ≡ true
      → (policy_timeout host config w s).0.decisions
        ≡ (cache_store w.alloc s.decisions s.pending.requesting_atsign
            (record { authorized = false; permit_open = [] })
            w.now_ms).0
  unfolding policy_timeout cleanup_policy_pending cache_policy_decision
  policy_timeout-decisions w s u o = rw (u, o) refl

  -- A sender who is remembered as denied gets no answer to a ping.
  ping-denied :
      (w : World) (from : Text) (d : Decision) (s : State Json) (o : Option Text)
      → in_policy_mode config.policy_atsign ≡ true
      → cache_lookup w.alloc s.decisions from w.now_ms ≡ some d
      → d.authorized ≡ false
      → (ping_with host config w from o s).1 ≡ []
  unfolding ping_with answer_ping ping_by_policy policy_rate_limited ping_decided
  ping-denied w from d s none m e f = refl
  ping-denied w from d s (some r) m e f =
      rw (m, e, f) (if-same (policy_rate_limited w from pending_ping s).1 _ _ refl refl)

  -- A check that runs out of time counts as a denial for 15 seconds: in policy mode, with a
  -- decision cache that agrees with its log and has any room, and a pending name that is an
  -- atSign, no ping by that name less than 15 seconds after the timeout is answered at once or
  -- asked about.
  pub policy_timeout-denies :
      (w later : World) (log : List Noted) (name : Text) (s : State Json)
      → in_policy_mode config.policy_atsign ≡ true
      → s.pending.in_use ≡ true
      → wait_over s.pending.started_at_ms s.pending.progress_at_ms w.now_ms ≡ true
      → Refines log s.decisions
      → 0 < length s.decisions.entries
      → normalize_text s.pending.requesting_atsign buffer_len ≡ some name
      → later.now_ms - w.now_ms < ttl_ms
      → (handle_ping host config later s.pending.requesting_atsign
          (policy_timeout host config w s).0).1
        ≡ []
  unfolding handle_ping
  policy_timeout-denies w later log name s m u o r l n t =
      let d : Decision = record { authorized = false; permit_open = [] } in
      let x = policy_timeout-decisions w s u o in
      let e =
        (lookup-store s.decisions log w.alloc later.alloc s.pending.requesting_atsign
          s.pending.requesting_atsign name d w.now_ms later.now_ms r l n n
          (unfold copy_decision in refl) (unfold copy_decision in refl) t).1 in
      ping-denied later s.pending.requesting_atsign d (policy_timeout host config w s).0
        (policy_timeout host config w s).0.ping_response m (rw x e) refl
