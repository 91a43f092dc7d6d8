-- ===== src/Daemon/Slots/Free.antt =====
-- A session is only ever put into a slot that no live relay holds.
use noports.Prelude.{
  ℕ, zero, suc, ◌<◌, ◌≡◌, ◌≢◌, ◌⊎◌, inl, inr, refl, subst, Bool, true, false, not, ◌&&◌, Option,
  none, some, List, [], ◌∷◌, arith, if◌then◌else◌, get_elem?, suc_option, some_inj,
}
use noports.Daemon.Slots.{
  RelayState, relay_idle, relay_connecting, relay_authenticating, relay_running, relay_stopped,
  relay_error, Task, no_task, live_task, dead_task, Relay, is_up, is_starting, refresh,
  refresh_with, is_running, asked, ask_relays, find_free_relay_slot,
}

-- A relay that may take a session: its task has died, or it is not connecting, not authenticating and
-- not running.
abbrev pub IsFree : Relay → Type 0
IsFree r =
    (r.task ≡ dead_task)
    ⊎ ((r.state ≢ relay_connecting) × (r.state ≢ relay_authenticating) × (r.state ≢ relay_running))

-- The test on a state, alone.
is_quiet : RelayState → Bool
is_quiet s = not (is_up s) && not (is_starting s)

is_quiet-states :
    (s : RelayState)
    → is_quiet s ≡ true
    → (s ≢ relay_connecting) × (s ≢ relay_authenticating) × (s ≢ relay_running)
unfolding is_quiet is_up is_starting
is_quiet-states relay_idle h = (λ e. cc, λ e. cc, λ e. cc)
is_quiet-states relay_stopped h = (λ e. cc, λ e. cc, λ e. cc)
is_quiet-states relay_error h = (λ e. cc, λ e. cc, λ e. cc)
is_quiet-states relay_connecting h = absurd cc
is_quiet-states relay_authenticating h = absurd cc
is_quiet-states relay_running h = absurd cc

states-is_quiet :
    (s : RelayState)
    → (s ≢ relay_connecting) × (s ≢ relay_authenticating) × (s ≢ relay_running)
    → is_quiet s ≡ true
unfolding is_quiet is_up is_starting
states-is_quiet relay_idle h = refl
states-is_quiet relay_stopped h = refl
states-is_quiet relay_error h = refl
states-is_quiet relay_connecting h = absurd (h.0 refl)
states-is_quiet relay_authenticating h = absurd (h.1 refl)
states-is_quiet relay_running h = absurd (h.2 refl)

refreshed-IsFree :
    (t : Task) (r : Relay) → r.task ≡ t → is_quiet (refresh_with t r).state ≡ true → IsFree r
unfolding refresh_with
refreshed-IsFree dead_task r e h = inl e
refreshed-IsFree live_task r e h = inr (is_quiet-states r.state h)
refreshed-IsFree no_task r e h = inr (is_quiet-states r.state h)

IsFree-refreshed :
    (t : Task) (r : Relay) → r.task ≡ t → IsFree r → is_quiet (refresh_with t r).state ≡ true
unfolding refresh_with is_quiet is_up is_starting
IsFree-refreshed dead_task r e f = refl
IsFree-refreshed live_task r e (inl d) = absurd cc
IsFree-refreshed live_task r e (inr s) =
    unfold is_quiet is_up is_starting in states-is_quiet r.state s
IsFree-refreshed no_task r e (inl d) = absurd cc
IsFree-refreshed no_task r e (inr s) =
    unfold is_quiet is_up is_starting in states-is_quiet r.state s

asked-IsFree : (r : Relay) → (asked r).1 ≡ true → IsFree r
unfolding asked is_running refresh
asked-IsFree r h = refreshed-IsFree r.task r refl (unfold is_quiet in h)

IsFree-asked : (r : Relay) → IsFree r → (asked r).1 ≡ true
unfolding asked is_running refresh
IsFree-asked r f = unfold is_quiet in IsFree-refreshed r.task r refl f

-- The slot of the first free relay among the first n, if there is one.
abbrev pub FirstFree : ℕ → List Relay → Option ℕ → Type 0
FirstFree n rs none = (j : ℕ) (q : Relay) → j < n → get_elem? rs j ≡ some q → IsFree q → ⊥
FirstFree n rs (some i) =
    (i < n)
    × ((r : Relay) × (get_elem? rs i ≡ some r) × IsFree r)
    × ((j : ℕ) (q : Relay) → j < i → get_elem? rs j ≡ some q → IsFree q → ⊥)

busy : (r q : Relay) → (asked r).1 ≡ false → some r ≡ some q → IsFree q → ⊥
busy r q b e f =
    let p = subst (λ (x : Relay). (asked x).1 ≡ false) (some_inj e) b in
    let t = IsFree-asked q f in cc

busy_below :
    (n : ℕ) (r : Relay) (rs : List Relay)
    → (asked r).1 ≡ false
    → ((j : ℕ) (q : Relay) → j < n → get_elem? rs j ≡ some q → IsFree q → ⊥)
    → (j : ℕ) (q : Relay) → j < suc n
    → get_elem? (r ∷ rs) j ≡ some q
    → IsFree q
    → ⊥
busy_below n r rs b f zero q l g k = busy r q b g k
busy_below n r rs b f (suc j) q l g k = f j q (omega arith) g k

FirstFree-suc :
    (n : ℕ) (r : Relay) (rs : List Relay) (o : Option ℕ)
    → (asked r).1 ≡ false
    → FirstFree n rs o
    → FirstFree (suc n) (r ∷ rs) (suc_option o)
FirstFree-suc n r rs none b f = busy_below n r rs b f
FirstFree-suc n r rs (some i) b (l, x, f) = (omega arith, x, busy_below i r rs b f)

if-FirstFree :
    (n : ℕ) (rs : List Relay) (b : Bool) (x y : List Relay × Option ℕ)
    → (b ≡ true → FirstFree n rs x.1)
    → (b ≡ false → FirstFree n rs y.1)
    → FirstFree n rs (if b then x else y).1
if-FirstFree n rs true x y f g = f refl
if-FirstFree n rs false x y f g = g refl

-- The search gives the first of the relays, up to the configured number, that is free: its task has
-- died, or it is not connecting, not authenticating and not running. It gives none only if none of
-- them is.
pub find_free_relay_slot-FirstFree :
    (max_relays : ℕ) (relays : List Relay)
    → FirstFree max_relays relays (find_free_relay_slot max_relays relays)
unfolding find_free_relay_slot ask_relays
find_free_relay_slot-FirstFree zero rs = λ j q l. absurd (omega arith)
find_free_relay_slot-FirstFree (suc n) [] = λ j q l g. absurd cc
find_free_relay_slot-FirstFree (suc n) (r ∷ rs) =
    if-FirstFree (suc n) (r ∷ rs) (asked r).1 _ _
      (λ e. (omega arith, (r, refl, asked-IsFree r e), λ j q l. absurd (omega arith)))
      (λ e.
        FirstFree-suc n r rs (find_free_relay_slot n rs) e (find_free_relay_slot-FirstFree n rs))
