-- ===== src/Daemon/Notify/Routing.antt =====
-- Which notifications reach a handler.
use noports.Prelude.{
  ℕ, suc, ◌+◌, ◌≡◌, ◌≢◌, inl, inr, refl, ap, true, false, Option, none, some, [], ◌∷◌, ◌++◌, arith,
  ltb, ◌==◌, Text, codes, str_eq, length, drop, Bool-cases, length-append, All, eq_of_str_eq,
}
use noports.Daemon.Host.{Host, Notification}
use noports.Daemon.State.{
  NotificationKey, nk_sshpublickey, nk_ping, nk_ssh_request, nk_npt_request, nk_graceful_shutdown,
  Config,
}
use noports.Daemon.Notify.{
  find_key, notification_key, same_atsign, in_policy_mode, starts_with, split_at_sub, skip_head,
  skip_head_of, key_kind, policy_response, handle, route_kind, route_fields, is_policy_key, route,
}

route_kind-ne : (from : Text) (k : Option Text) → route_kind from k ≢ policy_response
unfolding route_kind
route_kind-ne from none h = cc
route_kind-ne from (some k) h = cc

route_fields-ne : (config : Config) (n : Notification) → route_fields config n ≢ policy_response
unfolding route_fields
route_fields-ne config n h = grind (arith, route_kind-ne)

policy_key-mode :
    (host : Host) (config : Config) (k : Option Text)
    → is_policy_key host config k ≡ true
    → in_policy_mode config.policy_atsign ≡ true
unfolding is_policy_key
policy_key-mode host config none h = cc
policy_key-mode host config (some k) h = ground arith

-- Only the configured policy atSign, and only in policy mode, has a notification handled as a
-- policy response.
pub route-policy_response :
    (host : Host) (config : Config) (n : Notification)
    → route host config n ≡ policy_response
    → (in_policy_mode config.policy_atsign ≡ true)
      × (same_atsign n.from config.policy_atsign ≡ true)
unfolding route
route-policy_response host config n h = elim (Bool-cases (is_policy_key host config n.key)) [
  | inl y ↦ (policy_key-mode host config n.key y, ground (arith, (rw y at h)))
  | inr y ↦ absurd (route_fields-ne config n (rw y at h))
]

-- No key is dispatched as a graceful shutdown: the loop over the map stops before its last row.
pub notification_key-ne-graceful_shutdown :
    (key : Text) → notification_key key ≢ nk_graceful_shutdown
unfolding notification_key
notification_key-ne-graceful_shutdown key h = ground arith

starts_with-append : (a b : Text) → starts_with a (a ++ b) ≡ true
unfolding starts_with
starts_with-append [] b = refl
starts_with-append (x ∷ a) b = ground (arith, starts_with-append a b)

drop-append : (a b : Text) → drop (length a) (a ++ b) ≡ b
drop-append [] b = refl
drop-append (x ∷ a) b = drop-append a b

drop-suc-append : (a : Text) (c : ℕ) (b : Text) → drop (length a + 1) (a ++ (c ∷ b)) ≡ b
drop-suc-append a c b = let e : length a + 1 ≡ suc (length a) = omega arith in rw e (go a)
  where
    go : (a : Text) → drop (suc (length a)) (a ++ (c ∷ b)) ≡ b
    go [] = refl
    go (x ∷ xs) = go xs

skip_head-append : (to kind tail : Text) (c : ℕ) → skip_head to (to ++ (c ∷ kind), tail) ≡ some kind
unfolding skip_head
skip_head-append to kind tail c =
    let l = length-append to (c ∷ kind) in
    let a : ltb (length (to ++ (c ∷ kind))) (length to) ≡ false = ground (arith, l) in
    let b : (length (to ++ (c ∷ kind)) == length to) ≡ false = ground (arith, l) in
    rw (a, starts_with-append to (c ∷ kind), b) (ap some (drop-suc-append to c kind))

not_policy_key :
    (host : Host) (config : Config) (key : Text)
    → host.is_response_key key ≡ false
    → is_policy_key host config (some key) ≡ false
unfolding is_policy_key
not_policy_key host config key h = ground (arith, h)

not_equal : (a b : Text) → a ≢ b → str_eq a b ≡ false
not_equal a b n = elim (Bool-cases (str_eq a b)) [
  | inl e ↦ absurd (n (eq_of_str_eq a b e))
  | inr e ↦ e
]

-- The texts of the four kinds of request, and what they are dispatched as.
pub data IsKind : Text → NotificationKey → Type 0 where
  names_sshpublickey : IsKind (codes "sshpublickey") nk_sshpublickey
  names_ping : IsKind (codes "ping") nk_ping
  names_ssh_request : IsKind (codes "ssh_request") nk_ssh_request
  names_npt_request : IsKind (codes "npt_request") nk_npt_request

notification_key-IsKind :
    (kind : Text) (nk : NotificationKey) → IsKind kind nk → notification_key kind ≡ nk
unfolding notification_key find_key str_eq
notification_key-IsKind kind nk names_sshpublickey = refl
notification_key-IsKind kind nk names_ping = refl
notification_key-IsKind kind nk names_ssh_request = refl
notification_key-IsKind kind nk names_npt_request = refl

kind_dotless : (kind : Text) (nk : NotificationKey) → IsKind kind nk → All (λ b. b ≢ b'.') kind
kind_dotless kind nk names_sshpublickey = omega arith
kind_dotless kind nk names_ping = omega arith
kind_dotless kind nk names_ssh_request = omega arith
kind_dotless kind nk names_npt_request = omega arith

All-append : (P : ℕ → Type 0) (xs ys : Text) → All P xs → All P ys → All P (xs ++ ys)
All-append P [] ys h k = k
All-append P (x ∷ xs) ys h k = (h.0, All-append P xs ys h.1 k)

-- A text that begins with a dot is found behind one with no dot.
split_at_sub-dotless :
    (front tail after : Text)
    → All (λ b. b ≢ b'.') front
    → split_at_sub (b'.' ∷ tail) (front ++ ((b'.' ∷ tail) ++ after))
      ≡ some (front, (b'.' ∷ tail) ++ after)
unfolding split_at_sub starts_with
split_at_sub-dotless [] tail after h = rw (starts_with-append tail after) refl
split_at_sub-dotless (x ∷ front) tail after h =
    let n : (b'.' == x) ≡ false = ground (arith, h.0) in
    rw (n, split_at_sub-dotless front tail after h.1) refl

-- A notification with all its fields and an id other than "-1", whose key is no policy response and is
-- spelled out as the receiver, one byte, one of the four kinds, ".", the device's name, ".sshnp",
-- the sender and anything after that, is handled as that kind, for that sender, if the receiver and
-- that one byte hold no dot.
pub route-IsKind :
    (host : Host) (config : Config) (id from to value kind after : Text) (c : ℕ)
    (nk : NotificationKey)
    → IsKind kind nk
    → All (λ b. b ≢ b'.') to
    → c ≢ b'.'
    → id ≢ codes "-1"
    → host.is_response_key (
        (to ++ (c ∷ kind))
        ++ ((codes "." ++ (config.device_name ++ (codes ".sshnp" ++ from))) ++ after))
      ≡ false
    → route host config (record {
      id = some id;
      key = some (
          (to ++ (c ∷ kind))
          ++ ((codes "." ++ (config.device_name ++ (codes ".sshnp" ++ from))) ++ after));
      from = some from;
      to = some to;
      decrypted_value = some value;
    })
      ≡ handle nk from
unfolding route route_fields key_kind skip_head_of route_kind
route-IsKind host config id from to value kind after c nk k d n i p =
    let tail = config.device_name ++ (codes ".sshnp" ++ from) in
    let s =
      split_at_sub-dotless (to ++ (c ∷ kind)) tail after
        (All-append (λ b. b ≢ b'.') to (c ∷ kind) d (n, kind_dotless kind nk k)) in
    let q = not_policy_key host config ((to ++ (c ∷ kind)) ++ ((b'.' ∷ tail) ++ after)) p in
    let e : str_eq id (codes "-1") ≡ false = not_equal id (codes "-1") i in
    rw (q, e, s, skip_head_of)
      (rw (skip_head-append to kind ((b'.' ∷ tail) ++ after) c)
        (ap (λ (x : NotificationKey). handle x from) (notification_key-IsKind kind nk k)))
