-- ===== src/Relay/Single/Whole.antt =====
-- noports_relay.cpp: _relay_task_inner from the search for the control channel to the end of its loop.
use noports.Prelude.{
  ℕ, ◌≡◌, ◌⊎◌, arith, inl, inr, refl, subst, Bool, true, Option, some, List, [], Text,
}
use noports.Relay.Forward.{Cipher, transform}
use noports.Relay.Forward.Stream.{IsFront}
use noports.Relay.Single.{Attempt, is_done, write_all, SinglePass, Leg, Single, bridge}
use noports.Relay.Single.Stream.{bridge-IsFront}
use noports.Relay.Single.Poll.{Round, Socket, poll_rounds, data_socket}
use noports.Relay.Single.Poll.Kept.{Keeps, poll_rounds-Keeps}

module _ (cipher : Cipher) where
  open cipher use {Key}

  -- The two directions at the start of the bridge, with the keys of the data channel.
  unfoldable pub start_state : Option Key → Leg cipher → Socket cipher → Single cipher
  start_state dec to_rvd s = record {
    to_local = record { key = dec; incoming = s.incoming; outgoing = []; bytes = 0 };
    to_rvd = to_rvd;
    idle_since = 0;
    running = true;
  }

  -- A socket as it is after the connection.
  unfoldable pub fresh : Option Key → Text → Socket cipher
  fresh key all = record { key = key; incoming = all; early = []; message = [] }

  fresh-Keeps : (key : Option Key) (all : Text) → Keeps cipher all (fresh key all)
  unfolding fresh
  fresh-Keeps key all = record { bytes = refl; read = refl; room = omega arith }

  -- What the local service is given is a front of what the peer of one of the two sockets, the data
  -- channel, has sent since the connection, transformed, if the bytes that were read early can all be
  -- written: the search for the control channel and the loop together lose nothing in the middle.
  pub single_relay-IsFront :
      (rs : List Round) (key_a key_b dec : Option Key) (all_a all_b : Text) (s : Socket cipher)
      (oom : Bool) (now : ℕ) (as_ : List Attempt) (limit : ℕ) (ps : List SinglePass)
      (to_rvd : Leg cipher)
      → data_socket cipher (poll_rounds cipher rs (fresh key_a all_a) (fresh key_b all_b)) ≡ some s
      → is_done (write_all oom now (transform cipher dec s.early) as_).1 ≡ true
      → IsFront cipher
          (bridge cipher oom now as_ s.early limit ps (start_state dec to_rvd s)).to_local.outgoing
          (transform cipher dec all_a)
        ⊎ IsFront cipher
            (bridge cipher oom now as_ s.early limit ps
              (start_state dec to_rvd s)).to_local.outgoing
            (transform cipher dec all_b)
  unfolding start_state
  single_relay-IsFront rs key_a key_b dec all_a all_b s oom now as_ limit ps to_rvd h d =
      let (f, g) =
        bridge-IsFront cipher oom now as_ s.early limit ps (start_state dec to_rvd s) d in
      let front = λ (all : Text) (k : Keeps cipher all s).
        subst
          (λ (t : Text).
            IsFront cipher
              (bridge cipher oom now as_ s.early limit ps
                (start_state dec to_rvd s)).to_local.outgoing
              (transform cipher dec t))
          k.bytes f in
      elim (poll_rounds-Keeps cipher rs all_a all_b (fresh key_a all_a) (fresh key_b all_b) s
        (fresh-Keeps key_a all_a) (fresh-Keeps key_b all_b) h) [
          | inl k ↦ inl (front all_a k)
          | inr k ↦ inr (front all_b k)
        ]
