-- ===== src/Relay/Single/Poll/Kept.antt =====
-- No byte of the data socket is lost while the control channel is searched for.
use noports.Prelude.{
  ◌≤◌, ◌<◌, ◌≡◌, ◌⊎◌, subst, inl, inr, refl, sym, ap, ◌∙◌, Bool, true, false, some, List, [], ◌∷◌,
  ◌++◌, arith, ltb, if◌then◌else◌, Text, length, length-append, Bool-cases,
}
use noports.Relay.Forward.{Cipher, transform}
use noports.Relay.Forward.Stream.{append_assoc, length-transform}
use noports.Relay.Single.Poll.{
  early_size, message_room, Round, Socket, Search, lost, read_byte, read_from, poll_socket,
  poll_rounds, data_socket,
}

module _ (cipher : Cipher) where
  -- The socket still has all its bytes: those that were read early, and the rest.
  pub record Keeps (all : Text) (s : Socket cipher) : Type 0 where
    pub bytes : s.early ++ s.incoming ≡ all
    pub read : length s.message ≡ length s.early
    pub room : length s.message ≤ message_room

  read_from-Keeps :
      (all t : Text) (s : Socket cipher)
      → s.incoming ≡ t
      → length s.message < message_room
      → Keeps all s
      → Keeps all (read_from cipher t s).0
  unfolding read_from
  read_from-Keeps all [] s e h k = k
  read_from-Keeps all (c ∷ rest) s e h k =
      let f : ltb (length s.early) early_size ≡ true = ground (arith, k.read) in
      let d = length-transform cipher s.key (c ∷ []) in
      let m = length-append s.message (transform cipher s.key (c ∷ [])) in
      let n = length-append s.early (c ∷ []) in
      unfold read_byte in
      rw f (record {
        bytes =
            append_assoc s.early (c ∷ []) rest ∙ ap (λ (x : Text). s.early ++ x) (sym e) ∙ k.bytes;
        read = omega (arith, d, m, n, k.read);
        room = omega (arith, d, m);
      })

  poll_socket-Keeps :
      (all : Text) (b : Bool) (s : Socket cipher)
      → Keeps all s
      → Keeps all (poll_socket cipher b s).0
  unfolding poll_socket
  poll_socket-Keeps all true s k = elim (Bool-cases (ltb (length s.message) message_room)) [
    | inl e ↦ rw e (read_from-Keeps all s.incoming s refl (ground (arith, e)) k)
    | inr e ↦ rw e k
  ]
  poll_socket-Keeps all false s k = k

  if-data :
      (b : Bool) (x y : Search cipher) (s : Socket cipher) (P : Socket cipher → Type 0)
      → (data_socket cipher x ≡ some s → P s)
      → (data_socket cipher y ≡ some s → P s)
      → data_socket cipher (if b then x else y) ≡ some s
      → P s
  if-data true x y s P f g h = f h
  if-data false x y s P f g h = g h

  some-Keeps : (all : Text) (s t : Socket cipher) → Keeps all s → some s ≡ some t → Keeps all t
  some-Keeps all s t k e = subst (Keeps all) (let q : s ≡ t = cc in q) k

  -- Whichever socket turns out to be the data channel, no byte of it is lost in the search: the raw
  -- bytes that were read early, kept in their buffer, and those still to come are what its peer sent.
  pub poll_rounds-Keeps :
      (rs : List Round) (all_a all_b : Text) (a b s : Socket cipher)
      → Keeps all_a a
      → Keeps all_b b
      → data_socket cipher (poll_rounds cipher rs a b) ≡ some s
      → Keeps all_a s ⊎ Keeps all_b s
  unfolding poll_rounds data_socket
  poll_rounds-Keeps [] all_a all_b a b s k m h = absurd cc
  poll_rounds-Keeps (r ∷ rs) all_a all_b a b s k m h =
      let k' = poll_socket-Keeps all_a r.a_reads a k in
      let m' = poll_socket-Keeps all_b r.b_reads b m in
      let x = poll_socket cipher r.a_reads a in
      let y = poll_socket cipher r.b_reads b in
      let P = λ (t : Socket cipher). Keeps all_a t ⊎ Keeps all_b t in
      if-data x.1 _ _ s P (λ e. inr (some-Keeps all_b b s m e))
        (if-data y.1 _ _ s P (λ e. inl (some-Keeps all_a x.0 s k' e))
          (if-data r.both_lost lost (poll_rounds cipher rs x.0 y.0) s P (λ e. absurd cc)
            (poll_rounds-Keeps rs all_a all_b x.0 y.0 s k' m')))
        h
