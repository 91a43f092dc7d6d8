-- ===== src/Relay/Forward/Stream.antt =====
-- A direction passes its bytes on in order, once each.
use noports.Prelude.{
  ℕ, zero, suc, ◌≤◌, ◌≡◌, inl, inr, refl, sym, ap, ◌∙◌, subst, Bool, true, false, ◌&&◌, Option,
  none, some, List, [], ◌∷◌, ◌++◌, arith, ltb, ◌==◌, if◌then◌else◌, Text, length, take, drop,
  take-append-drop, length-take-le, length-take-drop, Bool-cases,
}
use noports.Relay.Forward.{
  chunk_size, Cipher, Io, Line, transform, advanced, Pass, flush_with, flush_pending, chunk,
  send_with, read_new, direction, relay_line,
}

pub append_assoc : (xs ys zs : Text) → (xs ++ ys) ++ zs ≡ xs ++ (ys ++ zs)
append_assoc [] ys zs = refl
append_assoc (x ∷ xs) ys zs = ap (◌∷◌ x) (append_assoc xs ys zs)

module _ (cipher : Cipher) where
  open cipher use {Key, crypt, advance, crypt_append, crypt_length}

  -- All that a direction's sink gets if nothing fails: what it has, what waits for it, and what the
  -- source has still to send, transformed.
  abbrev pub total : Line cipher → Text
  total l = l.outgoing ++ (l.pending ++ transform cipher l.key l.incoming)

  pub transform_append :
      (k : Option Key) (xs ys : Text)
      → transform cipher k (xs ++ ys)
        ≡ transform cipher k xs ++ transform cipher (advanced cipher k xs) ys
  unfolding transform advanced
  transform_append none xs ys = refl
  transform_append (some k) xs ys = crypt_append k xs ys

  pub length-transform : (k : Option Key) (xs : Text) → length (transform cipher k xs) ≡ length xs
  unfolding transform
  length-transform none xs = refl
  length-transform (some k) xs = crypt_length k xs

  -- Moving a front of the middle to the left.
  shift :
      (w : ℕ) (out mid tail : Text)
      → (out ++ take w mid) ++ (drop w mid ++ tail) ≡ out ++ (mid ++ tail)
  shift w out mid tail =
      append_assoc out (take w mid) (drop w mid ++ tail)
      ∙ ap (λ x. out ++ x)
          (sym (append_assoc (take w mid) (drop w mid) tail)
            ∙ ap (λ x. x ++ tail) (take-append-drop w mid))

  flush_with-total : (r : Option ℕ) (l : Line cipher) → total (flush_with cipher r l).line ≡ total l
  unfolding flush_with
  flush_with-total none l = refl
  flush_with-total (some w) l = shift w l.outgoing l.pending (transform cipher l.key l.incoming)

  flush_pending-total :
      (r : Option ℕ) (l : Line cipher) → total (flush_pending cipher r l).line ≡ total l
  unfolding flush_pending
  flush_pending-total r l = elim (Bool-cases (length l.pending == 0)) [
    | inl e ↦ rw e refl
    | inr e ↦ rw e (flush_with-total r l)
  ]

  pub chunk-drop :
      (c a : ℕ) (xs : Text) → take c (take a xs) ++ drop (length (take c (take a xs))) xs ≡ xs
  chunk-drop zero a xs = refl
  chunk-drop (suc c) zero xs = refl
  chunk-drop (suc c) (suc a) [] = refl
  chunk-drop (suc c) (suc a) (x ∷ xs) = ap (◌∷◌ x) (chunk-drop c a xs)

  send_with-total :
      (b : Bool) (w : ℕ) (chunk rest : Text) (l : Line cipher)
      → l.pending ≡ []
      → chunk ++ rest ≡ l.incoming
      → total (send_with cipher b (some w) chunk rest l).line ≡ total l
  unfolding send_with
  send_with-total b w c rest l e i =
      shift w l.outgoing (transform cipher l.key c)
        (transform cipher (advanced cipher l.key c) rest)
      ∙ ap (λ x. l.outgoing ++ x)
          (sym (transform_append l.key c rest)
            ∙ ap (transform cipher l.key) i
            ∙ ap (λ p. p ++ transform cipher l.key l.incoming) (sym e))

  pub empty_of_length : (xs : Text) → length xs ≡ 0 → xs ≡ []
  empty_of_length [] e = refl
  empty_of_length (x ∷ xs) e = absurd (omega arith)

  send-total :
      (b : Bool) (r : Option ℕ) (c rest : Text) (l : Line cipher)
      → l.pending ≡ []
      → c ++ rest ≡ l.incoming
      → (send_with cipher b r c rest l).failed ≡ false
      → total (send_with cipher b r c rest l).line ≡ total l
  send-total b none c rest l e i f = absurd (unfold send_with in cc)
  send-total b (some w) c rest l e i f = send_with-total b w c rest l e i

  read_new-total :
      (b : Bool) (io : Io) (l : Line cipher)
      → (read_new cipher b io l).failed ≡ false
      → total (read_new cipher b io l).line ≡ total l
  unfolding read_new
  read_new-total b io l f =
      elim (Bool-cases ((length l.pending == 0) && ltb 0 (length (chunk cipher io.available l)))) [
        | inl e ↦
            let n : length l.pending ≡ 0 = ground arith in
            rw e (
              send-total b io.accepted (chunk cipher io.available l) _ l
                (empty_of_length l.pending n) (chunk-drop chunk_size io.available l.incoming)
                (rw e at f))
        | inr e ↦ rw e refl
      ]

  if-line :
      (b : Bool) (p q : Pass cipher) (t : Text)
      → total p.line ≡ t
      → (q.failed ≡ false → total q.line ≡ t)
      → (if b then p else q).failed ≡ false
      → total (if b then p else q).line ≡ t
  if-line true p q t x y f = x
  if-line false p q t x y f = y f

  -- A pass that does not fail keeps the bytes: what the sink has, what waits, and the transformed rest
  -- of the source stay the same text, so nothing is lost, doubled, or put out of order.
  pub direction-total :
      (draining : Bool) (io : Io) (l : Line cipher)
      → (direction cipher draining io l).failed ≡ false
      → total (direction cipher draining io l).line ≡ total l
  unfolding direction
  direction-total b io l f =
      if-line (flush_pending cipher io.flushed l).failed _ _ (total l)
        (flush_pending-total io.flushed l)
        (λ g.
          read_new-total b io (flush_pending cipher io.flushed l).line g
          ∙ flush_pending-total io.flushed l)
        f

  -- What a sink has is the front of a text.
  abbrev pub IsFront : Text → Text → Type 0
  IsFront out all = (rest : Text) × (out ++ rest ≡ all)

  total-IsFront : (l : Line cipher) (all : Text) → total l ≡ all → IsFront l.outgoing all
  total-IsFront l all e = (l.pending ++ transform cipher l.key l.incoming, e)

  send-IsFront :
      (b : Bool) (r : Option ℕ) (c rest : Text) (l : Line cipher)
      → l.pending ≡ []
      → c ++ rest ≡ l.incoming
      → IsFront (send_with cipher b r c rest l).line.outgoing (total l)
  send-IsFront b none c rest l e i =
      (l.pending ++ transform cipher l.key l.incoming, unfold send_with in refl)
  send-IsFront b (some w) c rest l e i =
      total-IsFront (send_with cipher b (some w) c rest l).line (total l)
        (send_with-total b w c rest l e i)

  read_new-IsFront :
      (b : Bool) (io : Io) (l : Line cipher)
      → IsFront (read_new cipher b io l).line.outgoing (total l)
  unfolding read_new
  read_new-IsFront b io l =
      elim (Bool-cases ((length l.pending == 0) && ltb 0 (length (chunk cipher io.available l)))) [
        | inl e ↦
            let n : length l.pending ≡ 0 = ground arith in
            rw e (
              send-IsFront b io.accepted (chunk cipher io.available l) _ l
                (empty_of_length l.pending n) (chunk-drop chunk_size io.available l.incoming))
        | inr e ↦ rw e (total-IsFront l _ refl)
      ]

  if-IsFront :
      (b : Bool) (p q : Pass cipher) (t : Text)
      → IsFront p.line.outgoing t
      → IsFront q.line.outgoing t
      → IsFront (if b then p else q).line.outgoing t
  if-IsFront true p q t x y = x
  if-IsFront false p q t x y = y

  pub direction-IsFront :
      (b : Bool) (io : Io) (l : Line cipher)
      → IsFront (direction cipher b io l).line.outgoing (total l)
  unfolding direction
  direction-IsFront b io l =
      let e = flush_pending-total io.flushed l in
      if-IsFront (flush_pending cipher io.flushed l).failed _ _ (total l)
        (total-IsFront (flush_pending cipher io.flushed l).line (total l) e)
        (subst
          (λ t.
            IsFront (read_new cipher b io (flush_pending cipher io.flushed l).line).line.outgoing t)
          e (read_new-IsFront b io (flush_pending cipher io.flushed l).line))

  -- Over passes in one state, up to and including the first in which a write fails: what a sink has been
  -- given is a front of what the source sent, transformed, and no byte is lost before that write.
  pub relay_line-IsFront :
      (b : Bool) (ios : List Io) (l : Line cipher)
      → IsFront (relay_line cipher b ios l).line.outgoing (total l)
        × ((relay_line cipher b ios l).failed ≡ false
            → total (relay_line cipher b ios l).line ≡ total l)
  unfolding relay_line
  relay_line-IsFront b [] l = (total-IsFront l _ refl, λ _. refl)
  relay_line-IsFront b (io ∷ ios) l = elim (Bool-cases (direction cipher b io l).failed) [
    | inl e ↦ rw e (direction-IsFront b io l, λ f. absurd cc)
    | inr e ↦
        let t = direction-total b io l e in
        let (x, y) = relay_line-IsFront b ios (direction cipher b io l).line in
        rw e (
          subst
              (λ t.
                IsFront (relay_line cipher b ios (direction cipher b io l).line).line.outgoing t)
              t x,
          λ f. y f ∙ t,
        )
  ]

  send-pending :
      (b : Bool) (r : Option ℕ) (c rest : Text) (l : Line cipher)
      → length c ≤ chunk_size
      → length l.pending ≤ chunk_size
      → length (send_with cipher b r c rest l).line.pending ≤ chunk_size
  unfolding send_with
  send-pending b none c rest l h p = p
  send-pending b (some w) c rest l h p =
      let e = length-transform l.key c in
      let d = length-take-drop w (transform cipher l.key c) in omega (arith, e, d)

  read_new-pending :
      (b : Bool) (io : Io) (l : Line cipher)
      → length l.pending ≤ chunk_size
      → length (read_new cipher b io l).line.pending ≤ chunk_size
  unfolding read_new
  read_new-pending b io l p =
      elim (Bool-cases ((length l.pending == 0) && ltb 0 (length (chunk cipher io.available l)))) [
        | inl e ↦
            rw e
              (send-pending b io.accepted (chunk cipher io.available l) _ l (length-take-le _ _) p)
        | inr e ↦ rw e p
      ]

  flush_pending-pending :
      (r : Option ℕ) (l : Line cipher)
      → length l.pending ≤ chunk_size
      → length (flush_pending cipher r l).line.pending ≤ chunk_size
  unfolding flush_pending flush_with
  flush_pending-pending none l p = ground arith
  flush_pending-pending (some w) l p = elim (Bool-cases (length l.pending == 0)) [
    | inl e ↦ rw e p
    | inr e ↦ let d = length-take-drop w l.pending in rw e (omega (arith, d))
  ]

  if-pending :
      (b : Bool) (p q : Pass cipher)
      → length p.line.pending ≤ chunk_size
      → length q.line.pending ≤ chunk_size
      → length (if b then p else q).line.pending ≤ chunk_size
  if-pending true p q x y = x
  if-pending false p q x y = y

  -- The bytes that wait always fit the buffer of one chunk: no pass, failed or not, makes them more
  -- than RELAY_CHUNK_SIZE.
  pub direction-pending :
      (draining : Bool) (io : Io) (l : Line cipher)
      → length l.pending ≤ chunk_size
      → length (direction cipher draining io l).line.pending ≤ chunk_size
  unfolding direction
  direction-pending b io l p =
      let f = flush_pending-pending io.flushed l p in
      if-pending (flush_pending cipher io.flushed l).failed _ _ f
        (read_new-pending b io (flush_pending cipher io.flushed l).line f)
