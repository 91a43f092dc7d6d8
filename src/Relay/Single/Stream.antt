-- ===== src/Relay/Single/Stream.antt =====
-- The single relay passes the bytes of both directions on in order.
use noports.Prelude.{
  ℕ, zero, suc, ◌≡◌, inl, inr, refl, sym, ap, ◌∙◌, subst, Bool, true, false, ◌&&◌, none, some, List,
  [], ◌∷◌, ◌++◌, arith, ltb, ◌==◌, if◌then◌else◌, Text, length, take, drop, take-append-drop,
  Bool-cases,
}
use noports.Relay.Forward.{Cipher, chunk_size, transform, advanced}
use noports.Relay.Forward.Stream.{append_assoc, transform_append, chunk-drop, IsFront}
use noports.Relay.Sub.{elapsed}
use noports.Relay.Single.{
  Attempt, is_done, write_timeout_ms, write_all, Read, nothing, read_error, got, SinglePass, Leg,
  Single, carry, leg_step, idle_after, moved, second_leg, single_pass, single_loop, replay, bridge,
}

-- What is written is a front of the text, and all of it if the write is done.
write_all-front :
    (oom : Bool) (start : ℕ) (t : Text) (as_ : List Attempt)
    → ((rest : Text) × ((write_all oom start t as_).0 ++ rest ≡ t))
      × (is_done (write_all oom start t as_).1 ≡ true → (write_all oom start t as_).0 ≡ t)
unfolding write_all is_done
write_all-front oom start [] as_ = (([], refl), λ d. refl)
write_all-front oom start (c ∷ cs) [] = ((c ∷ cs, refl), λ d. absurd cc)
write_all-front oom start (c ∷ cs) ((none, t) ∷ as_) = ((c ∷ cs, refl), λ d. absurd cc)
write_all-front oom start (c ∷ cs) ((some zero, t) ∷ as_) =
    elim (Bool-cases (ltb (write_timeout_ms oom) (elapsed t start))) [
      | inl e ↦ rw e ((c ∷ cs, refl), λ d. absurd cc)
      | inr e ↦ rw e (write_all-front oom start (c ∷ cs) as_)
    ]
write_all-front oom start (c ∷ cs) ((some (suc n), t) ∷ as_) =
    let (f, g) = write_all-front oom t (drop n cs) as_ in
    (
      (
        f.0,
        ap (◌∷◌ c) (
            append_assoc (take n cs) (write_all oom t (drop n cs) as_).0 f.0
            ∙ ap (λ (x : Text). take n cs ++ x) f.1
            ∙ take-append-drop n cs),
      ),
      λ d. ap (◌∷◌ c) (ap (λ (x : Text). take n cs ++ x) (g d) ∙ take-append-drop n cs),
    )

suc_ne_zero : (n : ℕ) → (suc n == 0) ≡ false
suc_ne_zero n = ground arith

module _ (cipher : Cipher) where
  -- All that a direction's sink gets if nothing fails.
  abbrev pub all_of : Leg cipher → Text
  all_of l = l.outgoing ++ transform cipher l.key l.incoming

  -- A step of a direction: its sink has a front of what it was to get, and nothing is lost if the
  -- step has not failed.
  abbrev Kept : Leg cipher → Leg cipher → Bool → Type 0
  Kept l m ok = IsFront cipher m.outgoing (all_of l) × (ok ≡ true → all_of m ≡ all_of l)

  carry-Kept :
      (oom : Bool) (now : ℕ) (as_ : List Attempt) (c rest : Text) (l : Leg cipher)
      → ((carry cipher oom now as_ c rest l).1 ≡ true
          → all_of (carry cipher oom now as_ c rest l).0
            ≡ l.outgoing ++ transform cipher l.key (c ++ rest))
        × IsFront cipher
            (carry cipher oom now as_ c rest l).0.outgoing
            (l.outgoing ++ transform cipher l.key (c ++ rest))
  unfolding carry
  carry-Kept oom now as_ c rest l =
      let ((r, e), g) = write_all-front oom now (transform cipher l.key c) as_ in
      let w = (write_all oom now (transform cipher l.key c) as_).0 in
      let tail = transform cipher (advanced cipher l.key c) rest in
      (
        λ d.
            append_assoc l.outgoing w tail
            ∙ ap (λ (x : Text). l.outgoing ++ (x ++ tail)) (g d)
            ∙ ap (λ (x : Text). l.outgoing ++ x) (sym (transform_append cipher l.key c rest)),
        (
          r ++ tail,
          append_assoc l.outgoing w (r ++ tail)
              ∙ ap (λ (x : Text). l.outgoing ++ x)
                  (sym (append_assoc w r tail)
                    ∙ ap (λ (x : Text). x ++ tail) e
                    ∙ sym (transform_append cipher l.key c rest)),
        ),
      )

  same-Kept : (l : Leg cipher) (ok : Bool) → Kept l l ok
  same-Kept l ok = ((transform cipher l.key l.incoming, refl), λ d. refl)

  leg_step-Kept :
      (oom : Bool) (now : ℕ) (r : Read) (as_ : List Attempt) (l : Leg cipher)
      → Kept l (leg_step cipher oom now r as_ l).0 (leg_step cipher oom now r as_ l).1
  unfolding leg_step
  leg_step-Kept oom now nothing as_ l = same-Kept l true
  leg_step-Kept oom now read_error as_ l = same-Kept l false
  leg_step-Kept oom now (got n) as_ l =
      let c = take chunk_size (take n l.incoming) in
      elim (Bool-cases (length c == 0)) [
        | inl e ↦ rw e (same-Kept l true)
        | inr e ↦
            let (k, f) = carry-Kept oom now as_ c (drop (length c) l.incoming) l in
            let p =
              ap (λ (x : Text). l.outgoing ++ transform cipher l.key x)
                (chunk-drop cipher chunk_size n l.incoming) in
            rw e (subst (IsFront cipher _) p f, λ d. k d ∙ p)
      ]

  abbrev KeptBoth : Single cipher → Single cipher → Type 0
  KeptBoth s t = Kept s.to_local t.to_local t.running × Kept s.to_rvd t.to_rvd t.running

  weaker : (l m : Leg cipher) (b c : Bool) → (c ≡ true → b ≡ true) → Kept l m b → Kept l m c
  weaker l m b c h (f, k) = (f, λ e. k (h e))

  first_of : (b c : Bool) → b && c ≡ true → b ≡ true
  first_of b c e = ground arith

  second_leg-Kept :
      (limit : ℕ) (p : SinglePass) (s : Single cipher) → KeptBoth s (second_leg cipher limit p s)
  unfolding second_leg
  second_leg-Kept limit p s = (
    same-Kept s.to_local _,
    weaker s.to_rvd (second_leg cipher limit p s).to_rvd
        (leg_step cipher p.oom p.now_ms p.local_read p.local_attempts s.to_rvd).1
        (second_leg cipher limit p s).running (first_of _ _)
        (leg_step-Kept p.oom p.now_ms p.local_read p.local_attempts s.to_rvd),
  )

  if-Kept :
      (b : Bool) (s x y : Single cipher)
      → (b ≡ true → KeptBoth s x)
      → KeptBoth s y
      → KeptBoth s (if b then x else y)
  if-Kept true s x y f g = f refl
  if-Kept false s x y f g = g

  chained : (l m n : Leg cipher) (b : Bool) → all_of m ≡ all_of l → Kept m n b → Kept l n b
  chained l m n b e (f, k) = (subst (IsFront cipher n.outgoing) e f, λ d. k d ∙ e)

  single_pass-Kept :
      (limit : ℕ) (p : SinglePass) (s : Single cipher) → KeptBoth s (single_pass cipher limit p s)
  unfolding single_pass
  single_pass-Kept limit p s =
      let k = leg_step-Kept p.oom p.now_ms p.data_read p.data_attempts s.to_local in
      if-Kept (leg_step cipher p.oom p.now_ms p.data_read p.data_attempts s.to_local).1 s _ _
        (λ e.
          let t = record s {
            to_local = (leg_step cipher p.oom p.now_ms p.data_read p.data_attempts s.to_local).0;
            idle_since = idle_after cipher (moved cipher p.data_read s.to_local) p s.idle_since;
          } in
          let (a, b) = second_leg-Kept limit p t in
          let u = second_leg cipher limit p t in
          (chained s.to_local t.to_local u.to_local u.running (k.1 e) a, b))
        ((k.0, λ d. absurd cc), same-Kept s.to_rvd false)

  abbrev FrontBoth : Single cipher → Single cipher → Type 0
  FrontBoth s t =
      IsFront cipher t.to_local.outgoing (all_of s.to_local)
      × IsFront cipher t.to_rvd.outgoing (all_of s.to_rvd)

  -- A loop that has ended carries nothing.
  single_loop-stopped :
      (limit : ℕ) (ps : List SinglePass) (s : Single cipher)
      → s.running ≡ false
      → ((single_loop cipher limit ps s).to_local ≡ s.to_local)
        × ((single_loop cipher limit ps s).to_rvd ≡ s.to_rvd)
  unfolding single_loop
  single_loop-stopped limit [] s e = (refl, refl)
  single_loop-stopped limit (p ∷ ps) s e = (rw e refl, rw e refl)

  if-FrontBoth :
      (b : Bool) (s x y : Single cipher)
      → FrontBoth s x
      → FrontBoth s y
      → FrontBoth s (if b then x else y)
  if-FrontBoth true s x y f g = f
  if-FrontBoth false s x y f g = g

  single_loop-FrontBoth :
      (limit : ℕ) (ps : List SinglePass) (s : Single cipher)
      → FrontBoth s (single_loop cipher limit ps s)
  unfolding single_loop
  single_loop-FrontBoth limit [] s = ((same-Kept s.to_local true).0, (same-Kept s.to_rvd true).0)
  single_loop-FrontBoth limit (p ∷ ps) s =
      let t = single_pass cipher limit p s in
      let (a, b) = single_pass-Kept limit p s in
      let (f, g) = single_loop-FrontBoth limit ps t in
      let rest : FrontBoth s (single_loop cipher limit ps t) = elim (Bool-cases t.running) [
        | inl e ↦ (subst (IsFront cipher _) (a.1 e) f, subst (IsFront cipher _) (b.1 e) g)
        | inr e ↦
            let (x, y) = single_loop-stopped limit ps t e in
            (
              subst (λ (l : Leg cipher). IsFront cipher l.outgoing (all_of s.to_local)) (sym x) a.0,
              subst (λ (l : Leg cipher). IsFront cipher l.outgoing (all_of s.to_rvd)) (sym y) b.0,
            )
      ] in
      if-FrontBoth (s.running && p.should_run) s _ _ rest
        ((same-Kept s.to_local true).0, (same-Kept s.to_rvd true).0)

  replay-kept :
      (oom : Bool) (now : ℕ) (as_ : List Attempt) (early : Text) (l : Leg cipher)
      → is_done (write_all oom now (transform cipher l.key early) as_).1 ≡ true
      → all_of (replay cipher oom now as_ early l)
        ≡ l.outgoing ++ transform cipher l.key (early ++ l.incoming)
  unfolding replay
  replay-kept oom now as_ [] l d = refl
  replay-kept oom now as_ (c ∷ early) l d =
      rw (suc_ne_zero (length early))
        ((carry-Kept oom now as_ (c ∷ early) l.incoming l).0 (unfold carry in d))

  -- If the bytes of the data socket that were read too early can all be written, the local service is
  -- given a front of them and of what follows them, transformed, and the rendezvous server a front of
  -- what the service sends, transformed: nothing is lost in the middle, doubled or put out of order,
  -- whatever the sockets do in the loop.
  pub bridge-IsFront :
      (oom : Bool) (now : ℕ) (as_ : List Attempt) (early : Text) (limit : ℕ) (ps : List SinglePass)
      (s : Single cipher)
      → is_done (write_all oom now (transform cipher s.to_local.key early) as_).1 ≡ true
      → IsFront cipher
          (bridge cipher oom now as_ early limit ps s).to_local.outgoing
          (s.to_local.outgoing ++ transform cipher s.to_local.key (early ++ s.to_local.incoming))
        × IsFront cipher
            (bridge cipher oom now as_ early limit ps s).to_rvd.outgoing
            (s.to_rvd.outgoing ++ transform cipher s.to_rvd.key s.to_rvd.incoming)
  unfolding bridge
  bridge-IsFront oom now as_ early limit ps s d =
      let t = record s {
        to_local = replay cipher oom now as_ early s.to_local;
        idle_since = now;
        running = true;
      } in
      let (f, g) = single_loop-FrontBoth limit ps t in
      (subst (IsFront cipher _) (replay-kept oom now as_ early s.to_local d) f, g)
