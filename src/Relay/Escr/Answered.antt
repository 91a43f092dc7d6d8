-- ===== src/Relay/Escr/Answered.antt =====
-- What _escr_authenticate has sent, and when it reports success.
use noports.Prelude.{
  ◌≡◌, ◌≢◌, refl, sym, ap, ◌∙◌, Bool, true, false, Option, none, some, [], ◌∷◌, ◌++◌, ◌==◌,
  if◌then◌else◌, Text, codes, length, str_eq,
}
use noports.Relay.Escr.{
  Coder, EscrConfig, EscrWorld, signature_buffer, signature_text, signature_size, payload, envelope,
  raw_key, reply, finish, escr_authenticate, read_line, c_string, challenge_room, answer_room,
  newline,
}
use noports.Relay.Escr.Opened.{
  given-some, then_some-some, open_reply, encode_into-some, sealed_reply-opened,
}

module _ (coder : Coder) (w : EscrWorld) where
  open coder use {sign, base64_encode, print_object, print_envelope}

  abbrev pub challenge : Text
  challenge = read_line w.challenge_reads challenge_room

  -- A reply: the payload names the session and the challenge, its signature is made, and the server
  -- finds the envelope of both in it.
  pub record IsAnswer (c : EscrConfig) (r : Text) : Type 0 where
    pub p : Text
    pub s : Text
    pub env : Text
    pub key : Text
    pub payload_is :
        print_object (
          (codes "sid", c.session_id)
          ∷ (codes "c", c_string challenge)
          ∷ (codes "side", codes "b")
          ∷ [])
        ≡ some p
    pub signed : sign p ≡ some s
    pub envelope_is :
        print_envelope p (
          (codes "s", base64_encode s)
          ∷ (codes "ha", codes "sha256")
          ∷ (codes "sa", codes "rsa2048")
          ∷ (codes "sk", c.signing_key_uri)
          ∷ [])
        ≡ some env
    pub key_is : raw_key coder w c ≡ some key
    pub opened : open_reply coder key r ≡ some env

  envelope-some :
      (c : EscrConfig) (p env : Text)
      → envelope coder w c p ≡ some env
      → (s : Text) × (sign p ≡ some s)
        × (print_envelope p (
              (codes "s", base64_encode s)
              ∷ (codes "ha", codes "sha256")
              ∷ (codes "sa", codes "rsa2048")
              ∷ (codes "sk", c.signing_key_uri)
              ∷ [])
            ≡ some env)
  unfolding envelope
  envelope-some c p env h =
      let (s, a, g) = then_some-some _ _ env h in
      let (s64, b, f) = then_some-some _ _ env g in
      let (x, e) = given-some _ _ env f in
      let (y, d) = given-some _ _ env e in
      (
        s,
        (given-some (w.alloc signature_buffer) (sign p) s a).1,
        ap
              (λ (t : Text). print_envelope p (
                (codes "s", t)
                ∷ (codes "ha", codes "sha256")
                ∷ (codes "sa", codes "rsa2048")
                ∷ (codes "sk", c.signing_key_uri)
                ∷ []))
              (sym (encode_into-some coder w signature_text signature_size s s64 b))
            ∙ d,
      )

  reply-IsAnswer :
      (c : EscrConfig) (r : Text) → reply coder w c (c_string challenge) ≡ some r → IsAnswer c r
  unfolding reply payload
  reply-IsAnswer c r h =
      let (p, a, g) = then_some-some _ _ r h in
      let (env, b, f) = then_some-some _ _ r g in
      let (x, q) = given-some _ _ p a in
      let (s, d, e) = envelope-some c p env b in
      let (key, k, o) = sealed_reply-opened coder w c env r f in
      record {
        p = p;
        s = s;
        env = env;
        key = key;
        payload_is = q;
        signed = d;
        envelope_is = e;
        key_is = k;
        opened = o;
      }

  -- What an attempt that has sent a line comes to.
  pub record IsAnswered (c : EscrConfig) (line : Text) (ok : Bool) : Type 0 where
    pub r : Text
    pub line_is : line ≡ c.session_id ++ (codes ":" ++ (r ++ (newline ∷ [])))
    pub challenged : challenge ≢ []
    pub answer : IsAnswer c r
    pub result : ok ≡ str_eq (c_string (read_line w.answer_reads answer_room)) (codes "ok")

  finish-IsAnswered :
      (c : EscrConfig) (o : Option Text) (line : Text) (ok : Bool)
      → challenge ≢ []
      → reply coder w c (c_string challenge) ≡ o
      → finish coder w c o ≡ (some line, ok)
      → IsAnswered c line ok
  unfolding finish
  finish-IsAnswered c none line ok n e h =
      absurd (let q : none ≡ some line = ap (λ (x : Option Text × Bool). x.0) h in cc)
  finish-IsAnswered c (some r) line ok n e h =
      let q : some (c.session_id ++ (codes ":" ++ (r ++ (newline ∷ [])))) ≡ some line =
        ap (λ (x : Option Text × Bool). x.0) h in
      record {
        r = r;
        line_is = cc;
        challenged = n;
        answer = reply-IsAnswer c r e;
        result = sym (ap (λ (x : Option Text × Bool). x.1) h);
      }

  if_challenged :
      (c : EscrConfig) (b : Bool) (line : Text) (ok : Bool)
      → (length challenge == 0) ≡ b
      → (if b then (none, false) else finish coder w c (reply coder w c (c_string challenge)))
        ≡ (some line, ok)
      → IsAnswered c line ok
  if_challenged c true line ok e h =
      absurd (let q : none ≡ some line = ap (λ (x : Option Text × Bool). x.0) h in cc)
  if_challenged c false line ok e h =
      finish-IsAnswered c (reply coder w c (c_string challenge)) line ok
        (λ z. let q = ap (λ (t : Text). length t == 0) z in cc) refl h

  -- An authentication sends a line only after a challenge that is not empty. The line is the session's
  -- id and a reply; the reply, opened with the key, is an envelope of the printed session id and
  -- challenge with their signature. It reports success exactly if the server then answers "ok".
  pub escr_authenticate-IsAnswered :
      (c : EscrConfig) (line : Text) (ok : Bool)
      → escr_authenticate coder w c ≡ (some line, ok)
      → IsAnswered c line ok
  unfolding escr_authenticate
  escr_authenticate-IsAnswered c line ok h = if_challenged c (length challenge == 0) line ok refl h
