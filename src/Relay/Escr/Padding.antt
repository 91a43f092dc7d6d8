-- ===== src/Relay/Escr/Padding.antt =====
-- The padding of _escr_authenticate, and how it is taken off.
use noports.Prelude.{
  ℕ, zero, suc, ◌-◌, ◌<◌, ◌≡◌, refl, ap, ◌∙◌, [], ◌∷◌, ◌++◌, arith, Text, length, take, replicate,
  length-append,
}
use noports.Relay.Escr.{pad, pad_byte}

-- The last byte.
unfoldable pub last_byte : Text → ℕ
last_byte [] = 0
last_byte (c ∷ []) = c
last_byte (c ∷ (d ∷ cs)) = last_byte (d ∷ cs)

-- PKCS7: as many bytes are taken off as the last one says.
unfoldable pub unpad : Text → Text
unfolding last_byte
unpad t = take (length t - last_byte t) t

last_byte-append : (t : Text) (c : ℕ) (cs : Text) → last_byte (t ++ (c ∷ cs)) ≡ last_byte (c ∷ cs)
unfolding last_byte
last_byte-append [] c cs = refl
last_byte-append (x ∷ []) c cs = refl
last_byte-append (x ∷ (y ∷ t)) c cs = last_byte-append (y ∷ t) c cs

last_byte-replicate : (n v : ℕ) → last_byte (replicate (suc n) v) ≡ v
unfolding last_byte
last_byte-replicate zero v = refl
last_byte-replicate (suc n) v = last_byte-replicate n v

length-replicate : (n v : ℕ) → length (replicate n v) ≡ n
length-replicate zero v = refl
length-replicate (suc n) v = ap suc (length-replicate n v)

pub take-length : (t u : Text) → take (length t) (t ++ u) ≡ t
take-length [] u = refl
take-length (x ∷ t) u = ap (x ∷◌) (take-length t u)

unpad-suc : (t : Text) (n : ℕ) → unpad (t ++ replicate (suc n) (suc n)) ≡ t
unfolding unpad
unpad-suc t n =
    let e = last_byte-append t (suc n) (replicate n (suc n)) ∙ last_byte-replicate n (suc n) in
    let l = length-append t (replicate (suc n) (suc n)) in
    let r = length-replicate (suc n) (suc n) in
    let m : length (t ++ replicate (suc n) (suc n)) - last_byte (t ++ replicate (suc n) (suc n))
        ≡ length t =
      omega (arith, e, l, r) in
    ap (λ (k : ℕ). take k (t ++ replicate (suc n) (suc n))) m
    ∙ take-length t (replicate (suc n) (suc n))

unpad-pos : (t : Text) (k : ℕ) → 0 < k → unpad (t ++ replicate k k) ≡ t
unpad-pos t zero h = absurd (omega arith)
unpad-pos t (suc n) h = unpad-suc t n

-- What is padded is read back.
pub unpad-pad : (t : Text) → unpad (pad t) ≡ t
unfolding pad
unpad-pad t = unpad-pos t (pad_byte t) (omega arith)
