-- ===== src/Daemon/Setup/Encryption.antt =====
-- noports_daemon.cpp, _continueNptRequest: the keys of a session and their copies for the client.
use noports.Prelude.{ℕ, ◌+◌, Bool, ◌&&◌, ◌||◌, not, Option, none, some, if◌then◌else◌, Text, codes}
use noports.Daemon.Host.{Host}
use noports.Daemon.Envelope.{is_rsa2048_modulus, is_text}
use noports.Daemon.Setup.{
  SetupWorld, Buffer, key_buffer, iv_buffer, key_buffer_d2c, iv_buffer_d2c, Direction, c2d, d2c,
}
use noports.Relay.Start.{block, is_present}

-- A pair of a key and an IV, either of which may be missing.
pub record Pair : Type 0 where
  pub key : Option Text
  pub iv : Option Text

abbrev pub no_pair : Pair
no_pair = record { key = none; iv = none }

unfoldable pub is_whole : Pair → Bool
unfolding is_present
is_whole p = is_present p.key && is_present p.iv

unfoldable pub pair_blocks : Pair → ℕ
unfolding block
pair_blocks p = block p.key + block p.iv

-- The keys of a session, plain for the relay and encrypted for the client.
pub record Keys : Type 0 where
  pub plain : Pair
  pub plain_d2c : Pair
  pub sealed : Pair
  pub sealed_d2c : Pair

abbrev pub no_keys : Keys
no_keys = record { plain = no_pair; plain_d2c = no_pair; sealed = no_pair; sealed_d2c = no_pair }

unfoldable pub key_room : Direction → Buffer
key_room c2d = key_buffer
key_room d2c = key_buffer_d2c

unfoldable pub iv_room : Direction → Buffer
iv_room c2d = iv_buffer
iv_room d2c = iv_buffer_d2c

module _ (host : Host) (w : SetupWorld host) where
  open host use {
    Json, PublicKey, get_object_item, get_string_value, is_string, populate_public_key, modulus,
  }
  open w use {generate_key, generate_iv, rsa_encrypt_b64, buffer}

  unfoldable pub stored : Buffer → Text → Option Text
  stored b t = if buffer b then some t else none

  unfoldable pub stored_pair : Direction → Option Text → Option Text → Pair
  unfolding stored key_room iv_room
  stored_pair d (some key) (some iv) = record {
    key = stored (key_room d) key;
    iv = stored (iv_room d) iv;
  }
  stored_pair d none iv = no_pair
  stored_pair d (some key) none = no_pair

  -- One key and its IV, generated and encoded.
  unfoldable pub generate_pair : Direction → Pair
  unfolding stored_pair
  generate_pair d = stored_pair d (generate_key d) (generate_iv d)

  unfoldable pub seal_text : PublicKey → Option Text → Option Text
  seal_text pk none = none
  seal_text pk (some t) = rsa_encrypt_b64 pk t

  unfoldable pub seal_pair : PublicKey → Pair → Pair
  unfolding seal_text
  seal_pair pk p = record { key = seal_text pk p.key; iv = seal_text pk p.iv }

  -- The keys encrypted with the client's key, which must have a modulus of 256 bytes.
  unfoldable pub seal_with : Bool → Option PublicKey → Pair → Pair → Keys
  unfolding seal_pair is_rsa2048_modulus
  seal_with twin none p q = record {
    plain = p;
    plain_d2c = q;
    sealed = no_pair;
    sealed_d2c = no_pair;
  }
  seal_with twin (some pk) p q =
      if is_rsa2048_modulus (modulus pk)
      then record {
        plain = p;
        plain_d2c = q;
        sealed = seal_pair pk p;
        sealed_d2c = if twin then seal_pair pk q else no_pair;
      }
      else record { plain = p; plain_d2c = q; sealed = no_pair; sealed_d2c = no_pair }

  unfoldable pub populate : Option Text → Option PublicKey
  populate none = none
  populate (some t) = populate_public_key t

  -- clientEphemeralPK, if it is a string that is labelled rsa2048 and reads as a key.
  unfoldable pub client_key : Option Json → Option PublicKey
  unfolding populate is_text
  client_key payload =
      let pk = get_object_item payload (codes "clientEphemeralPK") in
      let pk_type = get_object_item payload (codes "clientEphemeralPKType") in
      if is_string pk
        && is_string pk_type
        && is_text host (get_string_value pk_type) (codes "rsa2048")
      then populate (get_string_value pk)
      else none

  unfoldable pub seal_all : Bool → Option Json → Pair → Pair → Keys
  unfolding seal_with client_key is_whole
  seal_all twin payload p q =
      if is_whole p && (not twin || is_whole q)
      then seal_with twin (client_key payload) p q
      else record { plain = p; plain_d2c = q; sealed = no_pair; sealed_d2c = no_pair }

  -- The second pair is generated only after the first is stored.
  unfoldable pub session_keys : Bool → Option Json → Keys
  unfolding seal_all generate_pair
  session_keys twin payload =
      let p = generate_pair c2d in
      seal_all twin payload p (if twin && is_whole p then generate_pair d2c else no_pair)

  -- `e2ee_ok`
  unfoldable pub keys_ok : Bool → Keys → Bool
  unfolding is_whole
  keys_ok twin k = is_whole k.sealed && (not twin || is_whole k.sealed_d2c)
