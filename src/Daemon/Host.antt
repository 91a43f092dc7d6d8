-- ===== src/Daemon/Host.antt =====
-- What the daemon calls outside its own sources: cJSON, the atSDK and RSA, as an interface whose
-- functions give the answers of one run, with what the code relies on as laws.
use noports.Prelude.{ℕ, ◌≤◌, ◌≡◌, Bool, true, false, Option, some, List, Text}

-- atclient_rpc_resp
pub data ResponseType : Type 0 where
  ack nack success error : ResponseType

pub record RpcResponse : Type 0 where
  pub resp_type : ResponseType
  pub req_id : ℕ

-- atclient_atnotification: a field is `none` when it is not initialized or NULL.
pub record Notification : Type 0 where
  pub id : Option Text
  pub key : Option Text
  pub from : Option Text
  pub to : Option Text
  pub decrypted_value : Option Text

pub record Host : Type 1 where
  -- cJSON; a missing item is NULL, which every function of cJSON takes.
  pub Json : Type 0
  pub parse : Text → Option Json
  pub print : Json → Option Text
  pub get_object_item : Option Json → Text → Option Json
  pub get_string_value : Option Json → Option Text
  pub is_string : Option Json → Bool
  pub is_number : Option Json → Bool
  pub is_object : Option Json → Bool
  pub is_true : Option Json → Bool
  -- The items of an array, and `none` for anything else.
  pub array_items : Option Json → Option (List (Option Json))
  -- A number below 1, a number above UINT16_MAX, and its conversion to `uint16_t`.
  pub below_one : Option Json → Bool
  pub above_uint16 : Option Json → Bool
  pub to_uint16 : Option Json → ℕ
  -- atclient and atchops.
  pub is_response_key : Text → Bool
  pub parse_response_key : Text → Option RpcResponse
  pub create_public_key : Text → Bool
  pub get_public_key : Text → Option Text
  pub PublicKey : Type 0
  pub populate_public_key : Text → Option PublicKey
  pub modulus : PublicKey → Text
  pub base64_decode : Text → ℕ → Option Text
  pub rsa_verify : PublicKey → Text → Text → Bool
  -- A string item has a value, and a number between the two bounds is a port.
  pub string_has_value :
      (j : Option Json) → is_string j ≡ true → (s : Text) × (get_string_value j ≡ some s)
  pub port_converts :
      (j : Option Json)
      → is_number j ≡ true
      → below_one j ≡ false
      → above_uint16 j ≡ false
      → (1 ≤ to_uint16 j) × (to_uint16 j ≤ 65535)
