-- ===== src/Auth.antt =====
-- internal/auth/jwt.go: reading the configuration and decoding tokens.
pub mod Authenticator
pub mod Decoding
pub mod Admission
use cel_service.Base.Text.{Str, text, str_eq, to_upper, split}
use cel_service.Base.{
  Bool, true, false, ◌&&◌, List, [], ◌∷◌, ◌++◌, Option, none, some, if◌then◌else◌, ltb, length,
  take, drop,
}
use cel_service.Config.Values.{get_config_value_as_bool}
use cel_service.Model.Value.{GoMap, nil_map}

pub record JwtAuthConfig : Type 0 where
  pub validate_flag : Bool

pub record Jwt (F : Type 0) : Type 0 where
  pub token : Str
  pub header : GoMap F
  pub payload : GoMap F
  pub signature : Str
  pub is_valid : Bool

-- A result, or the text of an error.
pub data Outcome (A : Type 0) : Type 0 where
  done : A → Outcome A
  failed : Str → Outcome A

-- On an error the flag is the one that comes with it.
unfoldable pub parse_jwt_config : {F : Type 0} → GoMap F → JwtAuthConfig × Option Str
parse_jwt_config properties =
    let read = get_config_value_as_bool properties (text "validate") in
    (record { validate_flag = read.0 }, read.1)

unfoldable pub validate : {F : Type 0} → Jwt F → JwtAuthConfig → Option Str
validate jwt cfg = none

abbrev pub no_jwt : {F : Type 0} → Jwt F
no_jwt = record {
  token = [];
  header = nil_map;
  payload = nil_map;
  signature = [];
  is_valid = false;
}

-- `token[7:]` after a prefix like `Bearer`
unfoldable pub strip_bearer : Str → Str
strip_bearer token =
    if ltb 7 (length token) && str_eq (to_upper (take 6 token)) (text "BEARER")
    then drop 7 token
    else token

abbrev third_part : List Str → Str
third_part [] = []
third_part (s ∷ _) = s

-- `decode_string` is `base64.URLEncoding.WithPadding(base64.NoPadding).DecodeString`, and
-- `unmarshal` is `json.Unmarshal` into a map.
module _ {F : Type 0} (decode_string : Str → Outcome Str)
    (unmarshal : Str → Outcome (GoMap F)) where
  abbrev unmarshal_part : Outcome (GoMap F) → GoMap F × Option Str
  unmarshal_part (failed err) = (nil_map, some (text "token payload parse error, " ++ err))
  unmarshal_part (done result) = (result, none)

  abbrev decode_part : Outcome Str → GoMap F × Option Str
  decode_part (failed err) = (nil_map, some (text "token payload can't be decoded: " ++ err))
  decode_part (done payload_data) = unmarshal_part (unmarshal payload_data)

  unfoldable pub jwt_decode_part : Str → GoMap F × Option Str
  jwt_decode_part payload = decode_part (decode_string payload)

  abbrev decode_payload : Jwt F → List Str → GoMap F × Option Str → Jwt F × Option Str
  decode_payload jwt rest (payload, some err) =
      (record jwt { payload = payload }, some (text "token payload parse error, " ++ err))
  decode_payload jwt rest (payload, none) =
      (record jwt { payload = payload; signature = third_part rest; is_valid = true }, none)

  abbrev decode_header : Jwt F → Str → List Str → GoMap F × Option Str → Jwt F × Option Str
  decode_header jwt second rest (header, some err) =
      (record jwt { header = header }, some (text "token header parse error, " ++ err))
  decode_header jwt second rest (header, none) =
      decode_payload (record jwt { header = header }) rest (jwt_decode_part second)

  -- `jwtParts`, of which there is at least one
  unfoldable pub decode_parts : Jwt F → List Str → Jwt F × Option Str
  decode_parts jwt (first ∷ second ∷ rest) = decode_header jwt second rest (jwt_decode_part first)
  decode_parts jwt _ = (jwt, some (text "token missing payload part"))

  unfoldable pub decode_jwt : Str → Jwt F × Option Str
  decode_jwt [] = (no_jwt, some (text "missing token string"))
  decode_jwt (c ∷ token) =
      decode_parts (record no_jwt { token = c ∷ token }) (split b'.' (strip_bearer (c ∷ token)))
