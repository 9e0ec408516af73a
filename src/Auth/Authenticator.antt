-- ===== src/Auth/Authenticator.antt =====
-- internal/auth/authenticator.go: finding the token of a request, and the middleware.
use cel_service.Auth.{JwtAuthConfig, Jwt, Outcome, decode_jwt, validate}
use cel_service.Base.Text.{Str, text, str_eq, to_upper, is_empty}
use cel_service.Base.{
  ℕ, not, ◌&&◌, List, [], ◌∷◌, Option, none, some, if◌then◌else◌, ltb, length, take, drop,
}
use cel_service.Http.{Request}
use cel_service.Model.Value.{GoMap, made, end}

unfoldable pub token_from_header : Request → Str
token_from_header r =
    let bearer = r.header (text "Authorization") in
    if ltb 7 (length bearer) && str_eq (to_upper (take 6 bearer)) (text "BEARER")
    then drop 7 bearer
    else []

unfoldable token_from_query : Request → Str
token_from_query r = r.query (text "jwt")

unfoldable pub token_from_cookie : Request → Str
token_from_cookie r = elim (r.cookie (text "jwt")) [ some value ↦ value | none ↦ [] ]

-- What the two keys of this package hold in a context: a token, absent or nil, and an error.
pub record Context (F : Type 0) : Type 0 where
  pub token_value : Option (Option (Jwt F))
  pub error_value : Option Str

unfoldable pub new_context : {F : Type 0} → Context F → Option (Jwt F) → Option Str → Context F
new_context ctx t err = record ctx { token_value = some t; error_value = err }

unfoldable pub from_context : {F : Type 0} → Context F → Option (Jwt F) × GoMap F × Option Str
from_context ctx = elim ctx.token_value [
  | some (some token) ↦ (some token, token.payload, ctx.error_value)
  | some none ↦ (none, made end, some (text "token not present"))
  | none ↦ (none, made end, some (text "token not present"))
]

-- The loop over the token functions: the first one that finds a token.
unfoldable pub find_token : List (Request → Str) → Request → Str
find_token [] r = []
find_token (fn ∷ fns) r = if not (is_empty (fn r)) then fn r else find_token fns r

module _ {F : Type 0} (decode_string : Str → Outcome Str)
    (unmarshal : Str → Outcome (GoMap F)) where
  abbrev pub validated : JwtAuthConfig → Jwt F × Option Str → Option (Jwt F) × Option Str
  validated config (token, some err) = (some token, some err)
  validated config (token, none) = (some token, validate token config)

  unfoldable pub verify_token : JwtAuthConfig → Str → Option (Jwt F) × Option Str
  verify_token config token = validated config (decode_jwt decode_string unmarshal token)

  -- After the loop of `VerifyRequest`
  abbrev pub verify_found : JwtAuthConfig → Str → Option (Jwt F) × Option Str
  verify_found config token =
      if is_empty token then (none, some (text "no token found")) else verify_token config token

  unfoldable pub verify_request :
      JwtAuthConfig → Request → List (Request → Str) → Option (Jwt F) × Option Str
  verify_request config r fns = verify_found config (find_token fns r)

  -- A handler answers with an `R`, which may be a change of the state as well; `http_error` is
  -- `http.Error`.
  module _ {R : Type 0} (http_error : Str → ℕ → R) where
    abbrev admit : (Context F → Request → R) → Context F → Request → Option (Jwt F) → Option Str → R
    admit next ctx r token (some err) = http_error err 401
    admit next ctx r none none = http_error (text "Unauthorized") 401
    admit next ctx r (some token) none =
        if not token.is_valid then http_error (text "Unauthorized") 401 else next ctx r

    unfoldable pub authenticator : (Context F → Request → R) → Context F → Request → R
    authenticator next ctx r = let read = from_context ctx in admit next ctx r read.0 read.2

  unfoldable pub verify :
      {R : Type 0}
      → JwtAuthConfig
      → List (Request → Str)
      → (Context F → Request → R)
      → Context F
      → Request
      → R
  verify config fns next ctx r =
      let read = verify_request config r fns in next (new_context ctx read.0 read.1) r

  unfoldable pub verifier :
      {R : Type 0} → JwtAuthConfig → (Context F → Request → R) → Context F → Request → R
  verifier config = verify config (token_from_header ∷ token_from_cookie ∷ [])
