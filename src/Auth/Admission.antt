-- ===== src/Auth/Admission.antt =====
-- The middleware of internal/auth/authenticator.go: which requests reach the handler behind it.
use cel_service.Auth.{JwtAuthConfig, Jwt, Outcome, strip_bearer, decode_jwt, no_jwt, validate}
use cel_service.Auth.Authenticator.{
  Context, new_context, from_context, find_token, token_from_header, token_from_cookie, validated,
  verify_token, verify_found, verify_request, authenticator, verify, verifier,
}
use cel_service.Auth.Decoding.{IsReadable, Decoded, decode_jwt_cases}
use cel_service.Base.Text.{Str, text, split}
use cel_service.Base.{ℕ, ◌≡◌, ◌⊎◌, refl, inl, inr, [], ◌∷◌, Option, none, some}
use cel_service.Http.{Request}
use cel_service.Model.Value.{GoMap}

module _ {F : Type 0} (decode_string : Str → Outcome Str) (unmarshal : Str → Outcome (GoMap F))
    {R : Type 0} (http_error : Str → ℕ → R) where
  -- The token of a request as `Verifier` looks for it: in the header, then in the cookie.
  abbrev pub token_of : Request → Str
  token_of r = find_token (token_from_header ∷ token_from_cookie ∷ []) r

  -- The handler was called with the decoded token in its context, or the answer was 401.
  abbrev pub Answered : Context F → Request → (Context F → Request → R) → Str → R → Type 0
  Answered ctx r next token answer =
      ((jwt : Jwt F) × (decode_jwt decode_string unmarshal token ≡ (jwt, none))
        × IsReadable decode_string unmarshal token
        × (jwt.token ≡ token)
        × (answer ≡ next (new_context ctx (some jwt) none) r))
      ⊎ ((¬ IsReadable decode_string unmarshal token) × (err : Str) × (answer ≡ http_error err 401))

  -- What `Authenticator` does after a decoded token was put into the context.
  after :
      (config : JwtAuthConfig) (ctx : Context F) (r : Request) (next : Context F → Request → R)
      (token : Str) (d : Jwt F × Option Str)
      → decode_jwt decode_string unmarshal token ≡ d
      → Decoded decode_string unmarshal
          (record no_jwt { token = token })
          (split b'.' (strip_bearer token))
          d
      → let read = validated decode_string unmarshal config d in
        Answered ctx r next token
          (authenticator decode_string unmarshal http_error next (new_context ctx read.0 read.1) r)
  unfolding new_context authenticator from_context validate
  after config ctx r next token (jwt, none) e (readable, valid, kept) =
      inl (jwt, e, readable, kept, rw (valid) refl)
  after config ctx r next token (jwt, some err) e (unreadable, invalid, kept) =
      inr (unreadable, err, refl)

  after_found :
      (config : JwtAuthConfig) (ctx : Context F) (r : Request) (next : Context F → Request → R)
      (token : Str)
      → let read = verify_found decode_string unmarshal config token in
        Answered ctx r next token
          (authenticator decode_string unmarshal http_error next (new_context ctx read.0 read.1) r)
  unfolding verify_token authenticator from_context new_context decode_jwt
  after_found config ctx r next [] =
      inr ((decode_jwt_cases decode_string unmarshal []).0, text "token not present", refl)
  after_found config ctx r next (c ∷ token) =
      after config ctx r next (c ∷ token) _ refl
        (decode_jwt_cases decode_string unmarshal (c ∷ token))

  -- With the middleware before it a handler is called exactly if the token of the request has a
  -- header and a payload that can be read. It then finds the decoded token in its context; every
  -- other request is answered with the status 401. The configuration plays no part.
  pub verifier-authenticator :
      (config : JwtAuthConfig) (ctx : Context F) (r : Request) (next : Context F → Request → R)
      → Answered ctx r next (token_of r) (
          verifier decode_string unmarshal config
            (authenticator decode_string unmarshal http_error next)
            ctx
            r)
  unfolding verifier verify verify_request
  verifier-authenticator config ctx r next = after_found config ctx r next (token_of r)
