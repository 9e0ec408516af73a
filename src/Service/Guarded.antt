-- ===== src/Service/Guarded.antt =====
-- The middlewares of `apiRoutes` in cmd/service/main.go together: which requests reach the routes.
use cel_service.Api.ApiKey.{sys_api_handler_cases}
use cel_service.Api.Counting.{Site, count_request, metrics_handler}
use cel_service.Api.{skip_func}
use cel_service.Auth.Admission.{token_of, Answered, verifier-authenticator}
use cel_service.Auth.{JwtAuthConfig, parse_jwt_config}
use cel_service.Base.Int.{pos}
use cel_service.Base.Text.{Str, text, to_lower}
use cel_service.Base.{
  ◌≡◌, ◌≢◌, ◌⊎◌, inl, inr, refl, Bool, true, false, List, Option, none, some, Call, returns, ◌>>=◌,
}
use cel_service.Config.{Config, servicename}
use cel_service.Http.{Request}
use cel_service.Serror.{Serr}
use cel_service.Service.Routes.{
  Route, Surroundings, http_answer, mounted_routes, is_jwt, no_token, with_jwt, with_apikey, routed,
  api_routes,
}

module _ {F T B : Type 0} (out : Surroundings F T B) where
  -- What a part of the handler does to the state.
  abbrev Step : Type 0
  Step = Site T → Call (Site T × B)

  -- With the api key on, a request without it is answered with the status 400 and changes nothing;
  -- one that carries it, in capital or small letters, or that needs none, is counted and goes on.
  -- With the api key off every request goes on.
  abbrev pub KeyGate : Bool → Str → Request → Step → Step → Type 0
  KeyGate false key r inner outer = outer ≡ inner
  KeyGate true key r inner outer =
      ((skip_func r ≡ false)
        × (to_lower (r.header (text "apikey")) ≢ key)
        × (e : Serr) × (outer ≡ λ s. returns (s, out.render_json (pos 400) e)))
      ⊎ (((skip_func r ≡ true) ⊎ (to_lower (r.header (text "apikey")) ≡ key))
          × (outer ≡ λ s. count_request out.can_register r s >>= inner))

  -- With tokens on, a request is served with its decoded token in the context if the token can be
  -- read, and else answered with the status 401; with tokens off it is served.
  abbrev pub TokenGate : Bool → List Route → Request → Step → Type 0
  TokenGate false routes r inner = inner ≡ out.serve routes no_token r
  TokenGate true routes r inner =
      Answered out.decode_string out.unmarshal (http_answer out) no_token r (out.serve routes)
        (token_of out.decode_string out.unmarshal (http_answer out) r) inner

  with_apikey-KeyGate :
      (on : Bool) (key : Str) (next : Request → Step) (r : Request)
      → KeyGate on key r (next r) (with_apikey out on key next r)
  unfolding metrics_handler
  with_apikey-KeyGate false key next r = refl
  with_apikey-KeyGate true key next r =
      elim (sys_api_handler_cases out.marshal servicename
        (λ code e s. returns (s, out.render_json code e))
        (record { apikey = key; skip_func = some skip_func })
        (metrics_handler out.can_register (some (λ r. false)) next) r) [
          | inl (admitted, e) ↦ inr (admitted, λ i s. e i s)
          | inr (checked, wrong, err, e) ↦ inl (checked, wrong, err, e)
        ]

  routed-guarded :
      (c : Config F) (key : Str) (r : Request) (jwt : Bool) (read : JwtAuthConfig × Option Str)
      → (routed out c key jwt read).1 ≡ none
      → (inner : Step) × KeyGate c.apikey key r inner ((routed out c key jwt read).0 r)
        × TokenGate jwt (mounted_routes c) r inner
  routed-guarded c key r false read e = (
    out.serve (mounted_routes c) no_token r,
    with_apikey-KeyGate c.apikey key (out.serve (mounted_routes c) no_token) r,
    refl,
  )
  routed-guarded c key r true (config, some err) e = cc
  routed-guarded c key r true (config, none) e = (
    with_jwt out true config (mounted_routes c) r,
    with_apikey-KeyGate c.apikey key (with_jwt out true config (mounted_routes c)) r,
    verifier-authenticator out.decode_string out.unmarshal (http_answer out) config no_token r
        (out.serve (mounted_routes c)),
  )

  -- If the routes could be made, a request passes first the gate of the api key, with the counter
  -- behind it, and then the gate of the tokens, each if the configuration turns it on; only what
  -- passes both is served.
  pub api_routes-guarded :
      (c : Config F) (key : Str) (r : Request)
      → (api_routes out c key).1 ≡ none
      → (inner : Step) × KeyGate c.apikey key r inner ((api_routes out c key).0 r)
        × TokenGate (is_jwt c) (mounted_routes c) r inner
  unfolding api_routes
  api_routes-guarded c key r =
      routed-guarded c key r (is_jwt c) (parse_jwt_config c.auth.properties)
