-- ===== src/Service/Routes.antt =====
-- `apiRoutes` of cmd/service/main.go: the middlewares and the routes of the api. Setting the content
-- type, the log of the router, cross-origin headers and tracing are left out, and so is what the
-- router makes of a panic.
use cel_service.Api.Counting.{Site, metrics_handler}
use cel_service.Api.{skip_func, sys_api_handler}
use cel_service.Auth.Authenticator.{Context, authenticator, verifier}
use cel_service.Auth.{JwtAuthConfig, Outcome, parse_jwt_config}
use cel_service.Base.Int.{ℤ}
use cel_service.Base.Text.{Str, text, str_eq, to_lower, is_empty, has_suffix}
use cel_service.Base.{
  ℕ, Bool, true, false, List, [], ◌∷◌, ◌++◌, Option, none, some, Call, returns, panics, ◌≡◌, refl,
  not, ◌&&◌, ◌||◌, ◌==◌, if◌then◌else◌,
}
use cel_service.Config.{Config, servicename}
use cel_service.Http.{Request}
use cel_service.Model.Value.{GoMap}
use cel_service.Serror.{Serr}

pub data Endpoint : Type 0 where
  to_evaluate to_evaluate_many : Endpoint
  get_live get_ready head_live head_ready : Endpoint
  metrics_page client_redirect client_files : Endpoint

-- A handler that is mounted serves every method, `*`, and the paths below the pattern as well.
pub record Route : Type 0 where
  pub method : Str
  pub pattern : Str
  pub endpoint : Endpoint

abbrev route : Str → Str → Endpoint → Route
route method pattern endpoint = record { method = method; pattern = pattern; endpoint = endpoint }

-- `health.Routes`
unfoldable pub health_routes : List Route
health_routes =
    route (text "GET") (text "/livez") get_live
    ∷ route (text "GET") (text "/readyz") get_ready
    ∷ route (text "HEAD") (text "/livez") head_live
    ∷ route (text "HEAD") (text "/readyz") head_ready
    ∷ []

-- `EvalRoutes` below `/api/v1`
unfoldable pub eval_routes : List Route
eval_routes =
    route (text "POST") (text "/api/v1/evaluate") to_evaluate
    ∷ route (text "POST") (text "/api/v1/evaluatemany") to_evaluate_many
    ∷ []

abbrev pub metrics_routes : Bool → List Route
metrics_routes enabled =
    if enabled then route (text "*") (text "/metrics") metrics_page ∷ [] else []

-- `strings.ContainsAny(path, "{}*")`
unfoldable has_wildcard : Str → Bool
has_wildcard [] = false
has_wildcard (c ∷ s) = ((c == b'{') || ((c == b'}') || (c == b'*'))) || has_wildcard s

abbrev pub file_routes : Str → List Route
file_routes path =
    if not (str_eq path (text "/")) && not (has_suffix path (text "/"))
    then (route (text "GET") path client_redirect
        ∷ route (text "GET") (path ++ text "/*") client_files
        ∷ [])
    else route (text "GET") (path ++ text "*") client_files ∷ []

-- `FileServer`, which takes the last character of the path.
unfoldable file_server : Str → Call (List Route)
file_server path =
    if has_wildcard path
    then panics
    else if is_empty path
    then panics
    else returns (file_routes path)

unfoldable pub mounted_routes : {F : Type 0} → Config F → List Route
mounted_routes c =
    eval_routes
    ++ (health_routes ++ (metrics_routes c.metrics.enable ++ file_routes (text "/client")))

-- `/client` is a path for which `FileServer` does not panic.
file_server-client : file_server (text "/client") ≡ returns (file_routes (text "/client"))
unfolding file_server has_wildcard text
file_server-client = refl

-- The routes of `healthRoutes`
unfoldable plain_routes : {F : Type 0} → Config F → List Route
plain_routes c = health_routes ++ metrics_routes c.metrics.enable

-- `strings.EqualFold(serviceConfig.Auth.Type, "jwt")`
abbrev pub is_jwt : {F : Type 0} → Config F → Bool
is_jwt c = str_eq (to_lower c.auth.auth_type) (text "jwt")

-- What the api takes from elsewhere: `serve` is the router's work on the routes that are mounted, and
-- `unrouted` what a router answers on which none was mounted; `render_json` and `http_error` are the
-- answers of the middlewares.
pub record Surroundings (F T B : Type 0) : Type 0 where
  pub marshal : Serr → Option Str
  pub decode_string : Str → Outcome Str
  pub unmarshal : Str → Outcome (GoMap F)
  pub can_register : Str → Bool
  pub render_json : ℤ → Serr → B
  pub http_error : Str → ℕ → B
  pub serve : List Route → Context F → Request → Site T → Call (Site T × B)
  pub unrouted : Request → Site T → Call (Site T × B)

abbrev pub no_token : {F : Type 0} → Context F
no_token = record { token_value = none; error_value = none }

module _ {F T B : Type 0} (out : Surroundings F T B) where
  -- `http.Error`, which leaves the state as it is
  abbrev pub http_answer : Str → ℕ → Site T → Call (Site T × B)
  http_answer msg status s = returns (s, out.http_error msg status)

  -- `Verifier` and `Authenticator`, if the type of the authentication is jwt.
  abbrev pub with_jwt : Bool → JwtAuthConfig → List Route → Request → Site T → Call (Site T × B)
  with_jwt false config routes = out.serve routes no_token
  with_jwt true config routes =
      verifier out.decode_string out.unmarshal config
        (authenticator out.decode_string out.unmarshal http_answer (out.serve routes)) no_token

  -- The api key and the count of the requests, if the api key is on.
  abbrev pub with_apikey :
      Bool → Str → (Request → Site T → Call (Site T × B)) → Request → Site T → Call (Site T × B)
  with_apikey false apikey next = next
  with_apikey true apikey next =
      sys_api_handler out.marshal servicename (λ code e s. returns (s, out.render_json code e))
        (record { apikey = apikey; skip_func = some skip_func })
        (metrics_handler out.can_register (some (λ r. false)) next)

  -- The handler, and the error with which `apiRoutes` returns before it mounts the routes.
  abbrev pub routed :
      Config F
      → Str
      → Bool
      → JwtAuthConfig × Option Str
      → (Request → Site T → Call (Site T × B)) × Option Str
  routed c apikey false config =
      (with_apikey c.apikey apikey (with_jwt false config.0 (mounted_routes c)), none)
  routed c apikey true (config, some err) = (out.unrouted, some err)
  routed c apikey true (config, none) =
      (with_apikey c.apikey apikey (with_jwt true config (mounted_routes c)), none)

  unfoldable pub api_routes : Config F → Str → (Request → Site T → Call (Site T × B)) × Option Str
  api_routes c apikey = routed c apikey (is_jwt c) (parse_jwt_config c.auth.properties)
