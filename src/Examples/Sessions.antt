-- ===== src/Examples/Sessions.antt =====
-- A series of requests over REST and gRPC, answered by the service of cmd/service/main.go.
use cel_service.Api.Counting.{Site}
use cel_service.Api.Counting.Counts.{shown}
use cel_service.Auth.{done}
use cel_service.Base.Dict.{lookup}
use cel_service.Base.Int.{pos}
use cel_service.Base.Text.{Str, text, str_eq, to_lower, has_suffix}
use cel_service.Base.{
  All, ℕ, ◌+◌, ◌≡◌, inr, refl, true, List, [], ◌∷◌, Option, none, some, returns, arith, ◌&&◌,
  if◌then◌else◌,
}
use cel_service.CelProc.Convert.{convert_json2map}
use cel_service.CelProc.Entries.{init-IsReady, init-IsCoherent}
use cel_service.CelProc.{init}
use cel_service.CelProc.Grpc.{CelRequest}
use cel_service.Config.{Config, default_config}
use cel_service.EvalApi.{Reply, error_body, decode, default_decoder}
use cel_service.Examples.Evaluation.{toy, toy_float, request, both, sample}
use cel_service.Examples.Starting.{machine, logger, launched}
use cel_service.Service.Session.Start.{period_of, first_state, started-AllFit}
use cel_service.Service.{default_flags, get_apikey}
use cel_service.Http.{Request, json_type}
use cel_service.Model.Value.{made, end, names, insert_field}
use cel_service.Service.Routes.{
  mounted_routes, eval_routes, health_routes, Route, Endpoint, api_routes,
}
use cel_service.Service.Session.{Served, tick, Parts, Event, rest, rpc, Answer, run}
use cel_service.Service.Session.Answers.{run-AllFit, run_alike}
use cel_service.Service.Session.Fitting.{AllFit, IsBlind, AreFit, IsFit, Sound, checked_last}
use cel_service.Service.Session.Hits.{all_hits}
use cel_service.Service.Session.Stateless.{IsUp}

-- The first route with the path and the method of the request.
unfoldable find_first : List Route → Request → Option Endpoint
find_first [] r = none
find_first (route ∷ routes) r =
    let later = find_first routes r in
    if str_eq route.method r.method && str_eq route.pattern r.path
    then some (route.endpoint)
    else later

program : Unit {0}
unfolding text str_eq to_lower has_suffix names convert_json2map insert_field decode default_decoder
    default_config api_routes AreFit checked_last find_first mounted_routes eval_routes
    health_routes
program = tt

abbrev refused : Reply
refused = record {
  code = pos 401;
  body = error_body (record { code = pos 401; key = []; srv = []; msg = []; origin = [] });
}

abbrev toy_parts : Parts ℕ Reply
toy_parts = record {
  engine = toy;
  parse_float = toy_float;
  marshal = λ e. none;
  wrapper = [];
  decode_json = λ s. inr (request (text "1") s);
  decode_xml = λ s. inr (request (text "1") s);
  decode_all_json = λ s. inr (request (text "1") s ∷ []);
  decode_all_xml = λ s. inr (request (text "1") s ∷ []);
  validate_struct = λ m. none;
  decode_string = λ s. done s;
  unmarshal = λ s. done (made end);
  can_register = λ name. true;
  route_of = find_first;
  metrics_text = λ x r. refused;
  others = λ e r. refused;
  rendered = λ reply. reply;
  rendered_msg = λ msg. refused;
  bare = λ status. refused;
  time_string = λ time. [];
  no_content = λ status. 204;
  http_error = λ msg status. refused;
}

abbrev with_key : Config ℕ
with_key = record default_config { apikey = true }

abbrev post : Str → Request
post key = record {
  method = text "POST";
  path = text "/api/v1/evaluate";
  header = λ name. key;
  query = λ name. [];
  cookie = λ name. none;
  content_type = json_type;
  content = text "true";
}

abbrev asked : CelRequest ℕ
asked = record { context = sample; expression = text "true"; identifier = text "k" }

abbrev probe : Request
probe = record (post []) { method = text "GET"; path = text "/readyz" }

abbrev metrics_request : Request
metrics_request = record probe { path = text "/metrics" }

-- A request with the api key, a health check and a probe, a request without the key, one over gRPC,
-- and the first again, from the cache.
abbrev series : List (Event ℕ)
series =
    rest 10 (post (text "KEY"))
    ∷ tick 20
    ∷ rest 30 probe
    ∷ rest 40 (post [])
    ∷ rpc asked
    ∷ rest 50 (post (text "KEY"))
    ∷ []

-- The same, and the page of the metrics.
abbrev watched : List (Event ℕ)
watched = rest 60 metrics_request ∷ series

abbrev fresh : Site (Served Str)
fresh = record {
  metrics = [];
  rest = record {
    service = record { post_evals = 0; post_eval_manys = 0; celproc = init };
    health = record {
      my_healthy = true;
      health_message = [];
      healthy = true;
      last_checked = 5;
      period = 1;
    };
  };
}

up : IsUp toy_parts (λ i e. both) 1 5 fresh.rest.health
up = record {
  up = refl;
  last_check = refl;
  same_period = refl;
  has_period = (omega arith, omega arith);
}

posted :
    (last now : ℕ) (key : Str)
    → IsFit toy_parts (λ i e. both) 1 with_key (text "key") last (rest now (post key))
unfolding program
posted last now key = (refl, refl)

probed : IsFit toy_parts (λ i e. both) 1 with_key (text "key") 20 (rest 30 probe)
unfolding program
probed = (omega arith, refl)

run-AllFit_example :
    (s' : Site (Served Str)) × (answers : List (Answer Reply)) × (run toy_parts with_key
        (text "key")
        watched
        fresh
      ≡ returns (s', answers))
    × AllFit toy_parts
        (λ i e. both)
        1
        with_key
        (text "key")
        5
        (λ name. shown (lookup name fresh.metrics))
        watched
        answers
    × Sound toy_parts
        (λ i e. both)
        1
        with_key
        (text "key")
        (checked_last toy_parts (λ i e. both) 1 with_key (text "key") 5 watched)
        s'
    × ((name : Str)
        → shown (lookup name s'.metrics)
          ≡ shown (lookup name fresh.metrics) + all_hits (text "key") with_key.apikey watched name)
unfolding program
run-AllFit_example =
    run-AllFit toy_parts (λ i e. both) 1 with_key (text "key") 5 watched fresh (λ now. refl)
      ((init-IsReady, init-IsCoherent toy toy_float (λ i e. both)), up)
      (
        (tt, refl),
        (
          posted 5 10 (text "KEY"),
          (tt, (probed, (posted 20 40 [], (tt, (posted 20 50 (text "KEY"), tt))))),
        ),
      )

-- A state after other requests: the counters differ.
abbrev used : Site (Served Str)
used = record {
  metrics = (text "rest_requests_GET_readyz_total", 3) ∷ [];
  rest = record fresh.rest {
    service = record { post_evals = 4; post_eval_manys = 5; celproc = init };
  };
}

all-IsBlind : All (IsBlind toy_parts (λ i e. both) 1 with_key (text "key")) series
unfolding program
all-IsBlind = (λ e. cc, (tt, (λ e. cc, (λ e. cc, (tt, (λ e. cc, tt))))))

run_alike_example :
    (answers : List (Answer Reply)) × (s' t' : Site (Served Str)) × (run toy_parts with_key
        (text "key")
        series
        fresh
      ≡ returns (s', answers))
    × (run toy_parts with_key (text "key") series used ≡ returns (t', answers))
unfolding program
run_alike_example =
    run_alike toy_parts (λ i e. both) 1 with_key (text "key") 5 series fresh used (λ now. refl)
      ((init-IsReady, init-IsCoherent toy toy_float (λ i e. both)), up)
      ((init-IsReady, init-IsCoherent toy toy_float (λ i e. both)), up)
      (
        posted 5 10 (text "KEY"),
        (tt, (probed, (posted 20 40 [], (tt, (posted 20 50 (text "KEY"), tt))))),
      )
      all-IsBlind

abbrev first_requests : List (Event ℕ)
first_requests = rest 10 (post []) ∷ tick 20 ∷ rest 30 probe ∷ rpc asked ∷ []

abbrev key_of : Str → Str
key_of s = s

started-AllFit_example :
    (s' : Site (Served Str)) × (answers : List (Answer Reply)) × (run toy_parts launched.0.settings
        (get_apikey key_of)
        first_requests
        (first_state toy_parts (λ i e. both) machine (default_flags (text "/f")) logger launched.0)
      ≡ returns (s', answers))
    × AllFit toy_parts
        (λ i e. both)
        (period_of launched.0)
        launched.0.settings
        (get_apikey key_of)
        0
        (λ name. 0)
        first_requests
        answers
    × ((name : Str)
        → shown (lookup name s'.metrics)
          ≡ all_hits (get_apikey key_of) launched.0.settings.apikey first_requests name)
unfolding program launched
started-AllFit_example =
    started-AllFit toy_parts (λ i e. both) machine (default_flags (text "/f")) logger (launched.0)
      key_of first_requests (launched.1) (omega arith) (λ now. refl)
      ((refl, refl), (tt, ((omega arith, refl), (tt, tt))))
