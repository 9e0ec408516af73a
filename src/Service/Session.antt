-- ===== src/Service/Session.antt =====
-- The service at work: requests over REST, through the middlewares of cmd/service/main.go to the
-- handlers of internal/apiv1/evalapi.go and internal/health/health.go, requests over gRPC, and the
-- ticks of the health check, one after the other on one state.
pub mod Hits
pub mod Stateless
pub mod Fitting
pub mod Giving
pub mod Answers
pub mod Start
use cel_service.Api.Counting.{Site}
use cel_service.Auth.{Outcome}
use cel_service.Base.Int.{ℤ}
use cel_service.Base.Text.{Str}
use cel_service.Base.{ℕ, Bool, List, [], ◌∷◌, Option, none, some, ◌⊎◌, Call, returns, ◌>>=◌}
use cel_service.CelProc.Engine.{CelEngine}
use cel_service.CelProc.Grpc.{CelRequest, CelResponse, evaluate}
use cel_service.Config.{Config, servicename}
use cel_service.EvalApi.{Service, Reply, error_body, post_eval, post_eval_many}
use cel_service.Health.{
  State, Msg, do_check, get_liveness, head_liveness, get_readiness, head_readiness,
}
use cel_service.Http.{Request, Response}
use cel_service.Model.Value.{GoMap}
use cel_service.Model.{CelModel}
use cel_service.Serror.{Serr, GoError}
use cel_service.Service.Routes.{
  Route, Endpoint, to_evaluate, to_evaluate_many, get_live, get_ready, head_live, head_ready,
  metrics_page, Surroundings, api_routes,
}

-- The counters of the program that the page of the metrics shows.
pub record Exposed : Type 0 where
  pub metrics : List (Str × ℕ)
  pub post_evals : ℕ
  pub post_eval_manys : ℕ
  pub cache_hits : ℕ
  pub build_evals : ℕ

-- What comes from elsewhere: cel-go, the decoders, and of the router `route_of`, the route of a
-- request, if there is one. `metrics_text` is the page of the metrics for the counters of this
-- program, without what it shows of the process; `others` is what answers behind the routes of the
-- client, and with no route; `rendered` and `rendered_msg` are replies as JSON, `bare` a status with
-- no body, `http_error` is `http.Error`, `no_content` `render.NoContent`, and `time_string` `String`
-- of a time.
pub record Parts (F B : Type 0) : Type 1 where
  pub engine : CelEngine F
  pub parse_float : Str → Option F
  pub marshal : Serr → Option Str
  pub wrapper : List (GoError → Option Serr)
  pub decode_json : Str → GoError ⊎ CelModel F
  pub decode_xml : Str → GoError ⊎ CelModel F
  pub decode_all_json : Str → GoError ⊎ List (CelModel F)
  pub decode_all_xml : Str → GoError ⊎ List (CelModel F)
  pub validate_struct : CelModel F → Option GoError
  pub decode_string : Str → Outcome Str
  pub unmarshal : Str → Outcome (GoMap F)
  pub can_register : Str → Bool
  pub route_of : List Route → Request → Option Endpoint
  pub metrics_text : Exposed → Request → B
  pub others : Option Endpoint → Request → B
  pub rendered : Reply → B
  pub rendered_msg : Response Msg → B
  pub bare : ℕ → B
  pub time_string : ℕ → Str
  pub no_content : ℕ → ℕ
  pub http_error : Str → ℕ → B

-- The two packages with handlers that keep a state.
pub record Served (P : Type 0) : Type 0 where
  pub service : Service P
  pub health : State

-- A request over one of the two ways in, or a tick of the health check, and the answer. REST requests
-- and ticks come with the time of the clock.
pub data Event (F : Type 0) : Type 0 where
  rest : ℕ → Request → Event F
  tick : ℕ → Event F
  rpc : CelRequest F → Event F

pub data Answer (B : Type 0) : Type 0 where
  rest_answer : B → Answer B
  rpc_answer : Option CelResponse × Option Str → Answer B
  no_answer : Answer B

abbrev pub exposed : {P : Type 0} → Site (Served P) → Exposed
exposed s = record {
  metrics = s.metrics;
  post_evals = s.rest.service.post_evals;
  post_eval_manys = s.rest.service.post_eval_manys;
  cache_hits = s.rest.service.celproc.cache_hits;
  build_evals = s.rest.service.celproc.build_evals;
}

module _ {F B : Type 0} (p : Parts F B) where
  open (p.engine) use {Program}

  abbrev with_reply :
      Site (Served Program) → Service Program × Reply → Call (Site (Served Program) × B)
  with_reply s (t, reply) =
      returns (record s { rest = record s.rest { service = t } }, p.rendered reply)

  abbrev with_msg : Site (Served Program) → State × Response Msg → Call (Site (Served Program) × B)
  with_msg s (t, msg) =
      returns (record s { rest = record s.rest { health = t } }, p.rendered_msg msg)

  abbrev with_status : Site (Served Program) → State × ℕ → Call (Site (Served Program) × B)
  with_status s (t, status) =
      returns (record s { rest = record s.rest { health = t } }, p.bare status)

  -- The handlers behind the routes.
  pub handle :
      ℕ → Option Endpoint → Request → Site (Served Program) → Call (Site (Served Program) × B)
  handle now (some to_evaluate) r s =
      post_eval p.marshal servicename p.wrapper p.engine p.parse_float p.decode_json p.decode_xml
        p.validate_struct r s.rest.service
      >>= with_reply s
  handle now (some to_evaluate_many) r s =
      post_eval_many p.marshal servicename p.wrapper p.engine p.parse_float p.decode_all_json
        p.decode_all_xml r s.rest.service
      >>= with_reply s
  handle now (some get_live) r s = returns (s, p.rendered_msg get_liveness)
  handle now (some head_live) r s = returns (s, p.bare (head_liveness p.no_content))
  handle now (some get_ready) r s = get_readiness p.time_string now s.rest.health >>= with_msg s
  handle now (some head_ready) r s = head_readiness p.no_content now s.rest.health >>= with_status s
  handle now (some metrics_page) r s = returns (s, p.metrics_text (exposed s) r)
  handle now e r s = returns (s, p.others e r)

  abbrev pub surroundings : ℕ → Surroundings F (Served Program) B
  surroundings now = record {
    marshal = p.marshal;
    decode_string = p.decode_string;
    unmarshal = p.unmarshal;
    can_register = p.can_register;
    render_json = λ code e. p.rendered (record { code = code; body = error_body e });
    http_error = p.http_error;
    serve = λ routes ctx r s. handle now (p.route_of routes r) r s;
    unrouted = λ r s. returns (s, p.others none r);
  }

  pub respond :
      Config F → Str → Event F → Site (Served Program) → Call (Site (Served Program) × Answer B)
  respond c key (rest now r) s =
      (api_routes (surroundings now) c key).0 r s >>= λ (s', b). returns (s', rest_answer b)
  respond c key (tick now) s =
      returns (record s { rest = record s.rest { health = do_check now s.rest.health } }, no_answer)
  respond c key (rpc q) s =
      evaluate p.engine p.parse_float q s.rest.service.celproc >>= λ (t, res, err). returns (
        record s { rest = record s.rest { service = record s.rest.service { celproc = t } } },
        rpc_answer (res, err),
      )

  unfoldable pub run :
      Config F
      → Str
      → List (Event F)
      → Site (Served Program)
      → Call (Site (Served Program) × List (Answer B))
  run c key [] s = returns (s, [])
  run c key (e ∷ es) s =
      respond c key e s >>= λ (s', a). run c key es s' >>= λ (s'', as'). returns (s'', a ∷ as')
