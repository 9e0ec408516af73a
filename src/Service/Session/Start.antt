-- ===== src/Service/Session/Start.antt =====
-- The service from the start that `main` of cmd/service/main.go gives it.
use cel_service.Api.Counting.Counts.{shown}
use cel_service.Api.Counting.{Site}
use cel_service.Base.Dict.{lookup}
use cel_service.Base.Int.{ℤ, pos, negsuc}
use cel_service.Base.Text.{Str}
use cel_service.Base.{ℕ, ◌≤◌, ◌≡◌, ◌∙◌, sym, ap, subst, arith, List, [], none, returns}
use cel_service.CelProc.Entries.{init-IsReady, init-IsCoherent}
use cel_service.CelProc.{init}
use cel_service.Health.Readiness.{started-healthy}
use cel_service.Logging.{ServiceLogger}
use cel_service.Service.Routes.{api_routes}
use cel_service.Service.Servers.{Started, main-Started}
use cel_service.Service.Session.Answers.{run-AllFit}
use cel_service.Service.Session.Fitting.{AllFit, AreFit}
use cel_service.Service.Session.Hits.{all_hits}
use cel_service.Service.Session.Stateless.{IsUp}
use cel_service.Service.Session.{Parts, Served, Event, Answer, surroundings, run}
use cel_service.Service.Startup.{Machine, Running, running, main}
use cel_service.Service.{Flags, get_apikey}

-- The period of a service that has started, in which it is not negative.
abbrev natural : ℤ → ℕ
natural (pos n) = n
natural (negsuc n) = 0

abbrev pub period_of : {F C : Type 0} → Running F C → ℕ
period_of started = natural started.settings.health_check.period

module _ {F B : Type 0} (p : Parts F B) (named : Str → Str → List Str) (m : Machine F) (f : Flags)
    (log : ServiceLogger) where
  open (p.engine) use {Program}

  -- The package variables when the servers have started.
  abbrev pub first_state : Running F m.crypto.Certificate → Site (Served Program)
  first_state started = record {
    metrics = [];
    rest = record {
      service = record { post_evals = 0; post_eval_manys = 0; celproc = init };
      health = started.health;
    };
  }

  started-IsUp :
      (started : Running F m.crypto.Certificate)
      → main m f log ≡ running started
      → period_of started ≤ 2000000000
      → IsUp p named (period_of started) m.now started.health
  started-IsUp started e small =
      let (s, ready, (routes, begins, settings)) = subst (Started m f) e (main-Started m f log) in
      let (n, same, positive, period, healthy, at) =
        started-healthy _ m.now started.health begins in
      let kept : period_of started ≡ n =
        ap (λ c. natural c.health_check.period) settings ∙ ap natural same in
      record {
        up = healthy;
        last_check = at;
        same_period = period ∙ sym kept;
        has_period = (rw (period) positive, omega (arith, period, kept, small));
      }

  -- If main has started the service, with a period of at most 2000000000 seconds for the health
  -- checks and routes that could be made, it answers any series of requests over REST and gRPC and
  -- of ticks of the health check, from the first one on, with the settings that main came to and
  -- the key of getApikey. The REST requests have names that can be registered, those for an
  -- evaluation keep to the names of their identifiers and expressions, and readiness probes come
  -- at most two periods after the last health check. But for the page of the metrics, each answer
  -- is told by its request and the time of the last health check alone: over gRPC it is that of an
  -- evaluation with no cache; over REST it is 400 if the api key is on and the request does not
  -- carry it, but must, else 401 if tokens are on and the token cannot be read, else what the
  -- route of the request answers, an evaluation as with no cache, and the page of the metrics with
  -- counters of which those of the REST requests show what was counted so far. If the api key is
  -- on, the counters show how many requests of their names needed no api key or carried it; else
  -- they show nothing.
  pub started-AllFit :
      (started : Running F m.crypto.Certificate) (md5 : Str → Str) (es : List (Event F))
      → main m f log ≡ running started
      → period_of started ≤ 2000000000
      → ((now : ℕ) → (api_routes (surroundings p now) started.settings (get_apikey md5)).1 ≡ none)
      → AreFit p named (period_of started) started.settings (get_apikey md5) m.now es
      → (s' : Site (Served Program)) × (answers : List (Answer B)) × (run p started.settings
            (get_apikey md5)
            es
            (first_state started)
          ≡ returns (s', answers))
        × AllFit p named
            (period_of started)
            started.settings
            (get_apikey md5)
            m.now
            (λ name. 0)
            es
            answers
        × ((name : Str)
            → shown (lookup name s'.metrics)
              ≡ all_hits (get_apikey md5) started.settings.apikey es name)
  unfolding lookup
  started-AllFit started md5 es e small made fits =
      let (s', answers, ran, fit, good, grew) =
        run-AllFit p named (period_of started) started.settings (get_apikey md5) m.now es
          (first_state started) made
          (
            (init-IsReady, init-IsCoherent p.engine p.parse_float named),
            started-IsUp started e small,
          )
          fits in
      (s', answers, ran, fit, λ name. omega (arith, grew name))
