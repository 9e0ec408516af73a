-- ===== src/Service/Session/Answers.antt =====
-- What the service answers to a series of requests over REST and gRPC and of health checks.
use cel_service.Api.Counting.Counts.{shown}
use cel_service.Api.Counting.{Site}
use cel_service.Base.Dict.{lookup}
use cel_service.Base.Text.{Str}
use cel_service.Base.{refl, arith, [], ◌∷◌, All, ℕ, ◌≡◌, List, none, returns, ◌+◌}
use cel_service.Config.{Config}
use cel_service.Service.Routes.{api_routes}
use cel_service.Service.Session.Fitting.{Sound, AllFit, AreFit, IsBlind, checked_at, checked_last}
use cel_service.Service.Session.Hits.{all_hits, all_hits-cons}
use cel_service.Service.Session.{Served, exposed, Parts, Event, Answer, surroundings, run}
use cel_service.Service.Session.Giving.{respond-Gives}

module _ {F B : Type 0} (p : Parts F B) (named : Str → Str → List Str) (period : ℕ) (c : Config F)
    (key : Str) where
  open (p.engine) use {Program}

  run-Fits :
      (last : ℕ) (seen : Str → ℕ) (es : List (Event F)) (s : Site (Served Program))
      → ((now : ℕ) → (api_routes (surroundings p now) c key).1 ≡ none)
      → Sound p named period c key last s
      → ((name : Str) → shown (lookup name s.metrics) ≡ seen name)
      → AreFit p named period c key last es
      → (s' : Site (Served Program)) × (answers : List (Answer B)) × (run p c key es s
          ≡ returns (s', answers))
        × AllFit p named period c key last seen es answers
        × Sound p named period c key (checked_last p named period c key last es) s'
        × ((name : Str)
            → shown (lookup name s'.metrics) ≡ seen name + all_hits key c.apikey es name)
  unfolding run AllFit AreFit checked_last all_hits
  run-Fits last seen [] s made good so_far fits =
      (s, [], refl, tt, good, λ name. omega (arith, so_far name))
  run-Fits last seen (e ∷ es) s made good so_far (fit, fits) =
      let (a, fitting, steady, gives) = respond-Gives p named period c key last e made fit in
      let (s1, responded, good1, grew1) = gives s good in
      let now_seen = λ (name : Str). seen name + all_hits key c.apikey (e ∷ []) name in
      let (s', answers, ran, all_fitting, good', grew) =
        run-Fits (checked_at p named period c key last e) now_seen es s1 made good1
          (λ name. omega (arith, grew1 name, so_far name)) fits in
      (
        s',
        a (exposed s1) ∷ answers,
        rw (responded, ran) refl,
        (
          (exposed s1, (λ name. omega (arith, grew1 name, so_far name)), fitting (exposed s1)),
          all_fitting,
        ),
        good',
        λ name. omega (arith, grew name, all_hits-cons key c.apikey e es name),
      )

  -- If the routes could be made, and from a state whose cache is valid, has room and is coherent
  -- and whose last health check found the service healthy, with a period of 1 to 2000000000
  -- seconds: the service answers any series of requests over REST and gRPC and of ticks of the
  -- health check, and never panics. The REST requests have names that can be registered, those for
  -- an evaluation keep to the names of their identifiers and expressions, and readiness probes
  -- come at most two periods after the last health check. But for the page of the metrics, each
  -- answer is told by its request and by the time of the last health check alone, whatever else
  -- came before. Over gRPC it is that of an evaluation with no cache. Over REST it is 400 if the
  -- api key is on and the request does not carry it, but must; else 401 if tokens are on and the
  -- token cannot be read; else what the route of the request answers: an evaluation as with no
  -- cache, a GET probe with 200, a HEAD probe with what render.NoContent makes of 200, and the
  -- page of the metrics with counters of which those of the REST requests show what they showed at
  -- the start and what was counted since. If the api key is on, each request over REST that needs
  -- no api key or carries it is counted once under its name, before it is answered, and no other
  -- one. The state stays as it has to be, with the time of the last health check.
  pub run-AllFit :
      (last : ℕ) (es : List (Event F)) (s : Site (Served Program))
      → ((now : ℕ) → (api_routes (surroundings p now) c key).1 ≡ none)
      → Sound p named period c key last s
      → AreFit p named period c key last es
      → (s' : Site (Served Program)) × (answers : List (Answer B)) × (run p c key es s
          ≡ returns (s', answers))
        × AllFit p named period c key last (λ name. shown (lookup name s.metrics)) es answers
        × Sound p named period c key (checked_last p named period c key last es) s'
        × ((name : Str)
            → shown (lookup name s'.metrics)
              ≡ shown (lookup name s.metrics) + all_hits key c.apikey es name)
  run-AllFit last es s made good fits =
      run-Fits last (λ name. shown (lookup name s.metrics)) es s made good (λ name. refl) fits

  -- What came before changes no answer but that of the page of the metrics: from any two states
  -- whose cache is valid, has room and is coherent and whose last health check was at the same
  -- time and found the service healthy, with a period of 1 to 2000000000 seconds, a series of
  -- requests over REST and gRPC, none of them for the page of the metrics, and of ticks of the
  -- health check is given the same answers, and nothing panics, if the routes could be made, the
  -- REST requests have names that can be registered, those for an evaluation keep to the names of
  -- their identifiers and expressions, and readiness probes come at most two periods after the
  -- last health check.
  pub run_alike :
      (last : ℕ) (es : List (Event F)) (s t : Site (Served Program))
      → ((now : ℕ) → (api_routes (surroundings p now) c key).1 ≡ none)
      → Sound p named period c key last s
      → Sound p named period c key last t
      → AreFit p named period c key last es
      → All (IsBlind p named period c key) es
      → (answers : List (Answer B)) × (s' t' : Site (Served Program)) × (run p c key es s
          ≡ returns (s', answers))
        × (run p c key es t ≡ returns (t', answers))
  unfolding run AreFit
  run_alike last [] s t made good also_good fits blind = ([], s, t, refl, refl)
  run_alike last (e ∷ es) s t made good also_good (fit, fits) (blind, all_blind) =
      let (a, fitting, steady, gives) = respond-Gives p named period c key last e made fit in
      let (s1, responded, good1, grew1) = gives s good in
      let (t1, also_responded, also_good1, also_grew1) = gives t also_good in
      let (answers, s', t', ran, also_ran) =
        run_alike (checked_at p named period c key last e) es s1 t1 made good1 also_good1 fits
          all_blind in
      (
        a (exposed s1) ∷ answers,
        s',
        t',
        rw (responded, ran) refl,
        rw (also_responded, steady blind (exposed t1) (exposed s1), also_ran) refl,
      )
