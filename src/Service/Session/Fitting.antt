-- ===== src/Service/Session/Fitting.antt =====
-- Which answers of the service belong to which events, told by the event, the time of the last
-- health check and, for the page of the metrics alone, by the counters.
use cel_service.Api.Counting.Counts.{shown}
use cel_service.Api.Counting.{Site, metrics_name}
use cel_service.Base.Dict.{lookup}
use cel_service.Service.Session.Hits.{all_hits}
use cel_service.Api.{skip_func}
use cel_service.Auth.Admission.{token_of}
use cel_service.Auth.Decoding.{IsReadable}
use cel_service.Base.Int.{pos}
use cel_service.Base.Text.{Str, text, to_lower}
use cel_service.Base.{ℕ, ◌≡◌, ◌≢◌, ◌⊎◌, Bool, true, false, ◌+◌, some, List, [], ◌∷◌}
use cel_service.CelProc.Grpc.{plain_response}
use cel_service.Config.{Config}
use cel_service.EvalApi.{error_body}
use cel_service.Http.{Request}
use cel_service.Serror.{Serr}
use cel_service.Service.Routes.{metrics_page, http_answer, mounted_routes, is_jwt}
use cel_service.Service.Session.{
  Exposed, tick, no_answer, Served, Parts, Event, rest, rpc, Answer, rest_answer, rpc_answer,
  surroundings,
}
use cel_service.Service.Session.Stateless.{IsSound, stateless, FitsRoute}

module _ {F B : Type 0} (p : Parts F B) (named : Str → Str → List Str) (period : ℕ) (c : Config F)
    (key : Str) where
  open (p.engine) use {Program}

  abbrev pub token : Request → Str
  token r = token_of p.decode_string p.unmarshal (http_answer (surroundings p 0)) r

  -- The answer behind the gate of the tokens.
  abbrev pub IsServed : ℕ → Exposed → Bool → Request → B → Type 0
  IsServed last x false r b =
      b ≡ stateless p named period last (p.route_of (mounted_routes c) r) r x
  IsServed last x true r b =
      (IsReadable p.decode_string p.unmarshal (token r)
        × (b ≡ stateless p named period last (p.route_of (mounted_routes c) r) r x))
      ⊎ ((¬ IsReadable p.decode_string p.unmarshal (token r))
          × (err : Str) × (b ≡ p.http_error err 401))

  -- The answer to a request over REST, at the gate of the api key and behind it.
  abbrev pub IsAnswered : ℕ → Exposed → Bool → Request → B → Type 0
  IsAnswered last x false r b = IsServed last x (is_jwt c) r b
  IsAnswered last x true r b =
      ((skip_func r ≡ false)
        × (to_lower (r.header (text "apikey")) ≢ key)
        × (e : Serr) × (b ≡ p.rendered (record { code = pos 400; body = error_body e })))
      ⊎ (((skip_func r ≡ true) ⊎ (to_lower (r.header (text "apikey")) ≡ key))
          × IsServed last x (is_jwt c) r b)

  abbrev pub Fits : ℕ → Exposed → Event F → Answer B → Type 0
  Fits last x (rest now r) a = (b : B) × (a ≡ rest_answer b) × IsAnswered last x c.apikey r b
  Fits last x (rpc q) a = a ≡ rpc_answer (plain_response p.engine p.parse_float q)
  Fits last x (tick now) a = a ≡ no_answer

  -- A request over REST fits its route, and its counter has a name that can be registered.
  abbrev pub IsFit : ℕ → Event F → Type 0
  IsFit last (rest now r) =
      FitsRoute p named period last now (p.route_of (mounted_routes c) r) r
      × (p.can_register (metrics_name r) ≡ true)
  IsFit last (rpc q) = Unit {0}
  IsFit last (tick now) = Unit {0}

  -- The time of the last health check after an event.
  abbrev pub checked_at : ℕ → Event F → ℕ
  checked_at last (rest now r) = last
  checked_at last (rpc q) = last
  checked_at last (tick now) = now

  abbrev pub Sound : ℕ → Site (Served Program) → Type 0
  Sound last s = IsSound p named period last s.rest

  -- The answers belong to the events, one by one and in their order. The counters of the requests
  -- show what was seen before and what came since, the event itself included.
  unfoldable pub AllFit : ℕ → (Str → ℕ) → List (Event F) → List (Answer B) → Type 0
  AllFit last seen [] [] = Unit {0}
  AllFit last seen (e ∷ es) (a ∷ as') =
      ((x : Exposed) × ((name : Str)
          → shown (lookup name x.metrics) ≡ seen name + all_hits key c.apikey (e ∷ []) name)
        × Fits last x e a)
      × AllFit (checked_at last e) (λ name. seen name + all_hits key c.apikey (e ∷ []) name) es as'
  AllFit last seen _ _ = ⊥

  -- The event is no request for the page of the metrics.
  abbrev pub IsBlind : Event F → Type 0
  IsBlind (rest now r) = p.route_of (mounted_routes c) r ≢ some metrics_page
  IsBlind (rpc q) = Unit {0}
  IsBlind (tick now) = Unit {0}

  unfoldable pub AreFit : ℕ → List (Event F) → Type 0
  AreFit last [] = Unit {0}
  AreFit last (e ∷ es) = IsFit last e × AreFit (checked_at last e) es

  unfoldable pub checked_last : ℕ → List (Event F) → ℕ
  checked_last last [] = last
  checked_last last (e ∷ es) = checked_last (checked_at last e) es
