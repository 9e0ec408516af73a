-- ===== src/Service/Evaluated.antt =====
-- A POST to `/evaluate` on its way through the middlewares of cmd/service/main.go and PostEval of
-- internal/apiv1/evalapi.go.
use cel_service.Api.Counting.Counts.{shown, counted_once}
use cel_service.Api.Counting.{Site, metrics_name, count_request}
use cel_service.Base.Dict.{lookup}
use cel_service.Base.Text.{Str, text, to_lower, str_eq, str_eq_cases}
use cel_service.Base.{
  ℕ, ◌+◌, ◌≡◌, ◌⊎◌, inl, inr, refl, sym, ap, ◌∙◌, subst, Bool, true, false, List, Option, none,
  Call, returns, ◌>>=◌, if◌then◌else◌,
}
use cel_service.CelProc.Engine.{CelEngine}
use cel_service.Config.{Config}
use cel_service.EvalApi.Answers.{IsGood, KeepsNames, answer_of, post_eval-answer_of}
use cel_service.EvalApi.{Service, Reply, decode, post_eval}
use cel_service.Http.{Request}
use cel_service.Model.{CelModel}
use cel_service.Serror.{Serr, GoError}
use cel_service.Service.Guarded.{KeyGate, TokenGate, api_routes-guarded}
use cel_service.Service.Routes.{Surroundings, no_token, mounted_routes, is_jwt, api_routes}

grown : (name : Str) (n : ℕ) → (if str_eq name name then n + 1 else n) ≡ n + 1
grown name n = elim (str_eq_cases name name) [
  | inl (same, test) ↦ rw (test) refl
  | inr (other, test) ↦ absurd (other refl)
]

module _ {F T B : Type 0} (out : Surroundings F T B) where
  KeyGate-passed :
      (on : Bool) (key : Str) (r : Request) (s : Site T) (inner outer : Site T → Call (Site T × B))
      → on ≡ true
      → to_lower (r.header (text "apikey")) ≡ key
      → KeyGate out on key r inner outer
      → outer s ≡ (count_request out.can_register r s >>= inner)
  KeyGate-passed false key r s inner outer e same gate = cc
  KeyGate-passed true key r s inner outer e same (inl (checked, wrong, err, a)) =
      absurd (wrong same)
  KeyGate-passed true key r s inner outer e same (inr (passed, a)) = ap (λ h. h s) a

  TokenGate-off :
      (on : Bool) (c : Config F) (r : Request) (inner : Site T → Call (Site T × B))
      → on ≡ false
      → TokenGate out on (mounted_routes c) r inner
      → inner ≡ out.serve (mounted_routes c) no_token r
  TokenGate-off false c r inner e gate = gate
  TokenGate-off true c r inner e gate = cc

  no_error : (c : Config F) (key : Str) → is_jwt c ≡ false → (api_routes out c key).1 ≡ none
  unfolding api_routes
  no_error c key off = rw (off) refl

  -- With tokens off, a request with the api key is counted and then served.
  counted_and_served :
      (c : Config F) (key : Str) (r : Request) (s : Site T)
      → c.apikey ≡ true
      → is_jwt c ≡ false
      → to_lower (r.header (text "apikey")) ≡ key
      → (api_routes out c key).0 r s
        ≡ (count_request out.can_register r s >>= out.serve (mounted_routes c) no_token r)
  counted_and_served c key r s on off same =
      let (inner, key_gate, token_gate) = api_routes-guarded out c key r (no_error c key off) in
      KeyGate-passed c.apikey key r s inner _ on same key_gate
      ∙ ap (λ f. count_request out.can_register r s >>= f)
          (TokenGate-off (is_jwt c) c r inner off token_gate)

module _ (marshal : Serr → Option Str) (service : Str) (wrapper : List (GoError → Option Serr))
    {F : Type 0} (engine : CelEngine F) (parse_float : Str → Option F)
    (named : Str → Str → List Str) (decode_json decode_xml : Str → GoError ⊎ CelModel F)
    (validate_struct : CelModel F → Option GoError)
    (out : Surroundings F (Service (engine.Program)) Reply) where
  open engine use {Program}

  -- The router hands the request to PostEval.
  abbrev pub ReachesPostEval : Config F → Request → Type 0
  ReachesPostEval c r =
      (s : Site (Service Program))
      → out.serve (mounted_routes c) no_token r s ≡ (
          post_eval marshal service wrapper engine parse_float decode_json decode_xml
            validate_struct r s.rest
          >>= λ (t, answer). returns (record s { rest = t }, answer))

  -- With the api key on and tokens off, and from a state whose cache is valid, has room and is
  -- coherent, a request with the api key that the router hands to PostEval is answered as with no
  -- cache, if its name can be registered and it keeps to the names of its identifier and expression.
  -- It is counted twice: under its name, and by PostEval.
  api_routes-answer_of :
      (c : Config F) (key : Str) (r : Request) (s : Site (Service Program))
      → c.apikey ≡ true
      → is_jwt c ≡ false
      → to_lower (r.header (text "apikey")) ≡ key
      → out.can_register (metrics_name r) ≡ true
      → ReachesPostEval c r
      → IsGood marshal service wrapper engine parse_float named s.rest
      → KeepsNames marshal service wrapper engine parse_float named
          (decode marshal service wrapper decode_json decode_xml validate_struct r)
      → (s' : Site (Service Program)) × ((api_routes out c key).0 r s
          ≡ returns (
            s',
            answer_of marshal service wrapper engine parse_float named
                (decode marshal service wrapper decode_json decode_xml validate_struct r),
          ))
        × IsGood marshal service wrapper engine parse_float named s'.rest
        × (s'.rest.post_evals ≡ s.rest.post_evals + 1)
        × (shown (lookup (metrics_name r) s'.metrics)
            ≡ shown (lookup (metrics_name r) s.metrics) + 1)
  api_routes-answer_of c key r s on off same can reaches good keeps =
      let (s1, counted, kept, grew) = counted_once out.can_register r s can in
      let (t, answered, good', more) =
        post_eval-answer_of marshal service wrapper engine parse_float named decode_json decode_xml
          validate_struct r s1.rest
          (subst (IsGood marshal service wrapper engine parse_float named) (sym kept) good) keeps in
      (
        record s1 { rest = t },
        counted_and_served out c key r s on off same ∙ rw (counted, reaches s1, answered) refl,
        good',
        more ∙ ap (λ u. u.post_evals + 1) kept,
        grew (metrics_name r) ∙ grown (metrics_name r) (shown (lookup (metrics_name r) s.metrics)),
      )
