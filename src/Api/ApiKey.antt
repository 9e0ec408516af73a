-- ===== src/Api/ApiKey.antt =====
-- `SysAPIHandler` of internal/api/sysapihandler.go.
use cel_service.Api.{SysApiConfig, skipped, sys_api_handler}
use cel_service.Base.Int.{ℤ, pos}
use cel_service.Base.Text.{Str, text, str_eq_cases, to_lower}
use cel_service.Base.{
  ◌≡◌, ◌≢◌, ◌⊎◌, refl, sym, inl, inr, true, false, Option, none, [], ◌∷◌, Bool-cases,
}
use cel_service.Http.{Request}
use cel_service.Serror.Laws.{bad_request-code}
use cel_service.Serror.{Serr, bad_request}

module _ (marshal : Serr → Option Str) (service : Str) {R : Type 0}
    (render_json : ℤ → Serr → R) where
  -- A request is handed on exactly if it is skipped or carries the api key, in capital or small
  -- letters; any other one is answered with the status 400.
  pub sys_api_handler_cases :
      (cfg : SysApiConfig) (next : Request → R) (r : Request)
      → (((skipped cfg.skip_func r ≡ true) ⊎ (to_lower (r.header (text "apikey")) ≡ cfg.apikey))
          × (sys_api_handler marshal service render_json cfg next r ≡ next r))
        ⊎ ((skipped cfg.skip_func r ≡ false)
            × (to_lower (r.header (text "apikey")) ≢ cfg.apikey)
            × (e : Serr) × (sys_api_handler marshal service render_json cfg next r
                ≡ render_json (pos 400) e))
  unfolding sys_api_handler
  sys_api_handler_cases cfg next r = elim (Bool-cases (skipped cfg.skip_func r)) [
    | inl skip ↦ inl (inl skip, rw (skip) refl)
    | inr checked ↦ elim (str_eq_cases cfg.apikey (to_lower (r.header (text "apikey")))) [
      | inl (same, test) ↦ inl (inr (sym same), rw (checked, test) refl)
      | inr (other, test) ↦ inr (
        checked,
        (λ e. other (sym e)),
        bad_request marshal service none (text "missing-header" ∷ text "apikey not correct" ∷ []),
        rw (checked, test, bad_request-code marshal service none _) refl,
      )
    ]
  ]
