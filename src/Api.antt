-- ===== src/Api.antt =====
-- internal/api: the middleware. A handler answers with an `R`, which may be a change of the state
-- as well. `SkipFunc` of the api key is the one of cmd/service/main.go.
pub mod ApiKey
pub mod Paging
pub mod Counting
use cel_service.Base.Int.{ℤ, pos}
use cel_service.Base.Strconv.{Parsed, parsed, syntax_error, range_error, parse_int}
use cel_service.Base.Text.{
  Str, text, str_eq, str_eq_iff, to_lower, is_empty, has_prefix, has_suffix, trim_suffix,
}
use cel_service.Base.{
  ◌≡◌, ◌⊎◌, arith, refl, inl, inr, Bool, true, false, ◌&&◌, ◌||◌, not, List, [], ◌∷◌, ◌++◌, Option,
  none, some, if◌then◌else◌,
}
use cel_service.Http.{Request}
use cel_service.Serror.{Serr, GoError, other_error, bad_request}

pub record SysApiConfig : Type 0 where
  pub apikey : Str
  pub skip_func : Option (Request → Bool)

-- `cfg.SkipFunc != nil && cfg.SkipFunc(r)`
abbrev pub skipped : Option (Request → Bool) → Request → Bool
skipped none r = false
skipped (some skip) r = skip r

-- The probes, the metrics and the client need no api key.
unfoldable pub skip_func : Request → Bool
skip_func r =
    let path = trim_suffix r.path (text "/") in
    if has_suffix path (text "/livez")
    then true
    else if has_suffix path (text "/readyz")
    then true
    else if has_suffix path (text "/metrics")
    then true
    else if has_prefix path (text "/client")
    then true
    else false

-- `SkipFunc` of the tracer of cmd/service/main.go: the requests with no span.
unfoldable tracer_skip : Request → Bool
tracer_skip r =
    str_eq r.path (text "/livez")
    || (str_eq r.path (text "/readyz") || str_eq r.path (text "/metrics"))

tracer_skip_cases :
    (r : Request)
    → tracer_skip r ≡ true
    → (r.path ≡ text "/livez") ⊎ ((r.path ≡ text "/readyz") ⊎ (r.path ≡ text "/metrics"))
unfolding tracer_skip
tracer_skip_cases r e = ground (
  arith,
  str_eq_iff r.path (text "/livez"),
  str_eq_iff r.path (text "/readyz"),
  str_eq_iff r.path (text "/metrics"),
)

-- A request with no span needs no api key either.
tracer_skip-skip_func : (r : Request) → tracer_skip r ≡ true → skip_func r ≡ true
unfolding skip_func text has_suffix trim_suffix str_eq
tracer_skip-skip_func r e = elim (tracer_skip_cases r e) [
  | inl livez ↦ rw (livez) refl
  | inr (inl readyz) ↦ rw (readyz) refl
  | inr (inr metrics) ↦ rw (metrics) refl
]

-- The values that `Paginate` puts into the context of the request
pub record Page : Type 0 where
  pub offset : ℤ
  pub limit : ℤ

-- `RoleCheck` hands every request on.
unfoldable role_check : {R : Type 0} → List Str → (Request → R) → Request → R
role_check allowed_roles next r = next r

-- `TraceEnhancer`: the span of the context, if there is one, gets the method and the path as its
-- name; `set_operation_name` is `SetOperationName` of the span.
unfoldable trace_enhancer :
    {S R : Type 0} → (S → Str → S) → (Request → Option S → R) → Request → Option S → R
trace_enhancer set_operation_name next r none = next r none
trace_enhancer set_operation_name next r (some span) =
    next r (some (set_operation_name span (r.method ++ (text " " ++ r.path))))

-- `marshal` and `service` are those of internal/serror; `render_json` answers with the status that
-- was set and a value as JSON.
module _ (marshal : Serr → Option Str) (service : Str) {R : Type 0}
    (render_json : ℤ → Serr → R) where
  abbrev pub refuse : Option GoError → Str → Str → R
  refuse err key msg =
      let apierr = bad_request marshal service err (key ∷ msg ∷ []) in
      render_json apierr.code apierr

  unfoldable pub sys_api_handler : SysApiConfig → (Request → R) → Request → R
  sys_api_handler cfg next r =
      if skipped cfg.skip_func r
      then next r
      else if not (str_eq cfg.apikey (to_lower (r.header (text "apikey"))))
      then refuse none (text "missing-header") (text "apikey not correct")
      else next r

  -- The offset, or the limit, of a query: 0 if there is none. `atoi_error` is the text of the
  -- error of `strconv.Atoi`.
  module _ (atoi_error : Str → Str) where
    abbrev pub read_number : Str → Parsed ℤ → (ℤ → R) → Str → R
    read_number n (parsed z) next msg = next z
    read_number n syntax_error next msg =
        refuse (some (other_error (atoi_error n))) (text "wrong-type") msg
    read_number n range_error next msg =
        refuse (some (other_error (atoi_error n))) (text "wrong-type") msg

    abbrev pub with_number : Str → Str → (ℤ → R) → R
    with_number n msg next =
        if not (is_empty n) then read_number n (parse_int 64 n) next msg else next (pos 0)

    unfoldable pub paginate : (Page → Request → R) → Request → R
    paginate next r =
        with_number (r.query (text "offset")) (text "type of offset string is not correct.")
          (λ offset.
            with_number (r.query (text "limit")) (text "type of limit string is not correct.")
              (λ limit. next (record { offset = offset; limit = limit }) r))
