-- ===== src/Examples/Serving.antt =====
-- Tests of the REST handlers and of the middleware.
use cel_service.Api.ApiKey.{sys_api_handler_cases}
use cel_service.Api.Paging.{paginate-print_int, paginate_cases, Stands, StandsForNone}
use cel_service.Api.{SysApiConfig, Page, skipped, skip_func, sys_api_handler, paginate}
use cel_service.Auth.Admission.{Answered, token_of, verifier-authenticator}
use cel_service.Auth.Authenticator.{
  Context, authenticator, verifier, find_token, token_from_header, token_from_cookie, verify,
  verify_request, verify_token, new_context, from_context,
}
use cel_service.Auth.Decoding.{signed_token, decode_jwt-signed_token}
use cel_service.Auth.{
  Outcome, done, failed, strip_bearer, decode_jwt, decode_parts, jwt_decode_part, validate,
}
use cel_service.Base.Int.{ℤ, pos}
use cel_service.Base.Strconv.{print_int, print_nat, print_onto}
use cel_service.Base.Text.{
  Str, text, str_eq, to_upper, to_lower, split, split_first, split_rest, has_prefix, has_suffix,
  trim_suffix,
}
use cel_service.Base.{
  arith, ℕ, if◌then◌else◌, ◌+◌, ◌≡◌, ◌≢◌, ◌⊎◌, refl, inr, true, false, Option, none, some, List, [],
  ◌∷◌, returns,
}
use cel_service.CelProc.Convert.{convert_json2map}
use cel_service.CelProc.Entries.{init-IsReady, init-IsCoherent}
use cel_service.CelProc.{init}
use cel_service.EvalApi.Answers.{
  IsGood, answer_of, answer_of_all, post_eval-answer_of, post_eval_many-answer_of_all,
}
use cel_service.EvalApi.{Service, post_eval, post_eval_many, decode, default_decoder}
use cel_service.Examples.Evaluation.{toy, toy_float, request, both}
use cel_service.Http.{Request, json_type}
use cel_service.Model.Value.{GoMap, made, end, names, insert_field}
use cel_service.Model.{CelModel}
use cel_service.Serror.{Serr, GoError}

program : Unit {0}
unfolding text str_eq to_upper to_lower split split_first split_rest has_prefix has_suffix
    trim_suffix skip_func sys_api_handler paginate find_token token_from_header token_from_cookie
    print_int print_nat print_onto strip_bearer decode_jwt decode_parts jwt_decode_part verify
    verifier verify_request verify_token authenticator new_context from_context validate decode
    default_decoder names convert_json2map insert_field
program = tt

abbrev plain : Request
plain = record {
  method = text "POST";
  path = text "/api/v1/evaluate";
  header = λ name. if str_eq name (text "Authorization") then text "Bearer h.p.s" else text "ABC";
  query = λ name. text "12";
  cookie = λ name. none;
  content_type = json_type;
  content = text "true";
}

abbrev read_base64 : Str → Outcome Str
read_base64 s = if str_eq s (text "?") then failed (text "illegal") else done s

abbrev read_object : Str → Outcome (GoMap ℕ)
read_object s = done (made end)

abbrev no_context : Context ℕ
no_context = record { token_value = none; error_value = none }

abbrev served : Context ℕ → Request → ℕ
served ctx r = 200

-- The signature is not looked at.
forged :
    verifier read_base64 read_object
      (record { validate_flag = true })
      (authenticator read_base64 read_object (λ e status. status) served)
      no_context
      plain
    ≡ 200
unfolding program
forged = refl

verifier-authenticator_example :
    Answered read_base64 read_object
      (λ e status. status)
      no_context
      plain
      served
      (token_of read_base64 read_object (λ (e : Str) (status : ℕ). status) plain)
      (verifier read_base64 read_object
        (record { validate_flag = true })
        (authenticator read_base64 read_object (λ e status. status) served)
        no_context
        plain)
verifier-authenticator_example =
    verifier-authenticator read_base64 read_object (λ e status. status)
      (record { validate_flag = true }) no_context plain served

decode_jwt-signed_token_example :
    let first =
      decode_jwt read_base64 read_object
        (signed_token read_base64 read_object (text "h") (text "p") (text "s")) in
    let second =
      decode_jwt read_base64 read_object
        (signed_token read_base64 read_object (text "h") (text "p") []) in
    (first.1 ≡ second.1)
    × (first.0.header ≡ second.0.header)
    × (first.0.payload ≡ second.0.payload)
    × (first.0.is_valid ≡ second.0.is_valid)
unfolding program
decode_jwt-signed_token_example =
    decode_jwt-signed_token read_base64 read_object (text "h") (text "p") (text "s") [] (refl, tt)
      (refl, tt)

abbrev marshal : Serr → Option Str
marshal e = some e.key

abbrev gate : SysApiConfig
gate = record { apikey = text "abc"; skip_func = some skip_func }

abbrev answered : ℤ → Serr → ℤ
answered status e = status

passes : sys_api_handler marshal [] answered gate (λ r. pos 200) plain ≡ pos 200
unfolding program
passes = refl

sys_api_handler_cases_example :
    (((skipped gate.skip_func plain ≡ true)
        ⊎ (to_lower (plain.header (text "apikey")) ≡ text "abc"))
      × (sys_api_handler marshal [] answered gate (λ r. pos 200) plain ≡ pos 200))
    ⊎ ((skipped gate.skip_func plain ≡ false)
        × (to_lower (plain.header (text "apikey")) ≢ text "abc")
        × (e : Serr) × (sys_api_handler marshal [] answered gate (λ r. pos 200) plain
            ≡ answered (pos 400) e))
sys_api_handler_cases_example = sys_api_handler_cases marshal [] answered gate (λ r. pos 200) plain

abbrev turned : Page → Request → ℤ
turned page r = page.offset

paginate-print_int_example :
    paginate marshal [] answered (λ s. s) turned plain
    ≡ turned (record { offset = pos 12; limit = pos 12 }) plain
unfolding program
paginate-print_int_example =
    paginate-print_int marshal [] answered (λ s. s) turned plain
      (record { offset = pos 12; limit = pos 12 }) (omega arith) (omega arith) refl refl

paginate_cases_example :
    ((page : Page) × Stands (plain.query (text "offset")) page.offset
      × Stands (plain.query (text "limit")) page.limit
      × (paginate marshal [] answered (λ s. s) turned plain ≡ turned page plain))
    ⊎ ((StandsForNone (plain.query (text "offset")) ⊎ StandsForNone (plain.query (text "limit")))
        × (e : Serr) × (paginate marshal [] answered (λ s. s) turned plain ≡ answered (pos 400) e))
paginate_cases_example = paginate_cases marshal [] answered (λ s. s) turned plain

abbrev fresh : Service Str
fresh = record { post_evals = 0; post_eval_manys = 0; celproc = init }

-- The body is the expression.
abbrev read_model : Str → GoError ⊎ CelModel ℕ
read_model s = inr (request (text "1") s)

abbrev read_models : Str → GoError ⊎ List (CelModel ℕ)
read_models s = inr (request (text "1") s ∷ [])

post_eval-answer_of_example :
    (s' : Service Str) × (post_eval marshal [] [] toy toy_float read_model read_model
        (λ m. none)
        plain
        fresh
      ≡ returns (
        s',
        answer_of marshal [] [] toy toy_float
            (λ i e. both)
            (decode marshal [] [] read_model read_model (λ m. none) plain),
      ))
    × IsGood marshal [] [] toy toy_float (λ i e. both) s'
    × (s'.post_evals ≡ 0 + 1)
unfolding program
post_eval-answer_of_example =
    post_eval-answer_of marshal [] [] toy toy_float (λ i e. both) read_model read_model (λ m. none)
      plain fresh (init-IsReady, init-IsCoherent toy toy_float (λ i e. both)) refl

post_eval_many-answer_of_all_example :
    (s' : Service Str) × (post_eval_many marshal [] [] toy toy_float read_models read_models plain
        fresh
      ≡ returns (
        s',
        answer_of_all marshal [] [] toy toy_float
            (λ i e. both)
            (default_decoder read_models read_models plain),
      ))
    × IsGood marshal [] [] toy toy_float (λ i e. both) s'
unfolding program
post_eval_many-answer_of_all_example =
    post_eval_many-answer_of_all marshal [] [] toy toy_float (λ i e. both) read_models read_models
      plain fresh (init-IsReady, init-IsCoherent toy toy_float (λ i e. both)) (refl, tt)
