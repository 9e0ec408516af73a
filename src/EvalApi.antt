-- ===== src/EvalApi.antt =====
-- internal/apiv1/evalapi.go: the REST handlers, with `Err` of internal/utils/httputils.
pub mod Answers
use cel_service.Base.Int.{ℤ, pos}
use cel_service.Base.Text.{Str, text, is_empty}
use cel_service.Base.{
  ℕ, ◌+◌, List, [], ◌∷◌, ◌++◌, Option, none, some, ◌⊎◌, inl, inr, Call, returns, panics, ◌>>=◌,
  if◌then◌else◌,
}
use cel_service.CelProc.Engine.{CelEngine}
use cel_service.CelProc.Many.{proc_cel_many}
use cel_service.CelProc.{State, proc_cel}
use cel_service.Http.{Request, json_type, xml_type, other_type}
use cel_service.Model.{CelModel, CelResult}
use cel_service.Serror.{Serr, GoError, service_error, other_error, error_text, bad_request, wrap}

-- What is rendered as JSON.
pub data Body : Type 0 where
  error_body : Serr → Body
  result_body : CelResult → Body
  results_body : List CelResult → Body

pub record Reply : Type 0 where
  pub code : ℤ
  pub body : Body

-- The counters of this file beside the state of the evaluation.
pub record Service (P : Type 0) : Type 0 where
  pub post_evals : ℕ
  pub post_eval_manys : ℕ
  pub celproc : State P

-- `decode_json` is a `json.Decoder` with `UseNumber`, and `decode_xml` is `render.DecodeXML`: each
-- gives an error or the value.
unfoldable pub default_decoder :
    {A : Type 0} → (Str → GoError ⊎ A) → (Str → GoError ⊎ A) → Request → GoError ⊎ A
default_decoder decode_json decode_xml r = elim r.content_type [
  | json_type ↦ decode_json r.content
  | xml_type ↦ decode_xml r.content
  | other_type ↦
      inl (other_error (text "render: unable to automatically decode the request content type"))
]

-- `marshal`, `service` and `wrapper` are those of internal/serror.
module _ (marshal : Serr → Option Str) (service : Str)
    (wrapper : List (GoError → Option Serr)) where
  abbrev render_error : Option Serr → Call Reply
  render_error none = panics
  render_error (some e) = returns (record { code = e.code; body = error_body e })

  -- `httputils.Err`
  pub err : GoError → Call Reply
  err e = render_error (wrap marshal service wrapper (some e) (text "unexpected-error" ∷ []))

  abbrev pub refuse : {P : Type 0} → Service P → Serr → Call (Service P × Reply)
  refuse s e = err (service_error e) >>= (λ answer. returns (s, answer))

  abbrev pub decoding_error : GoError → Serr
  decoding_error e =
      bad_request marshal service none
        (text "server-error" ∷ (text "error decoding context: " ++ error_text marshal e) ∷ [])

  abbrev pub empty_error : Serr
  empty_error = bad_request marshal service none (text "empty expression not allowed" ∷ [])

  module _ {F : Type 0} (decode_json decode_xml : Str → GoError ⊎ CelModel F)
      (validate_struct : CelModel F → Option GoError) where
    abbrev validated : GoError ⊎ CelModel F → GoError ⊎ CelModel F
    validated (inl e) = inl (
        service_error (
          bad_request marshal service (some e)
            (text "decode-body" ∷ text "could not decode body" ∷ [])))
    validated (inr m) = elim (validate_struct m) [
      | none ↦ inr m
      | some e ↦ inl (
          service_error (
            bad_request marshal service (some e) (text "validate-body" ∷ text "body invalid" ∷ [])))
    ]

    unfoldable pub decode : Request → GoError ⊎ CelModel F
    decode r = validated (default_decoder decode_json decode_xml r)

  module _ {F : Type 0} (engine : CelEngine F) (parse_float : Str → Option F) where
    open engine use {Program}

    abbrev pub reply : Option Str → Body → Reply
    reply none body = record { code = pos 201; body = body }
    reply (some e) body = record { code = pos 400; body = body }

    abbrev pub eval_decoded :
        GoError ⊎ CelModel F → Service Program → Call (Service Program × Reply)
    eval_decoded (inl e) s = refuse s (decoding_error e)
    eval_decoded (inr m) s =
        if is_empty m.expression
        then refuse s empty_error
        else (proc_cel engine parse_float m s.celproc
            >>= (λ (c, res, e). returns (record s { celproc = c }, reply e (result_body res))))

    pub post_eval :
        (Str → GoError ⊎ CelModel F)
        → (Str → GoError ⊎ CelModel F)
        → (CelModel F → Option GoError)
        → Request
        → Service Program
        → Call (Service Program × Reply)
    post_eval decode_json decode_xml validate_struct r s =
        eval_decoded (decode decode_json decode_xml validate_struct r)
          (record s { post_evals = s.post_evals + 1 })

    abbrev pub eval_all_decoded :
        GoError ⊎ List (CelModel F) → Service Program → Call (Service Program × Reply)
    eval_all_decoded (inl e) s = refuse s (decoding_error e)
    eval_all_decoded (inr ms) s =
        proc_cel_many engine parse_float ms s.celproc
        >>= (λ (c, res, e). returns (record s { celproc = c }, reply e (results_body res)))

    pub post_eval_many :
        (Str → GoError ⊎ List (CelModel F))
        → (Str → GoError ⊎ List (CelModel F))
        → Request
        → Service Program
        → Call (Service Program × Reply)
    post_eval_many decode_json decode_xml r s =
        eval_all_decoded (default_decoder decode_json decode_xml r)
          (record s { post_eval_manys = s.post_eval_manys + 1 })
