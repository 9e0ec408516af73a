-- ===== src/EvalApi/Answers.antt =====
-- What the handlers of internal/apiv1/evalapi.go answer.
use cel_service.Base.Int.{pos}
use cel_service.Base.Text.{Str, is_empty}
use cel_service.Base.{
  ◌+◌, ◌≡◌, ◌⊎◌, refl, inl, inr, List, map, Option, none, All, returns, if◌then◌else◌, Bool-cases,
}
use cel_service.CelProc.Engine.{CelEngine}
use cel_service.CelProc.Entries.{Keeps, IsCoherent, proc_cel-uncached}
use cel_service.CelProc.Many.{list_error, failing, proc_cel_many-uncached}
use cel_service.CelProc.Steps.{IsReady}
use cel_service.CelProc.Uncached.{uncached}
use cel_service.EvalApi.{
  Service, Reply, reply, result_body, results_body, error_body, err, refuse, decoding_error,
  empty_error, decode, default_decoder, eval_decoded, eval_all_decoded, post_eval, post_eval_many,
}
use cel_service.Http.{Request}
use cel_service.Model.{CelModel}
use cel_service.Serror.Laws.{bad_request-code}
use cel_service.Serror.{Serr, GoError, service_error, bad_request, wrap, wrapc}

module _ (marshal : Serr → Option Str) (service : Str)
    (wrapper : List (GoError → Option Serr)) where
  err_of_service_error :
      (e : Serr)
      → err marshal service wrapper (service_error e)
        ≡ returns (record { code = e.code; body = error_body e })
  unfolding err wrap wrapc
  err_of_service_error e = refl

  refuse-bad_request :
      {P : Type 0} (s : Service P) (cause : Option GoError) (args : List Str)
      → let e = bad_request marshal service cause args in
        refuse marshal service wrapper s e
        ≡ returns (s, record { code = pos 400; body = error_body e })
  refuse-bad_request s cause args =
      let e = bad_request marshal service cause args in
      rw (err_of_service_error e, bad_request-code marshal service cause args) refl

  module _ {F : Type 0} (engine : CelEngine F) (parse_float : Str → Option F)
      (named : Str → Str → List Str) where
    open engine use {Program}

    abbrev pub IsGood : Service Program → Type 0
    IsGood s = IsReady s.celproc × IsCoherent engine parse_float named s.celproc

    -- The answer to a decoded request, with no cache.
    abbrev pub answer_of : GoError ⊎ CelModel F → Reply
    answer_of (inl e) = record {
      code = pos 400;
      body = error_body (decoding_error marshal service wrapper e);
    }
    answer_of (inr m) =
        if is_empty m.expression
        then record { code = pos 400; body = error_body (empty_error marshal service wrapper) }
        else reply marshal service wrapper engine parse_float (uncached engine parse_float m).1
            (result_body (uncached engine parse_float m).0)

    abbrev pub KeepsNames : GoError ⊎ CelModel F → Type 0
    KeepsNames (inl e) = Unit {0}
    KeepsNames (inr m) = Keeps engine parse_float named m

    by_model :
        (d : GoError ⊎ CelModel F) (s : Service Program)
        → IsGood s
        → KeepsNames d
        → (s' : Service Program) × (eval_decoded marshal service wrapper engine parse_float d s
            ≡ returns (s', answer_of d))
          × IsGood s'
          × (s'.post_evals ≡ s.post_evals)
    by_model (inl e) s good keeps = (s, refuse-bad_request s none _, good, refl)
    by_model (inr m) s (ready, coherent) keeps =
        let (c, returned, ready', coherent') =
          proc_cel-uncached engine parse_float named m s.celproc ready coherent keeps in
        elim (Bool-cases (is_empty m.expression)) [
          | inl empty ↦ (s, rw (empty) (refuse-bad_request s none _), (ready, coherent), refl)
          | inr full ↦
              (record s { celproc = c }, rw (full, returned) refl, (ready', coherent'), refl)
        ]

    -- From a state whose cache is valid, has room and is coherent, a POST of one request is
    -- answered as with no cache: with 201 and the result, or with 400 and
    -- the result of a failed evaluation, or with 400 and an error of the service for a body that
    -- is not decoded or an expression that is empty. The decoded request keeps to the names of its
    -- identifier and expression. The state stays so, and the counter of the requests grows by one.
    pub post_eval-answer_of :
        (decode_json decode_xml : Str → GoError ⊎ CelModel F)
        (validate_struct : CelModel F → Option GoError) (r : Request) (s : Service Program)
        → IsGood s
        → KeepsNames (decode marshal service wrapper decode_json decode_xml validate_struct r)
        → (s' : Service Program) × (post_eval marshal service wrapper engine parse_float decode_json
              decode_xml validate_struct r s
            ≡ returns (
              s',
              answer_of (decode marshal service wrapper decode_json decode_xml validate_struct r),
            ))
          × IsGood s'
          × (s'.post_evals ≡ s.post_evals + 1)
    unfolding post_eval
    post_eval-answer_of decode_json decode_xml validate_struct r s good keeps =
        by_model (decode marshal service wrapper decode_json decode_xml validate_struct r)
          (record s { post_evals = s.post_evals + 1 }) good keeps

    abbrev pub answer_of_all : GoError ⊎ List (CelModel F) → Reply
    answer_of_all (inl e) = record {
      code = pos 400;
      body = error_body (decoding_error marshal service wrapper e);
    }
    answer_of_all (inr ms) =
        reply marshal service wrapper engine parse_float
          (list_error (failing engine parse_float ms))
          (results_body (map (λ m. (uncached engine parse_float m).0) ms))

    by_models :
        (ms : List (CelModel F)) (s : Service Program)
        → IsGood s
        → All (Keeps engine parse_float named) ms
        → (s' : Service Program) × (eval_all_decoded marshal service wrapper engine parse_float
              (inr ms)
              s
            ≡ returns (s', answer_of_all (inr ms)))
          × IsGood s'
    by_models ms s (ready, coherent) keeps =
        let (c, returned, ready', coherent') =
          proc_cel_many-uncached engine parse_float named ms s.celproc ready coherent keeps in
        (record s { celproc = c }, rw (returned) refl, (ready', coherent'))

    abbrev pub KeepNames : GoError ⊎ List (CelModel F) → Type 0
    KeepNames (inl e) = Unit {0}
    KeepNames (inr ms) = All (Keeps engine parse_float named) ms

    all_by_models :
        (d : GoError ⊎ List (CelModel F)) (s : Service Program)
        → IsGood s
        → KeepNames d
        → (s' : Service Program) × (eval_all_decoded marshal service wrapper engine parse_float d s
            ≡ returns (s', answer_of_all d))
          × IsGood s'
    all_by_models (inl e) s good keeps = (s, refuse-bad_request s none _, good)
    all_by_models (inr ms) s good keeps = by_models ms s good keeps

    -- From a state whose cache is valid, has room and is coherent, a POST of a list of requests
    -- that keep to the names of their identifiers and expressions is answered as with no cache:
    -- with all the results, and 201 or, if one of them failed, 400; or with 400 and an error of
    -- the service for a body that is not decoded. The state stays so.
    pub post_eval_many-answer_of_all :
        (decode_json decode_xml : Str → GoError ⊎ List (CelModel F)) (r : Request)
        (s : Service Program)
        → IsGood s
        → KeepNames (default_decoder decode_json decode_xml r)
        → (s' : Service Program) × (post_eval_many marshal service wrapper engine parse_float
              decode_json decode_xml r s
            ≡ returns (s', answer_of_all (default_decoder decode_json decode_xml r)))
          × IsGood s'
    unfolding post_eval_many
    post_eval_many-answer_of_all decode_json decode_xml r s good keeps =
        all_by_models (default_decoder decode_json decode_xml r)
          (record s { post_eval_manys = s.post_eval_manys + 1 }) good keeps
