-- ===== src/Examples/Evaluation.antt =====
-- Tests of internal/celproc/celproc.go over a small engine: a program is its expression, and its
-- value tells whether the expression is "true".
use cel_service.Base.Dict.{lookup, insert, delete}
use cel_service.Base.Int.{pos}
use cel_service.Base.Strconv.{parse_int, parse_int_half, parse_uint, parse_digits, signed}
use cel_service.Base.Text.{Str, text, str_eq, is_empty}
use cel_service.Base.{
  ℕ, ◌+◌, ◌≡◌, refl, true, false, Option, none, some, List, [], ◌∷◌, returns, map, length,
  if◌then◌else◌,
}
use cel_service.CelProc.Cached.{KeepsEntry}
use cel_service.CelProc.Convert.Meaning.{BecomesMap, convert_json2map-Becomes}
use cel_service.CelProc.Convert.Normal.{IsNormalMap, convert_json2map_idempotent}
use cel_service.CelProc.Convert.{convert_number, number_value, convert_value, convert_json2map}
use cel_service.CelProc.Engine.{CelEngine, bool_value}
use cel_service.CelProc.Entries.{
  init-IsReady, init-IsCoherent, IsCoherent, proc_cel_returns, proc_cel-uncached,
}
use cel_service.CelProc.Grpc.{
  CelRequest, grpc_model, grpc_proc_cel, evaluate, plain_response, evaluate_uncached,
}
use cel_service.CelProc.Many.{
  show_rest, list_error, proc_all, proc_cel_many, failing, proc_cel_many-uncached,
}
use cel_service.CelProc.Results.{IsAnswer, proc_cel-IsAnswer, proc_cel_stores}
use cel_service.CelProc.Steps.{IsReady}
use cel_service.CelProc.Uncached.{uncached}
use cel_service.CelProc.{
  State, init, create_cel_result, clear_cache, get_from_cache, build_declared, build_program,
  store_program, creat_eval_program, eval_program, finish, cached_program, proc_cel,
}
use cel_service.LruCache
use cel_service.Model.Value.{
  number, int64, float64, array, object, nil, cons, end, field, GoMap, made, lookup_field,
  insert_field, names, field_names,
}
use cel_service.Model.{CelModel, CelResult}

-- The number of a literal that is no integer is the length of its text.
abbrev pub toy_float : Str → Option ℕ
toy_float s = some (length s)

abbrev pub toy : CelEngine ℕ
toy = record {
  Env = List Str;
  Ast = Str;
  Program = Str;
  new_env = λ ns. (ns, none);
  compile = λ env e. (e, if str_eq e (text "?") then some (text "syntax") else none);
  construct = λ env a. (a, none);
  eval = λ p c. (bool_value (str_eq p (text "true")), text "", none);
}

program : Unit {0}
unfolding text str_eq lookup insert delete LruCache.new LruCache.put LruCache.get LruCache.has
    LruCache.make_room LruCache.push_front LruCache.find_node LruCache.remove_node
    LruCache.move_to_front LruCache.set_value LruCache.back init create_cel_result clear_cache
    get_from_cache build_declared build_program store_program creat_eval_program eval_program finish
    cached_program proc_cel convert_number number_value convert_value parse_int parse_int_half
    parse_uint parse_digits signed lookup_field insert_field names field_names show_rest list_error
    proc_all proc_cel_many failing grpc_model grpc_proc_cel evaluate plain_response uncached
program = tt

abbrev pub sample : GoMap ℕ
sample = made (
    field (text "x") (number (text "7"))
      (field (text "m") (object (made (field (text "y") (number (text "1.5")) end))) end))

converted :
    convert_json2map toy_float sample
    ≡ made (
        field
          (text "x")
          (int64 (pos 7))
          (field (text "m") (object (made (field (text "y") (float64 3) end))) end))
unfolding program
converted = refl

-- Numbers inside an array are left as they are.
array_kept :
    convert_value toy_float (array (cons (number (text "7")) nil))
    ≡ array (cons (number (text "7")) nil)
unfolding program
array_kept = refl

abbrev pub request : Str → Str → CelModel ℕ
request id e = record { id = id; context = sample; expression = e; identifier = text "k" }

abbrev pub both : List Str
both = text "x" ∷ text "m" ∷ []

-- The second request is a hit, the third one replaces the program.
many :
    (s : State Str) × (proc_cel_many toy toy_float
        (request (text "1") (text "true")
          ∷ request (text "2") (text "true")
          ∷ request (text "3") (text "?")
          ∷ request (text "4") (text "no")
          ∷ [])
        init
      ≡ returns (
        s,
        record { id = text "1"; error = []; message = text "result ok: true"; result = true }
            ∷ record { id = text "2"; error = []; message = text "result ok: true"; result = true }
            ∷ record { id = []; error = text "syntax"; message = text "syntax"; result = false }
            ∷ record {
              id = text "4";
              error = [];
              message = text "result ok: false";
              result = false;
            }
            ∷ [],
        some (text "error in one of the results. Please check: [3]"),
      ))
    × (s.cache_hits ≡ 3)
    × (s.build_evals ≡ 3)
unfolding program
many = (_, refl, refl, refl)

convert_json2map_idempotent_example :
    IsNormalMap (convert_json2map toy_float sample)
    × (convert_json2map toy_float (convert_json2map toy_float sample)
        ≡ convert_json2map toy_float sample)
convert_json2map_idempotent_example = convert_json2map_idempotent toy_float sample

convert_json2map-Becomes_example :
    BecomesMap toy_float
      (made (field (text "x") (object sample) end))
      (convert_json2map toy_float (made (field (text "x") (object sample) end)))
unfolding program
convert_json2map-Becomes_example =
    convert_json2map-Becomes toy_float (made (field (text "x") (object sample) end))
      (unfold lookup_field in (refl, (refl, tt, (refl, (refl, tt, tt), tt)), tt))

proc_cel_returns_example :
    (s' : State Str) × (r : CelResult) × (e : Option Str) × (proc_cel toy toy_float
        (request (text "1") (text "true"))
        init
      ≡ returns (s', r, e))
    × IsReady s'
proc_cel_returns_example =
    proc_cel_returns toy toy_float (request (text "1") (text "true")) init init-IsReady

proc_cel-uncached_example :
    (s' : State Str) × (proc_cel toy toy_float (request (text "1") (text "true")) init
      ≡ returns (
        s',
        (uncached toy toy_float (request (text "1") (text "true"))).0,
        (uncached toy toy_float (request (text "1") (text "true"))).1,
      ))
    × IsReady s'
    × IsCoherent toy toy_float (λ i e. both) s'
unfolding program
proc_cel-uncached_example =
    proc_cel-uncached toy toy_float (λ i e. both) (request (text "1") (text "true")) init
      init-IsReady (init-IsCoherent toy toy_float (λ i e. both)) refl

proc_cel_many-uncached_example :
    (s' : State Str) × (proc_cel_many toy toy_float (request (text "1") (text "?") ∷ []) init
      ≡ returns (
        s',
        map (λ m. (uncached toy toy_float m).0) (request (text "1") (text "?") ∷ []),
        list_error (failing toy toy_float (request (text "1") (text "?") ∷ [])),
      ))
    × IsReady s'
    × IsCoherent toy toy_float (λ i e. both) s'
unfolding program
proc_cel_many-uncached_example =
    proc_cel_many-uncached toy toy_float (λ i e. both) (request (text "1") (text "?") ∷ []) init
      init-IsReady (init-IsCoherent toy toy_float (λ i e. both)) (refl, tt)

proc_cel-IsAnswer_example :
    (s' : State Str) × (r : CelResult) × (e : Option Str) × (proc_cel toy toy_float
        (request (text "1") (text "?"))
        init
      ≡ returns (s', r, e))
    × IsAnswer (text "1") r e
unfolding program
proc_cel-IsAnswer_example =
    proc_cel-IsAnswer toy toy_float (request (text "1") (text "?")) init init-IsReady refl

proc_cel_stores_example :
    (s' : State Str) × (r : CelResult) × (e : Option Str) × (proc_cel toy toy_float
        (request (text "1") (text "true"))
        init
      ≡ returns (s', r, e))
    × (e ≡ none → KeepsEntry toy toy_float (text "k") (text "true") s')
unfolding program
proc_cel_stores_example =
    proc_cel_stores toy toy_float (request (text "1") (text "true")) init init-IsReady refl

abbrev grpc_request : CelRequest ℕ
grpc_request = record { context = sample; expression = text "true"; identifier = text "k" }

evaluate_uncached_example :
    evaluate toy toy_float grpc_request init
    ≡ returns (
      record (init {P = Str}) {
        build_evals =
            if is_empty (text "true")
            then (init {P = Str}).build_evals
            else (init {P = Str}).build_evals + 1;
      },
      (plain_response toy toy_float grpc_request).0,
      (plain_response toy toy_float grpc_request).1,
    )
evaluate_uncached_example = evaluate_uncached toy toy_float grpc_request init
