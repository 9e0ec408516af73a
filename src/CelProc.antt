-- ===== src/CelProc.antt =====
-- internal/celproc/celproc.go: evaluating a request over the cache of compiled programs.
-- The package variables `lcache`, `CacheHitCounter` and `BuildEvalCounter` are the record `State`,
-- which every function takes and returns. The log is not modelled.
pub mod Convert
pub mod Engine
pub mod Uncached
pub mod Steps
pub mod Cached
pub mod Entries
pub mod Results
pub mod Many
pub mod Grpc
pub mod Interleaved
use cel_service.Base.Int.{pos}
use cel_service.Base.Text.{Str, text, str_eq, is_empty}
use cel_service.Base.{
  ℕ, ◌+◌, Bool, true, false, not, ◌&&◌, Option, none, some, List, [], ◌∷◌, ◌++◌, length, ltb,
  if◌then◌else◌, Call, returns, panics, ◌>>=◌,
}
use cel_service.CelProc.Convert.{convert_json2map}
use cel_service.CelProc.Engine.{CelEngine, Outcome, bool_value, error_value, other_value}
use cel_service.LruCache.{LruCache}
use cel_service.LruCache
use cel_service.Model.Value.{GoMap, names}
use cel_service.Model.{CelModel, CelResult}

pub record CacheEntry (P : Type 0) : Type 0 where
  pub id : Str
  pub expression : Str
  pub program : P

pub record State (P : Type 0) : Type 0 where
  pub lcache : LruCache (CacheEntry P)
  pub cache_hits : ℕ
  pub build_evals : ℕ

-- What `creatEvalProgram` returns: a program, or a result and an error.
pub data Built (P : Type 0) : Type 0 where
  built : P → Built P
  failed : CelResult → Str → Built P

-- The state before the first request: `init` makes a cache of 10000 entries.
unfoldable pub init : {P : Type 0} → State P
init = record { lcache = LruCache.new (pos 10000); cache_hits = 0; build_evals = 0 }

-- `fmt.Sprintf("%v", err)`
abbrev show_error : Option Str → Str
show_error none = text "<nil>"
show_error (some e) = e

-- `fmt.Sprintf("%v", b)`
abbrev show_bool : Bool → Str
show_bool true = text "true"
show_bool false = text "false"

-- A result is a `CelResult` beside the error that Go returns with it, none for nil.
unfoldable pub create_cel_result : Str → Outcome → Option Str → CelResult × Option Str
create_cel_result id (bool_value v) err =
    (record { id = id; error = []; message = text "result ok: " ++ show_bool v; result = v }, none)
create_cel_result id error_value err = (
  record {
    id = id;
    error = show_error err;
    message = text "unknown cel engine error: " ++ show_error err;
    result = false;
  },
  err,
)
create_cel_result id other_value err = (
  record { id = id; error = []; message = text "unknown result type"; result = false },
  some (text "unknown result type"),
)

unfoldable pub clear_cache : {P : Type 0} → State P → State P
clear_cache s = record s { lcache = LruCache.clear s.lcache }

module _ {F : Type 0} (engine : CelEngine F) where
  open engine use {Program, new_env, compile, construct, eval}

  unfoldable pub get_from_cache :
      Str → State Program → Call (State Program × Option (CacheEntry Program))
  get_from_cache id s = LruCache.get id s.lcache >>= λ (lcache, e). returns (elim e [
    | none ↦ (record s { lcache = lcache }, none)
    | some entry ↦ (record s { lcache = lcache; cache_hits = s.cache_hits + 1 }, some entry)
  ])

  -- `NewEnv`, `Compile` and `Program`; an error of `NewEnv` is only logged.
  unfoldable pub build_declared : List Str → Str → Built Program
  build_declared decl_list expression =
      let (env, _) = new_env decl_list in
      let (ast, issues) = compile env expression in
      let (prg, err) = construct env ast in
      elim issues [
        | some e ↦ failed (record { id = []; error = e; message = e; result = false }) e
        | none ↦ elim err [
          | some e ↦
              failed
                (record {
                  id = [];
                  error = e;
                  message = text "program construction error: " ++ e;
                  result = false;
                })
                e
          | none ↦ built prg
        ]
      ]

  -- Every name of the context is declared.
  unfoldable pub build_program : GoMap F → Str → Built Program
  build_program context expression = build_declared (names context) expression

  -- Storing the program under an identifier that is not empty.
  unfoldable pub store_program : Str → Str → Built Program → State Program → Call (State Program)
  store_program id expression (failed r e) s = returns s
  store_program id expression (built prg) s =
      if not (is_empty id)
      then (LruCache.put id (record { id = id; expression = expression; program = prg }) s.lcache
          >>= λ (lcache, _). returns (record s { lcache = lcache }))
      else returns s

  unfoldable pub creat_eval_program :
      GoMap F → Str → Str → State Program → Call (State Program × Built Program)
  creat_eval_program context expression id s =
      let b = build_program context expression in
      store_program id expression b (record s { build_evals = s.build_evals + 1 }) >>= λ s'.
      returns (s', b)

  -- The end of `ProcCel`: running the program.
  unfoldable pub eval_program : Str → Program → GoMap F → CelResult × Option Str
  eval_program id prg context =
      let (out, details, err) = eval prg context in
      elim err [
        | some e ↦ (
          record {
            id = [];
            error = e;
            message = text "program evaluation error: " ++ (e ++ (text "\r\ndetails: " ++ details));
            result = false;
          },
          some e,
        )
        | none ↦ create_cel_result id out none
      ]

  unfoldable pub finish : Str → GoMap F → Built Program → CelResult × Option Str
  finish id context (failed r e) = (r, some e)
  finish id context (built prg) = eval_program id prg context

  -- `expression != celModel.Expression` makes a hit a miss.
  abbrev same_expression : Str → Option (CacheEntry Program) → Option Program
  same_expression expression none = none
  same_expression expression (some entry) =
      if str_eq entry.expression expression then some entry.program else none

  -- The program of the cache, unless its expression is another one.
  unfoldable pub cached_program : Str → Str → State Program → Call (State Program × Option Program)
  cached_program id expression s =
      if not (is_empty id)
      then (get_from_cache id s >>= λ (s', e). returns (s', same_expression expression e))
      else returns (s, none)

module _ {F : Type 0} (engine : CelEngine F) (parse_float : Str → Option F) where
  open engine use {Program}

  unfoldable pub proc_cel :
      CelModel F → State Program → Call (State Program × CelResult × Option Str)
  proc_cel m s =
      if is_empty m.expression
      then returns (
        s,
        record {
          id = m.id;
          error = text "expression should not be empty.";
          message = text "expression should not be empty.";
          result = false;
        },
        some (text "expression should not be empty."),
      )
      else let context = convert_json2map parse_float m.context in
        cached_program engine m.identifier m.expression s >>= λ (s', p). elim p [
          | some prg ↦ let (r, e) = eval_program engine m.id prg context in returns (s', r, e)
          | none ↦ creat_eval_program engine context m.expression m.identifier s' >>= λ (s'', b).
              let (r, e) = finish engine m.id context b in returns (s'', r, e)
        ]
