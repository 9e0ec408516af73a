-- ===== src/CelProc/Interleaved.antt =====
-- `ProcCel` of internal/celproc/celproc.go in requests that run side by side. A request works on the
-- shared cache in two calls, `getFromCache` and the `Put` of `creatEvalProgram`, each under the lock
-- of the cache; other requests may come in between. A schedule says whose turn it is.
pub mod Turns
pub mod Runs
pub mod Alone
use cel_service.Base.Text.{Str, text, is_empty}
use cel_service.Base.{
  ℕ, zero, suc, ◌+◌, ◌==◌, false, List, [], ◌∷◌, Option, none, some, Call, returns, ◌>>=◌,
  if◌then◌else◌,
}
use cel_service.CelProc.Convert.{convert_json2map}
use cel_service.CelProc.Engine.{CelEngine}
use cel_service.CelProc.{
  State, Built, built, failed, cached_program, creat_eval_program, eval_program,
}
use cel_service.Model.{CelModel, CelResult}

-- How far a request has come.
pub data Phase (P : Type 0) : Type 0 where
  arrived missed : Phase P
  has_program : P → Phase P
  answered : CelResult × Option Str → Phase P

-- The turns that are left.
abbrev pub turns_left : {P : Type 0} → Phase P → ℕ
turns_left arrived = 3
turns_left missed = 2
turns_left (has_program prg) = 1
turns_left (answered out) = 0

-- The turns that a schedule gives to the request at a place.
unfoldable pub turns : ℕ → List ℕ → ℕ
turns j [] = 0
turns j (i ∷ schedule) = (if i == j then 1 else 0) + turns j schedule

module _ {F : Type 0} (engine : CelEngine F) (parse_float : Str → Option F) where
  open engine use {Program}

  abbrev after_lookup : Option Program → Phase Program
  after_lookup (some prg) = has_program prg
  after_lookup none = missed

  abbrev after_build : Built Program → Phase Program
  after_build (built prg) = has_program prg
  after_build (failed r e) = answered (r, some e)

  -- One turn of a request: the checks and the lookup, the build and the `Put`, or the evaluation.
  unfoldable pub advance :
      CelModel F → Phase Program → State Program → Call (State Program × Phase Program)
  advance m arrived s =
      if is_empty m.expression
      then returns (
        s,
        answered (
          record {
            id = m.id;
            error = text "expression should not be empty.";
            message = text "expression should not be empty.";
            result = false;
          },
          some (text "expression should not be empty."),
        ),
      )
      else (cached_program engine m.identifier m.expression s >>= λ (s', p).
          returns (s', after_lookup p))
  advance m missed s =
      creat_eval_program engine (convert_json2map parse_float m.context) m.expression m.identifier s
      >>= λ (s', b). returns (s', after_build b)
  advance m (has_program prg) s =
      returns (s, answered (eval_program engine m.id prg (convert_json2map parse_float m.context)))
  advance m (answered out) s = returns (s, answered out)

  -- A turn of the request at a place; a place that is not there has none.
  unfoldable pub advance_at :
      ℕ
      → List (CelModel F × Phase Program)
      → State Program
      → Call (State Program × List (CelModel F × Phase Program))
  advance_at i [] s = returns (s, [])
  advance_at zero ((m, p) ∷ ts) s = advance m p s >>= λ (s', p'). returns (s', (m, p') ∷ ts)
  advance_at (suc i) (t ∷ ts) s = advance_at i ts s >>= λ (s', ts'). returns (s', t ∷ ts')

  unfoldable pub run_schedule :
      List ℕ
      → List (CelModel F × Phase Program)
      → State Program
      → Call (State Program × List (CelModel F × Phase Program))
  run_schedule [] ts s = returns (s, ts)
  run_schedule (i ∷ schedule) ts s = advance_at i ts s >>= λ (s', ts'). run_schedule schedule ts' s'

  -- The requests before their first turns.
  unfoldable pub all_arrived : List (CelModel F) → List (CelModel F × Phase Program)
  all_arrived [] = []
  all_arrived (m ∷ ms) = (m, arrived) ∷ all_arrived ms
