-- ===== src/CelProc/Uncached.antt =====
-- `ProcCel` of internal/celproc/celproc.go with no cache: the specification of the cached one.
use cel_service.Base.Text.{Str, text, is_empty}
use cel_service.Base.{Option, some, false, if◌then◌else◌}
use cel_service.CelProc.Convert.{convert_json2map}
use cel_service.CelProc.Engine.{CelEngine}
use cel_service.CelProc.{build_program, finish}
use cel_service.Model.{CelModel, CelResult}

module _ {F : Type 0} (engine : CelEngine F) (parse_float : Str → Option F) where
  -- Compiling the expression for this context, and running it.
  unfoldable pub uncached : CelModel F → CelResult × Option Str
  uncached m =
      if is_empty m.expression
      then (
        record {
          id = m.id;
          error = text "expression should not be empty.";
          message = text "expression should not be empty.";
          result = false;
        },
        some (text "expression should not be empty."),
      )
      else let context = convert_json2map parse_float m.context in
        finish engine m.id context (build_program engine context m.expression)
