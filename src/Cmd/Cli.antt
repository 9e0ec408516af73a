-- ===== src/Cmd/Cli.antt =====
-- cmd/cli/main.go: one request, sent with the generated client.
use cel_service.Base.Int.{pos}
use cel_service.Base.Text.{Str, text}
use cel_service.Base.{List, ◌++◌, Option, none, some, ◌⊎◌, inl, inr}
use cel_service.CelProc.Grpc.{CelRequest, CelResponse}
use cel_service.Logging.{ServiceLogger, Written, info, infof, fatalf}
use cel_service.Model.Value.{GoMap, made, field, end, int, object}

-- The program ends at `Fatalf`, or at the end of `main`.
data Ended : Type 0 where
  exited : List Written → Ended
  finished : List Written → Ended

abbrev json_context : {F : Type 0} → GoMap F
json_context =
    made (field (text "data") (object (made (field (text "value") (int (pos 1)) end))) end)

-- `new_struct` is `structpb.NewStruct`, `call` is `Evaluate` of the client, and `dial` is the error
-- of `grpc.Dial`; the formats are `fmt.Sprintf` on an error and on a response.
module _ {F : Type 0} (new_struct : GoMap F → Str ⊎ GoMap F)
    (call : CelRequest F → Str ⊎ CelResponse) (dial : Str → Option Str) (format : Str → Str → Str)
    (format_response : Str → CelResponse → Str) where
  abbrev answered : ServiceLogger → Str ⊎ CelResponse → Ended
  answered s (inl err) = exited (fatalf format (text "%v.Evaluate(_) = _, %v: ") err s)
  answered s (inr res) = finished (infof format_response (text "res: %v") res s)

  abbrev with_context : ServiceLogger → Str ⊎ GoMap F → Ended
  with_context s (inl err) = exited (fatalf format (text "structpb new: %v") err s)
  with_context s (inr context) = answered s (
      call (record {
        context = context;
        expression = text "int(data.value) == 1";
        identifier = text "";
      }))

  unfoldable run_evaluate : ServiceLogger → Ended
  run_evaluate s = with_context s (new_struct json_context)

  abbrev around : ServiceLogger → Ended → Ended
  around s (exited written) = exited (info (text "starting") s ++ written)
  around s (finished written) =
      finished (info (text "starting") s ++ (written ++ info (text "finished") s))

  unfoldable main : Str → ServiceLogger → Ended
  main server_addr s = elim (dial server_addr) [
    | some err ↦ exited (info (text "starting") s ++ fatalf format (text "fail to dial: %v") err s)
    | none ↦ around s (run_evaluate s)
  ]
