-- ===== src/Cmd/Grpc.antt =====
-- cmd/grpc/main.go. `serve` of the gRPC package is left out: `main` ends with the port and the
-- credentials of the server, of which there are none.
use cel_service.Base.Int.{ℤ, pos}
use cel_service.Base.Text.{Str, text}
use cel_service.Base.{◌≡◌, refl, List, ◌++◌, Option, none, some, Call, returns, panics, ◌>>=◌}
use cel_service.CelProc.Engine.{CelEngine}
use cel_service.CelProc.Grpc.{CelRequest, CelResponse, grpc_proc_cel}
use cel_service.CelProc.Grpc
use cel_service.CelProc.{State}
use cel_service.Logging.{ServiceLogger, Written, info, infof, errorf, fatalf}

-- The default of the flag
abbrev grpcport : ℤ
grpcport = pos 50051

data Ended : Type 0 where
  serving : ℤ → List Written → Ended
  exited : List Written → Ended

-- `listen` is the error of `net.Listen` on a port of this machine.
unfoldable main : (Str → Str → Str) → (ℤ → Option Str) → ℤ → ServiceLogger → Ended
main format listen port s = elim (listen port) [
  | some err ↦
      exited (info (text "starting") s ++ fatalf format (text "failed to listen: %v") err s)
  | none ↦ serving port (info (text "starting") s)
]

module _ {F : Type 0} (engine : CelEngine F) (parse_float : Str → Option F)
    (format : Str → CelRequest F × CelResponse → Str) (format_error : Str → Str → Str) where
  open engine use {Program}

  abbrev answer :
      ServiceLogger
      → CelRequest F
      → State Program × CelResponse × Option Str
      → Call (State Program × Option CelResponse × Option Str × List Written)
  answer log q (s, res, none) =
      returns (s, some res, none, infof format (text "req: %v, res: %v") (q, res) log)
  answer log q (s, res, some err) = returns (
    s,
    none,
    some err,
    infof format (text "req: %v, res: %v") (q, res) log
        ++ errorf format_error (text "failed to listen: %v") err log,
  )

  -- `Evaluate`, with what it writes to the log
  unfoldable evaluate :
      ServiceLogger
      → CelRequest F
      → State Program
      → Call (State Program × Option CelResponse × Option Str × List Written)
  evaluate log q s = grpc_proc_cel engine parse_float q s >>= answer log q

  abbrev unlogged :
      State Program × Option CelResponse × Option Str × List Written
      → Call (State Program × Option CelResponse × Option Str)
  unlogged (s, res, err, written) = returns (s, res, err)

  answered_alike :
      (log : ServiceLogger) (q : CelRequest F) (x : Call (State Program × CelResponse × Option Str))
      → ((x >>= answer log q) >>= unlogged)
        ≡ (x >>= λ (s, res, err). returns (s, elim err [ some _ ↦ none | none ↦ some res ], err))
  answered_alike log q panics = refl
  answered_alike log q (returns (s, res, none)) = refl
  answered_alike log q (returns (s, res, some err)) = refl

  -- But for the log this handler is the one of internal/csrv.
  evaluate-evaluate :
      (log : ServiceLogger) (q : CelRequest F) (s : State Program)
      → (evaluate log q s >>= unlogged) ≡ Grpc.evaluate engine parse_float q s
  unfolding evaluate Grpc.evaluate
  evaluate-evaluate log q s = answered_alike log q (grpc_proc_cel engine parse_float q s)
