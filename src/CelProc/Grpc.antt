-- ===== src/CelProc/Grpc.antt =====
-- `GRPCProcCel` of internal/celproc/celproc.go, and `Evaluate` of internal/csrv/celserver.go and
-- of cmd/grpc/main.go.
use cel_service.Base.Text.{Str, is_empty}
use cel_service.Base.{
  ◌+◌, ◌≡◌, refl, arith, Bool, Option, none, some, [], inl, inr, Bool-cases, if◌then◌else◌, Call,
  returns, ◌>>=◌,
}
use cel_service.CelProc.Convert.Normal.{convert_json2map_idempotent}
use cel_service.CelProc.Convert.{convert_json2map}
use cel_service.CelProc.Engine.{CelEngine}
use cel_service.CelProc.Uncached.{uncached}
use cel_service.CelProc.{
  State, Built, built, failed, build_program, cached_program, creat_eval_program, store_program,
  proc_cel,
}
use cel_service.Model.Value.{GoMap}
use cel_service.Model.{CelModel}

-- The fields of the message; the context is what `Context.AsMap()` returns.
pub record CelRequest (F : Type 0) : Type 0 where
  pub context : GoMap F
  pub expression : Str
  pub identifier : Str

pub record CelResponse : Type 0 where
  pub error : Str
  pub message : Str
  pub result : Bool

module _ {F : Type 0} (engine : CelEngine F) (parse_float : Str → Option F) where
  open engine use {Program}

  -- The model that the request becomes: only the context and the expression are handed on.
  unfoldable pub grpc_model : CelRequest F → CelModel F
  grpc_model q = record {
    id = [];
    context = convert_json2map parse_float q.context;
    expression = q.expression;
    identifier = [];
  }

  unfoldable pub grpc_proc_cel :
      CelRequest F → State Program → Call (State Program × CelResponse × Option Str)
  grpc_proc_cel q s = proc_cel engine parse_float (grpc_model q) s >>= λ (s', rep, err).
      returns (s', record { error = rep.error; message = rep.message; result = rep.result }, err)

  -- `Evaluate`: the response is nil if there is an error.
  unfoldable pub evaluate :
      CelRequest F → State Program → Call (State Program × Option CelResponse × Option Str)
  evaluate q s = grpc_proc_cel q s >>= λ (s', res, err).
      returns (s', elim err [ some _ ↦ none | none ↦ some res ], err)

  -- The response of the evaluation with no cache of the request's context and expression.
  unfoldable pub plain_response : CelRequest F → Option CelResponse × Option Str
  plain_response q =
      let (r, err) =
        uncached engine parse_float
          (record { id = []; context = q.context; expression = q.expression; identifier = [] }) in
      (
        elim err [
          | some _ ↦ none
          | none ↦ some (record { error = r.error; message = r.message; result = r.result })
        ],
        err,
      )

  -- The context is converted twice, with the outcome of converting it once.
  uncached-grpc_model :
      (q : CelRequest F)
      → uncached engine parse_float (grpc_model q)
        ≡ uncached engine parse_float
            (record { id = []; context = q.context; expression = q.expression; identifier = [] })
  unfolding uncached grpc_model
  uncached-grpc_model q = rw ((convert_json2map_idempotent parse_float q.context).1, uncached)

  -- With no identifier the cache is neither read nor written.
  proc_cel_anonymous :
      (m : CelModel F) (s : State Program)
      → m.identifier ≡ []
      → proc_cel engine parse_float m s
        ≡ returns (
          record s {
            build_evals = if is_empty m.expression then s.build_evals else s.build_evals + 1;
          },
          (uncached engine parse_float m).0,
          (uncached engine parse_float m).1,
        )
  unfolding proc_cel uncached cached_program creat_eval_program
  proc_cel_anonymous m s e = elim (Bool-cases (is_empty m.expression)) [
    | inl empty ↦ ground arith
    | inr full ↦ ground (
      arith,
      store_nothing m.expression
          (build_program engine (convert_json2map parse_float m.context) m.expression),
    )
  ]
    where
      store_nothing :
          (expression : Str) (b : Built Program)
          → store_program engine [] expression b (record s { build_evals = s.build_evals + 1 })
            ≡ returns (record s { build_evals = s.build_evals + 1 })
      store_nothing expression (failed r x) = unfold store_program in refl
      store_nothing expression (built prg) = unfold store_program in refl

  -- A request over gRPC is answered as with no cache, whatever identifier it carries, and leaves
  -- the cache and the count of its hits as they are.
  pub evaluate_uncached :
      (q : CelRequest F) (s : State Program)
      → evaluate q s
        ≡ returns (
          record s {
            build_evals = if is_empty q.expression then s.build_evals else s.build_evals + 1;
          },
          (plain_response q).0,
          (plain_response q).1,
        )
  unfolding evaluate grpc_proc_cel plain_response grpc_model
  evaluate_uncached q s =
      ground (arith, proc_cel_anonymous (grpc_model q) s refl, uncached-grpc_model q)
