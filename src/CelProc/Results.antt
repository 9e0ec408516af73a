-- ===== src/CelProc/Results.antt =====
-- The results and errors of `ProcCel` of internal/celproc/celproc.go.
use cel_service.Base.Text.{Str, text, is_empty}
use cel_service.Base.{
  ◌≡◌, ◌⊎◌, inl, inr, refl, arith, true, false, Option, none, some, Option-cases, returns, List, [],
}
use cel_service.CelProc.Cached.{context_of, KeepsEntry, proc_cel-Answers}
use cel_service.CelProc.Engine.{CelEngine, Outcome, bool_value, error_value, other_value}
use cel_service.CelProc.Steps.{IsReady}
use cel_service.CelProc.Uncached.{uncached}
use cel_service.CelProc.{
  State, Built, built, failed, create_cel_result, build_declared, build_program, eval_program,
  finish, proc_cel,
}
use cel_service.Model.Value.{GoMap, names}
use cel_service.Model.{CelModel, CelResult}

-- What holds of a result `r` and an error `e` for a request with the id `id`.
pub record IsAnswer (id : Str) (r : CelResult) (e : Option Str) : Type 0 where
  pub true_is_fine : r.result ≡ true → e ≡ none
  pub fine_has_id : e ≡ none → r.id ≡ id
  pub error_loses_id : (x : Str) → e ≡ some x → (r.id ≡ []) ⊎ (x ≡ text "unknown result type")

module _ {F : Type 0} (engine : CelEngine F) where
  open engine use {Program, eval}

  create_cel_result-IsAnswer :
      (id : Str) (out : Outcome)
      → IsAnswer id (create_cel_result id out none).0 (create_cel_result id out none).1
  unfolding create_cel_result
  create_cel_result-IsAnswer id (bool_value b) = record {
    true_is_fine = λ h. refl;
    fine_has_id = λ h. refl;
    error_loses_id = λ x h. cc;
  }
  create_cel_result-IsAnswer id error_value = record {
    true_is_fine = λ h. refl;
    fine_has_id = λ h. refl;
    error_loses_id = λ x h. cc;
  }
  create_cel_result-IsAnswer id other_value = record {
    true_is_fine = λ h. cc;
    fine_has_id = λ h. cc;
    error_loses_id = λ x h. inr (ground arith);
  }

  eval_program-IsAnswer :
      (id : Str) (prg : Program) (context : GoMap F)
      → IsAnswer id (eval_program engine id prg context).0 (eval_program engine id prg context).1
  unfolding eval_program
  eval_program-IsAnswer id prg context = elim (Option-cases (eval prg context).2) [
    | inl fine ↦ rw (fine, eval_program) (create_cel_result-IsAnswer id (eval prg context).0)
    | inr (x, bad) ↦
        rw (bad, eval_program)
          (record {
            true_is_fine = λ h. cc;
            fine_has_id = λ h. cc;
            error_loses_id = λ y h. inl refl;
          })
  ]

  build_declared-failed :
      (ns : List Str) (expression : Str) (r : CelResult) (x : Str)
      → build_declared engine ns expression ≡ failed r x
      → (r.id ≡ []) × (r.result ≡ false)
  unfolding build_declared
  build_declared-failed ns expression r x e = ground arith

  finish-IsAnswer :
      (id : Str) (context : GoMap F) (ns : List Str) (expression : Str) (b : Built Program)
      → build_declared engine ns expression ≡ b
      → IsAnswer id (finish engine id context b).0 (finish engine id context b).1
  unfolding finish
  finish-IsAnswer id context ns expression (built prg) e = eval_program-IsAnswer id prg context
  finish-IsAnswer id context ns expression (failed r x) e =
      let (no_id, no_result) = build_declared-failed ns expression r x e in
      record { true_is_fine = λ h. cc; fine_has_id = λ h. cc; error_loses_id = λ y h. inl no_id }

module _ {F : Type 0} (engine : CelEngine F) (parse_float : Str → Option F) where
  open engine use {Program}

  uncached-IsAnswer :
      (m : CelModel F)
      → is_empty m.expression ≡ false
      → IsAnswer m.id (uncached engine parse_float m).0 (uncached engine parse_float m).1
  unfolding uncached build_program
  uncached-IsAnswer m e =
      rw (e, uncached)
        (finish-IsAnswer engine m.id (context_of engine parse_float m)
          (names (context_of engine parse_float m)) m.expression _ refl)

  -- From a state whose cache is valid and has room, on a request with an expression `ProcCel`
  -- returns; a true result comes with no error, a result
  -- with no error carries the request's id, and one with an error has lost it, unless the value
  -- was of an unknown type.
  pub proc_cel-IsAnswer :
      (m : CelModel F) (s : State Program)
      → IsReady s
      → is_empty m.expression ≡ false
      → (s' : State Program) × (r : CelResult) × (e : Option Str) × (proc_cel engine parse_float m s
          ≡ returns (s', r, e))
        × IsAnswer m.id r e
  proc_cel-IsAnswer m s ready full =
      let (s', out, a) = proc_cel-Answers engine parse_float m ready in
      (
        s',
        out.0,
        out.1,
        a.returned,
        elim a.source [
          | inl e ↦ rw e (uncached-IsAnswer m full)
          | inr (prg, hit, _, e) ↦
              rw e (eval_program-IsAnswer engine m.id prg (context_of engine parse_float m))
        ],
      )

  -- From a state whose cache is valid and has room, a request with an identifier that ends with no error leaves its expression in the cache under
  -- the identifier, also where another expression stood there before.
  pub proc_cel_stores :
      (m : CelModel F) (s : State Program)
      → IsReady s
      → is_empty m.identifier ≡ false
      → (s' : State Program) × (r : CelResult) × (e : Option Str) × (proc_cel engine parse_float m s
          ≡ returns (s', r, e))
        × (e ≡ none → KeepsEntry engine parse_float m.identifier m.expression s')
  proc_cel_stores m s ready kept =
      let (s', out, a) = proc_cel-Answers engine parse_float m ready in
      (s', out.0, out.1, a.returned, a.stored kept)
