-- ===== src/CelProc/Interleaved/Alone.antt =====
-- The turns of a request that runs alone, against `ProcCel` of internal/celproc/celproc.go.
use cel_service.Base.Text.{Str, is_empty}
use cel_service.Base.{
  ◌≡◌, ◌⊎◌, inl, inr, refl, Option, none, some, [], ◌∷◌, Call, returns, panics, ◌>>=◌, Bool-cases,
}
use cel_service.CelProc.Cached.{context_of}
use cel_service.CelProc.Engine.{CelEngine}
use cel_service.CelProc.Interleaved.{arrived, answered, advance, advance_at, run_schedule}
use cel_service.CelProc.{State, built, failed, cached_program, creat_eval_program, finish, proc_cel}
use cel_service.Model.{CelModel}

Call-cases : {A : Type 0} (x : Call A) → (x ≡ panics) ⊎ ((a : A) × (x ≡ returns a))
Call-cases panics = inl refl
Call-cases (returns a) = inr (a, refl)

module _ {F : Type 0} (engine : CelEngine F) (parse_float : Str → Option F) where
  open engine use {Program}

  -- Three turns of a request with no other in between are a call of `ProcCel`, panics included.
  pub run_schedule-alone :
      (m : CelModel F) (s : State Program)
      → run_schedule engine parse_float (0 ∷ 0 ∷ 0 ∷ []) ((m, arrived) ∷ []) s ≡ (
          proc_cel engine parse_float m s >>= λ (s', r, e). returns (s', (m, answered (r, e)) ∷ []))
  unfolding run_schedule advance_at advance proc_cel finish
  run_schedule-alone m s = elim (Bool-cases (is_empty m.expression)) [
    | inl e ↦ rw (e, advance, proc_cel) refl
    | inr e ↦ elim (Call-cases (cached_program engine m.identifier m.expression s)) [
      | inl stop ↦ rw (e, stop, advance, proc_cel) refl
      | inr ((s', some prg), hit) ↦ rw (e, hit, advance, proc_cel) refl
      | inr ((s', none), miss) ↦
          elim (Call-cases (
            creat_eval_program engine (context_of engine parse_float m) m.expression m.identifier
              s')) [
                | inl stop ↦ rw (e, miss, stop, advance, proc_cel) refl
                | inr ((s'', built prg), made) ↦ rw (e, miss, made, advance, proc_cel, finish) refl
                | inr ((s'', failed r x), made) ↦ rw (e, miss, made, advance, proc_cel, finish) refl
              ]
    ]
  ]
