-- ===== src/Serror/Laws.antt =====
-- Wrapping and building of internal/serror/serror.go.
use cel_service.Base.Int.{ℤ, pos, eqb_ℤ_iff}
use cel_service.Base.Text.{Str}
use cel_service.Base.{
  ◌≡◌, refl, arith, true, Option, none, some, List, [], ◌∷◌, Option-cases, inl, inr,
}
use cel_service.Serror.{
  Serr, GoError, service_error, other_error, build, new, wrap_by, wrapc, unauthorized, forbidden,
  bad_request, not_found, internal_server_error, register, is,
}

module _ (marshal : Serr → Option Str) (service : Str) where
  build-code :
      (e : Serr) (err : Option GoError) (args : List Str)
      → (build marshal service e err args).code ≡ e.code
  unfolding build
  build-code e none [] = ground arith
  build-code e none (a ∷ []) = ground arith
  build-code e none (a ∷ b ∷ args) = ground arith
  build-code e (some x) [] = ground arith
  build-code e (some x) (a ∷ []) = ground arith
  build-code e (some x) (a ∷ b ∷ args) = ground arith

  pub bad_request-code :
      (err : Option GoError) (args : List Str)
      → (bad_request marshal service err args).code ≡ pos 400
  unfolding bad_request
  bad_request-code err args = build-code _ err args

  is-build :
      (e : Serr) (err : Option GoError) (args : List Str)
      → is (some (service_error (build marshal service e err args))) e.code ≡ true
  unfolding is
  is-build e err args = (eqb_ℤ_iff _ _).1 (build-code e err args)

  -- Whatever the cause and the arguments, `Is` recognises each kind of error by its status code.
  is-codes :
      (err : Option GoError) (args : List Str) (typ id : Str) (errs : List GoError) (code : ℤ)
      → (is (some (service_error (unauthorized marshal service err args))) (pos 401) ≡ true)
        × (is (some (service_error (forbidden marshal service err args))) (pos 403) ≡ true)
        × (is (some (service_error (bad_request marshal service err args))) (pos 400) ≡ true)
        × (is (some (service_error (not_found marshal service typ id errs))) (pos 404) ≡ true)
        × (is (some (service_error (internal_server_error marshal service errs))) (pos 500) ≡ true)
        × (is (some (service_error (new marshal service code args))) code ≡ true)
  unfolding unauthorized forbidden bad_request not_found internal_server_error new
  is-codes err args typ id errs code = (
    is-build _ err args,
    is-build _ err args,
    is-build _ err args,
    is-build _ _ [],
    is-build _ _ [],
    is-build _ none args,
  )

  module _ (wrapper : List (GoError → Option Serr)) where
    abbrev as_error : Option Serr → Option GoError
    as_error none = none
    as_error (some e) = some (service_error e)

    -- An error that was wrapped once is not changed by wrapping it again, whatever the new code
    -- and arguments.
    wrapc_idempotent :
        (err : Option GoError) (code code' : ℤ) (args args' : List Str)
        → wrapc marshal service wrapper
            (as_error (wrapc marshal service wrapper err code args))
            code'
            args'
          ≡ wrapc marshal service wrapper err code args
    unfolding wrapc
    wrapc_idempotent none code code' args args' = refl
    wrapc_idempotent (some (service_error e)) code code' args args' = refl
    wrapc_idempotent (some (other_error s)) code code' args args' = refl

  -- The error that the first fitting wrapper makes, if any fits.
  unfoldable pub first_fit : List (GoError → Option Serr) → GoError → Option Serr
  first_fit [] err = none
  first_fit (w ∷ wrappers) err = elim (w err) [ some e ↦ some e | none ↦ first_fit wrappers err ]

  -- The status code of a wrapped foreign error is that of the first wrapper that fits, or the
  -- given one if none fits.
  wrap_by-code :
      (wrappers : List (GoError → Option Serr)) (err : GoError) (code : ℤ) (args : List Str)
      → (wrap_by marshal service wrappers err code args).code
        ≡ elim (first_fit wrappers err) [ some e ↦ e.code | none ↦ code ]
  unfolding wrap_by first_fit
  wrap_by-code [] err code args = build-code _ (some err) args
  wrap_by-code (w ∷ wrappers) err code args = elim (Option-cases (w err)) [
    | inl miss ↦ rw (miss, wrap_by, first_fit) (wrap_by-code wrappers err code args)
    | inr (e, fits) ↦ rw (fits, wrap_by, first_fit) (build-code e (some err) args)
  ]

  -- A wrapper that is registered later is asked only if none of the earlier ones fits.
  first_fit-register :
      (wrappers : List (GoError → Option Serr)) (w : GoError → Option Serr) (err : GoError)
      → first_fit (register wrappers w) err
        ≡ elim (first_fit wrappers err) [ some e ↦ some e | none ↦ w err ]
  unfolding first_fit register
  first_fit-register [] w err = ground arith
  first_fit-register (v ∷ wrappers) w err = elim (Option-cases (v err)) [
    | inl miss ↦ rw (miss, first_fit) (first_fit-register wrappers w err)
    | inr (e, fits) ↦ rw (fits, first_fit)
  ]
