-- ===== src/Serror.antt =====
-- internal/serror/serror.go: the errors of the service.
pub mod Laws
use cel_service.Base.Int.{ℤ, pos, eqb_ℤ}
use cel_service.Base.Strconv.{print_int}
use cel_service.Base.Text.{Str, text, is_empty}
use cel_service.Base.{
  ℕ, Bool, true, false, not, Option, none, some, List, [], ◌∷◌, ◌++◌, if◌then◌else◌, map,
}

pub record Serr : Type 0 where
  pub code : ℤ
  pub key : Str
  pub srv : Str
  pub msg : Str
  pub origin : Str

-- An error is one of the service, or another one, of which only the text is seen.
pub data GoError : Type 0 where
  service_error : Serr → GoError
  other_error : Str → GoError

abbrev blank : Serr
blank = record { code = pos 0; key = []; srv = []; msg = []; origin = [] }

-- `(*Serr).str`
pub str : Serr → Str
str e =
    (if not (is_empty e.msg) then e.msg else [])
    ++ ((text ", code: " ++ print_int e.code)
        ++ ((text ", key: " ++ e.key)
            ++ ((if not (is_empty e.srv) then text ", service: " ++ e.srv else [])
                ++ (if not (is_empty e.origin) then text ", origin: " ++ e.origin else []))))

-- `(*Serr).Error`: the error with its key filled in, and the text. `marshal` is `json.Marshal`
-- of the struct, with a failure as `none`.
module _ (marshal : Serr → Option Str) where
  abbrev with_key : Serr → Serr
  with_key e = if is_empty e.key then record e { key = text "unexpected-error" } else e

  unfoldable pub error : Serr → Serr × Str
  error e = (with_key e, elim (marshal (with_key e)) [ some byt ↦ byt | none ↦ str (with_key e) ])

  -- `err.Error()` on any error
  pub error_text : GoError → Str
  error_text (service_error e) = (error e).1
  error_text (other_error s) = s

  -- `service` is the package variable `Service`.
  module _ (service : Str) where
    abbrev set_origin : Option GoError → Serr → Serr
    set_origin none e = e
    set_origin (some err) e = record e { origin = error_text err }

    abbrev set_key : List Str → Serr → Serr
    set_key [] e = e
    set_key (a ∷ args) e = record e { key = a }

    abbrev set_msg : List Str → Serr → Serr
    set_msg [] e = e
    set_msg (a ∷ []) e = e
    set_msg (a ∷ b ∷ args) e = record e { msg = b }

    abbrev set_service : Serr → Serr
    set_service e = if not (is_empty service) then record e { srv = service } else e

    unfoldable pub build : Serr → Option GoError → List Str → Serr
    build e err args = set_service (set_msg args (set_key args (set_origin err e)))

    unfoldable pub new : ℤ → List Str → Serr
    new code args = build (record blank { code = code }) none args

    -- The loop over the registered wrappers.
    unfoldable pub wrap_by : List (GoError → Option Serr) → GoError → ℤ → List Str → Serr
    wrap_by [] err code args = build (record blank { code = code }) (some err) args
    wrap_by (w ∷ wrappers) err code args = elim (w err) [
      | some e ↦ build e (some err) args
      | none ↦ wrap_by wrappers err code args
    ]

    -- `wrapper` is the package variable: the functions that `Wrapper` has registered.
    module _ (wrapper : List (GoError → Option Serr)) where
      unfoldable pub wrapc : Option GoError → ℤ → List Str → Option Serr
      wrapc none code args = none
      wrapc (some (service_error e)) code args = some e
      wrapc (some (other_error s)) code args = some (wrap_by wrapper (other_error s) code args)

      unfoldable pub wrap : Option GoError → List Str → Option Serr
      wrap err args = wrapc err (pos 500) args

    pub unauthorized : Option GoError → List Str → Serr
    unauthorized err args =
        build (record blank { key = text "unauthorized"; code = pos 401 }) err args

    pub forbidden : Option GoError → List Str → Serr
    forbidden err args = build (record blank { key = text "forbidden"; code = pos 403 }) err args

    pub bad_request : Option GoError → List Str → Serr
    bad_request err args = build (record blank { key = text "badrequest"; code = pos 400 }) err args

    abbrev first_of_errors : List GoError → Option GoError
    first_of_errors [] = none
    first_of_errors (e ∷ es) = some e

    pub not_found : Str → Str → List GoError → Serr
    not_found typ id err =
        build
          (record blank {
            msg = text "could not find " ++ (typ ++ (text " " ++ id));
            key = typ ++ text "-not-found";
            code = pos 404;
          })
          (first_of_errors err) []

    -- `fmt.Sprintf("%v", err)` of the slice of errors, after its opening bracket.
    unfoldable show_errors : List GoError → Str
    show_errors [] = text "]"
    show_errors (e ∷ []) = error_text e ++ text "]"
    show_errors (e ∷ f ∷ es) = error_text e ++ (text " " ++ show_errors (f ∷ es))

    pub internal_server_error : List GoError → Serr
    internal_server_error err =
        build
          (record blank {
            msg = text "internal server error: [" ++ show_errors err;
            key = text "internal";
            code = pos 500;
          })
          (first_of_errors err) []

-- `Wrapper` appends to the list of wrappers.
unfoldable pub register :
    List (GoError → Option Serr) → (GoError → Option Serr) → List (GoError → Option Serr)
register wrapper fn = wrapper ++ (fn ∷ [])

pub is : Option GoError → ℤ → Bool
is (some (service_error e)) code = eqb_ℤ e.code code
is (some (other_error s)) code = false
is none code = false
