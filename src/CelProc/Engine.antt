-- ===== src/CelProc/Engine.antt =====
-- What internal/celproc/celproc.go uses of cel-go. An error is its text, and an environment is
-- whatever `NewEnv` returns, the nil pointer included.
use cel_service.Base.Text.{Str}
use cel_service.Base.{Bool, Option, List}
use cel_service.Model.Value.{GoMap}

-- The types of a value that `createCelResult` tells apart.
pub data Outcome : Type 0 where
  bool_value : Bool → Outcome
  error_value other_value : Outcome

pub record CelEngine (F : Type 0) : Type 1 where
  pub Env : Type 0
  pub Ast : Type 0
  pub Program : Type 0
  -- `cel.NewEnv` with a variable of type dyn for each name
  pub new_env : List Str → Env × Option Str
  -- `env.Compile`, and the error of the issues
  pub compile : Env → Str → Ast × Option Str
  -- `env.Program`
  pub construct : Env → Ast → Program × Option Str
  -- `prg.Eval`: the value, the text of the details, and the error
  pub eval : Program → GoMap F → Outcome × Str × Option Str
