-- ===== src/Model.antt =====
-- pkg/model/celmodel.go: the request and the result of an evaluation.
pub mod Value
use cel_service.Base.Text.{Str}
use cel_service.Base.{Bool}
use cel_service.Model.Value.{GoMap}

pub record CelModel (F : Type 0) : Type 0 where
  pub id : Str
  pub context : GoMap F
  pub expression : Str
  pub identifier : Str

pub record CelResult : Type 0 where
  pub id : Str
  pub error : Str
  pub message : Str
  pub result : Bool
