-- ===== src/Model/Value.antt =====
-- The dynamic values (`interface{}`) of a context: what `encoding/json` with `UseNumber`, YAML and
-- `structpb` give, and what `convertJson2Map` of internal/celproc/celproc.go makes of them.
-- Go's float64 is the parameter F. A map of type `map[string]interface{}` is nil or a list of its
-- fields, in an order in which `range` may visit them.
use cel_service.Base.Int.{ℤ}
use cel_service.Base.Text.{Str, str_eq, str_eq_iff}
use cel_service.Base.{Bool, Option, none, some, ◌≡◌, refl, arith, if◌then◌else◌, List, [], ◌∷◌}

mutual
  pub data Value (F : Type 0) : Type 0 where
    null : Value F
    bool : Bool → Value F
    str : Str → Value F
    number : Str → Value F
    int : ℤ → Value F
    int64 : ℤ → Value F
    float64 : F → Value F
    array : Values F → Value F
    object : GoMap F → Value F

  pub data Values (F : Type 0) : Type 0 where
    nil : Values F
    cons : Value F → Values F → Values F

  pub data Fields (F : Type 0) : Type 0 where
    end : Fields F
    field : Str → Value F → Fields F → Fields F

  pub data GoMap (F : Type 0) : Type 0 where
    nil_map : GoMap F
    made : Fields F → GoMap F

module _ {F : Type 0} where
  unfoldable pub lookup_field : Str → Fields F → Option (Value F)
  lookup_field k end = none
  lookup_field k (field j v fs) = if str_eq j k then some v else lookup_field k fs

  -- `dst[k] = v`
  unfoldable pub insert_field : Str → Value F → Fields F → Fields F
  insert_field k v end = field k v end
  insert_field k v (field j w fs) =
      if str_eq j k then field k v fs else field j w (insert_field k v fs)

  unfoldable pub append_fields : Fields F → Fields F → Fields F
  append_fields end gs = gs
  append_fields (field k v fs) gs = field k v (append_fields fs gs)

  -- The names in a map, in the order of `range`.
  unfoldable pub field_names : Fields F → List Str
  field_names end = []
  field_names (field k v fs) = k ∷ field_names fs

  unfoldable pub names : GoMap F → List Str
  unfolding field_names
  names nil_map = []
  names (made fs) = field_names fs

  pub lookup_field-insert_field :
      (k j : Str) (v : Value F) (fs : Fields F)
      → lookup_field j (insert_field k v fs) ≡ (if str_eq k j then some v else lookup_field j fs)
  unfolding lookup_field insert_field
  lookup_field-insert_field k j v end = refl
  lookup_field-insert_field k j v (field i w fs) =
      ground
        (arith, str_eq_iff k j, str_eq_iff i k, str_eq_iff i j, lookup_field-insert_field k j v fs)

  pub insert_field_absent :
      (k : Str) (v : Value F) (fs : Fields F)
      → lookup_field k fs ≡ none
      → insert_field k v fs ≡ append_fields fs (field k v end)
  unfolding lookup_field insert_field append_fields
  insert_field_absent k v end h = refl
  insert_field_absent k v (field i w fs) h = ground (arith, insert_field_absent k v fs)

  pub append_fields_assoc :
      (fs gs hs : Fields F)
      → append_fields (append_fields fs gs) hs ≡ append_fields fs (append_fields gs hs)
  unfolding append_fields
  append_fields_assoc end gs hs = refl
  append_fields_assoc (field k v fs) gs hs = rw (append_fields_assoc fs gs hs)

  pub lookup_field-append_fields :
      (k : Str) (fs gs : Fields F)
      → lookup_field k fs ≡ none
      → lookup_field k gs ≡ none
      → lookup_field k (append_fields fs gs) ≡ none
  unfolding lookup_field append_fields
  lookup_field-append_fields k end gs h g = g
  lookup_field-append_fields k (field j v fs) gs h g =
      ground (arith, lookup_field-append_fields k fs gs)
