-- ===== src/CelProc/Convert.antt =====
-- `convertJson2Map` of internal/celproc/celproc.go.
pub mod Meaning
pub mod Normal
use cel_service.Base.Int.{ℤ}
use cel_service.Base.Strconv.{Parsed, parsed, syntax_error, range_error, parse_int}
use cel_service.Base.Text.{Str}
use cel_service.Base.{Option, none, some}
use cel_service.Model.Value.{
  Value, null, bool, str, number, int, int64, float64, array, object, Values, nil, cons, Fields,
  end, field, GoMap, nil_map, made, insert_field,
}

-- What `Int64`, `Float64` and `String` of a `json.Number` make of it.
unfoldable pub number_value : {F : Type 0} → Parsed ℤ → Option F → Str → Value F
number_value (parsed iv) fv s = int64 iv
number_value _ (some fv) s = float64 fv
number_value _ none s = str s

-- `parse_float` is `strconv.ParseFloat(s, 64)`, with its failure as `none`.
module _ {F : Type 0} (parse_float : Str → Option F) where
  -- The case of a `json.Number`.
  unfoldable pub convert_number : Str → Value F
  unfolding number_value
  convert_number s = number_value (parse_int 64 s) (parse_float s) s

  unfoldable mutual
    pub convert_value : Value F → Value F
    convert_value null = null
    convert_value (bool b) = bool b
    convert_value (str s) = str s
    convert_value (number s) = convert_number s
    convert_value (int z) = int z
    convert_value (int64 z) = int64 z
    convert_value (float64 x) = float64 x
    convert_value (array vs) = array vs
    convert_value (object m) = object (convert_json2map m)

    -- The loop over `src`, filling `dst`.
    pub convert_fields : Fields F → Fields F → Fields F
    convert_fields end dst = dst
    convert_fields (field key value src) dst =
        convert_fields src (insert_field key (convert_value value) dst)

    pub convert_json2map : GoMap F → GoMap F
    convert_json2map nil_map = nil_map
    convert_json2map (made src) = made (convert_fields src end)
