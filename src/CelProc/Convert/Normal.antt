-- ===== src/CelProc/Convert/Normal.antt =====
-- What `convertJson2Map` of internal/celproc/celproc.go leaves in a context.
use cel_service.Base.Strconv.{Parsed, parsed, syntax_error, range_error, parse_int}
use cel_service.Base.Int.{ℤ}
use cel_service.Base.Text.{Str, str_eq_iff, str_eq_cases}
use cel_service.Base.{Option, none, some, ◌≡◌, refl, sym, ap, ◌∙◌, arith, inl, inr}
use cel_service.CelProc.Convert.{
  number_value, convert_number, convert_value, convert_fields, convert_json2map,
}
use cel_service.Model.Value.{
  Value, number, object, Fields, end, field, GoMap, nil_map, made, lookup_field, insert_field,
  append_fields, lookup_field-insert_field, insert_field_absent, append_fields_assoc,
  lookup_field-append_fields,
}

-- No key stands twice in a map, at any depth, and no `json.Number` outside an array.
abbrev mutual
  IsNormal : {F : Type 0} → Value F → Type 0
  IsNormal (number s) = ⊥
  IsNormal (object m) = IsNormalMap m
  IsNormal _ = Unit

  pub IsNormalMap : {F : Type 0} → GoMap F → Type 0
  IsNormalMap nil_map = Unit
  IsNormalMap (made fs) = IsNormalFields fs

  IsNormalFields : {F : Type 0} → Fields F → Type 0
  IsNormalFields end = Unit
  IsNormalFields (field k v fs) = (lookup_field k fs ≡ none) × IsNormal v × IsNormalFields fs

-- No key of `fs` is in `dst`.
abbrev pub Apart : {F : Type 0} → Fields F → Fields F → Type 0
Apart end dst = Unit
Apart (field k v fs) dst = (lookup_field k dst ≡ none) × Apart fs dst

insert_field-IsNormal :
    {F : Type 0} (k : Str) (v : Value F) (fs : Fields F)
    → IsNormal v
    → IsNormalFields fs
    → IsNormalFields (insert_field k v fs)
unfolding lookup_field insert_field
insert_field-IsNormal k v end h d = (refl, h, tt)
insert_field-IsNormal k v (field j w fs) h (f, n, d) = elim (str_eq_cases j k) [
  | inl (same, test) ↦ rw (test, insert_field) (rw (← same) f, h, d)
  | inr (other, test) ↦
      rw (test, insert_field)
        (
          ground (arith, lookup_field-insert_field k j v fs, str_eq_iff k j),
          n,
          insert_field-IsNormal k v fs h d,
        )
]

pub Apart-append :
    {F : Type 0} (k : Str) (v : Value F) (fs dst : Fields F)
    → Apart fs dst
    → lookup_field k fs ≡ none
    → Apart fs (append_fields dst (field k v end))
unfolding lookup_field
Apart-append k v end dst a h = tt
Apart-append k v (field j w fs) dst (f, a) h = (
  lookup_field-append_fields j dst (field k v end) f
      (ground (arith, str_eq_iff j k, str_eq_iff k j)),
  Apart-append k v fs dst a (ground arith),
)

pub Apart-end : {F : Type 0} (fs : Fields F) → Apart fs end
unfolding lookup_field
Apart-end end = tt
Apart-end (field k v fs) = (refl, Apart-end fs)

pub append_fields_end : {F : Type 0} (fs : Fields F) → append_fields fs end ≡ fs
unfolding append_fields
append_fields_end end = refl
append_fields_end (field k v fs) = rw (append_fields_end fs)

pub appended :
    {F : Type 0} (k : Str) (v : Value F) (dst src : Fields F)
    → append_fields (append_fields dst (field k v end)) src ≡ append_fields dst (field k v src)
unfolding append_fields
appended k v dst src = append_fields_assoc dst (field k v end) src

number_value-IsNormal :
    {F : Type 0} (r : Parsed ℤ) (x : Option F) (s : Str) → IsNormal (number_value r x s)
unfolding number_value
number_value-IsNormal (parsed iv) x s = tt
number_value-IsNormal syntax_error (some x) s = tt
number_value-IsNormal syntax_error none s = tt
number_value-IsNormal range_error (some x) s = tt
number_value-IsNormal range_error none s = tt

module _ {F : Type 0} (parse_float : Str → Option F) where
  convert_number-IsNormal : (s : Str) → IsNormal (convert_number parse_float s)
  unfolding convert_number
  convert_number-IsNormal s = number_value-IsNormal (parse_int 64 s) (parse_float s) s

  mutual
    unfolding convert_value

    convert_value-IsNormal : (v : Value F) → IsNormal (convert_value parse_float v)
    convert_value-IsNormal (number s) = convert_number-IsNormal s
    convert_value-IsNormal (object m) = convert_IsNormal m
    convert_value-IsNormal _ = tt

    convert_fields-IsNormal :
        (src dst : Fields F)
        → IsNormalFields dst
        → IsNormalFields (convert_fields parse_float src dst)
    convert_fields-IsNormal end dst d = d
    convert_fields-IsNormal (field k v src) dst d =
        convert_fields-IsNormal src (insert_field k (convert_value parse_float v) dst)
          (insert_field-IsNormal k (convert_value parse_float v) dst (convert_value-IsNormal v) d)

    convert_IsNormal : (m : GoMap F) → IsNormalMap (convert_json2map parse_float m)
    convert_IsNormal nil_map = tt
    convert_IsNormal (made src) = convert_fields-IsNormal src end tt

  mutual
    unfolding convert_value append_fields

    convert_value_normal : (v : Value F) → IsNormal v → convert_value parse_float v ≡ v
    convert_value_normal (number s) h = absurd h
    convert_value_normal (object m) h = ap object (convert_normal m h)
    convert_value_normal _ h = refl

    convert_fields_normal :
        (src dst : Fields F)
        → IsNormalFields src
        → Apart src dst
        → convert_fields parse_float src dst ≡ append_fields dst src
    convert_fields_normal end dst h a = sym (append_fields_end dst)
    convert_fields_normal (field k v src) dst (f, n, h) (absent, a) =
        ap (λ d. convert_fields parse_float src d)
          (ap (λ w. insert_field k w dst) (convert_value_normal v n)
            ∙ insert_field_absent k v dst absent)
        ∙ convert_fields_normal src (append_fields dst (field k v end)) h
            (Apart-append k v src dst a f)
        ∙ appended k v dst src

    convert_normal : (m : GoMap F) → IsNormalMap m → convert_json2map parse_float m ≡ m
    convert_normal nil_map h = refl
    convert_normal (made src) h = ap made (convert_fields_normal src end h (Apart-end src))

module _ {F : Type 0} (parse_float : Str → Option F) where
  -- The converted context has no key twice and no `json.Number` outside arrays, and converting
  -- once more changes nothing.
  pub convert_json2map_idempotent :
      (m : GoMap F)
      → IsNormalMap (convert_json2map parse_float m)
        × (convert_json2map parse_float (convert_json2map parse_float m)
            ≡ convert_json2map parse_float m)
  convert_json2map_idempotent m =
      let h = convert_IsNormal parse_float m in (h, convert_normal parse_float _ h)
