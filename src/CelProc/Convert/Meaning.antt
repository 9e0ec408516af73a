-- ===== src/CelProc/Convert/Meaning.antt =====
-- What `convertJson2Map` of internal/celproc/celproc.go makes of each value of a context.
use cel_service.Base.Int.{ℤ}
use cel_service.Base.Strconv.{
  Parsed, parsed, syntax_error, range_error, parse_int, InRange, parse_int_half-InRange,
}
use cel_service.Base.Text.{Str}
use cel_service.Base.{◌^◌, Option, none, some, ◌≡◌, ◌⊎◌, refl, sym, ap, ◌∙◌, arith, inl, inr}
use cel_service.CelProc.Convert.Normal.{Apart, Apart-append, Apart-end, append_fields_end, appended}
use cel_service.CelProc.Convert.{
  number_value, convert_number, convert_value, convert_fields, convert_json2map,
}
use cel_service.Model.Value.{
  Value, str, number, int64, float64, object, Fields, end, field, GoMap, nil_map, made,
  lookup_field, append_fields, insert_field_absent,
}

-- A map of Go: no key stands twice in it, at any depth.
abbrev mutual
  IsGoValue : {F : Type 0} → Value F → Type 0
  IsGoValue (object m) = IsGoMap m
  IsGoValue _ = Unit

  pub IsGoMap : {F : Type 0} → GoMap F → Type 0
  IsGoMap nil_map = Unit
  IsGoMap (made fs) = IsGoFields fs

  IsGoFields : {F : Type 0} → Fields F → Type 0
  IsGoFields end = Unit
  IsGoFields (field k v fs) = (lookup_field k fs ≡ none) × IsGoValue v × IsGoFields fs

module _ {F : Type 0} (parse_float : Str → Option F) where
  -- A text that is an integer of 64 bits stands for it, another one for its floating-point number,
  -- and one that is neither for itself.
  abbrev IsNumber : Str → Value F → Type 0
  IsNumber s w =
      ((z : ℤ) × InRange (2 ^ 63) z × (parse_int 64 s ≡ parsed z) × (w ≡ int64 z))
      ⊎ (((parse_int 64 s ≡ syntax_error) ⊎ (parse_int 64 s ≡ range_error))
          × (((x : F) × (parse_float s ≡ some x) × (w ≡ float64 x))
              ⊎ ((parse_float s ≡ none) × (w ≡ str s))))

  -- Numbers become what they stand for, also in the maps in it, and all else stays as it is, arrays
  -- included; a map keeps its keys.
  abbrev mutual
    Becomes : Value F → Value F → Type 0
    Becomes (number s) w = IsNumber s w
    Becomes (object m) w = (n : GoMap F) × (w ≡ object n) × BecomesMap m n
    Becomes v w = w ≡ v

    pub BecomesMap : GoMap F → GoMap F → Type 0
    BecomesMap nil_map n = n ≡ nil_map
    BecomesMap (made fs) n = (gs : Fields F) × (n ≡ made gs) × BecomesFields fs gs

    BecomesFields : Fields F → Fields F → Type 0
    BecomesFields end gs = gs ≡ end
    BecomesFields (field k v fs) gs =
        (w : Value F) × (rest : Fields F) × (gs ≡ field k w rest)
        × Becomes v w
        × BecomesFields fs rest

  no_int-IsNumber :
      (s : Str) (x : Option F)
      → (parse_int 64 s ≡ syntax_error) ⊎ (parse_int 64 s ≡ range_error)
      → parse_float s ≡ x
      → IsNumber s (number_value (parse_int 64 s) x s)
  unfolding number_value
  no_int-IsNumber s (some x) (inl e) f = inr (inl e, inl (x, f, rw (e) refl))
  no_int-IsNumber s (some x) (inr e) f = inr (inr e, inl (x, f, rw (e) refl))
  no_int-IsNumber s none (inl e) f = inr (inl e, inr (f, rw (e) refl))
  no_int-IsNumber s none (inr e) f = inr (inr e, inr (f, rw (e) refl))

  read-IsNumber :
      (s : Str) (r : Parsed ℤ) → parse_int 64 s ≡ r → IsNumber s (convert_number parse_float s)
  unfolding convert_number
  read-IsNumber s (parsed z) e =
      unfold number_value in
      inl
        (z, unfold parse_int in parse_int_half-InRange (2 ^ 63) s z (omega arith) e, e, rw (e) refl)
  read-IsNumber s syntax_error e = no_int-IsNumber s (parse_float s) (inl e) refl
  read-IsNumber s range_error e = no_int-IsNumber s (parse_float s) (inr e) refl

  mutual
    unfolding convert_value append_fields

    convert_value-Becomes : (v : Value F) → IsGoValue v → Becomes v (convert_value parse_float v)
    convert_value-Becomes (number s) h = read-IsNumber s (parse_int 64 s) refl
    convert_value-Becomes (object m) h =
        (convert_json2map parse_float m, refl, convert_map-Becomes m h)
    convert_value-Becomes _ h = refl

    convert_fields-Becomes :
        (src dst : Fields F)
        → IsGoFields src
        → Apart src dst
        → (gs : Fields F) × (convert_fields parse_float src dst ≡ append_fields dst gs)
          × BecomesFields src gs
    convert_fields-Becomes end dst h a = (end, sym (append_fields_end dst), refl)
    convert_fields-Becomes (field k v src) dst (f, n, h) (absent, a) =
        let w = convert_value parse_float v in
        let (gs, converted, become) =
          convert_fields-Becomes src (append_fields dst (field k w end)) h
            (Apart-append k w src dst a f) in
        (
          field k w gs,
          ap (λ d. convert_fields parse_float src d) (insert_field_absent k w dst absent)
              ∙ (converted ∙ appended k w dst gs),
          (w, gs, refl, convert_value-Becomes v n, become),
        )

    convert_map-Becomes : (m : GoMap F) → IsGoMap m → BecomesMap m (convert_json2map parse_float m)
    convert_map-Becomes nil_map h = refl
    convert_map-Becomes (made src) h =
        let (gs, converted, become) = convert_fields-Becomes src end h (Apart-end src) in
        (gs, ap made converted, become)

  -- For a context with no key twice, at any depth: the converted context has the same keys, and
  -- under each of them a number is the integer that it stands for, if it is one of 64 bits, else
  -- the floating-point number, else its text. That goes for the maps in it as well; all other
  -- values are as they were, and the numbers in arrays are, too.
  pub convert_json2map-Becomes :
      (m : GoMap F) → IsGoMap m → BecomesMap m (convert_json2map parse_float m)
  convert_json2map-Becomes m h = convert_map-Becomes m h
