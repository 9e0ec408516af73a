-- ===== src/Config/Values.antt =====
-- internal/config/utils.go: typed access to the properties of the configuration.
use cel_service.Base.Int.{ℤ, pos}
use cel_service.Base.Text.{Str, text}
use cel_service.Base.{Bool, false, Option, none, some, ◌++◌, ◌≡◌, ◌⊎◌, ◌↔◌, arith, []}
use cel_service.Model.Value.{Value, bool, str, int, int64, GoMap, nil_map, made, lookup_field}

-- A key of a map; the nil map has none.
unfoldable pub property : {F : Type 0} → GoMap F → Str → Option (Value F)
property nil_map key = none
property (made fs) key = lookup_field key fs

abbrev missing : Str → Option Str
missing key = some (text "missing config value for " ++ key)

abbrev not_a : Str → Str → Option Str
not_a key what = some (text "config value for " ++ (key ++ (text " is not a " ++ what)))

-- Each function returns a value and an error.
module _ {F : Type 0} where
  abbrev string_of : Str → Option (Value F) → Str × Option Str
  string_of key none = ([], missing key)
  string_of key (some (str s)) = (s, none)
  string_of key (some _) = ([], not_a key (text "string"))

  abbrev bool_of : Str → Option (Value F) → Bool × Option Str
  bool_of key none = (false, missing key)
  bool_of key (some (bool b)) = (b, none)
  bool_of key (some _) = (false, not_a key (text "string"))

  abbrev int_of : Str → Option (Value F) → ℤ × Option Str
  int_of key none = (pos 0, missing key)
  int_of key (some (int v)) = (v, none)
  int_of key (some (int64 v)) = (v, none)
  int_of key (some _) = (pos 0, not_a key (text "integer"))

  pub get_config_value_as_string : GoMap F → Str → Str × Option Str
  get_config_value_as_string properties key = string_of key (property properties key)

  unfoldable pub get_config_value_as_bool : GoMap F → Str → Bool × Option Str
  get_config_value_as_bool properties key = bool_of key (property properties key)

  pub get_config_value_as_int : GoMap F → Str → ℤ × Option Str
  get_config_value_as_int properties key = int_of key (property properties key)

  string_of-eq-none :
      (key : Str) (o : Option (Value F)) (s : Str)
      → (string_of key o ≡ (s, none)) ↔ (o ≡ some (str s))
  string_of-eq-none key none s = ground arith
  string_of-eq-none key (some (str t)) s = ground arith
  string_of-eq-none key (some _) s = ground arith

  bool_of-eq-none :
      (key : Str) (o : Option (Value F)) (b : Bool)
      → (bool_of key o ≡ (b, none)) ↔ (o ≡ some (bool b))
  bool_of-eq-none key none b = ground arith
  bool_of-eq-none key (some (bool t)) b = ground arith
  bool_of-eq-none key (some _) b = ground arith

  int_of-eq-none :
      (key : Str) (o : Option (Value F)) (z : ℤ)
      → (int_of key o ≡ (z, none)) ↔ ((o ≡ some (int z)) ⊎ (o ≡ some (int64 z)))
  int_of-eq-none key none z = ground arith
  int_of-eq-none key (some (int t)) z = ground arith
  int_of-eq-none key (some (int64 t)) z = ground arith
  int_of-eq-none key (some _) z = ground arith

  -- A typed access succeeds with a value exactly if the property is there, of a type that is
  -- accepted, and has this value.
  pub get_config_value_iff :
      (properties : GoMap F) (key : Str) (s : Str) (b : Bool) (z : ℤ)
      → ((get_config_value_as_string properties key ≡ (s, none))
          ↔ (property properties key ≡ some (str s)))
        × ((get_config_value_as_bool properties key ≡ (b, none))
            ↔ (property properties key ≡ some (bool b)))
        × ((get_config_value_as_int properties key ≡ (z, none)) ↔ (
            (property properties key ≡ some (int z)) ⊎ (property properties key ≡ some (int64 z))))
  unfolding get_config_value_as_string get_config_value_as_bool get_config_value_as_int
  get_config_value_iff properties key s b z =
      (string_of-eq-none key _ s, bool_of-eq-none key _ b, int_of-eq-none key _ z)
