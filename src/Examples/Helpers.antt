-- ===== src/Examples/Helpers.antt =====
-- Tests of the helper packages: slices, errors, property access and log levels.
use cel_service.Base.Int.{pos}
use cel_service.Base.Text.{Str, text, str_eq, to_upper}
use cel_service.Base.{
  ℕ, if◌then◌else◌, ◌≡◌, ◌≢◌, ◌⊎◌, ◌↔◌, refl, true, Option, none, some, List, [], ◌∷◌, returns,
  panics, All,
}
use cel_service.Config.Values.{
  property, get_config_value_as_string, get_config_value_as_bool, get_config_value_as_int,
  get_config_value_iff,
}
use cel_service.Logging.{set_level}
use cel_service.Model.Value.{bool, str, int, int64, end, field, GoMap, made, lookup_field}
use cel_service.Serror.Laws.{first_fit}
use cel_service.Serror.{Serr, GoError, service_error, other_error, build, wrap_by, wrapc, register}
use cel_service.SlicesUtils.Removal.{remove_string-Perm}
use cel_service.SlicesUtils.{
  contains, find, find_from, last, drop_end, remove, remove_found, remove_string,
}
use mathlib.Core.List.{Perm}

program : Unit {0}
unfolding text str_eq to_upper contains find find_from last drop_end remove remove_found
    remove_string property lookup_field build wrap_by wrapc first_fit register set_level
program = tt

abbrev words : List Str
words = text "a" ∷ text "b" ∷ text "c" ∷ []

-- The caller's slice is changed as well: it then holds the last element twice.
removed :
    remove_string words (text "a")
    ≡ returns (text "c" ∷ text "b" ∷ text "c" ∷ [], text "c" ∷ text "b" ∷ [])
unfolding program
removed = refl

out_of_range : remove words (pos 3) ≡ panics
unfolding program
out_of_range = refl

remove_string-Perm_example :
    (array : List Str) × (rest : List Str) × (remove_string words (text "b")
      ≡ returns (array, rest))
    × (((rest ≡ words) × (array ≡ words) × All (λ x. x ≢ text "b") words)
        ⊎ Perm (text "b" ∷ rest) words)
remove_string-Perm_example = remove_string-Perm words (text "b")

abbrev marshal : Serr → Option Str
marshal e = some e.key

abbrev wrapper : GoError → Option Serr
wrapper (service_error e) = none
wrapper (other_error s) =
    if str_eq s (text "gone")
    then some (record { code = pos 410; key = text "gone"; srv = []; msg = []; origin = [] })
    else none

abbrev properties : GoMap ℕ
properties = made (field (text "n") (int (pos 4)) (field (text "b") (bool true) end))

get_config_value_iff_example :
    ((get_config_value_as_string properties (text "n") ≡ (text "s", none))
      ↔ (property properties (text "n") ≡ some (str (text "s"))))
    × ((get_config_value_as_bool properties (text "n") ≡ (true, none))
        ↔ (property properties (text "n") ≡ some (bool true)))
    × ((get_config_value_as_int properties (text "n") ≡ (pos 4, none)) ↔ (
        (property properties (text "n") ≡ some (int (pos 4)))
        ⊎ (property properties (text "n") ≡ some (int64 (pos 4)))))
get_config_value_iff_example = get_config_value_iff properties (text "n") (text "s") true (pos 4)
