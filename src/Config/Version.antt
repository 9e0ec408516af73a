-- ===== src/Config/Version.antt =====
-- internal/config/version.go: printing, parsing and comparing versions.
pub mod Order
pub mod RoundTrip
use cel_service.Base.Int.{ℤ, pos, ltb_ℤ, eqb_ℤ}
use cel_service.Base.Strconv.{Parsed, parsed, syntax_error, range_error, parse_int, print_int}
use cel_service.Base.Text.{Str, text, str_eq, is_empty, split, contains}
use cel_service.Base.{
  Bool, true, false, not, List, [], ◌∷◌, ◌++◌, Option, none, some, if◌then◌else◌,
}

pub record Version : Type 0 where
  pub major : ℤ
  pub minor : ℤ
  pub patch : ℤ
  pub special : Str

-- `(*Version).String`
unfoldable pub string : Version → Str
string v =
    let version_str =
      print_int v.major ++ (b'.' ∷ (print_int v.minor ++ (b'.' ∷ print_int v.patch))) in
    if not (is_empty v.special) then version_str ++ (b'-' ∷ v.special) else version_str

-- The error of `ParseInt`, beside the version as far as it was read.
pub data VersionError : Type 0 where
  no_error syntax range : VersionError

abbrev start : Version
start = record { major = pos 0; minor = pos 0; patch = pos 0; special = [] }

-- The two sides of the first dash, or the whole text.
unfoldable pub patch_parts : Str → Str × Option Str
patch_parts number_str =
    if contains number_str (text "-")
    then elim (split b'-' number_str) [
      | [] ↦ (number_str, none)
      | p ∷ rest ↦ elim rest [ [] ↦ (number_str, none) | q ∷ _ ↦ (p, some q) ]
    ]
    else (number_str, none)

abbrev set_special : Option Str → Version → Version
set_special none v = v
set_special (some s) v = record v { special = s }

-- The three blocks of `ParseVersion`, each on the numbers that are left.
unfoldable pub read_patch : List Str → Version → Version × VersionError
read_patch [] v = (v, no_error)
read_patch (s ∷ _) v =
    let (number_str, special) = patch_parts s in
    let w = set_special special v in
    elim (parse_int 32 number_str) [
      | parsed z ↦ (record w { patch = z }, no_error)
      | syntax_error ↦ (w, syntax)
      | range_error ↦ (w, range)
    ]

unfoldable pub read_minor : List Str → Version → Version × VersionError
read_minor [] v = (v, no_error)
read_minor (s ∷ numbers) v = elim (parse_int 32 s) [
  | parsed z ↦ read_patch numbers (record v { minor = z })
  | syntax_error ↦ (v, syntax)
  | range_error ↦ (v, range)
]

unfoldable pub read_major : List Str → Version → Version × VersionError
read_major [] v = (v, no_error)
read_major (s ∷ numbers) v = elim (parse_int 32 s) [
  | parsed z ↦ read_minor numbers (record v { major = z })
  | syntax_error ↦ (v, syntax)
  | range_error ↦ (v, range)
]

unfoldable pub parse_version : Str → Version × VersionError
parse_version version_str = read_major (split b'.' version_str) start

unfoldable pub is_greater_than : Version → Version → Bool
is_greater_than v o =
    if ltb_ℤ o.major v.major
    then true
    else if ltb_ℤ v.major o.major
    then false
    else if ltb_ℤ o.minor v.minor
    then true
    else if ltb_ℤ v.minor o.minor
    then false
    else if ltb_ℤ o.patch v.patch
    then true
    else if ltb_ℤ v.patch o.patch
    then false
    else false

unfoldable pub is_smaller_than : Version → Version → Bool
is_smaller_than v o =
    if ltb_ℤ v.major o.major
    then true
    else if ltb_ℤ o.major v.major
    then false
    else if ltb_ℤ v.minor o.minor
    then true
    else if ltb_ℤ o.minor v.minor
    then false
    else if ltb_ℤ v.patch o.patch
    then true
    else if ltb_ℤ o.patch v.patch
    then false
    else false

unfoldable pub is_equal : Version → Version → Bool
is_equal v o =
    if not (eqb_ℤ v.major o.major)
    then false
    else if not (eqb_ℤ v.minor o.minor)
    then false
    else if not (eqb_ℤ v.patch o.patch)
    then false
    else if not (str_eq v.special o.special)
    then false
    else true
