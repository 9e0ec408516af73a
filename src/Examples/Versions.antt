-- ===== src/Examples/Versions.antt =====
-- Tests of internal/config/version.go.
use cel_service.Base.Int.{pos}
use cel_service.Base.Strconv.{
  parse_int, parse_int_half, parse_uint, parse_digits, signed, print_int, print_nat, print_onto,
}
use cel_service.Base.Text.{text, str_eq, split, split_first, split_rest, contains, has_prefix}
use cel_service.Base.{◌≡◌, ◌↔◌, refl, arith, true, []}
use cel_service.Config.Version.{
  Version, string, patch_parts, read_patch, read_minor, read_major, parse_version, no_error, syntax,
  range, is_greater_than, is_smaller_than, is_equal,
}
use cel_service.Config.Version.Order.{Precedes, comparisons_iff}
use cel_service.Config.Version.RoundTrip.{IsPlain, parse_version-string}

program : Unit {0}
unfolding text str_eq split split_first split_rest contains has_prefix parse_int parse_int_half
    parse_uint parse_digits signed print_int print_nat print_onto string patch_parts read_patch
    read_minor read_major parse_version is_greater_than is_smaller_than is_equal
program = tt

abbrev v123 : Version
v123 = record { major = pos 1; minor = pos 2; patch = pos 3; special = text "special" }

abbrev v122 : Version
v122 = record { major = pos 1; minor = pos 2; patch = pos 2; special = [] }

abbrev v200 : Version
v200 = record { major = pos 2; minor = pos 0; patch = pos 0; special = [] }

parses :
    (parse_version (text "1.2.3-special") ≡ (v123, no_error))
    × (parse_version (text "2") ≡ (v200, no_error))
    × (parse_version (text "2.x.1") ≡ (v200, syntax))
    × (parse_version (text "2.0.2147483648") ≡ (v200, range))
unfolding program
parses = (refl, refl, refl, refl)

-- What follows a second dash is lost.
loses : parse_version (text "1.2.3-special-1") ≡ (v123, no_error)
unfolding program
loses = refl

comparisons_iff_example :
    ((is_smaller_than v122 v123 ≡ true) ↔ Precedes v122 v123)
    × ((is_greater_than v122 v123 ≡ true) ↔ Precedes v123 v122)
    × ((is_equal v122 v123 ≡ true) ↔ (v122 ≡ v123))
comparisons_iff_example = comparisons_iff v122 v123

v123-IsPlain : IsPlain v123
unfolding text
v123-IsPlain = record {
  major_range = omega arith;
  minor_range = omega arith;
  patch_number = 3;
  patch_is = refl;
  patch_range = omega arith;
  no_dot = ground arith;
  no_dash = ground arith;
}

parse_version-string_example : parse_version (string v123) ≡ (v123, no_error)
parse_version-string_example = parse_version-string v123 v123-IsPlain
