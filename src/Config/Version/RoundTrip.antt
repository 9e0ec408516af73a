-- ===== src/Config/Version/RoundTrip.antt =====
-- Printing and parsing of internal/config/version.go.
use cel_service.Base.Int.{ℤ, pos, negsuc}
use cel_service.Base.Lists.{All, All-append}
use mathlib.Core.List.{append-nil, append_assoc}
use cel_service.Base.Split.{Lacks, split_found, split_absent, contains_found, contains_absent}
use cel_service.Base.Strconv.{
  parsed, is_digit, parse_int, parse_int_half-print_int, print_int, print_nat, print_nat-All,
  InRange,
}
use cel_service.Base.Text.{Str, text, split}
use cel_service.Base.{
  ℕ, ◌<◌, ◌+◌, ◌≡◌, refl, ap, ◌∙◌, arith, true, false, [], ◌∷◌, ◌++◌, ◌==◌, none, some, Option,
}
use cel_service.Config.Version.{
  Version, string, patch_parts, read_patch, read_minor, read_major, parse_version, no_error, start,
}

-- The versions that print unambiguously: 32 bit numbers, a patch that is not negative, and a
-- special part with no dot and no dash.
pub record IsPlain (v : Version) : Type 0 where
  pub major_range : InRange 0x8000_0000 v.major
  pub minor_range : InRange 0x8000_0000 v.minor
  pub patch_number : ℕ
  pub patch_is : v.patch ≡ pos patch_number
  pub patch_range : patch_number < 0x8000_0000
  pub no_dot : Lacks b'.' v.special
  pub no_dash : Lacks b'-' v.special

parse_int-print_int : (z : ℤ) → InRange 0x8000_0000 z → parse_int 32 (print_int z) ≡ parsed z
unfolding parse_int
parse_int-print_int z h = parse_int_half-print_int 0x8000_0000 z h

parse_int-print_nat : (n : ℕ) → n < 0x8000_0000 → parse_int 32 (print_nat n) ≡ parsed (pos n)
unfolding print_int
parse_int-print_nat n h = parse_int-print_int (pos n) h

digits-Lacks : (b : ℕ) (s : Str) → is_digit b ≡ false → All (λ c. is_digit c ≡ true) s → Lacks b s
digits-Lacks b [] nd h = tt
digits-Lacks b (c ∷ s) nd (d, h) = (ground arith, digits-Lacks b s nd h)

print_int-Lacks_dot : (z : ℤ) → Lacks b'.' (print_int z)
unfolding print_int
print_int-Lacks_dot (pos n) = digits-Lacks b'.' _ refl (print_nat-All n)
print_int-Lacks_dot (negsuc n) = (refl, digits-Lacks b'.' _ refl (print_nat-All (n + 1)))

print_int-pos : (n : ℕ) → print_int (pos n) ≡ print_nat n
unfolding print_int
print_int-pos n = refl

-- What follows the patch number.
abbrev suffix : Str → Str
suffix [] = []
suffix (c ∷ s) = b'-' ∷ c ∷ s

abbrev special_part : Str → Option Str
special_part [] = none
special_part (c ∷ s) = some (c ∷ s)

string_at : Str → Str → Str → Str → Str
string_at a b c special = a ++ (b'.' ∷ (b ++ (b'.' ∷ (c ++ suffix special))))

string-suffix :
    (v : Version) (special : Str)
    → v.special ≡ special
    → string v ≡ string_at (print_int v.major) (print_int v.minor) (print_int v.patch) special
unfolding string string_at
string-suffix v [] e = rw (e, append-nil)
string-suffix v (c ∷ s) e = rw e (simp append_assoc)

patch_parts-suffix :
    (n : ℕ) (special : Str)
    → Lacks b'-' special
    → patch_parts (print_nat n ++ suffix special) ≡ (print_nat n, special_part special)
unfolding patch_parts text
patch_parts-suffix n [] h =
    let digits = digits-Lacks b'-' (print_nat n) refl (print_nat-All n) in
    rw append-nil (rw (contains_absent b'-' (print_nat n) digits))
patch_parts-suffix n (c ∷ s) h =
    let digits = digits-Lacks b'-' (print_nat n) refl (print_nat-All n) in
    ground (
      arith,
      contains_found b'-' (print_nat n) (c ∷ s),
      split_found b'-' (print_nat n) (c ∷ s) digits,
      split_absent b'-' (c ∷ s) h,
    )

suffix-Lacks_dot : (s : Str) → Lacks b'.' s → Lacks b'.' (suffix s)
suffix-Lacks_dot [] h = tt
suffix-Lacks_dot (c ∷ s) h = (refl, h)

split-string_at :
    (a b c special : Str)
    → Lacks b'.' a
    → Lacks b'.' b
    → Lacks b'.' c
    → Lacks b'.' special
    → split b'.' (string_at a b c special) ≡ a ∷ b ∷ (c ++ suffix special) ∷ []
unfolding string_at
split-string_at a b c special ha hb hc hs =
    split_found b'.' a _ ha
    ∙ ap (◌∷◌ a) (
        split_found b'.' b _ hb
        ∙ ap (◌∷◌ b) (
            split_absent b'.' (c ++ suffix special) (
              All-append (λ x. (x == b'.') ≡ false) c (suffix special) hc
                (suffix-Lacks_dot special hs))))

read_patch-suffix :
    (n : ℕ) (special : Str) (v : Version)
    → n < 0x8000_0000
    → Lacks b'-' special
    → v.special ≡ []
    → read_patch ((print_nat n ++ suffix special) ∷ []) v
      ≡ (record v { patch = pos n; special = special }, no_error)
unfolding read_patch
read_patch-suffix n special v h lacks empty =
    ground (arith, patch_parts-suffix n special lacks, parse_int-print_nat n h)

-- Printing a version and parsing the text gives the version back, with no error, if the numbers
-- fit in 32 bits, the patch number is not negative and the special part holds no dot and no dash.
pub parse_version-string : (v : Version) → IsPlain v → parse_version (string v) ≡ (v, no_error)
unfolding parse_version read_major read_minor
parse_version-string v h =
    let m = v.major in
    let n = v.minor in
    let special = v.special in
    ap (λ t. read_major t start)
      (ap (split b'.') (string-suffix v special refl)
        ∙ split-string_at _ _ _ special (print_int-Lacks_dot m) (print_int-Lacks_dot n)
            (print_int-Lacks_dot v.patch) h.no_dot)
    ∙ ground (
      arith,
      parse_int-print_int m h.major_range,
      parse_int-print_int n h.minor_range,
      read_patch-suffix h.patch_number special
          (record { major = m; minor = n; patch = pos 0; special = [] }) h.patch_range h.no_dash
          refl,
      print_int-pos h.patch_number,
      h.patch_is,
    )
