-- ===== src/Base/Text.antt =====
-- A Go string as the list of its bytes, and what the source calls of the package `strings`.
use cel_service.Base.Tests.{leb, ◌==◌, if◌then◌else◌}
use Prim.Native.Char.{code}
use Prim.Native.Nat.{ℕ, ◌+◌, ◌-◌, ◌/◌, ◌%◌, ◌<◌}
use cel_service.Base.Lists.{length, drop}
use Prim.Native.String.{String}
use mathlib.Core.Path.{◌≡◌, refl}
use mathlib.Core.Logic.{◌↔◌, ◌⊎◌, ◌≢◌}
use mathlib.Core.Bool.{Bool, true, false, ◌&&◌, ◌||◌}
use mathlib.Core.List.{List, [], ◌∷◌, map}
use native.Mathlib.Omega.{arith}

abbrev pub Str : Type 0
Str = List ℕ

-- The bytes of a literal; every literal of the source that is modelled is ASCII.
unfoldable pub text : String → Str
text String.[] = []
text (String.◌∷◌ c s) = code c ∷ text s

-- `a == b` on strings.
unfoldable pub str_eq : Str → Str → Bool
str_eq [] [] = true
str_eq (x ∷ a) (y ∷ b) = x == y && str_eq a b
str_eq _ _ = false

pub str_eq_iff : (a b : Str) → (str_eq a b ≡ true) ↔ (a ≡ b)
unfolding str_eq
str_eq_iff (x ∷ a) (y ∷ b) = ground (arith, str_eq_iff a b)
str_eq_iff _ _ = ground arith

str_eq_refl : (a : Str) → str_eq a a ≡ true
str_eq_refl a = (str_eq_iff a a).1 refl

pub str_eq_cases : (a b : Str) → (a ≡ b) × (str_eq a b ≡ true) ⊎ (a ≢ b) × (str_eq a b ≡ false)
str_eq_cases a b = ground (arith, str_eq_iff a b)

-- `s == ""`
abbrev pub is_empty : Str → Bool
is_empty [] = true
is_empty (_ ∷ _) = false

-- `strings.ToUpper` and `strings.ToLower`, on the ASCII letters.
unfoldable pub to_upper : Str → Str
to_upper s = map (λ c. if leb b'a' c && leb c b'z' then c - 32 else c) s

unfoldable pub to_lower : Str → Str
to_lower s = map (λ c. if leb b'A' c && leb c b'Z' then c + 32 else c) s

-- `strings.HasPrefix`
unfoldable pub has_prefix : Str → Str → Bool
has_prefix s [] = true
has_prefix [] (p ∷ ps) = false
has_prefix (c ∷ s) (p ∷ ps) = c == p && has_prefix s ps

-- `strings.Contains`
unfoldable pub contains : Str → Str → Bool
unfolding has_prefix
contains [] p = is_empty p
contains (c ∷ s) p = has_prefix (c ∷ s) p || contains s p

-- The first part of `strings.Split(s, sep)` for a separator of one byte, and the others.
unfoldable pub split_first : ℕ → Str → Str
split_first sep [] = []
split_first sep (c ∷ s) = if c == sep then [] else c ∷ split_first sep s

unfoldable pub split_rest : ℕ → Str → List Str
unfolding split_first
split_rest sep [] = []
split_rest sep (c ∷ s) = if c == sep then split_first sep s ∷ split_rest sep s else split_rest sep s

unfoldable pub split : ℕ → Str → List Str
unfolding split_first split_rest
split sep s = split_first sep s ∷ split_rest sep s

-- `strings.HasSuffix`
unfoldable pub has_suffix : Str → Str → Bool
has_suffix [] p = is_empty p
has_suffix (c ∷ s) p = str_eq (c ∷ s) p || has_suffix s p

-- `strings.TrimSuffix`
unfoldable pub trim_suffix : Str → Str → Str
trim_suffix [] p = []
trim_suffix (c ∷ s) p = if str_eq (c ∷ s) p then [] else c ∷ trim_suffix s p

-- `strings.TrimPrefix`
unfoldable pub trim_prefix : Str → Str → Str
trim_prefix s p = if has_prefix s p then drop (length p) s else s

-- `%x` of bytes: two digits for each.
abbrev hex_digit : ℕ → ℕ
hex_digit n = if leb n 9 then n + 48 else n + 87

unfoldable pub hex : Str → Str
hex [] = []
hex (c ∷ s) = hex_digit (c / 16 % 16) ∷ hex_digit (c % 16) ∷ hex s

hex_digit_small : (n : ℕ) → n < 16 → ((leb b'A' (hex_digit n) && leb (hex_digit n) b'Z') ≡ false)
hex_digit_small n h = ground arith

-- Hexadecimal digits have no capital letters.
pub to_lower-hex : (s : Str) → to_lower (hex s) ≡ hex s
unfolding to_lower hex
to_lower-hex [] = refl
to_lower-hex (c ∷ s) = ground (
  arith,
  to_lower-hex s,
  hex_digit_small (c / 16 % 16) (omega arith),
  hex_digit_small (c % 16) (omega arith),
)
