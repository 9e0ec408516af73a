-- ===== src/Base/Strconv.antt =====
-- What the source calls of `strconv` and of the verb %d: `ParseInt` in base 10, and printing.
use cel_service.Base.Int.{ℤ, pos, negsuc, neg_ℕ}
use cel_service.Base.Lists.{All}
use cel_service.Base.Tests.{leb, ltb, ◌==◌, if◌then◌else◌}
use cel_service.Base.Text.{Str}
use Prim.Native.Nat.{ℕ, zero, suc, ◌+◌, ◌-◌, ◌*◌, ◌/◌, ◌%◌, ◌^◌, ◌≤◌, ◌<◌}
use mathlib.Core.Bool.{Bool, true, false, ◌&&◌}
use mathlib.Core.List.{[], ◌∷◌}
use mathlib.Core.Logic.{◌≢◌}
use mathlib.Core.Path.{◌≡◌, refl, ◌∙◌}
use native.Mathlib.Omega.{arith}

-- `syntax_error` is `ErrSyntax`, `range_error` is `ErrRange`.
pub data Parsed {ℓ} (A : Type ℓ) : Type ℓ where
  parsed : A → Parsed A
  syntax_error range_error : Parsed A

abbrev pub is_digit : ℕ → Bool
is_digit c = leb b'0' c && leb c b'9'

-- The loop of `ParseUint`; `most` is the largest value of the type.
unfoldable pub parse_digits : ℕ → ℕ → Str → Parsed ℕ
parse_digits most n [] = parsed n
parse_digits most n (c ∷ s) =
    if is_digit c
    then (if ltb most (n * 10 + (c - b'0'))
        then range_error
        else parse_digits most (n * 10 + (c - b'0')) s)
    else syntax_error

unfoldable pub parse_uint : ℕ → Str → Parsed ℕ
unfolding parse_digits
parse_uint most [] = syntax_error
parse_uint most (c ∷ s) = parse_digits most 0 (c ∷ s)

-- The sign and the range of a signed type whose values are at least -half and below half.
unfoldable pub signed : ℕ → Bool → Parsed ℕ → Parsed ℤ
signed half negative syntax_error = syntax_error
signed half negative range_error = range_error
signed half false (parsed n) = if leb half n then range_error else parsed (pos n)
signed half true (parsed n) = if ltb half n then range_error else parsed (neg_ℕ n)

unfoldable pub parse_int_half : ℕ → Str → Parsed ℤ
unfolding parse_uint signed
parse_int_half half [] = syntax_error
parse_int_half half (c ∷ s) =
    if c == b'+'
    then signed half false (parse_uint (2 * half - 1) s)
    else if c == b'-'
    then signed half true (parse_uint (2 * half - 1) s)
    else signed half false (parse_uint (2 * half - 1) (c ∷ s))

-- `strconv.ParseInt(s, 10, bits)`
unfoldable pub parse_int : ℕ → Str → Parsed ℤ
unfolding parse_int_half
parse_int bits s = parse_int_half (2 ^ (bits - 1)) s

-- The decimal digits of n in front of `rest`; fuel n + 1 is enough, as n / 10 < n.
unfoldable pub print_onto : ℕ → ℕ → Str → Str
print_onto zero n rest = rest
print_onto (suc fuel) n rest =
    let more = print_onto fuel (n / 10) ((n % 10 + b'0') ∷ rest) in
    if ltb n 10 then (n + b'0') ∷ rest else more

unfoldable pub print_nat : ℕ → Str
unfolding print_onto
print_nat n = print_onto (n + 1) n []

-- `fmt.Sprintf("%d", z)`
unfoldable pub print_int : ℤ → Str
unfolding print_nat
print_int (pos n) = print_nat n
print_int (negsuc n) = b'-' ∷ print_nat (n + 1)

parse_digits-print_onto :
    (most f n : ℕ) (rest : Str)
    → n < f
    → n ≤ most
    → parse_digits most 0 (print_onto f n rest) ≡ parse_digits most n rest
unfolding parse_digits print_onto
parse_digits-print_onto most zero n rest h k = elim h [ ]
parse_digits-print_onto most (suc f) n rest h k =
    ground (arith, parse_digits-print_onto most f (n / 10) ((n % 10 + b'0') ∷ rest))

print_onto-All :
    (f n : ℕ) (rest : Str)
    → All (λ c. is_digit c ≡ true) rest
    → All (λ c. is_digit c ≡ true) (print_onto f n rest)
unfolding print_onto
print_onto-All zero n rest h = h
print_onto-All (suc f) n rest h = ground (arith, print_onto-All f (n / 10) ((n % 10 + b'0') ∷ rest))

-- Only digits are printed for a natural number.
pub print_nat-All : (n : ℕ) → All (λ c. is_digit c ≡ true) (print_nat n)
unfolding print_nat
print_nat-All n = print_onto-All (n + 1) n [] tt

print_onto-ne-nil : (f n : ℕ) (rest : Str) → n < f → print_onto f n rest ≢ []
unfolding print_onto
print_onto-ne-nil zero n rest h = elim h [ ]
print_onto-ne-nil (suc f) n rest h =
    ground (arith, print_onto-ne-nil f (n / 10) ((n % 10 + b'0') ∷ rest))

parse_digits-print_nat : (most n : ℕ) → n ≤ most → parse_digits most 0 (print_nat n) ≡ parsed n
unfolding print_nat parse_digits
parse_digits-print_nat most n h = parse_digits-print_onto most (n + 1) n [] (omega arith) h

parse_int_half-digits :
    (half : ℕ) (s : Str)
    → s ≢ []
    → All (λ c. is_digit c ≡ true) s
    → parse_int_half half s ≡ signed half false (parse_digits (2 * half - 1) 0 s)
unfolding parse_int_half
parse_int_half-digits half [] ne h = absurd (ne refl)
parse_int_half-digits half (c ∷ s) ne (d, h) = ground arith

parse_uint-digits : (most : ℕ) (s : Str) → s ≢ [] → parse_uint most s ≡ parse_digits most 0 s
unfolding parse_uint
parse_uint-digits most [] ne = absurd (ne refl)
parse_uint-digits most (c ∷ s) ne = refl

print_nat-ne-nil : (n : ℕ) → print_nat n ≢ []
unfolding print_nat
print_nat-ne-nil n = print_onto-ne-nil (n + 1) n [] (omega arith)

-- The values of a signed type of 2 * half values.
abbrev pub InRange : ℕ → ℤ → Type 0
InRange half (pos n) = n < half
InRange half (negsuc n) = n < half

-- A printed number of the range is read back.
pub parse_int_half-print_int :
    (half : ℕ) (z : ℤ) → InRange half z → parse_int_half half (print_int z) ≡ parsed z
unfolding print_int signed
parse_int_half-print_int half (pos n) h =
    parse_int_half-digits half (print_nat n) (print_nat-ne-nil n) (print_nat-All n)
    ∙ rw (parse_digits-print_nat (2 * half - 1) n (omega arith)) (ground arith)
parse_int_half-print_int half (negsuc n) h =
    unfold parse_int_half in
    rw (parse_uint-digits (2 * half - 1) (print_nat (n + 1)) (print_nat-ne-nil (n + 1)))
      (rw (parse_digits-print_nat (2 * half - 1) (n + 1) (omega arith)) (ground arith))

-- What is read lies in the range.
signed-InRange :
    (half : ℕ) (negative : Bool) (r : Parsed ℕ) (z : ℤ)
    → 0 < half
    → signed half negative r ≡ parsed z
    → InRange half z
unfolding signed
signed-InRange half negative syntax_error z h e = ground arith
signed-InRange half negative range_error z h e = ground arith
signed-InRange half false (parsed n) z h e = ground arith
signed-InRange half true (parsed n) z h e = ground arith

pub parse_int_half-InRange :
    (half : ℕ) (s : Str) (z : ℤ) → 0 < half → parse_int_half half s ≡ parsed z → InRange half z
unfolding parse_int_half
parse_int_half-InRange half [] z h e = cc
parse_int_half-InRange half (c ∷ s) z h e = ground (
  arith,
  signed-InRange half false (parse_uint (2 * half - 1) s) z h,
  signed-InRange half true (parse_uint (2 * half - 1) s) z h,
  signed-InRange half false (parse_uint (2 * half - 1) (c ∷ s)) z h,
)
