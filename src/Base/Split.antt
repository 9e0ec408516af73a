-- ===== src/Base/Split.antt =====
-- Laws of `strings.Split` and `strings.Contains` for a separator of one byte.
use cel_service.Base.Lists.{All}
use cel_service.Base.Tests.{◌==◌}
use cel_service.Base.Text.{Str, contains, split_first, split_rest, split}
use Prim.Native.Nat.{ℕ}
use mathlib.Core.Bool.{true, false}
use mathlib.Core.List.{[], ◌∷◌, ◌++◌}
use mathlib.Core.Path.{◌≡◌, refl, ap₂}
use native.Mathlib.Omega.{arith}

-- The byte does not occur.
abbrev pub Lacks : ℕ → Str → Type 0
Lacks b s = All (λ c. (c == b) ≡ false) s

split_first_found : (b : ℕ) (s rest : Str) → Lacks b s → split_first b (s ++ (b ∷ rest)) ≡ s
unfolding split_first
split_first_found b [] rest h = ground arith
split_first_found b (c ∷ s) rest (d, h) = ground (arith, split_first_found b s rest h)

split_rest_found :
    (b : ℕ) (s rest : Str) → Lacks b s → split_rest b (s ++ (b ∷ rest)) ≡ split b rest
unfolding split_rest split
split_rest_found b [] rest h = ground arith
split_rest_found b (c ∷ s) rest (d, h) = ground (arith, split_rest_found b s rest h)

-- A part, the separator and the rest.
pub split_found : (b : ℕ) (s rest : Str) → Lacks b s → split b (s ++ (b ∷ rest)) ≡ s ∷ split b rest
unfolding split
split_found b s rest h = ap₂ ◌∷◌ (split_first_found b s rest h) (split_rest_found b s rest h)

split_first_absent : (b : ℕ) (s : Str) → Lacks b s → split_first b s ≡ s
unfolding split_first
split_first_absent b [] h = refl
split_first_absent b (c ∷ s) (d, h) = ground (arith, split_first_absent b s h)

split_rest_absent : (b : ℕ) (s : Str) → Lacks b s → split_rest b s ≡ []
unfolding split_rest
split_rest_absent b [] h = refl
split_rest_absent b (c ∷ s) (d, h) = ground (arith, split_rest_absent b s h)

pub split_absent : (b : ℕ) (s : Str) → Lacks b s → split b s ≡ s ∷ []
unfolding split
split_absent b s h = ap₂ ◌∷◌ (split_first_absent b s h) (split_rest_absent b s h)

pub contains_found : (b : ℕ) (s rest : Str) → contains (s ++ (b ∷ rest)) (b ∷ []) ≡ true
unfolding contains
contains_found b [] rest = ground arith
contains_found b (c ∷ s) rest = ground (arith, contains_found b s rest)

pub contains_absent : (b : ℕ) (s : Str) → Lacks b s → contains s (b ∷ []) ≡ false
unfolding contains
contains_absent b [] h = refl
contains_absent b (c ∷ s) (d, h) = ground (arith, contains_absent b s h)
