-- ===== src/Base/Replace.antt =====
-- `strings.ReplaceAll` and `strings.Replace(…, -1)` for an `old` that is not empty.
use cel_service.Base.Lists.{All, length, drop}
use cel_service.Base.Tests.{◌==◌}
use cel_service.Base.Text.{Str, has_prefix, contains}
use Prim.Native.Nat.{ℕ, zero, suc}
use mathlib.Core.Bool.{true, false}
use mathlib.Core.List.{[], ◌∷◌, ◌++◌}
use mathlib.Core.Path.{◌≡◌, refl, ap}
use native.Mathlib.Omega.{arith}

-- `skip` bytes of the text belong to an occurrence that has been replaced.
unfoldable pub replace_from : ℕ → Str → Str → Str → Str
replace_from skip [] old new = []
replace_from (suc skip) (c ∷ s) old new = replace_from skip s old new
replace_from zero (c ∷ s) old new = elim (has_prefix (c ∷ s) old) [
  | true ↦ new ++ replace_from (length (drop 1 old)) s old new
  | false ↦ c ∷ replace_from zero s old new
]

unfoldable pub replace_all : Str → Str → Str → Str
replace_all s old new = replace_from 0 s old new

replace_from-absent : (s old new : Str) → contains s old ≡ false → replace_from 0 s old new ≡ s
unfolding replace_from contains
replace_from-absent [] old new h = refl
replace_from-absent (c ∷ s) old new h = ground (arith, replace_from-absent s old new)

-- A text without the old part is kept.
replace_all-absent : (s old new : Str) → contains s old ≡ false → replace_all s old new ≡ s
unfolding replace_all
replace_all-absent s old new h = replace_from-absent s old new h

has_prefix-append : (old rest : Str) → has_prefix (old ++ rest) old ≡ true
unfolding has_prefix
has_prefix-append [] [] = refl
has_prefix-append [] (c ∷ rest) = refl
has_prefix-append (c ∷ old) rest = ground (arith, has_prefix-append old rest)

has_prefix-other : (c o : ℕ) (s old : Str) → (c == o) ≡ false → has_prefix (c ∷ s) (o ∷ old) ≡ false
unfolding has_prefix
has_prefix-other c o s old other = ground arith

replace_from-skip :
    (t rest old new : Str)
    → replace_from (length t) (t ++ rest) old new ≡ replace_from 0 rest old new
unfolding replace_from
replace_from-skip [] [] old new = refl
replace_from-skip [] (c ∷ rest) old new = refl
replace_from-skip (c ∷ t) rest old new = replace_from-skip t rest old new

replace_from-found :
    (s rest new : Str) (o : ℕ) (old : Str)
    → All (λ c. (c == o) ≡ false) s
    → replace_from 0 (s ++ ((o ∷ old) ++ rest)) (o ∷ old) new
      ≡ s ++ (new ++ replace_from 0 rest (o ∷ old) new)
unfolding replace_from
replace_from-found [] rest new o old h =
    rw (has_prefix-append (o ∷ old) rest, replace_from)
      (ap (λ x. new ++ x) (replace_from-skip old rest (o ∷ old) new))
replace_from-found (c ∷ s) rest new o old (other, h) =
    rw (has_prefix-other c o (s ++ ((o ∷ old) ++ rest)) old other, replace_from)
      (ap (λ x. c ∷ x) (replace_from-found s rest new o old h))

-- The first occurrence is replaced, if no byte before it is the first one of the old part, and
-- then what comes after it.
replace_all-found :
    (s rest new : Str) (o : ℕ) (old : Str)
    → All (λ c. (c == o) ≡ false) s
    → replace_all (s ++ ((o ∷ old) ++ rest)) (o ∷ old) new
      ≡ s ++ (new ++ replace_all rest (o ∷ old) new)
unfolding replace_all
replace_all-found s rest new o old h = replace_from-found s rest new o old h
