-- ===== src/SlicesUtils/Removal.antt =====
-- `RemoveString` of internal/utils/slicesutils/slicesutils.go.
use cel_service.Base.Int.{ℤ, pos, negsuc}
use cel_service.Base.Text.{Str}
use cel_service.Base.{
  ℕ, zero, suc, ◌<◌, ◌≡◌, ◌≢◌, ◌⊎◌, inl, inr, refl, arith, List, [], ◌∷◌, some, get_elem?, set,
  length, returns, All,
}
use cel_service.SlicesUtils.Searching.{find-IsFirstPlace, IsFirstPlace}
use cel_service.SlicesUtils.{find, last, drop_end, remove, remove_found, remove_string}
use mathlib.Core.List.Perm
use mathlib.Core.List.{Perm}

last-drop_end :
    (x : Str) (s : List Str)
    → (y : Str) × (last (x ∷ s) ≡ some y) × Perm (y ∷ drop_end (x ∷ s)) (x ∷ s)
unfolding last drop_end
last-drop_end x [] = (x, refl, Perm.refl _)
last-drop_end x (z ∷ s) =
    let (y, e, p) = last-drop_end z s in (y, e, Perm.trans (Perm.swap x y _) (Perm.cons x p))

get_elem?-lt : (s : List Str) (k : ℕ) (e : Str) → get_elem? s k ≡ some e → k < length s
get_elem?-lt [] k e h = cc
get_elem?-lt (x ∷ s) zero e h = omega arith
get_elem?-lt (x ∷ s) (suc k) e h = omega (arith, get_elem?-lt s k e h)

drop_end-cons-set :
    (x z : Str) (k : ℕ) (y : Str) (s : List Str)
    → drop_end (x ∷ set (z ∷ s) k y) ≡ x ∷ drop_end (set (z ∷ s) k y)
unfolding drop_end
drop_end-cons-set x z zero y s = refl
drop_end-cons-set x z (suc k) y s = refl

last_of : (s : List Str) (k : ℕ) (e : Str) → get_elem? s k ≡ some e → (y : Str) × (last s ≡ some y)
last_of [] k e h = cc
last_of (x ∷ s) k e h = let (y, is_last, p) = last-drop_end x s in (y, is_last)

remove_at :
    (s : List Str) (k : ℕ) (e y : Str)
    → get_elem? s k ≡ some e
    → last s ≡ some y
    → remove_found s (pos k) ≡ returns (set s k y, drop_end (set s k y))
unfolding remove_found remove
remove_at s k e y h l = ground (arith, get_elem?-lt s k e h)

-- Overwriting a place by the last element and cutting the end takes one element away.
drop_end-set :
    (s : List Str) (k : ℕ) (e y : Str)
    → get_elem? s k ≡ some e
    → last s ≡ some y
    → Perm (e ∷ drop_end (set s k y)) s
unfolding last drop_end
drop_end-set [] k e y h l = cc
drop_end-set (x ∷ []) zero e y h l = let same : x ≡ e = ground arith in rw same (Perm.refl (e ∷ []))
drop_end-set (x ∷ []) (suc k) e y h l = cc
drop_end-set (x ∷ z ∷ s) zero e y h l =
    let (y', last_is, p) = last-drop_end z s in
    let same : x ≡ e = ground arith in
    let same_last : y' ≡ y = ground arith in rw (← same, ← same_last) (Perm.cons x p)
drop_end-set (x ∷ z ∷ s) (suc k) e y h l =
    rw (drop_end-cons-set x z k y s)
      (Perm.trans (Perm.swap x e _) (Perm.cons x (drop_end-set (z ∷ s) k e y h l)))

-- `RemoveString` does nothing if the slice does not hold the string, and else takes one occurrence
-- of it away, in any order of the rest; it never panics.
pub remove_string-Perm :
    (s : List Str) (e : Str)
    → (array : List Str) × (rest : List Str) × (remove_string s e ≡ returns (array, rest))
      × (((rest ≡ s) × (array ≡ s) × All (λ x. x ≢ e) s) ⊎ Perm (e ∷ rest) s)
unfolding remove_string
remove_string-Perm s e = by_place (find s e) (find-IsFirstPlace s e)
  where
    by_place :
        (i : ℤ)
        → IsFirstPlace s e 0 i
        → (array : List Str) × (rest : List Str) × (remove_found s i ≡ returns (array, rest))
          × (((rest ≡ s) × (array ≡ s) × All (λ x. x ≢ e) s) ⊎ Perm (e ∷ rest) s)
    by_place (negsuc i) (minus_one, none_here) =
        (s, s, unfold remove_found in refl, inl (refl, refl, none_here))
    by_place (pos i) (k, place, at, before) =
        let same : i ≡ k = omega arith in
        let here : get_elem? s i ≡ some e = rw same at in
        let (y, last_is) = last_of s i e here in
        (
          set s i y,
          drop_end (set s i y),
          remove_at s i e y here last_is,
          inr (drop_end-set s i e y here last_is),
        )
