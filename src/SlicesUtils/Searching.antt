-- ===== src/SlicesUtils/Searching.antt =====
-- `Contains` and `Find` of internal/utils/slicesutils/slicesutils.go.
use cel_service.Base.Int.{ℤ, pos, negsuc}
use cel_service.Base.Text.{Str, str_eq_iff, str_eq_cases}
use cel_service.Base.{
  ℕ, suc, ◌+◌, ◌≡◌, ◌≢◌, inl, inr, refl, sym, ap, arith, Bool, true, false, List, [], ◌∷◌, some,
  get_elem?, take, All,
}
use cel_service.SlicesUtils.{contains, find_from, find}

-- `i` is the first place of `e` in `s`, or -1 if there is none.
abbrev pub IsFirstPlace : List Str → Str → ℕ → ℤ → Type 0
IsFirstPlace s e base (pos i) =
    (k : ℕ) × (i ≡ base + k) × (get_elem? s k ≡ some e) × All (λ x. x ≢ e) (take k s)
IsFirstPlace s e base (negsuc i) = (i ≡ 0) × All (λ x. x ≢ e) s

find_from-IsFirstPlace : (i : ℕ) (s : List Str) (e : Str) → IsFirstPlace s e i (find_from i s e)
unfolding find_from
find_from-IsFirstPlace i [] e = (refl, tt)
find_from-IsFirstPlace i (n ∷ s) e = elim (str_eq_cases e n) [
  | inl (same, test) ↦ rw (test, find_from) (0, omega arith, ap some (sym same), tt)
  | inr (other, test) ↦
      rw (test, find_from)
        (later (find_from (suc i) s e) other (find_from-IsFirstPlace (suc i) s e))
]
  where
    later : (r : ℤ) → e ≢ n → IsFirstPlace s e (suc i) r → IsFirstPlace (n ∷ s) e i r
    later (pos j) ne (k, place, at, before) = (suc k, omega arith, at, (λ h. ne (sym h), before))
    later (negsuc j) ne (minus_one, none_here) = (minus_one, (λ h. ne (sym h), none_here))

-- `Find` returns the first index of the string, or -1 if the slice does not hold it.
pub find-IsFirstPlace : (s : List Str) (e : Str) → IsFirstPlace s e 0 (find s e)
unfolding find
find-IsFirstPlace s e = find_from-IsFirstPlace 0 s e

abbrev is_found : ℤ → Bool
is_found (pos i) = true
is_found (negsuc i) = false

contains-find_from : (i : ℕ) (s : List Str) (e : Str) → contains s e ≡ is_found (find_from i s e)
unfolding contains find_from
contains-find_from i [] e = refl
contains-find_from i (n ∷ s) e =
    ground (arith, str_eq_iff n e, str_eq_iff e n, contains-find_from (suc i) s e)

-- `Contains` says true exactly if `Find` returns an index.
contains-find : (s : List Str) (e : Str) → contains s e ≡ is_found (find s e)
unfolding find
contains-find s e = contains-find_from 0 s e
