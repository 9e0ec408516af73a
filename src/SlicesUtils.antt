-- ===== src/SlicesUtils.antt =====
-- internal/utils/slicesutils/slicesutils.go: searching a slice of strings and removing from it.
pub mod Searching
pub mod Removal
use cel_service.Base.Int.{ℤ, pos, negsuc}
use cel_service.Base.Text.{Str, str_eq}
use cel_service.Base.{
  ℕ, suc, ◌+◌, Bool, true, false, ◌||◌, List, [], ◌∷◌, Option, none, some, if◌then◌else◌, ltb, set,
  length, Call, returns, panics, ◌>>=◌,
}

unfoldable pub contains : List Str → Str → Bool
contains [] e = false
contains (a ∷ s) e = if str_eq a e then true else contains s e

-- The loop of `Find`, with its counter.
unfoldable pub find_from : ℕ → List Str → Str → ℤ
find_from i [] e = negsuc 0
find_from i (n ∷ s) e = if str_eq e n then pos i else find_from (suc i) s e

unfoldable pub find : List Str → Str → ℤ
find s e = find_from 0 s e

-- `s[len(s)-1]` and `s[:len(s)-1]`
unfoldable pub last : List Str → Option Str
last [] = none
last (x ∷ []) = some x
last (x ∷ y ∷ s) = last (y ∷ s)

unfoldable pub drop_end : List Str → List Str
drop_end [] = []
drop_end (x ∷ []) = []
drop_end (x ∷ y ∷ s) = x ∷ drop_end (y ∷ s)

-- The element is overwritten in the array of the caller: the first list is what the caller's slice
-- then holds, the second one is the slice that is returned. An index out of range panics.
unfoldable pub remove : List Str → ℤ → Call (List Str × List Str)
remove s (negsuc i) = panics
remove s (pos i) = elim (last s) [
  | none ↦ panics
  | some x ↦ if ltb i (length s) then returns (set s i x, drop_end (set s i x)) else panics
]

-- `if index >= 0`
unfoldable pub remove_found : List Str → ℤ → Call (List Str × List Str)
remove_found s (negsuc i) = returns (s, s)
remove_found s (pos i) = remove s (pos i)

unfoldable pub remove_string : List Str → Str → Call (List Str × List Str)
remove_string s e = remove_found s (find s e)
