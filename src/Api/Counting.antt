-- ===== src/Api/Counting.antt =====
-- `MetricsHandler` of internal/api/metrics.go. The package variable `metrics` is a field of `Site`,
-- with the counts that the counters have reached.
pub mod Counts
pub mod Race
use cel_service.Api.{skipped}
use cel_service.Base.Dict.{lookup, insert}
use cel_service.Base.Text.{Str, text, trim_prefix, trim_suffix}
use cel_service.Base.{
  ℕ, ◌+◌, Bool, true, false, ◌&&◌, ◌||◌, List, [], ◌∷◌, ◌++◌, Option, none, some, Call, returns,
  panics, ◌>>=◌, if◌then◌else◌, leb, ltb, ◌==◌,
}
use cel_service.Http.{Request}

pub record Site (T : Type 0) : Type 0 where
  pub metrics : List (Str × ℕ)
  pub rest : T

abbrev is_name_char : ℕ → Bool
is_name_char c = (leb b'a' c && leb c b'z') || ((leb b'A' c && leb c b'Z') || (c == b'_'))

-- `regexp.MustCompile("[^a-zA-Z_]").ReplaceAllString(s, "_")`: each character that is no letter and
-- no underscore, which may be several bytes of UTF-8, becomes one underscore. The text is taken to be
-- valid UTF-8.
unfoldable pub replace_others : Str → Str
replace_others [] = []
replace_others (c ∷ s) =
    let rest = replace_others s in
    if leb 128 c && ltb c 192 then rest else (if is_name_char c then c ∷ rest else b'_' ∷ rest)

unfoldable pub metrics_name : Request → Str
metrics_name r =
    text "rest_requests_"
    ++ (r.method
        ++ (text "_"
            ++ (replace_others (trim_prefix (trim_suffix r.path (text "/")) (text "/"))
                ++ text "_total")))

-- `can_register` tells whether `promauto.NewCounter` accepts a name; it panics on another one.
module _ {T : Type 0} (can_register : Str → Bool) where
  unfoldable pub count_request : Request → Site T → Call (Site T)
  count_request r s = elim (lookup (metrics_name r) s.metrics) [
    | some n ↦ returns (record s { metrics = insert (metrics_name r) (n + 1) s.metrics })
    | none ↦
        if can_register (metrics_name r)
        then returns (record s { metrics = insert (metrics_name r) 1 s.metrics })
        else panics
  ]

  unfoldable pub metrics_handler :
      {B : Type 0}
      → Option (Request → Bool)
      → (Request → Site T → Call (Site T × B))
      → Request
      → Site T
      → Call (Site T × B)
  metrics_handler skip next r s =
      if skipped skip r then next r s else (count_request r s >>= next r)
