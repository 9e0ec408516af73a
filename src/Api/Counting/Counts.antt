-- ===== src/Api/Counting/Counts.antt =====
-- The counters of internal/api/metrics.go over a series of requests.
use cel_service.Api.Counting.{Site, metrics_name, count_request}
use cel_service.Base.Dict.{lookup, insert, lookup-insert}
use cel_service.Base.Text.{Str, str_eq, str_eq_cases}
use cel_service.Base.{
  ℕ, ◌+◌, ◌≡◌, inl, inr, refl, sym, ◌∙◌, arith, Bool, true, List, [], ◌∷◌, Option, none, some, All,
  Call, returns, ◌>>=◌, if◌then◌else◌, Option-cases,
}
use cel_service.Http.{Request}

-- What the counter of a name shows; one that was not made shows nothing.
abbrev pub shown : Option ℕ → ℕ
shown none = 0
shown (some n) = n

-- The number of the requests with this name
unfoldable pub occurrences : Str → List Request → ℕ
occurrences name [] = 0
occurrences name (r ∷ rs) =
    if str_eq (metrics_name r) name then occurrences name rs + 1 else occurrences name rs

shown-insert :
    (k name : Str) (n : ℕ) (m : List (Str × ℕ))
    → shown (lookup k m) + 1 ≡ n
    → shown (lookup name (insert k n m))
      ≡ (if str_eq k name then shown (lookup name m) + 1 else shown (lookup name m))
shown-insert k name n m e = elim (str_eq_cases k name) [
  | inl (same, test) ↦ rw (lookup-insert k name n m, test) (sym e ∙ rw same refl)
  | inr (other, test) ↦ rw (lookup-insert k name n m, test) refl
]

module _ {T : Type 0} (can_register : Str → Bool) where
  unfoldable pub count_all : List Request → Site T → Call (Site T)
  count_all [] s = returns s
  count_all (r ∷ rs) s = count_request can_register r s >>= count_all rs

  pub counted_once :
      (r : Request) (s : Site T)
      → can_register (metrics_name r) ≡ true
      → (s' : Site T) × (count_request can_register r s ≡ returns s')
        × (s'.rest ≡ s.rest)
        × ((name : Str)
            → shown (lookup name s'.metrics) ≡ (
                if str_eq (metrics_name r) name
                then shown (lookup name s.metrics) + 1
                else shown (lookup name s.metrics)))
  unfolding count_request
  counted_once r s ok =
      let k = metrics_name r in
      elim (Option-cases (lookup k s.metrics)) [
        | inl new ↦ (
          record s { metrics = insert k 1 s.metrics },
          rw (new, ok, count_request) refl,
          refl,
          λ name. shown-insert k name 1 s.metrics (rw (new) (omega arith)),
        )
        | inr (n, old) ↦ (
          record s { metrics = insert k (n + 1) s.metrics },
          rw (old, count_request) refl,
          refl,
          λ name. shown-insert k name (n + 1) s.metrics (rw (old) refl),
        )
      ]

  -- After any requests whose names can be registered, each counter shows by how many it grew: the
  -- number of the requests with its name. Nothing else is changed.
  pub count_all-occurrences :
      (rs : List Request) (s : Site T)
      → All (λ r. can_register (metrics_name r) ≡ true) rs
      → (s' : Site T) × (count_all rs s ≡ returns s')
        × (s'.rest ≡ s.rest)
        × ((name : Str)
            → shown (lookup name s'.metrics) ≡ shown (lookup name s.metrics) + occurrences name rs)
  unfolding count_all occurrences
  count_all-occurrences [] s ok = (s, refl, refl, λ name. omega arith)
  count_all-occurrences (r ∷ rs) s (here, ok) =
      let (t, counted, kept, grew) = counted_once r s here in
      let (u, all_counted, also_kept, all_grew) = count_all-occurrences rs t ok in
      (
        u,
        rw (counted, all_counted) refl,
        also_kept ∙ kept,
        λ name. ground (arith, grew name, all_grew name),
      )
