-- ===== src/Service/Session/Hits.antt =====
-- Which counters of internal/api/metrics.go a request hits behind the gate of the api key.
use cel_service.Api.Counting.{metrics_name}
use cel_service.Api.{skip_func}
use cel_service.Base.Text.{Str, text, to_lower, str_eq, str_eq_iff}
use cel_service.Base.{
  ℕ, ◌+◌, ◌≡◌, ◌≢◌, ◌⊎◌, ◌↔◌, Bool, true, false, ◌||◌, List, [], ◌∷◌, arith, if◌then◌else◌,
}
use cel_service.Http.{Request}
use cel_service.Service.Session.{Event, rest, rpc, tick}

module _ (key : Str) where
  -- The request needs no api key or carries it.
  abbrev pub passes : Request → Bool
  passes r = skip_func r || str_eq (to_lower (r.header (text "apikey"))) key

  -- How often a request is counted under a name, if the api key is on, and if it is off.
  abbrev pub hits : Bool → Request → Str → ℕ
  hits false r name = 0
  hits true r name = if passes r then (if str_eq (metrics_name r) name then 1 else 0) else 0

  -- How often requests over REST and gRPC are counted under a name.
  unfoldable pub all_hits : {F : Type 0} → Bool → List (Event F) → Str → ℕ
  all_hits on [] name = 0
  all_hits on (rest now r ∷ es) name = hits on r name + all_hits on es name
  all_hits on (rpc q ∷ es) name = all_hits on es name
  all_hits on (tick now ∷ es) name = all_hits on es name

  passes_iff :
      (r : Request)
      → (passes r ≡ true) ↔ ((skip_func r ≡ true) ⊎ (to_lower (r.header (text "apikey")) ≡ key))
  passes_iff r = ground (arith, str_eq_iff (to_lower (r.header (text "apikey"))) key)

  pub hits-refused :
      (r : Request) (name : Str) (n : ℕ)
      → skip_func r ≡ false
      → to_lower (r.header (text "apikey")) ≢ key
      → n ≡ n + hits true r name
  hits-refused r name n checked wrong =
      ground (arith, str_eq_iff (to_lower (r.header (text "apikey"))) key)

  pub hits-passed :
      (r : Request) (name : Str) (n m : ℕ)
      → (skip_func r ≡ true) ⊎ (to_lower (r.header (text "apikey")) ≡ key)
      → m ≡ (if str_eq (metrics_name r) name then n + 1 else n)
      → m ≡ n + hits true r name
  hits-passed r name n m passed grew = rw ((passes_iff r).1 passed) (ground arith)

  pub all_hits-cons :
      {F : Type 0} (on : Bool) (e : Event F) (es : List (Event F)) (name : Str)
      → all_hits on (e ∷ es) name ≡ all_hits on (e ∷ []) name + all_hits on es name
  unfolding all_hits
  all_hits-cons on (rest now r) es name = omega arith
  all_hits-cons on (rpc q) es name = omega arith
  all_hits-cons on (tick now) es name = omega arith
