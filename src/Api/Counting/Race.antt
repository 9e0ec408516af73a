-- ===== src/Api/Counting/Race.antt =====
-- Two requests of one name in `MetricsHandler` of internal/api/metrics.go at the same time. A request
-- looks its counter up in one step; in the next it makes the counter, if it found none, and counts.
-- No lock keeps the two steps together.
use cel_service.Api.Counting.{Site, metrics_name, count_request}
use cel_service.Base.Dict.{lookup, insert, lookup-insert}
use cel_service.Base.Text.{Str, str_eq_cases}
use cel_service.Http.{Request}
use cel_service.Base.{
  ℕ, ◌+◌, ◌≡◌, refl, Bool, true, false, not, List, [], ◌∷◌, Option, none, some, Call, returns,
  panics, ◌∙◌, ap, ◌>>=◌, inl, inr, Option-cases, arith, if◌then◌else◌,
}

lookup_self : (k : Str) (n : ℕ) (m : List (Str × ℕ)) → lookup k (insert k n m) ≡ some n
lookup_self k n m = rw (lookup-insert k k n m) (elim (str_eq_cases k k) [
  | inl (same, test) ↦ rw (test) refl
  | inr (other, test) ↦ absurd (other refl)
])

-- The map `metrics` with the counts, and the names that the registry of Prometheus has taken.
pub record Counters : Type 0 where
  pub metrics : List (Str × ℕ)
  pub registered : List Str

pub data Phase : Type 0 where
  arrived : Phase
  looked_up : Bool → Phase
  counted : Phase

-- `can_register` tells whether `promauto.NewCounter` accepts a name beside those that the registry
-- has; it panics on another one.
module _ (can_register : List Str → Str → Bool) (name : Str) where
  abbrev found : Option ℕ → Bool
  found none = false
  found (some n) = true

  abbrev counter_of : Option ℕ → ℕ
  counter_of none = 0
  counter_of (some n) = n

  unfoldable turn : Phase → Counters → Call (Counters × Phase)
  turn arrived s = returns (s, looked_up (found (lookup name s.metrics)))
  turn (looked_up true) s = returns (
    record s { metrics = insert name (counter_of (lookup name s.metrics) + 1) s.metrics },
    counted,
  )
  turn (looked_up false) s =
      if can_register s.registered name
      then returns
          (record { metrics = insert name 1 s.metrics; registered = name ∷ s.registered }, counted)
      else panics
  turn counted s = returns (s, counted)

  -- Both turns of a request, with no other in between.
  abbrev alone : Counters → Call (Counters × Phase)
  alone s = turn arrived s >>= λ (s', p). turn p s'

  -- The two requests; a schedule says whose turn it is, `true` for the first one's.
  pub take_turns : List Bool → Phase → Phase → Counters → Call (Counters × Phase × Phase)
  take_turns [] p q s = returns (s, p, q)
  take_turns (b ∷ schedule) p q s =
      if b
      then (turn p s >>= λ (s', p'). take_turns schedule p' q s')
      else (turn q s >>= λ (s', q'). take_turns schedule p q' s')

  module _ (s : Counters) (new : lookup name s.metrics ≡ none)
      (accepted : can_register s.registered name ≡ true)
      (refused_twice : (names : List Str) → can_register (name ∷ names) name ≡ false) where
    abbrev once : List (Str × ℕ)
    once = insert name 1 s.metrics

    abbrev first : Counters
    first = record { metrics = once; registered = name ∷ s.registered }

    abbrev twice : Counters
    twice = record first { metrics = insert name 2 once }

    -- The request that comes second finds the counter.
    second : turn (looked_up (found (lookup name once))) first ≡ returns (twice, counted)
    second = ap (λ x. turn (looked_up (found x)) first) (lookup_self name 1 s.metrics) ∙ counts
      where
        counts : turn (looked_up true) first ≡ returns (twice, counted)
        counts = unfold turn in rw (lookup_self name 1 s.metrics) refl

    apart :
        (b : Bool)
        → (s' : Counters) × (take_turns (b ∷ b ∷ not b ∷ not b ∷ []) arrived arrived s
            ≡ returns (s', counted, counted))
          × (lookup name s'.metrics ≡ some 2)
    unfolding take_turns turn
    apart true = (twice, rw (new, accepted, second) refl, lookup_self name 2 once)
    apart false = (twice, rw (new, accepted, second) refl, lookup_self name 2 once)

    crossed : (b c : Bool) → take_turns (b ∷ not b ∷ c ∷ not c ∷ []) arrived arrived s ≡ panics
    unfolding take_turns turn
    crossed true true = rw (new, accepted, refused_twice s.registered) refl
    crossed true false = rw (new, accepted, refused_twice s.registered) refl
    crossed false true = rw (new, accepted, refused_twice s.registered) refl
    crossed false false = rw (new, accepted, refused_twice s.registered) refl

    -- Two requests of a name that has no counter yet and can be registered once: if one of them is
    -- done before the other looks its counter up, both return and the counter shows two; if both look
    -- it up first, then whoever counts second panics.
    pub take_turns_cases :
        (b c : Bool)
        → ((s' : Counters) × (take_turns (b ∷ b ∷ not b ∷ not b ∷ []) arrived arrived s
              ≡ returns (s', counted, counted))
            × (lookup name s'.metrics ≡ some 2))
          × (take_turns (b ∷ not b ∷ c ∷ not c ∷ []) arrived arrived s ≡ panics)
    take_turns_cases b c = (apart b, crossed b c)

-- They do to the counters what `count_request` does.
alone-count_request :
    {T : Type 0} (can_register : List Str → Str → Bool) (registered : List Str) (r : Request)
    (x : Site T)
    → (alone can_register (metrics_name r) (record { metrics = x.metrics; registered = registered })
        >>= λ (s, p). returns (record x { metrics = s.metrics }))
      ≡ count_request (can_register registered) r x
unfolding turn count_request
alone-count_request can_register registered r x =
    elim (Option-cases (lookup (metrics_name r) x.metrics)) [
      | inl new ↦ ground arith
      | inr (n, old) ↦ ground arith
    ]
