-- ===== src/Health/Readiness.antt =====
-- The readiness probe of internal/health/health.go, and runs of ticks and probes.
use cel_service.Base.Int.{ℤ, pos, negsuc}
use cel_service.Base.Text.{Str, text}
use cel_service.Base.{
  ℕ, ◌-◌, ◌*◌, ◌≤◌, ◌<◌, ◌≡◌, ◌⊎◌, ◌↔◌, inl, inr, refl, arith, true, false, Bool-cases, List, [],
  ◌∷◌, ◌++◌, All, All-append, Call, returns, panics, ◌>>=◌,
}
use cel_service.Health.{
  State, Msg, check, do_check, is_no_interval, init_health_system, exceeds,
  check_health_check_timer, get_readiness, readiness, head_readiness,
}
use cel_service.Http.{Response}

abbrev pub second : ℕ
second = 1000000000

-- The period is positive, and the doubled and the fourfold one fit in 64 bits.
abbrev pub HasPeriod : State → Type 0
HasPeriod s = (0 < s.period) × (s.period ≤ 2000000000)

-- The state after a probe that comes too late.
abbrev fallen : State → State
fallen s = record s { healthy = false; health_message = text "health check not running" }

exceeds_iff : (elapsed n : ℕ) → n ≤ 8000000000 → (exceeds elapsed n ≡ true) ↔ (n * second < elapsed)
unfolding exceeds
exceeds_iff elapsed n small = ground arith

exceeds_cases :
    (elapsed n : ℕ)
    → n ≤ 8000000000
    → ((n * second < elapsed) × (exceeds elapsed n ≡ true))
      ⊎ ((elapsed ≤ n * second) × (exceeds elapsed n ≡ false))
exceeds_cases elapsed n small = ground (arith, exceeds_iff elapsed n small)

-- A readiness probe panics exactly if the last check is more than four periods ago. Otherwise it
-- answers 200 exactly if the last check found the service healthy and is at most two periods ago,
-- and else 503, after which the service stays unhealthy. The time of the last check is kept.
pub get_readiness_cases :
    (time_string : ℕ → Str) (now : ℕ) (s : State)
    → HasPeriod s
    → ((4 * s.period * second < now - s.last_checked) × (get_readiness time_string now s ≡ panics))
      ⊎ ((now - s.last_checked ≤ 4 * s.period * second)
          × (t : State) × (r : Response Msg) × (get_readiness time_string now s ≡ returns (t, r))
          × (t.last_checked ≡ s.last_checked)
          × (t.period ≡ s.period)
          × (((r.status ≡ 200)
                × (t ≡ s)
                × (s.healthy ≡ true)
                × (now - s.last_checked ≤ 2 * s.period * second))
              ⊎ ((r.status ≡ 503)
                  × (t.healthy ≡ false)
                  × ((s.healthy ≡ false) ⊎ (2 * s.period * second < now - s.last_checked)))))
unfolding get_readiness check_health_check_timer
get_readiness_cases time_string now s (positive, small) =
    elim (exceeds_cases (now - s.last_checked) (2 * s.period) (omega arith)) [
      | inr (in_time, ok) ↦ elim (Bool-cases s.healthy) [
        | inl up ↦ inr (
          omega arith,
          s,
          readiness time_string s,
          rw (ok) refl,
          refl,
          refl,
          inl (rw (up) refl, refl, up, in_time),
        )
        | inr down ↦ inr (
          omega arith,
          s,
          readiness time_string s,
          rw (ok) refl,
          refl,
          refl,
          inr (rw (down) refl, down, inl down),
        )
      ]
      | inl (late, bad) ↦ elim (exceeds_cases (now - s.last_checked) (4 * s.period) (omega arith)) [
        | inl (later, worse) ↦ inl (later, rw (bad, worse) refl)
        | inr (in_time, ok) ↦ inr (
          in_time,
          fallen s,
          readiness time_string (fallen s),
          rw (bad, ok) refl,
          refl,
          refl,
          inr (refl, refl, inr late),
        )
      ]
    ]

pub timer_in_time :
    (now : ℕ) (s : State)
    → HasPeriod s
    → now - s.last_checked ≤ 2 * s.period * second
    → check_health_check_timer now s ≡ returns s
unfolding check_health_check_timer
timer_in_time now s (positive, small) in_time =
    elim (exceeds_cases (now - s.last_checked) (2 * s.period) (omega arith)) [
      | inr (_, ok) ↦ rw (ok) refl
      | inl (late, _) ↦ ground arith
    ]

-- What happens to a running service: a tick, a GET of the readiness or a HEAD of it.
pub data Event : Type 0 where
  tick : ℕ → Event
  get_ready head_ready : ℕ → Event

module _ (no_content : ℕ → ℕ) (time_string : ℕ → Str) where
  -- The next state, with the status of a GET.
  unfoldable pub step : Event → State → Call (State × List ℕ)
  step (tick now) s = returns (do_check now s, [])
  step (get_ready now) s =
      get_readiness time_string now s >>= (λ (t, r). returns (t, r.status ∷ []))
  step (head_ready now) s = head_readiness no_content now s >>= (λ (t, status). returns (t, []))

  unfoldable pub run : List Event → State → Call (State × List ℕ)
  run [] s = returns (s, [])
  run (e ∷ es) s = step e s >>= (λ (t, out). run es t >>= (λ (u, rest). returns (u, out ++ rest)))

  -- Each probe comes at most `limit` after the last check.
  abbrev AreInTime : ℕ → ℕ → List Event → Type 0
  AreInTime limit last [] = Unit {0}
  AreInTime limit last (tick now ∷ es) = AreInTime limit now es
  AreInTime limit last (get_ready now ∷ es) = (now - last ≤ limit) × AreInTime limit last es
  AreInTime limit last (head_ready now ∷ es) = (now - last ≤ limit) × AreInTime limit last es

  -- What a run of a healthy service comes to.
  abbrev pub StaysReady : Call (State × List ℕ) → Type 0
  StaysReady panics = ⊥
  StaysReady (returns (t, statuses)) = (t.healthy ≡ true) × All (λ status. status ≡ 200) statuses

  after :
      (out : List ℕ) (answer : Call (State × List ℕ))
      → All (λ status. status ≡ 200) out
      → StaysReady answer
      → StaysReady (answer >>= (λ (u, rest). returns (u, out ++ rest)))
  after out panics ready rest = rest
  after out (returns (t, statuses)) ready (up, rest) = (up, All-append _ out statuses ready rest)

  -- A healthy service stays ready.
  run-StaysReady :
      (es : List Event) (s : State)
      → HasPeriod s
      → s.healthy ≡ true
      → AreInTime (2 * s.period * second) s.last_checked es
      → StaysReady (run es s)
  unfolding run step do_check check get_readiness head_readiness
  run-StaysReady [] s p up in_time = (up, tt)
  run-StaysReady (tick now ∷ es) s p up in_time =
      after [] (run es (do_check now s)) tt (run-StaysReady es (do_check now s) p refl in_time)
  run-StaysReady (get_ready now ∷ es) s p up (soon, in_time) = rw (timer_in_time now s p soon) (
      after ((readiness time_string s).status ∷ []) (run es s) (rw (up) refl, tt)
        (run-StaysReady es s p up in_time))
  run-StaysReady (head_ready now ∷ es) s p up (soon, in_time) =
      rw (timer_in_time now s p soon) (after [] (run es s) tt (run-StaysReady es s p up in_time))

  -- From the start of the health system, with a period between 1 and 2000000000 seconds: while no
  -- probe comes later than two periods after the start and the last tick, the service is healthy,
  -- nothing panics, and every GET of the readiness is answered with 200.
  pub init_health_system-StaysReady :
      (period now : ℕ) (es : List Event)
      → 0 < period
      → period ≤ 2000000000
      → AreInTime (2 * period * second) now es
      → StaysReady (init_health_system (pos period) now >>= run es)
  unfolding init_health_system do_check check
  init_health_system-StaysReady period now es positive small in_time =
      let starts : is_no_interval period ≡ false = ground arith in
      rw (starts) (run-StaysReady es _ (positive, small) refl in_time)

-- A health system that could be started is healthy, with the period of its configuration.
pub started-healthy :
    (n : ℤ) (now : ℕ) (h : State)
    → init_health_system n now ≡ returns h
    → (period : ℕ) × (n ≡ pos period)
      × (0 < period)
      × (h.period ≡ period)
      × (h.healthy ≡ true)
      × (h.last_checked ≡ now)
unfolding init_health_system do_check check
started-healthy (negsuc n) now h e = cc
started-healthy (pos n) now h e = (n, refl, ground arith, ground arith, ground arith, ground arith)
