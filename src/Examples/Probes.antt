-- ===== src/Examples/Probes.antt =====
-- Tests of internal/health/health.go.
use cel_service.Base.Int.{pos}
use cel_service.Base.Text.{text}
use cel_service.Base.{
  ◌*◌, ◌-◌, ◌≤◌, ◌<◌, ◌≡◌, ◌⊎◌, refl, true, false, List, [], ◌∷◌, returns, panics, ◌>>=◌, arith,
}
use cel_service.Health.Readiness.{
  get_readiness_cases, Event, tick, get_ready, head_ready, run, step, StaysReady,
  init_health_system-StaysReady,
}
use cel_service.Health.{
  State, Msg, check, do_check, init_health_system, exceeds, check_health_check_timer, get_readiness,
  head_readiness,
}
use cel_service.Http.{Response}

program : Unit {0}
unfolding text check do_check init_health_system exceeds check_health_check_timer get_readiness
    head_readiness step run
program = tt

abbrev started : State
started = record {
  my_healthy = true;
  health_message = [];
  healthy = true;
  last_checked = 0;
  period = 10;
}

-- 21 seconds after the check
late :
    (t : State) × (r : Response Msg) × (get_readiness (λ n. []) 21000000000 started
      ≡ returns (t, r))
    × (r.status ≡ 503)
unfolding program
late = (_, _, refl, refl)

too_late : get_readiness (λ n. []) 41000000000 started ≡ panics
unfolding program
too_late = refl

get_readiness_cases_example :
    ((40 * 1000000000 < 21000000000 - 0) × (get_readiness (λ n. []) 21000000000 started ≡ panics))
    ⊎ ((21000000000 - 0 ≤ 40 * 1000000000)
        × (t : State) × (r : Response Msg) × (get_readiness (λ n. []) 21000000000 started
            ≡ returns (t, r))
        × (t.last_checked ≡ 0)
        × (t.period ≡ 10)
        × (((r.status ≡ 200) × (t ≡ started) × (true ≡ true) × (21000000000 - 0 ≤ 20 * 1000000000))
            ⊎ ((r.status ≡ 503)
                × (t.healthy ≡ false)
                × ((true ≡ false) ⊎ (20 * 1000000000 < 21000000000 - 0)))))
get_readiness_cases_example =
    get_readiness_cases (λ n. []) 21000000000 started (omega arith, omega arith)

abbrev events : List Event
events =
    get_ready 20000000000 ∷ tick 30000000000 ∷ head_ready 40000000000 ∷ get_ready 50000000000 ∷ []

init_health_system-StaysReady_example :
    StaysReady (λ n. n) (λ n. []) (init_health_system (pos 10) 0 >>= run (λ n. n) (λ n. []) events)
init_health_system-StaysReady_example =
    init_health_system-StaysReady (λ n. n) (λ n. []) 10 0 events (omega arith) (omega arith)
      (omega arith, (omega arith, (omega arith, tt)))
