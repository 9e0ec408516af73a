-- ===== src/Service/Lifecycle/Closing.antt =====
-- The end of the process of cmd/service/main.go comes after few steps.
use cel_service.Base.Int.{ℤ}
use cel_service.Base.Text.{Str}
use cel_service.Base.{ℕ, ◌+◌, ◌≤◌, ◌<◌, inl, inr, Bool-cases, List, Option, arith}
use cel_service.Config.{Config}
use cel_service.Service.Lifecycle.{
  MainPhase, waiting, interrupted, srv_down, servers_down, grpc_stopped, GrpcPhase, entered,
  listening, made, serving, returned, ServerCall, Process, alive, ended, is_made, Step, interrupt,
  shut_srv, shut_sslsrv, no_sslsrv, stop, stop_nil, exit, listens, listens_not, make, serve,
  serve_returns, Run, here, then_on,
}
use cel_service.Service.{is_positive}

abbrev main_left : MainPhase → ℕ
main_left waiting = 5
main_left interrupted = 4
main_left srv_down = 3
main_left servers_down = 2
main_left grpc_stopped = 1

abbrev grpc_left : GrpcPhase → ℕ
grpc_left entered = 4
grpc_left listening = 3
grpc_left made = 2
grpc_left serving = 1
grpc_left returned = 0

abbrev steps_left : Process → ℕ
steps_left (alive m g calls) = main_left m + grpc_left g
steps_left (ended e g calls) = 0

abbrev pub HasEnded : Process → Type 0
HasEnded (alive m g calls) = ⊥
HasEnded (ended e g calls) = Unit {0}

module _ {F : Type 0} (c : Config F) (listen : ℤ → Option Str) where
  step_left : {p q : Process} → Step c listen p q → steps_left q < steps_left p
  step_left interrupt = omega arith
  step_left shut_srv = omega arith
  step_left (shut_sslsrv ssl) = omega arith
  step_left (no_sslsrv plain) = omega arith
  step_left (stop is) = omega arith
  step_left (stop_nil not_yet) = omega arith
  step_left exit = omega arith
  step_left (listens h) = omega arith
  step_left (listens_not h) = omega arith
  step_left make = omega arith
  step_left serve = omega arith
  step_left serve_returns = omega arith

  bounded_by_left : {n : ℕ} {p q : Process} → Run c listen n p q → n + steps_left q ≤ steps_left p
  bounded_by_left here = omega arith
  bounded_by_left (then_on r s) = omega (arith, bounded_by_left r, step_left s)

  abbrev pub IsStuck : Process → Type 0
  IsStuck p = (q : Process) → ¬ Step c listen p q

  stuck-HasEnded : (p : Process) → IsStuck p → HasEnded p
  stuck-HasEnded (alive waiting g calls) stuck = stuck _ interrupt
  stuck-HasEnded (alive interrupted g calls) stuck = stuck _ shut_srv
  stuck-HasEnded (alive srv_down g calls) stuck = elim (Bool-cases (is_positive c.sslport)) [
    | inl ssl ↦ stuck _ (shut_sslsrv ssl)
    | inr plain ↦ stuck _ (no_sslsrv plain)
  ]
  stuck-HasEnded (alive servers_down g calls) stuck = elim (Bool-cases (is_made g)) [
    | inl is ↦ stuck _ (stop is)
    | inr not_yet ↦ stuck _ (stop_nil not_yet)
  ]
  stuck-HasEnded (alive grpc_stopped g calls) stuck = stuck _ exit
  stuck-HasEnded (ended e g calls) stuck = tt

  grpc_left_max : (g : GrpcPhase) → grpc_left g ≤ 4
  grpc_left_max entered = omega arith
  grpc_left_max listening = omega arith
  grpc_left_max made = omega arith
  grpc_left_max serving = omega arith
  grpc_left_max returned = omega arith

  -- Once the interrupt has come, at most eight more steps are taken, in whatever order the goroutine
  -- and `main` take turns, and when no step is left the process has ended.
  pub interrupted_ends :
      (n : ℕ) (g : GrpcPhase) (calls : List ServerCall) (q : Process)
      → Run c listen n (alive interrupted g calls) q
      → (n ≤ 8) × (IsStuck q → HasEnded q)
  interrupted_ends n g calls q r =
      (omega (arith, bounded_by_left r, grpc_left_max g), stuck-HasEnded q)
