-- ===== src/Service/Lifecycle/Ends.antt =====
-- How the process of cmd/service/main.go can end.
use cel_service.Base.Int.{ℤ}
use cel_service.Base.Text.{Str, text}
use cel_service.Base.{
  ◌≡◌, ◌↔◌, inl, inr, refl, true, false, Bool-cases, List, [], ◌∷◌, ◌++◌, Option, none, some, ℕ,
  if◌then◌else◌,
}
use cel_service.Config.{Config}
use cel_service.Service.Lifecycle.{
  MainPhase, waiting, interrupted, srv_down, servers_down, grpc_stopped, GrpcPhase, entered,
  listening, made, serving, returned, ServerCall, shutdown_srv, shutdown_sslsrv, stop_grpc,
  finished, nil_pointer, listen_failed, Process, alive, ended, is_made, Step, interrupt, shut_srv,
  shut_sslsrv, no_sslsrv, stop, stop_nil, exit, listens, listens_not, make, serve, serve_returns,
  Run, here, then_on, begun,
}
use cel_service.Service.{is_positive}

module _ {F : Type 0} (c : Config F) (listen : ℤ → Option Str) where
  -- The shutdown of all HTTP servers.
  abbrev pub all_down : List ServerCall
  all_down =
      if is_positive c.sslport then shutdown_sslsrv ∷ shutdown_srv ∷ [] else shutdown_srv ∷ []

  -- The servers that are shut down once `main` has come so far, the last one first.
  abbrev closed : MainPhase → List ServerCall
  closed waiting = []
  closed interrupted = []
  closed srv_down = shutdown_srv ∷ []
  closed servers_down = all_down
  closed grpc_stopped = stop_grpc ∷ all_down

  -- The port could be listened on, if `initGRPCServer` is past that.
  abbrev Heard : GrpcPhase → Type 0
  Heard entered = Unit {0}
  Heard g = listen c.grpc_port ≡ none

  abbrev StopsMade : MainPhase → GrpcPhase → Type 0
  StopsMade grpc_stopped g = is_made g ≡ true
  StopsMade m g = Unit {0}

  abbrev pub Explained : Process → Type 0
  Explained (alive m g calls) = (calls ≡ closed m) × Heard g × StopsMade m g
  Explained (ended finished g calls) =
      (calls ≡ stop_grpc ∷ all_down) × (is_made g ≡ true) × (listen c.grpc_port ≡ none)
  Explained (ended nil_pointer g calls) = (calls ≡ all_down) × (is_made g ≡ false)
  Explained (ended (listen_failed message) g calls) =
      (g ≡ entered)
      × (err : Str) × (listen c.grpc_port ≡ some err)
      × (message ≡ text "failed to listen: " ++ err)

  free_if_made : (g : GrpcPhase) → Heard g → is_made g ≡ true → listen c.grpc_port ≡ none
  free_if_made entered h e = cc
  free_if_made listening h e = h
  free_if_made made h e = h
  free_if_made serving h e = h
  free_if_made returned h e = h

  stops_later :
      (m : MainPhase) (g g' : GrpcPhase)
      → (is_made g ≡ true → is_made g' ≡ true)
      → StopsMade m g
      → StopsMade m g'
  stops_later waiting g g' still e = tt
  stops_later interrupted g g' still e = tt
  stops_later srv_down g g' still e = tt
  stops_later servers_down g g' still e = tt
  stops_later grpc_stopped g g' still e = still e

  step-Explained : {p q : Process} → Step c listen p q → Explained p → Explained q
  step-Explained interrupt (same, heard, stops) = (same, heard, tt)
  step-Explained shut_srv (same, heard, stops) = (rw (same) refl, heard, tt)
  step-Explained (shut_sslsrv ssl) (same, heard, stops) = (rw (same, ssl) refl, heard, tt)
  step-Explained (no_sslsrv plain) (same, heard, stops) = (rw (same, plain) refl, heard, tt)
  step-Explained (stop is) (same, heard, stops) = (rw (same) refl, heard, is)
  step-Explained (stop_nil not_yet) (same, heard, stops) = (same, not_yet)
  step-Explained (exit {g}) (same, heard, stops) = (same, stops, free_if_made g heard stops)
  step-Explained (listens {m} e) (same, heard, stops) =
      (same, e, stops_later m entered listening (λ i. cc) stops)
  step-Explained (listens_not {m} {calls} {err} e) (same, heard, stops) = (refl, err, e, refl)
  step-Explained (make {m}) (same, heard, stops) =
      (same, heard, stops_later m listening made (λ i. cc) stops)
  step-Explained (serve {m}) (same, heard, stops) =
      (same, heard, stops_later m made serving (λ i. refl) stops)
  step-Explained (serve_returns {m}) (same, heard, stops) =
      (same, heard, stops_later m serving returned (λ i. refl) stops)

  Run-Explained : {n : ℕ} {p q : Process} → Run c listen n p q → Explained p → Explained q
  Run-Explained here e = e
  Run-Explained (then_on r s) e = step-Explained s (Run-Explained r e)

  -- However the goroutine and `main` take turns: until the process ends, the servers were shut down
  -- in the order of the code, as far as `main` has come. If it ended with `os.Exit(0)`, `srv` was shut
  -- down, then `sslsrv`, if and only if there is a port for TLS, and then the gRPC server stopped,
  -- which had been made, on a port that can be listened on. If it ended with the nil pointer, the
  -- HTTP servers were shut down and the gRPC server was not made. If it ended with `Fatalf`, the port
  -- could not be listened on, and the message tells why.
  pub reachable-Explained : (p : Process) (n : ℕ) → Run c listen n begun p → Explained p
  reachable-Explained p n r = Run-Explained r (refl, tt, tt)

  -- The gRPC server is made, and the process does not end with the nil pointer.
  abbrev Safe : Process → Type 0
  Safe (alive m g calls) = is_made g ≡ true
  Safe (ended nil_pointer g calls) = ⊥
  Safe (ended e g calls) = Unit {0}

  step-Safe : {p q : Process} → Step c listen p q → Safe p → Safe q
  step-Safe interrupt e = e
  step-Safe shut_srv e = e
  step-Safe (shut_sslsrv ssl) e = e
  step-Safe (no_sslsrv plain) e = e
  step-Safe (stop is) e = e
  step-Safe (stop_nil not_yet) e = cc
  step-Safe exit e = tt
  step-Safe (listens h) e = cc
  step-Safe (listens_not h) e = cc
  step-Safe make e = refl
  step-Safe serve e = refl
  step-Safe serve_returns e = refl

  Run-Safe : {n : ℕ} {p q : Process} → Run c listen n p q → Safe p → Safe q
  Run-Safe here e = e
  Run-Safe (then_on r s) e = step-Safe s (Run-Safe r e)

  abbrev pub HitsNil : GrpcPhase → List ServerCall → Type 0
  HitsNil g calls =
      (n : ℕ) × (g' : GrpcPhase) × (calls' : List ServerCall) × Run c listen n
        (alive interrupted g calls) (ended nil_pointer g' calls')

  never_nil : (g : GrpcPhase) (calls : List ServerCall) → is_made g ≡ true → ¬ HitsNil g calls
  never_nil g calls is (n, g', calls', r) = Run-Safe r is

  straight : (g : GrpcPhase) (calls : List ServerCall) → is_made g ≡ false → HitsNil g calls
  straight g calls not_yet = elim (Bool-cases (is_positive c.sslport)) [
    | inl ssl ↦ (
      3,
      g,
      shutdown_sslsrv ∷ shutdown_srv ∷ calls,
      then_on (then_on (then_on here shut_srv) (shut_sslsrv ssl)) (stop_nil not_yet),
    )
    | inr plain ↦ (
      3,
      g,
      shutdown_srv ∷ calls,
      then_on (then_on (then_on here shut_srv) (no_sslsrv plain)) (stop_nil not_yet),
    )
  ]

  -- From the interrupt on the process can end with the nil pointer exactly if `initGRPCServer` had
  -- not made the server when the interrupt came.
  pub nil_pointer_iff :
      (g : GrpcPhase) (calls : List ServerCall) → HitsNil g calls ↔ (is_made g ≡ false)
  nil_pointer_iff g calls = (
    λ hits. elim (Bool-cases (is_made g)) [
      | inl is ↦ absurd (never_nil g calls is hits)
      | inr not_yet ↦ not_yet
    ],
    straight g calls,
  )
