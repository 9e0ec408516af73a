-- ===== src/Service/Lifecycle.antt =====
-- The end of `main` of cmd/service/main.go, from the wait for an interrupt on, and `initGRPCServer`,
-- which runs beside it in a goroutine of its own. A step is a call of one of the two.
pub mod Ends
pub mod Closing
use cel_service.Base.Int.{ℤ}
use cel_service.Base.Text.{Str, text}
use cel_service.Base.{◌≡◌, Bool, true, false, List, [], ◌∷◌, ◌++◌, Option, none, some, zero, suc, ℕ}
use cel_service.Config.{Config}
use cel_service.Service.{is_positive}

-- `main` waits for the interrupt; then it shuts `srv` down, `sslsrv`, if there is one, and stops
-- `grpcServer`, which is the last but for `os.Exit`.
pub data MainPhase : Type 0 where
  waiting interrupted srv_down servers_down grpc_stopped : MainPhase

-- `initGRPCServer` is entered, listens on its port, makes the server, serves, and returns.
pub data GrpcPhase : Type 0 where
  entered listening made serving returned : GrpcPhase

pub data ServerCall : Type 0 where
  shutdown_srv shutdown_sslsrv stop_grpc : ServerCall

-- How the process ends: with `os.Exit(0)`, with the nil pointer that `grpcServer` still is, or with
-- the message of `Fatalf`.
pub data End : Type 0 where
  finished nil_pointer : End
  listen_failed : Str → End

-- The calls of servers come latest first.
pub data Process : Type 0 where
  alive : MainPhase → GrpcPhase → List ServerCall → Process
  ended : End → GrpcPhase → List ServerCall → Process

-- The variable `grpcServer` is set.
abbrev pub is_made : GrpcPhase → Bool
is_made entered = false
is_made listening = false
is_made made = true
is_made serving = true
is_made returned = true

-- `main` begins to wait, and the goroutine is there.
abbrev pub begun : Process
begun = alive waiting entered []

-- `listen` is `net.Listen` on the port.
module _ {F : Type 0} (c : Config F) (listen : ℤ → Option Str) where
  pub data Step : Process → Process → Type 0 where
    interrupt :
        {g : GrpcPhase} {calls : List ServerCall}
        → Step (alive waiting g calls) (alive interrupted g calls)
    shut_srv :
        {g : GrpcPhase} {calls : List ServerCall}
        → Step (alive interrupted g calls) (alive srv_down g (shutdown_srv ∷ calls))
    shut_sslsrv :
        {g : GrpcPhase} {calls : List ServerCall}
        → is_positive c.sslport ≡ true
        → Step (alive srv_down g calls) (alive servers_down g (shutdown_sslsrv ∷ calls))
    no_sslsrv :
        {g : GrpcPhase} {calls : List ServerCall}
        → is_positive c.sslport ≡ false
        → Step (alive srv_down g calls) (alive servers_down g calls)
    stop :
        {g : GrpcPhase} {calls : List ServerCall}
        → is_made g ≡ true
        → Step (alive servers_down g calls) (alive grpc_stopped g (stop_grpc ∷ calls))
    stop_nil :
        {g : GrpcPhase} {calls : List ServerCall}
        → is_made g ≡ false
        → Step (alive servers_down g calls) (ended nil_pointer g calls)
    exit :
        {g : GrpcPhase} {calls : List ServerCall}
        → Step (alive grpc_stopped g calls) (ended finished g calls)
    listens :
        {m : MainPhase} {calls : List ServerCall}
        → listen c.grpc_port ≡ none
        → Step (alive m entered calls) (alive m listening calls)
    listens_not :
        {m : MainPhase} {calls : List ServerCall} {err : Str}
        → listen c.grpc_port ≡ some err
        → Step
            (alive m entered calls)
            (ended (listen_failed (text "failed to listen: " ++ err)) entered calls)
    make :
        {m : MainPhase} {calls : List ServerCall}
        → Step (alive m listening calls) (alive m made calls)
    serve :
        {m : MainPhase} {calls : List ServerCall}
        → Step (alive m made calls) (alive m serving calls)
    serve_returns :
        {m : MainPhase} {calls : List ServerCall}
        → Step (alive m serving calls) (alive m returned calls)

  -- A number of steps, one after the other.
  pub data Run : ℕ → Process → Process → Type 0 where
    here : {p : Process} → Run zero p p
    then_on : {n : ℕ} {p q r : Process} → Run n p q → Step q r → Run (suc n) p r
