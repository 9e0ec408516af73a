-- ===== src/Service/Startup.antt =====
-- `main` of cmd/service/main.go, from the flags to the servers that it starts. What the log says on
-- the way and the end of the servers on an interrupt are left out.
use cel_service.Base.Int.{ℤ, pos}
use cel_service.Base.Text.{Str, text, is_empty}
use cel_service.Base.{
  ℕ, Call, returns, panics, Bool, true, false, List, [], ◌∷◌, ◌++◌, Option, none, some, ◌⊎◌, inl,
  inr, if◌then◌else◌,
}
use cel_service.Config.Load.{Loaded, Files, initial, load}
use cel_service.Config.{Config, Folders, get_default_config_folder, servicename}
use cel_service.Crypt.{
  Crypto, GenerateCertificate, TlsResult, exits, configured, generate_tls_config,
}
use cel_service.Health.{State, init_health_system}
use cel_service.Logging.{ServiceLogger}
use cel_service.Service.{Flags, is_positive, init_config, init_logging, JaegerConfig, jaeger_config}

-- The two routers
pub data Router : Type 0 where
  api_router health_only : Router

-- A server on a port, with the certificate of its TLS configuration if it has one.
pub record HttpServer (C : Type 0) : Type 0 where
  pub listens_on : ℤ
  pub router : Router
  pub tls : Option C

-- `none` is a server without TLS, and `some none` one with TLS and a configuration that is nil.
pub record GrpcServer (C : Type 0) : Type 0 where
  pub grpc_listens_on : ℤ
  pub credentials : Option (Option C)

pub record Running (F C : Type 0) : Type 0 where
  pub settings : Config F
  pub logger : ServiceLogger
  pub servers : List (HttpServer C)
  pub grpc : GrpcServer C
  pub health : State

pub data Start (F C : Type 0) : Type 0 where
  panicked : Str → Start F C
  exited : Str → Start F C
  running : Running F C → Start F C

-- What `main` uses of its surroundings: `format` is `fmt.Sprintf` on an error, and `new_tracer`
-- the error of `NewTracer` of a configuration, `now` is the time of the first
-- check, and `listen` is the error of `net.Listen` on a port.
pub record Machine (F : Type 0) : Type 1 where
  pub os : Folders
  pub files : Files F
  pub crypto : Crypto
  pub format : Str → Str → Str
  pub new_tracer : JaegerConfig → Option Str
  pub now : ℕ
  pub listen : ℤ → Option Str

-- The certificate of the https server; its time is given in nanoseconds.
abbrev pub service_certificate : GenerateCertificate
service_certificate = record {
  organization = text "MCS";
  host = text "127.0.0.1";
  valid_from = [];
  valid_for = pos 315360000000000000;
  is_ca = false;
  rsa_bits = pos 0;
  ecdsa_curve = text "P384";
  ed25519_key = false;
}

-- `initGRPCServer`
unfoldable pub init_grpc_server : {F C : Type 0} → Config F → Option C → GrpcServer C
init_grpc_server c tls_config = record {
  grpc_listens_on = c.grpc_port;
  credentials = if c.grpc_tsl then some tls_config else none;
}

-- The servers with TLS, and without it.
unfoldable pub ssl_servers : {F C : Type 0} → Config F → C → List (HttpServer C)
ssl_servers c tls_config =
    record { listens_on = c.sslport; router = api_router; tls = some tls_config }
    ∷ record { listens_on = c.port; router = health_only; tls = none }
    ∷ []

unfoldable pub plain_servers : {F C : Type 0} → Config F → List (HttpServer C)
plain_servers c = record { listens_on = c.port; router = api_router; tls = none } ∷ []

module _ {F : Type 0} (m : Machine F) where
  -- The name of the configuration file, or the message with which `main` exits.
  unfoldable pub config_file_of : Flags → Str ⊎ Str
  config_file_of f =
      if is_empty f.config_file
      then (elim (get_default_config_folder m.os) [
        | inl err ↦ inl (text "can't load config file: " ++ err)
        | inr folder ↦ elim (m.os.mkdir_all (folder ++ text "/service/")) [
          | some err ↦ inl (text "can't load config file: " ++ err)
          | none ↦ inr (folder ++ (text "/service/" ++ text "/service.yaml"))
        ]
      ])
      else inr f.config_file

  -- `log.Fatalf` ends the program if the gRPC server cannot listen.
  abbrev pub with_grpc : Running F m.crypto.Certificate → Option Str → Start F m.crypto.Certificate
  with_grpc run (some err) = exited (text "failed to listen: " ++ err)
  with_grpc run none = running run

  abbrev pub with_tls :
      Config F
      → ServiceLogger
      → State
      → TlsResult m.crypto.Certificate
      → Start F m.crypto.Certificate
  with_tls c log health (exits message) = exited message
  with_tls c log health (configured tls_config) =
      with_grpc
        (record {
          settings = c;
          logger = log;
          servers = ssl_servers c tls_config;
          grpc = init_grpc_server c (some tls_config);
          health = health;
        })
        (m.listen c.grpc_port)

  abbrev pub start_servers : Config F → ServiceLogger → State → Bool → Start F m.crypto.Certificate
  start_servers c log health false =
      with_grpc
        (record {
          settings = c;
          logger = log;
          servers = plain_servers c;
          grpc = init_grpc_server c none;
          health = health;
        })
        (m.listen c.grpc_port)
  start_servers c log health true =
      with_tls c log health (generate_tls_config m.crypto service_certificate)

  -- After `InitHealthSystem`: a panic of its ticker ends the program.
  abbrev pub with_health : Config F → ServiceLogger → Call State → Start F m.crypto.Certificate
  with_health c log panics = panicked (text "non-positive interval for NewTicker")
  with_health c log (returns health) = start_servers c log health (is_positive c.sslport)

  -- After `initLogging`: a tracer that cannot be made ends in a panic.
  abbrev pub with_tracer : Config F → ServiceLogger → Option Str → Start F m.crypto.Certificate
  with_tracer c log (some err) = panicked (text "ERROR: cannot init Jaeger: " ++ err)
  with_tracer c log none = with_health c log (init_health_system c.health_check.period m.now)

  abbrev pub with_config : Flags → ServiceLogger → Config F → Start F m.crypto.Certificate
  with_config f log c =
      let (c', log', output, written) = init_logging m.format m.os (init_config f c) log in
      with_tracer c' log' (m.new_tracer (jaeger_config servicename c'.open_tracing))

  abbrev pub with_loaded :
      Flags → ServiceLogger → Loaded F × Option Str → Start F m.crypto.Certificate
  with_loaded f log (s, some err) = exited (text "can't load config file: " ++ err)
  with_loaded f log (s, none) = with_config f log s.config

  abbrev pub with_file : Flags → ServiceLogger → Str ⊎ Str → Start F m.crypto.Certificate
  with_file f log (inl message) = exited message
  with_file f log (inr file) =
      with_loaded f log (load m.os m.files (record initial { file = file }))

  abbrev pub with_folder : Flags → ServiceLogger → Str ⊎ Str → Start F m.crypto.Certificate
  with_folder f log (inl err) = panicked (text "can't get config folder")
  with_folder f log (inr folder) = with_file f log (config_file_of f)

  unfoldable pub main : Flags → ServiceLogger → Start F m.crypto.Certificate
  main f log = with_folder f log (get_default_config_folder m.os)
