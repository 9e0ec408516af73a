-- ===== src/Service/Servers.antt =====
-- What `main` of cmd/service/main.go starts, and when.
use cel_service.Base.Text.{Str}
use cel_service.Base.{
  Call, returns, panics, ◌≡◌, ◌⊎◌, ◌↔◌, inl, inr, refl, subst, Bool, true, false, List, [], ◌∷◌,
  Option, none, some, arith, if◌then◌else◌,
}
use cel_service.Config.Load.Ends.{Loads, Loads-unique, Ended, load-Ended}
use cel_service.Config.Load.{Loaded, initial}
use cel_service.Config.{Config, get_default_config_folder, servicename}
use cel_service.Crypt.{TlsResult, exits, configured, generate_tls_config}
use cel_service.Health.{State, init_health_system}
use cel_service.Logging.{ServiceLogger}
use cel_service.Service.Startup.{
  Router, api_router, health_only, HttpServer, Running, Start, panicked, exited, running, Machine,
  service_certificate, init_grpc_server, ssl_servers, plain_servers, config_file_of, with_grpc,
  with_tls, with_health, start_servers, with_tracer, with_config, with_loaded, with_file,
  with_folder, main,
}
use cel_service.Service.{Flags, is_positive, init_config, init_logging, jaeger_config}

-- The servers that serve the api.
abbrev serves_api : Router → Bool
serves_api api_router = true
serves_api health_only = false

unfoldable pub with_api : {C : Type 0} → List (HttpServer C) → List (HttpServer C)
with_api [] = []
with_api (x ∷ xs) = if serves_api x.router then x ∷ with_api xs else with_api xs

module _ {F : Type 0} (m : Machine F) where
  -- The certificate can be made if it is needed.
  abbrev CanEncrypt : Config F → Type 0
  CanEncrypt c =
      (is_positive c.sslport ≡ false)
      ⊎ ((cert : m.crypto.Certificate) × (generate_tls_config m.crypto service_certificate
            ≡ configured cert))

  -- A configuration for which there is a tracer, a ticker for the period of the health checks, the
  -- certificate, if it is needed, and a port for gRPC.
  abbrev ReadyWith : Config F → Type 0
  ReadyWith c =
      (m.new_tracer (jaeger_config servicename c.open_tracing) ≡ none)
      × ((health : State) × (init_health_system c.health_check.period m.now ≡ returns health))
      × CanEncrypt c
      × (m.listen c.grpc_port ≡ none)

  -- Everything that `main` needs: `s` is what is loaded.
  abbrev Ready : Flags → Loaded F → Type 0
  Ready f s =
      ((folder : Str) × (get_default_config_folder m.os ≡ inr folder))
      × ((file : Str) × (config_file_of m f ≡ inr file)
          × Loads m.os m.files (record initial { file = file }) s)
      × ReadyWith (init_config f s.config)

  -- The api is on one server, the one with TLS if there is a port for it, and gRPC has the
  -- certificate of that server, which is missing if there is no such port.
  abbrev Serves : Config F → Running F m.crypto.Certificate → Type 0
  Serves c run =
      (((is_positive c.sslport ≡ true)
          × (cert : m.crypto.Certificate) × (generate_tls_config m.crypto service_certificate
              ≡ configured cert)
          × (with_api run.servers
              ≡ record { listens_on = c.sslport; router = api_router; tls = some cert } ∷ [])
          × (run.grpc ≡ init_grpc_server c (some cert)))
        ⊎ ((is_positive c.sslport ≡ false)
            × (with_api run.servers
                ≡ record { listens_on = c.port; router = api_router; tls = none } ∷ [])
            × ((run.grpc.credentials ≡ some none) ↔ (c.grpc_tsl ≡ true))))
      × (init_health_system c.health_check.period m.now ≡ returns run.health)
      × (run.settings
          ≡ record c { logging = record c.logging { filename = run.settings.logging.filename } })

  abbrev pub Started : Flags → Start F m.crypto.Certificate → Type 0
  Started f (running run) = (s : Loaded F) × Ready f s × Serves (init_config f s.config) run
  Started f (panicked message) = (s : Loaded F) → ¬ Ready f s
  Started f (exited message) = (s : Loaded F) → ¬ Ready f s

  -- What a configuration leads to.
  abbrev StartedWith : Config F → Start F m.crypto.Certificate → Type 0
  StartedWith c (running run) = ReadyWith c × Serves c run
  StartedWith c (panicked message) = ¬ ReadyWith c
  StartedWith c (exited message) = ¬ ReadyWith c

  credentials_iff :
      (x : Option m.crypto.Certificate) (b : Bool)
      → ((if b then some x else none) ≡ some x) ↔ (b ≡ true)
  credentials_iff x true = (λ e. refl, λ e. refl)
  credentials_iff x false = (λ e. cc, λ e. cc)

  -- The configuration `c` with another name for the file of the log.
  abbrev renamed : Config F → Str → Config F
  renamed c name = record c { logging = record c.logging { filename = name } }

  module _ (c : Config F) (log : ServiceLogger) (name : Str)
      (tracer : m.new_tracer (jaeger_config servicename c.open_tracing) ≡ none) where
    with_grpc-StartedWith :
        (run : Running F m.crypto.Certificate)
        → (init_health_system c.health_check.period m.now ≡ returns run.health)
        → CanEncrypt c
        → Serves c run
        → (l : Option Str) → m.listen c.grpc_port ≡ l
        → StartedWith c (with_grpc m run l)
    with_grpc-StartedWith run healthy encrypts serves (some err) heard =
        λ (traced, a_health, can, listens). ground arith
    with_grpc-StartedWith run healthy encrypts serves none heard =
        ((tracer, (run.health, healthy), encrypts, heard), serves)

    module _ (health : State)
        (healthy : init_health_system c.health_check.period m.now ≡ returns health) where
      with_tls-StartedWith :
          (r : TlsResult m.crypto.Certificate)
          → is_positive c.sslport ≡ true
          → generate_tls_config m.crypto service_certificate ≡ r
          → StartedWith c (with_tls m (renamed c name) log health r)
      unfolding ssl_servers with_api init_grpc_server
      with_tls-StartedWith (exits message) ssl made = λ (traced, a_health, can, listens). elim can [
        | inl plain ↦ ground arith
        | inr (cert, made') ↦ ground arith
      ]
      with_tls-StartedWith (configured cert) ssl made =
          with_grpc-StartedWith _ healthy (inr (cert, made))
            (inl (ssl, cert, made, refl, refl), healthy, refl) _ refl

      start_servers-StartedWith :
          (ssl : Bool)
          → is_positive c.sslport ≡ ssl
          → StartedWith c (start_servers m (renamed c name) log health ssl)
      unfolding plain_servers with_api init_grpc_server
      start_servers-StartedWith false plain =
          with_grpc-StartedWith _ healthy (inl plain)
            (inr (plain, refl, credentials_iff none c.grpc_tsl), healthy, refl) _ refl
      start_servers-StartedWith true ssl = with_tls-StartedWith _ ssl refl

    with_health-StartedWith :
        (h : Call State)
        → init_health_system c.health_check.period m.now ≡ h
        → StartedWith c (with_health m (renamed c name) log h)
    with_health-StartedWith panics e = λ (traced, (health, starts), can, listens). ground arith
    with_health-StartedWith (returns health) e =
        start_servers-StartedWith health e (is_positive c.sslport) refl

  with_tracer-StartedWith :
      (c : Config F) (log : ServiceLogger) (name : Str) (t : Option Str)
      → m.new_tracer (jaeger_config servicename c.open_tracing) ≡ t
      → StartedWith c (with_tracer m (renamed c name) log t)
  with_tracer-StartedWith c log name (some err) e = λ ready. ground (arith, ready.0)
  with_tracer-StartedWith c log name none e = with_health-StartedWith c log name e _ refl

  with_config-StartedWith :
      (f : Flags) (log : ServiceLogger) (c : Config F)
      → StartedWith (init_config f c) (with_config m f log c)
  unfolding init_logging
  with_config-StartedWith f log c = with_tracer-StartedWith (init_config f c) _ _ _ refl

  module _ (f : Flags) (log : ServiceLogger) where
    module _ (folder file : Str) (named : get_default_config_folder m.os ≡ inr folder)
        (chosen : config_file_of m f ≡ inr file) where
      unready :
          (s s' : Loaded F)
          → Loads m.os m.files (record initial { file = file }) s
          → ¬ ReadyWith (init_config f s.config)
          → ¬ Ready f s'
      unready s s' loads not_ready (a_folder, (file', chosen', loads'), ready) =
          let same : file' ≡ file = ground arith in
          let also = subst (λ x. Loads m.os m.files (record initial { file = x }) s') same loads' in
          let one = Loads-unique m.os m.files (record initial { file = file }) s' s also loads in
          not_ready (subst (λ c. ReadyWith (init_config f c)) one ready)

      by_start :
          (s : Loaded F) (start : Start F m.crypto.Certificate)
          → Loads m.os m.files (record initial { file = file }) s
          → StartedWith (init_config f s.config) start
          → Started f start
      by_start s (running run) loads (ready, serves) =
          (s, ((folder, named), (file, chosen, loads), ready), serves)
      by_start s (panicked message) loads not_ready = λ s'. unready s s' loads not_ready
      by_start s (exited message) loads not_ready = λ s'. unready s s' loads not_ready

      with_loaded-Started :
          (r : Loaded F × Option Str)
          → Ended m.os m.files (record initial { file = file }) r
          → Started f (with_loaded m f log r)
      with_loaded-Started (s, none) loads =
          by_start s _ loads (with_config-StartedWith f log s.config)
      with_loaded-Started (s, some err) (missing, left) =
          λ s' (a_folder, (file', chosen', loads'), ready).
            let same : file' ≡ file = ground arith in
            missing s'
              (subst (λ x. Loads m.os m.files (record initial { file = x }) s') same loads')

    with_file-Started :
        (folder : Str) (x : Str ⊎ Str)
        → get_default_config_folder m.os ≡ inr folder
        → config_file_of m f ≡ x
        → Started f (with_file m f log x)
    with_file-Started folder (inl message) named none_chosen =
        λ s (a_folder, (file, chosen, loads), ready). ground arith
    with_file-Started folder (inr file) named chosen =
        with_loaded-Started folder file named chosen _
          (load-Ended m.os m.files (record initial { file = file }))

    with_folder-Started :
        (x : Str ⊎ Str) → get_default_config_folder m.os ≡ x → Started f (with_folder m f log x)
    with_folder-Started (inl err) unnamed = λ s ((folder, named), a_file, ready). ground arith
    with_folder-Started (inr folder) named = with_file-Started folder _ named refl

    -- The service starts exactly if there is a folder for its configuration, the file of the
    -- configuration is loaded, a tracer can be made, a ticker for the period of the health checks,
    -- and, if a port for TLS is set, a certificate, and the gRPC server can listen.
    -- One server then serves the api: with TLS and this certificate on the port for TLS, if there is
    -- one, else without TLS on the other port. If the gRPC server is to use TLS, it uses the same
    -- certificate, and a TLS configuration that is nil if no port for TLS is set. The settings are those
    -- of the file with the flags over them, but for the file name of the log, and the health checks
    -- have begun.
    pub main-Started : Started f (main m f log)
    unfolding main
    main-Started = with_folder-Started (get_default_config_folder m.os) refl
