-- ===== src/Service.antt =====
-- cmd/service/main.go: the flags of the command line, the settings of the service and its api key.
pub mod Routes
pub mod Guarded
pub mod Evaluated
pub mod Session
pub mod Startup
pub mod Servers
pub mod Lifecycle
pub mod Settings
use cel_service.Base.Int.{ℤ, pos, negsuc}
use cel_service.Base.Text.{Str, text, is_empty, to_lower, hex}
use cel_service.Base.{
  ℕ, zero, suc, Bool, true, false, ◌&&◌, not, List, [], ◌++◌, ◌⊎◌, inl, inr, if◌then◌else◌,
}
use cel_service.Config.{Config, Folders, OpenTracing, replace_configdir, servicename}
use cel_service.Logging.{ServiceLogger, Output, Written, set_level, errorf}
use cel_service.Logging

-- The values of the flags; `grpctsl_given` tells whether that flag stood on the command line.
pub record Flags : Type 0 where
  pub port : ℤ
  pub sslport : ℤ
  pub config_file : Str
  pub service_url : Str
  pub grpcport : ℤ
  pub grpctsl : Bool
  pub grpctsl_given : Bool

-- The values with nothing on the command line; the first argument is `config.File`.
unfoldable pub default_flags : Str → Flags
default_flags file = record {
  port = pos 0;
  sslport = pos 0;
  config_file = file;
  service_url = [];
  grpcport = pos 50051;
  grpctsl = true;
  grpctsl_given = false;
}

-- `n > 0`
abbrev pub is_positive : ℤ → Bool
is_positive (pos zero) = false
is_positive (pos (suc n)) = true
is_positive (negsuc n) = false

-- The file name of the log, and what is written; the name is empty after an error. `format` is
-- `fmt.Sprintf` on an error.
abbrev log_file : (Str → Str → Str) → Str ⊎ Str → ServiceLogger → Str × List Written
log_file format (inl err) s = ([], errorf format (text "error on config dir: %v") err s)
log_file format (inr name) s = (name, [])

module _ {F : Type 0} where
  unfoldable pub init_config : Flags → Config F → Config F
  init_config f c = record c {
    port = if is_positive f.port then f.port else c.port;
    sslport = if is_positive f.sslport then f.sslport else c.sslport;
    service_url = if not (is_empty f.service_url) then f.service_url else c.service_url;
    grpc_port = if is_positive f.grpcport then f.grpcport else c.grpc_port;
    grpc_tsl = if f.grpctsl_given then f.grpctsl else c.grpc_tsl;
  }

  unfoldable pub init_logging :
      (Str → Str → Str)
      → Folders
      → Config F
      → ServiceLogger
      → Config F × ServiceLogger × Output × List Written
  init_logging format os c s =
      let levelled = set_level c.logging.level s in
      let (name, written) = log_file format (replace_configdir os c.logging.filename) levelled in
      let (s', output) =
        Logging.init
          (record levelled { gelf_url = c.logging.gelf_url; gelf_port = c.logging.gelf_port }) in
      (record c { logging = record c.logging { filename = name } }, s', output, written)

-- The configuration of the tracer, with its sampler and its reporter.
pub record JaegerConfig : Type 0 where
  pub service_name : Str
  pub sampler_type : Str
  pub sampler_param : ℕ
  pub log_spans : Bool
  pub local_agent_host_port : Str
  pub collector_endpoint : Str
  pub disabled : Bool

-- Whether `initJaeger` disables the tracer.
unfoldable pub tracing_disabled : OpenTracing → Bool
tracing_disabled c = is_empty c.endpoint && is_empty c.host

-- What `initJaeger` makes the tracer of.
unfoldable pub jaeger_config : Str → OpenTracing → JaegerConfig
jaeger_config name c = record {
  service_name = name;
  sampler_type = text "const";
  sampler_param = 1;
  log_spans = true;
  local_agent_host_port = c.host;
  collector_endpoint = c.endpoint;
  disabled = tracing_disabled c;
}

-- `md5` is `md5.Sum`, of which the bytes are printed.
unfoldable pub get_apikey : (Str → Str) → Str
get_apikey md5 = to_lower (hex (md5 (servicename ++ (text "_" ++ text "default"))))
