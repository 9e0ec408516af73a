-- ===== src/Config.antt =====
-- internal/config/config.go: the configuration of the service, its defaults and its folder.
pub mod Version
pub mod Values
pub mod Load
use cel_service.Base.Int.{ℤ, pos}
use cel_service.Base.Replace.{replace_all}
use cel_service.Base.Text.{Str, text, contains}
use cel_service.Base.{Bool, true, false, [], Option, none, some, ◌⊎◌, inl, inr, if◌then◌else◌}
use cel_service.Model.Value.{GoMap, nil_map}

abbrev pub servicename : Str
servicename = text "cel-service"

pub record Authentication (F : Type 0) : Type 0 where
  pub auth_type : Str
  pub properties : GoMap F

pub record HealthCheck : Type 0 where
  pub period : ℤ

pub record LoggingConfig : Type 0 where
  pub level : Str
  pub filename : Str
  pub gelf_url : Str
  pub gelf_port : ℤ

pub record OpenTracing : Type 0 where
  pub host : Str
  pub endpoint : Str

pub record Metrics : Type 0 where
  pub enable : Bool

pub record Config (F : Type 0) : Type 0 where
  pub port : ℤ
  pub sslport : ℤ
  pub grpc_tsl : Bool
  pub grpc_port : ℤ
  pub service_url : Str
  pub secret_file : Str
  pub apikey : Bool
  pub logging : LoggingConfig
  pub health_check : HealthCheck
  pub auth : Authentication F
  pub open_tracing : OpenTracing
  pub metrics : Metrics

-- `DefaultConfig`
unfoldable pub default_config : {F : Type 0} → Config F
default_config = record {
  port = pos 8000;
  sslport = pos 8443;
  grpc_tsl = false;
  grpc_port = pos 0;
  service_url = text "https://127.0.0.1:8443";
  secret_file = [];
  apikey = false;
  logging = record {
    level = text "INFO";
    filename = text "${configdir}/logging.log";
    gelf_url = [];
    gelf_port = pos 0;
  };
  health_check = record { period = pos 30 };
  auth = record { auth_type = []; properties = nil_map };
  open_tracing = record { host = []; endpoint = [] };
  metrics = record { enable = false };
}

-- What the functions use of the packages `os` and `path/filepath`, with errors as their texts.
pub record Folders : Type 0 where
  pub user_config_dir : Str ⊎ Str
  pub join : Str → Str → Str
  pub mkdir_all : Str → Option Str

unfoldable pub get_default_config_folder : Folders → Str ⊎ Str
get_default_config_folder os = elim os.user_config_dir [
  | inl err ↦ inl err
  | inr home ↦ elim (os.mkdir_all (os.join home servicename)) [
    | some err ↦ inl err
    | none ↦ inr (os.join home servicename)
  ]
]

abbrev in_folder : Str → Str ⊎ Str → Str ⊎ Str
in_folder s (inl err) = inl err
in_folder s (inr folder) = inr (replace_all s (text "${configdir}") folder)

unfoldable pub replace_configdir : Folders → Str → Str ⊎ Str
replace_configdir os s =
    if contains s (text "${configdir}") then in_folder s (get_default_config_folder os) else inr s
