-- ===== src/Examples/Starting.antt =====
-- Tests of the configuration, the certificate, the counters and the start of the service.
use cel_service.Api.Counting.Counts.{shown, occurrences, count_all, count_all-occurrences}
use cel_service.Api.Counting.{Site, replace_others, metrics_name, count_request, metrics_handler}
use cel_service.Api.{skip_func, sys_api_handler}
use cel_service.Auth.Authenticator.{
  authenticator, verifier, verify, verify_request, verify_token, find_token, token_from_header,
  token_from_cookie, new_context, from_context,
}
use cel_service.Auth.{
  done, parse_jwt_config, strip_bearer, decode_jwt, decode_parts, jwt_decode_part, validate,
}
use cel_service.Base.Dict.{lookup, insert}
use cel_service.Base.Int.{ℤ, pos}
use cel_service.Base.Replace.{replace_from, replace_all}
use cel_service.Base.Text.{
  Str, text, str_eq, to_upper, to_lower, hex, contains, has_prefix, has_suffix, trim_prefix,
  trim_suffix, split, split_first, split_rest,
}
use cel_service.Base.{
  ℕ, ◌+◌, ◌≡◌, inl, inr, refl, true, false, none, some, [], ◌∷◌, Call, returns, if◌then◌else◌,
}
use cel_service.Config.Load.Ends.{Ended, load-Ended}
use cel_service.Config.Load.{Files, Loaded, initial, load, read_secret}
use cel_service.Config.Values.{get_config_value_as_bool, property}
use cel_service.Config.{
  Config, Folders, servicename, default_config, get_default_config_folder, replace_configdir,
}
use cel_service.Crypt.SelfSigned.{IsSelfSigned, generate_tls_config_iff}
use cel_service.Crypt.{
  Crypto, private_key, public_key, not_before_of, template_of, add_hosts, generate_tls_config,
}
use cel_service.Health.{init_health_system}
use cel_service.Http.{Request, json_type}
use cel_service.Logging.{ServiceLogger, set_level}
use cel_service.Model.Value.{made, end, field, bool, lookup_field}
use cel_service.Serror.Laws.{bad_request-code}
use cel_service.Service.Guarded.{KeyGate, TokenGate, api_routes-guarded}
use cel_service.Service.Routes.{Surroundings, mounted_routes, api_routes}
use cel_service.Service.Servers.{Started, main-Started}
use cel_service.Service.Startup.{
  Running, running, Machine, config_file_of, service_certificate, main, ssl_servers, plain_servers,
  init_grpc_server,
}
use cel_service.Service.{
  default_flags, init_config, init_logging, get_apikey, tracing_disabled, jaeger_config,
}

program : Unit {0}
unfolding text str_eq to_upper to_lower hex contains has_prefix has_suffix trim_prefix trim_suffix
    split split_first split_rest replace_from replace_all replace_others metrics_name count_request
    count_all occurrences lookup insert load read_secret get_default_config_folder replace_configdir
    default_config initial private_key not_before_of template_of add_hosts generate_tls_config
    set_level init_logging get_apikey config_file_of main ssl_servers plain_servers init_grpc_server
    init_config default_flags tracing_disabled jaeger_config parse_jwt_config api_routes
    sys_api_handler skip_func metrics_handler public_key get_config_value_as_bool property
    lookup_field authenticator verifier verify verify_request verify_token find_token
    token_from_header token_from_cookie strip_bearer decode_jwt decode_parts jwt_decode_part
    new_context from_context validate
program = tt

-- A machine on which every file is empty and is decoded to the configuration from before.
abbrev pub folders : Folders
folders = record { user_config_dir = inr (text "/home"); join = λ a b. a; mkdir_all = λ path. none }

abbrev pub files : Files ℕ
files = record {
  stat = λ file. if str_eq file (text "/missing") then some (text "no such file") else none;
  read_file = λ file. inr [];
  expand_env = λ s. s;
  decode_config = λ s c. (c, none);
  decode_secret = λ s. inl (text "no secret");
}

load-Ended_example : Ended folders files initial (load folders files initial)
load-Ended_example = load-Ended folders files initial

abbrev missing : Loaded ℕ
missing = record { config = default_config; file = text "/missing" }

no_file : load folders files missing ≡ (missing, some (text "no such file"))
unfolding program
no_file = refl

abbrev post : Request
post = record {
  method = text "POST";
  path = text "/api/v1/evaluate/";
  header = λ name. if str_eq name (text "Authorization") then text "Bearer h.p.s" else text "KEY";
  query = λ name. [];
  cookie = λ name. none;
  content_type = json_type;
  content = [];
}

name_of_post : metrics_name post ≡ text "rest_requests_POST_api_v__evaluate_total"
unfolding program
name_of_post = refl

abbrev fresh : Site ℕ
fresh = record { metrics = []; rest = 7 }

count_all-occurrences_example :
    (s : Site ℕ) × (count_all (λ name. true) (post ∷ post ∷ []) fresh ≡ returns s)
    × (s.rest ≡ 7)
    × ((name : Str)
        → shown (lookup name s.metrics)
          ≡ shown (lookup name (fresh.metrics)) + occurrences name (post ∷ post ∷ []))
count_all-occurrences_example =
    count_all-occurrences (λ name. true) (post ∷ post ∷ []) fresh (refl, (refl, tt))

-- Libraries that make keys and certificates of numbers.
abbrev pub toy_crypto : Crypto
toy_crypto = record {
  Rsa = ℤ;
  Ecdsa = ℕ;
  Ed25519 = ℕ;
  Public = ℕ;
  Time = ℕ;
  Ip = Str;
  Certificate = Str × Str;
  generate_rsa = λ bits. inl (text "no rsa");
  generate_ecdsa = λ curve. inr 5;
  generate_ed25519 = inr 6;
  rsa_public = λ k. 0;
  ecdsa_public = λ k. k;
  ed25519_public = λ k. k;
  now = 100;
  parse_time = λ s. inl (text "no time");
  add_duration = λ t d. t;
  random_below = λ n. inr 3;
  parse_ip = λ h. some h;
  create_certificate = λ t parent public priv. inr (public ∷ []);
  marshal_private_key = λ k. inr (9 ∷ []);
  encode_pem = λ kind bytes. bytes;
  key_pair = λ cert key. (cert, key);
}

generate_tls_config_iff_example : IsSelfSigned toy_crypto service_certificate (5 ∷ [], 9 ∷ [])
unfolding program
generate_tls_config_iff_example =
    (generate_tls_config_iff toy_crypto service_certificate (5 ∷ [], 9 ∷ [])).0 refl

-- A router that answers 200 on every route that is mounted, and errors with their status.
abbrev toy_router : Surroundings ℕ ℕ ℤ
toy_router = record {
  marshal = λ e. none;
  decode_string = λ s. done s;
  unmarshal = λ s. done (made end);
  can_register = λ name. true;
  render_json = λ code e. code;
  http_error = λ msg status. pos status;
  serve = λ routes ctx r s. returns (s, pos 200);
  unrouted = λ r s. returns (s, pos 404);
}

abbrev guarded : Config ℕ
guarded = record default_config {
  apikey = true;
  auth = record {
    auth_type = text "JWT";
    properties = made (field (text "validate") (bool true) end);
  };
}

served :
    (api_routes toy_router guarded (text "key")).0 post fresh
    ≡ returns (
      record { metrics = (text "rest_requests_POST_api_v__evaluate_total", 1) ∷ []; rest = 7 },
      pos 200,
    )
unfolding program
served = refl

abbrev stranger : Request
stranger = record post { header = λ name. [] }

refused : (api_routes toy_router guarded (text "key")).0 stranger fresh ≡ returns (fresh, pos 400)
unfolding program
refused = rw (bad_request-code (λ e. none) servicename none _) refl

api_routes-guarded_example :
    (inner : Site ℕ → Call (Site ℕ × ℤ)) × KeyGate toy_router true
      (text "key")
      post
      inner
      ((api_routes toy_router guarded (text "key")).0 post)
    × TokenGate toy_router true (mounted_routes guarded) post inner
unfolding program
api_routes-guarded_example = api_routes-guarded toy_router guarded (text "key") post refl

abbrev pub machine : Machine ℕ
machine = record {
  os = folders;
  files = files;
  crypto = toy_crypto;
  format = λ f err. f;
  new_tracer = λ config. if config.disabled then none else some (text "no agent");
  now = 0;
  listen = λ port. none;
}

abbrev pub logger : ServiceLogger
logger = record {
  level_int = pos 0;
  gelf_url = [];
  gelf_port = pos 0;
  gelf_active = false;
  filename = [];
}

main-Started_example :
    Started machine (default_flags (text "/f")) (main machine (default_flags (text "/f")) logger)
main-Started_example = main-Started machine (default_flags (text "/f")) logger

unfoldable pub launched :
    (r : Running ℕ (Str × Str)) × (main machine (default_flags (text "/f")) logger ≡ running r)
unfolding program init_health_system
launched = (_, refl)
