-- ===== src/Config/Load.antt =====
-- `Load` of internal/config/config.go, and the secrets of internal/config/secret.go. The package
-- variables `config` and `File` are the record `Loaded`.
pub mod Ends
use cel_service.Base.Text.{Str, text, is_empty}
use cel_service.Base.{
  Bool, true, false, not, Option, none, some, ◌⊎◌, inl, inr, ◌++◌, if◌then◌else◌,
}
use cel_service.Config.{Config, Folders, default_config, replace_configdir}

pub record MongoSecret : Type 0 where
  pub username : Str
  pub password : Str

pub record Secret : Type 0 where
  pub mongodb : MongoSecret

pub record Loaded (F : Type 0) : Type 0 where
  pub config : Config F
  pub file : Str

-- The package variables at the start
unfoldable pub initial : {F : Type 0} → Loaded F
initial = record { config = default_config; file = text "${configdir}/service.yaml" }

-- What `Load` uses of the packages `os`, `io/ioutil` and `yaml`, with errors as their texts:
-- `decode_config` is `yaml.Unmarshal` into a configuration, whose fields it may change also if it
-- fails.
pub record Files (F : Type 0) : Type 0 where
  pub stat : Str → Option Str
  pub read_file : Str → Str ⊎ Str
  pub expand_env : Str → Str
  pub decode_config : Str → Config F → Config F × Option Str
  pub decode_secret : Str → Str ⊎ Secret

-- The secret is not used yet.
pub merge_secret : {F : Type 0} → Secret → Loaded F → Loaded F
merge_secret secret s = s

module _ {F : Type 0} (os : Folders) (fs : Files F) where
  abbrev secret_decoded : Str ⊎ Secret → Loaded F → Loaded F × Option Str
  secret_decoded (inl err) s = (s, some (text "can't unmarshal secret file: " ++ err))
  secret_decoded (inr secret) s = (merge_secret secret s, none)

  abbrev secret_read : Str ⊎ Str → Loaded F → Loaded F × Option Str
  secret_read (inl err) s = (s, some (text "can't load secret file: " ++ err))
  secret_read (inr bytes) s = secret_decoded (fs.decode_secret bytes) s

  unfoldable pub read_secret : Loaded F → Loaded F × Option Str
  read_secret s =
      if not (is_empty s.config.secret_file)
      then secret_read (fs.read_file s.config.secret_file) s
      else (s, none)

  abbrev pub decoded : Config F × Option Str → Loaded F → Loaded F × Option Str
  decoded (c, some err) s =
      (record s { config = c }, some (text "can't unmarshal config file: " ++ err))
  decoded (c, none) s = read_secret (record s { config = c })

  abbrev pub file_read : Str ⊎ Str → Loaded F → Loaded F × Option Str
  file_read (inl err) s = (s, some (text "can't load config file: " ++ err))
  file_read (inr bytes) s = decoded (fs.decode_config (fs.expand_env bytes) s.config) s

  abbrev pub file_found : Option Str → Loaded F → Loaded F × Option Str
  file_found (some err) s = (s, some err)
  file_found none s = file_read (fs.read_file s.file) s

  abbrev pub file_named : Str ⊎ Str → Loaded F → Loaded F × Option Str
  file_named (inl err) s = (s, some (text "can't get default config folder: " ++ err))
  file_named (inr my_file) s = file_found (fs.stat my_file) (record s { file = my_file })

  unfoldable pub load : Loaded F → Loaded F × Option Str
  load s = file_named (replace_configdir os s.file) s
