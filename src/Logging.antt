-- ===== src/Logging.antt =====
-- internal/logging/logging.go: setting the logger up, its level and what is written at each level.
-- The formatted variants write what `fmt.Sprintf` makes of their arguments.
pub mod Levels
use cel_service.Base.Int.{ℤ, pos, negsuc}
use cel_service.Base.Text.{Str, text, str_eq, to_upper, is_empty}
use cel_service.Base.{ℕ, Bool, true, false, not, List, [], ◌∷◌, ◌++◌, if◌then◌else◌, leb}

-- The fields that decide what is written, and where.
pub record ServiceLogger : Type 0 where
  pub level_int : ℤ
  pub gelf_url : Str
  pub gelf_port : ℤ
  pub gelf_active : Bool
  pub filename : Str

-- `log.SetOutput`: the standard output, with a rotating file of this name or alone.
pub data Output : Type 0 where
  standard_output : Output
  file_and_standard_output : Str → Output

-- The GELF client is made and set up if there is an address for it.
unfoldable pub init : ServiceLogger → ServiceLogger × Output
init s = (
  record s { gelf_active = not (is_empty s.gelf_url) },
  if is_empty s.filename then standard_output else file_and_standard_output s.filename,
)

-- Whether the GELF client is closed.
unfoldable close : ServiceLogger → Bool
close s = s.gelf_active

-- Where a message goes: to the GELF client, or to the standard logger; `log.Fatalf` writes too and
-- then ends the program.
pub data Written : Type 0 where
  gelf_debug gelf_info gelf_alert gelf_error gelf_critical : Str → Written
  printed : Str → Written
  printed_and_exit : Str → Written

unfoldable pub set_level : Str → ServiceLogger → ServiceLogger
set_level level s =
    if str_eq (to_upper level) (text "DEBUG")
    then record s { level_int = pos 0 }
    else if str_eq (to_upper level) (text "INFO")
    then record s { level_int = pos 1 }
    else if str_eq (to_upper level) (text "ALERT")
    then record s { level_int = pos 2 }
    else if str_eq (to_upper level) (text "ERROR")
    then record s { level_int = pos 3 }
    else if str_eq (to_upper level) (text "FATAL")
    then record s { level_int = pos 4 }
    else s

-- `s.LevelInt <= n`
abbrev at_most : ℤ → ℕ → Bool
at_most (pos m) n = leb m n
at_most (negsuc m) n = true

-- `fmt.Sprintf("Debug: %s\n", msg)` and the like
abbrev line : Str → Str → Str
line prefix msg = prefix ++ (text ": " ++ (msg ++ (10 ∷ [])))

abbrev pub write : ℕ → (Str → Written) → Written → Str → ServiceLogger → List Written
write n to_gelf to_log msg s =
    if at_most s.level_int n
    then (if s.gelf_active then to_gelf msg ∷ to_log ∷ [] else to_log ∷ [])
    else []

pub debug : Str → ServiceLogger → List Written
debug msg = write 0 gelf_debug (printed (line (text "Debug") msg)) msg

pub info : Str → ServiceLogger → List Written
info msg = write 1 gelf_info (printed (line (text "Info") msg)) msg

pub alert : Str → ServiceLogger → List Written
alert msg = write 2 gelf_alert (printed (line (text "Alert") msg)) msg

pub error : Str → ServiceLogger → List Written
error msg = write 3 gelf_error (printed (line (text "Error") msg)) msg

pub fatal : Str → ServiceLogger → List Written
fatal msg = write 4 gelf_critical (printed_and_exit (line (text "Fatal") msg)) msg

-- `format` is `fmt.Sprintf`, with the arguments as a type of their own.
module _ {Args : Type 0} (format : Str → Args → Str) where
  unfoldable debugf : Str → Args → ServiceLogger → List Written
  debugf f va = debug (format f va)

  unfoldable pub infof : Str → Args → ServiceLogger → List Written
  infof f va = info (format f va)

  unfoldable alertf : Str → Args → ServiceLogger → List Written
  alertf f va = alert (format f va)

  unfoldable pub errorf : Str → Args → ServiceLogger → List Written
  errorf f va = error (format f va)

  unfoldable pub fatalf : Str → Args → ServiceLogger → List Written
  fatalf f va = fatal (format f va)
