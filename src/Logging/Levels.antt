-- ===== src/Logging/Levels.antt =====
-- The levels of internal/logging/logging.go.
use cel_service.Base.Int.{pos}
use cel_service.Base.Text.{Str, text, str_eq, to_upper}
use cel_service.Base.{ℕ, ◌≤◌, ◌≡◌, ◌≢◌, ◌↔◌, refl, ap, arith, List, []}
use cel_service.Logging.{ServiceLogger, Written, set_level, debug, info, alert, error, fatal}

-- The list `Levels`
pub data Level : Type 0 where
  at_debug at_info at_alert at_error at_fatal : Level

abbrev pub name_of : Level → Str
name_of at_debug = text "DEBUG"
name_of at_info = text "INFO"
name_of at_alert = text "ALERT"
name_of at_error = text "ERROR"
name_of at_fatal = text "FATAL"

abbrev pub rank : Level → ℕ
rank at_debug = 0
rank at_info = 1
rank at_alert = 2
rank at_error = 3
rank at_fatal = 4

abbrev pub written_at : Level → Str → ServiceLogger → List Written
written_at at_debug = debug
written_at at_info = info
written_at at_alert = alert
written_at at_error = error
written_at at_fatal = fatal

pub set_level-rank :
    (level : Level) (name : Str) (s : ServiceLogger)
    → to_upper name ≡ name_of level
    → set_level name s ≡ record s { level_int = pos (rank level) }
unfolding set_level text str_eq
set_level-rank at_debug name s e = rw (e) refl
set_level-rank at_info name s e = rw (e) refl
set_level-rank at_alert name s e = rw (e) refl
set_level-rank at_error name s e = rw (e) refl
set_level-rank at_fatal name s e = rw (e) refl

pub written_at_iff :
    (m : Level) (k : ℕ) (msg : Str) (s : ServiceLogger)
    → s.level_int ≡ pos k
    → (written_at m msg s ≢ []) ↔ (k ≤ rank m)
unfolding debug info alert error fatal
written_at_iff at_debug k msg s e = ground arith
written_at_iff at_info k msg s e = ground arith
written_at_iff at_alert k msg s e = ground arith
written_at_iff at_error k msg s e = ground arith
written_at_iff at_fatal k msg s e = ground arith

-- After a level is set by its name, in capital or small letters, a message is written exactly if
-- its level is this one or a higher one.
pub set_level_writes :
    (level m : Level) (name msg : Str) (s : ServiceLogger)
    → to_upper name ≡ name_of level
    → (written_at m msg (set_level name s) ≢ []) ↔ (rank level ≤ rank m)
set_level_writes level m name msg s e =
    written_at_iff m (rank level) msg (set_level name s)
      (ap (λ t. t.level_int) (set_level-rank level name s e))
