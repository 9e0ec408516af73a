-- ===== src/Health.antt =====
-- internal/health/health.go: the health check and its probes, over the package variables.
pub mod Readiness
use cel_service.Base.Int.{ℤ, pos, negsuc}
use cel_service.Base.Text.{Str, text}
use cel_service.Base.{
  ℕ, zero, suc, ◌+◌, ◌-◌, ◌*◌, ◌%◌, Bool, true, false, ◌||◌, [], ◌++◌, Call, returns, panics, ◌>>=◌,
  if◌then◌else◌, ltb, leb, ◌==◌,
}
use cel_service.Http.{Response}

-- Times are in nanoseconds, read from a clock that never goes back; the period is in seconds.
pub record State : Type 0 where
  pub my_healthy : Bool
  pub health_message : Str
  pub healthy : Bool
  pub last_checked : ℕ
  pub period : ℕ

pub record Msg : Type 0 where
  pub message : Str
  pub last_check : Str

unfoldable pub check : State → State × Bool × Str
check s = (record s { my_healthy = true }, true, text "healthy")

abbrev checked : ℕ → State × Bool × Str → State
checked now (s, true, msg) = record s { healthy = true; health_message = []; last_checked = now }
checked now (s, false, msg) = record s { healthy = false; health_message = msg; last_checked = now }

unfoldable pub do_check : ℕ → State → State
do_check now s = checked now (check s)

-- Whether `time.NewTicker` panics on `time.Second * time.Duration(n)`: the product is a 64-bit
-- number with a sign, and has to be positive.
abbrev pub is_no_interval : ℕ → Bool
is_no_interval n =
    let d = (n * 1000000000) % 18446744073709551616 in leb 9223372036854775808 d || (d == 0)

-- The first check; then the ticker starts. Each tick is a `do_check`. The product of a negative
-- period and a second is taken to fit in 64 bits.
unfoldable pub init_health_system : ℤ → ℕ → Call State
init_health_system (negsuc n) now = panics
init_health_system (pos n) now =
    if is_no_interval n
    then panics
    else returns (
        do_check now (record {
          my_healthy = false;
          health_message = text "service starting";
          healthy = false;
          last_checked = 0;
          period = n;
        }))

-- `elapsed > time.Second * time.Duration(n)`: the product is a 64-bit number with a sign.
unfoldable pub exceeds : ℕ → ℕ → Bool
exceeds elapsed n =
    let d = (n * 1000000000) % 18446744073709551616 in leb 9223372036854775808 d || ltb d elapsed

unfoldable pub check_health_check_timer : ℕ → State → Call State
check_health_check_timer now s =
    if exceeds (now - s.last_checked) (2 * s.period)
    then if exceeds (now - s.last_checked) (4 * s.period)
      then panics
      else returns (record s { healthy = false; health_message = text "health check not running" })
    else returns s

unfoldable pub get_liveness : Response Msg
get_liveness = record {
  status = 200;
  body = record { message = text "service started"; last_check = [] };
}

-- `no_content` is `render.NoContent`: the status that it writes, given the one that was set with
-- `render.Status`.
module _ (no_content : ℕ → ℕ) where
  unfoldable pub head_liveness : ℕ
  head_liveness = no_content 200

  unfoldable pub head_readiness : ℕ → State → Call (State × ℕ)
  head_readiness now s =
      check_health_check_timer now s
      >>= (λ t. returns (t, no_content (if t.healthy then 200 else 503)))

-- `time_string` is `String` of a time.
module _ (time_string : ℕ → Str) where
  abbrev pub readiness : State → Response Msg
  readiness s =
      if s.healthy
      then record {
        status = 200;
        body = record {
          message = text "service up and running";
          last_check = time_string s.last_checked;
        };
      }
      else record {
        status = 503;
        body = record {
          message = text "service is unavailable: " ++ s.health_message;
          last_check = time_string s.last_checked;
        };
      }

  unfoldable pub get_readiness : ℕ → State → Call (State × Response Msg)
  get_readiness now s = check_health_check_timer now s >>= (λ t. returns (t, readiness t))
