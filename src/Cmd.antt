-- ===== src/Cmd.antt =====
-- The two small programs: cmd/grpc, a gRPC server with no settings, and cmd/cli, a client of it.
pub mod Grpc
pub mod Cli
use cel_service.Base.Text.{Str, text}
use cel_service.Base.{List}
use cel_service.Logging.{ServiceLogger, Output, Written, set_level}
use cel_service.Logging

-- `initLogging` of both programs
unfoldable pub init_logging : ServiceLogger → ServiceLogger × Output
init_logging s = Logging.init (set_level (text "DEBUG") s)
