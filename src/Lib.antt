-- ===== src/Lib.antt =====
-- A model of the cel-service, which evaluates expressions of the Common Expression Language over
-- REST and gRPC, and what has been proved of it.
--
-- The parts and how they interact. A request comes in over REST (internal/apiv1/evalapi.go) or
-- gRPC (internal/csrv/celserver.go, cmd/grpc/main.go). In front of the REST handlers stand the
-- middlewares of internal/api and internal/auth; the health probes of internal/health stand beside
-- them. Both ways in call internal/celproc/celproc.go, which compiles the expression with cel-go,
-- keeps the program in the cache of internal/lrucache under the identifier of the request, and
-- evaluates it. Errors are those of internal/serror.
--
-- The files and the code:
--   Base         strings as lists of bytes, numbers, dictionaries, `strconv` and `strings`
--   LruCache     internal/lrucache/lrucache.go. The list is a queue of addressed elements and the
--                map goes from identifiers to addresses, as the pointers do in the source; a
--                function that may panic returns a `Call`. `Valid` is the invariant, `Refine` the
--                abstract view: the entries in order of use.
--   CelProc      internal/celproc/celproc.go (`ProcCel` is `proc_cel`, and so on). The package
--                variables are the record `State`, which each function takes and returns.
--                `Uncached` is the specification: evaluation with no cache. `Interleaved` cuts
--                `ProcCel` into the turns between which other requests may come.
--   CelProc/Grpc internal/csrv/celserver.go and the messages of pkg/protofiles
--   Model        pkg/model/celmodel.go, and the values that a decoded JSON context holds
--   EvalApi      internal/apiv1/evalapi.go and `Err` of internal/utils/httputils/httphelper.go
--   Auth         internal/auth/jwt.go and internal/auth/authenticator.go
--   Api          internal/api/sysapihandler.go, internal/api/rolecheck.go, internal/api/trace.go,
--                internal/api/metrics.go (Counting), and the paths without an api key of cmd/service/main.go
--   Http         what the handlers read of a request, and in Helpers
--                internal/utils/httputils/httphelper.go
--   Health       internal/health/health.go; the time of the clock is an argument
--   Logging      internal/logging/logging.go: setting up, the levels and what is written
--   Serror       internal/serror/serror.go
--   Config       internal/config/config.go, and its child modules internal/config/version.go,
--                internal/config/utils.go and internal/config/secret.go. The package variables are
--                the record `Loaded`.
--   Crypt        internal/crypt/generatecert.go
--   Readercomp   internal/utils/readercomp/readercomp.go. A reader is a state and a function that
--                reads; `IsFinite` is what io.Reader documents of a stream that ends.
--   Utils        internal/utils/utils.go
--   Service      cmd/service/main.go: the flags and settings, in Routes the middlewares and routes,
--                in Startup all of `main` up to the servers that it starts, in Session requests over
--                REST and gRPC and health checks one after the other, also from that start, and in
--                Lifecycle the end of `main` beside the goroutine of the gRPC server, as a step
--                relation
--   Cmd          cmd/grpc/main.go and cmd/cli/main.go
--   SlicesUtils  internal/utils/slicesutils/slicesutils.go
--   Examples     tests, and the theorems at concrete inputs
--
-- Parameters stand for code of other projects: the record `CelEngine` of CelProc/Engine.antt is
-- what the service calls of cel-go, `parse_float` is `strconv.ParseFloat`, `marshal` is
-- `json.Marshal` of an error, `decode_string` and `unmarshal` are the base64 and JSON decoders,
-- `decode_json`, `decode_xml` and `validate_struct` decode and validate a body, `time_string`
-- prints a time, and `no_content` is what `render.NoContent` makes of the status. The records
-- `Folders`, `Files`, `Crypto`, `Machine`, `Surroundings` and `Parts` are what the configuration, the
-- certificate, the start and the routes call of the system, of YAML, of the packages of crypto and
-- of the router. Nothing is assumed of any of them, but that the router hands a request to PostEval
-- where a result says so, and that the registry of the counters refuses a name that it has. Of a
-- reader the record `IsFinite` assumes what io.Reader documents: a read gives at most as many bytes
-- as it was asked for, and the next ones; it reports the end only when nothing is left; and reads
-- with no error come to the end, within the number of reads that `rank` gives.
--
-- Loops are recursion on lists. Fuel stands in two places. `print_onto` of Base/Strconv.antt prints
-- a number n with fuel n + 1, which is enough as each digit divides by ten. `equal` of Readercomp
-- goes on with fuel above the ranks of the two readers by two, which is enough as each round brings
-- one of them nearer to its end.
--
-- Each method of the cache is one step, as it holds the lock from its start to its end; Size,
-- GetOldest and Clear, which take no lock, are taken as one step too, but in LruCache/Race, where a
-- Put may come between the two assignments of Clear. Api/Counting/Race does the same for two
-- requests of one new counter. CelProc/Interleaved runs requests side by side: a request has three
-- turns, the lookup, the build with its Put, and the evaluation, and a schedule says whose turn it
-- is. In Service/Lifecycle a step is a call of `main` or
-- of the goroutine; that each call of a server returns is taken for granted. Left out are the log
-- that the handlers write, the spans of a tracer, the help texts of the metrics, cross-origin headers and
-- what the router makes of its table of routes. pkg/web/web.go only embeds files, and of the generated
-- code of pkg/protofiles only the messages are modelled.
pub mod Api
pub mod Auth
pub mod Base
pub mod CelProc
pub mod Cmd
pub mod Config
pub mod Crypt
pub mod EvalApi
pub mod Examples
pub mod Health
pub mod Http
pub mod Logging
pub mod LruCache
pub mod Model
pub mod Readercomp
pub mod Serror
pub mod Service
pub mod SlicesUtils
pub mod Utils
