-- ===== src/Examples/Races.antt =====
-- What runs side by side: the end of cmd/service/main.go and its gRPC server, `Clear` and `Put` of the
-- cache, and two requests of one name.
use cel_service.Api.Counting.Race.{Counters, arrived, counted, take_turns, take_turns_cases}
use cel_service.Base.Dict.{lookup}
use cel_service.Base.Int.{ℤ, pos}
use cel_service.Base.Text.{Str, text, str_eq}
use cel_service.Base.{
  ℕ, if◌then◌else◌, ◌≤◌, ◌≡◌, ◌↔◌, refl, true, false, not, Bool, List, [], ◌∷◌, Option, none, some,
  returns, panics, arith,
}
use cel_service.Config.{Config, default_config}
use cel_service.LruCache.Race.{between, clear_with_put, oldest_after, clear_with_put-get_oldest}
use cel_service.LruCache.Runs.{new-IsValid}
use cel_service.LruCache.{LruCache, get_oldest}
use cel_service.LruCache
use cel_service.Service.Lifecycle.Closing.{HasEnded, IsStuck, interrupted_ends}
use cel_service.Service.Lifecycle.Ends.{Explained, HitsNil, reachable-Explained, nil_pointer_iff}
use cel_service.Service.Lifecycle.{
  interrupted, listening, serving, shutdown_srv, shutdown_sslsrv, stop_grpc, srv_down, finished,
  alive, ended, is_made, interrupt, shut_srv, shut_sslsrv, stop, exit, listens, make, serve, Run,
  here, then_on, begun,
}

program : Unit {0}
unfolding default_config
program = tt

abbrev settings : Config ℕ
settings = default_config

abbrev free : ℤ → Option Str
free port = none

-- The server is made and serves, and then the interrupt comes.
served_and_stopped :
    Run settings free 8 begun
      (ended finished serving (stop_grpc ∷ shutdown_sslsrv ∷ shutdown_srv ∷ []))
unfolding default_config
served_and_stopped =
    then_on
      (then_on
        (then_on
          (then_on (then_on (then_on (then_on (then_on here (listens refl)) make) serve) interrupt)
            shut_srv)
          (shut_sslsrv refl))
        (stop refl))
      exit

reachable-Explained_example :
    Explained settings free
      (ended finished serving (stop_grpc ∷ shutdown_sslsrv ∷ shutdown_srv ∷ []))
reachable-Explained_example = reachable-Explained settings free _ 8 served_and_stopped

nil_pointer_iff_example : HitsNil settings free listening [] ↔ (is_made listening ≡ false)
nil_pointer_iff_example = nil_pointer_iff settings free listening []

-- The rest of a run from the interrupt on.
stopped_early :
    Run settings free 1
      (alive interrupted listening [])
      (alive srv_down listening (shutdown_srv ∷ []))
stopped_early = then_on here shut_srv

interrupted_ends_example :
    (◌≤◌ 1 8)
    × (IsStuck settings free (alive srv_down listening (shutdown_srv ∷ []))
        → HasEnded (alive srv_down listening (shutdown_srv ∷ [])))
interrupted_ends_example = interrupted_ends settings free 1 listening [] _ stopped_early

clear_with_put-get_oldest_example :
    (l' : LruCache ℕ) × (clear_with_put between (text "b") 8 (LruCache.new (pos 1)) ≡ returns l')
    × (get_oldest l' ≡ oldest_after between 8)
clear_with_put-get_oldest_example =
    clear_with_put-get_oldest between (text "b") 8 (LruCache.new (pos 1)) (new-IsValid (pos 1))
      (unfold LruCache.new in λ e. absurd (ground arith))

-- The registry takes a name once.
unfoldable once : List Str → Str → Bool
once [] name = true
once (taken ∷ names) name = if str_eq taken name then false else once names name

abbrev no_counters : Counters
no_counters = record { metrics = []; registered = [] }

take_turns_cases_example :
    ((s' : Counters) × (take_turns once
          (text "n")
          (true ∷ true ∷ not true ∷ not true ∷ [])
          arrived
          arrived
          no_counters
        ≡ returns (s', counted, counted))
      × (lookup (text "n") s'.metrics ≡ some 2))
    × (take_turns once
          (text "n")
          (true ∷ not true ∷ false ∷ not false ∷ [])
          arrived
          arrived
          no_counters
        ≡ panics)
unfolding lookup once str_eq text
take_turns_cases_example =
    take_turns_cases once (text "n") no_counters refl refl (λ names. refl) true false
