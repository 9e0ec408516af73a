-- ===== src/Examples/Interleaving.antt =====
-- Requests that run side by side over the small engine.
use cel_service.Base.Text.{Str, text, str_eq}
use cel_service.Base.{ℕ, ◌≤◌, ◌≡◌, refl, List, [], ◌∷◌, some, returns, get_elem?}
use cel_service.CelProc.Entries.{init-IsReady, init-IsCoherent, IsCoherent}
use cel_service.CelProc.Interleaved.Runs.{run_schedule-uncached}
use cel_service.CelProc.Interleaved.Turns.{IsRight}
use cel_service.CelProc.Interleaved.{Phase, answered, turns, run_schedule, all_arrived}
use cel_service.CelProc.Steps.{IsReady}
use cel_service.CelProc.Uncached.{uncached}
use cel_service.CelProc.{State, init}
use cel_service.Examples.Evaluation.{toy, toy_float, request, both}
use cel_service.Model.{CelModel}
use cel_service.CelProc.Convert.{convert_json2map}
use cel_service.Model.Value.{names, insert_field}

-- Two requests of one identifier, which both miss before one of them stores its program.
abbrev pair : List (CelModel ℕ)
pair = request (text "1") (text "true") ∷ request (text "2") (text "false") ∷ []

abbrev schedule : List ℕ
schedule = 0 ∷ 1 ∷ 1 ∷ 0 ∷ 1 ∷ 0 ∷ []

run_schedule-uncached_example :
    (s' : State Str) × (ts : List (CelModel ℕ × Phase Str)) × (run_schedule toy toy_float schedule
        (all_arrived toy toy_float pair)
        init
      ≡ returns (s', ts))
    × IsReady s'
    × IsCoherent toy toy_float (λ i e. both) s'
    × ((j : ℕ) (m : CelModel ℕ)
        → get_elem? pair j ≡ some m
        → (p : Phase Str) × (get_elem? ts j ≡ some (m, p))
          × IsRight toy toy_float (λ i e. both) m p
          × (3 ≤ turns j schedule → p ≡ answered (uncached toy toy_float m)))
unfolding names convert_json2map insert_field text str_eq
run_schedule-uncached_example =
    run_schedule-uncached toy toy_float (λ i e. both) schedule pair init init-IsReady
      (init-IsCoherent toy toy_float (λ i e. both)) (refl, (refl, tt))
