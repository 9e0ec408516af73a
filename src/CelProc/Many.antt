-- ===== src/CelProc/Many.antt =====
-- `ProcCelMany` of internal/celproc/celproc.go.
use cel_service.Base.Text.{Str, text}
use cel_service.Base.{
  ◌≡◌, refl, arith, Option, none, some, List, [], ◌∷◌, ◌++◌, map, All, Call, returns, ◌>>=◌,
}
use cel_service.CelProc.Engine.{CelEngine}
use cel_service.CelProc.Entries.{Keeps, IsCoherent, proc_cel-uncached}
use cel_service.CelProc.Steps.{IsReady}
use cel_service.CelProc.Uncached.{uncached}
use cel_service.CelProc.{State, proc_cel}
use cel_service.Model.{CelModel, CelResult}

-- `fmt.Sprintf("%v", ids)` for a slice of strings, after its opening bracket.
unfoldable pub show_rest : List Str → Str
show_rest [] = text "]"
show_rest (id ∷ []) = id ++ text "]"
show_rest (id ∷ next ∷ ids) = id ++ (text " " ++ show_rest (next ∷ ids))

-- The error of the list: none if no request failed.
unfoldable pub list_error : List Str → Option Str
list_error [] = none
list_error (id ∷ ids) =
    some (text "error in one of the results. Please check: [" ++ show_rest (id ∷ ids))

-- The identifiers of the failed requests.
abbrev note_error : Option Str → Str → List Str → List Str
note_error none id ids = ids
note_error (some _) id ids = id ∷ ids

module _ {F : Type 0} (engine : CelEngine F) (parse_float : Str → Option F) where
  open engine use {Program}

  -- The loop: the results, and the list `idErrList`.
  unfoldable pub proc_all :
      List (CelModel F) → State Program → Call (State Program × List CelResult × List Str)
  proc_all [] s = returns (s, [], [])
  proc_all (m ∷ ms) s = do
    (s', r, e) ← proc_cel engine parse_float m s
    (s'', rs, ids) ← proc_all ms s'
    returns (s'', r ∷ rs, note_error e m.id ids)

  unfoldable pub proc_cel_many :
      List (CelModel F) → State Program → Call (State Program × List CelResult × Option Str)
  proc_cel_many ms s = do (s', rs, ids) ← proc_all ms s; returns (s', rs, list_error ids)

  -- The ids of the requests that fail with no cache.
  unfoldable pub failing : List (CelModel F) → List Str
  failing [] = []
  failing (m ∷ ms) = note_error (uncached engine parse_float m).1 m.id (failing ms)

  module _ (named : Str → Str → List Str) where
    proc_all-uncached :
        (ms : List (CelModel F)) (s : State Program)
        → IsReady s
        → IsCoherent engine parse_float named s
        → All (Keeps engine parse_float named) ms
        → (s' : State Program) × (proc_all ms s
            ≡ returns (s', map (λ m. (uncached engine parse_float m).0) ms, failing ms))
          × IsReady s'
          × IsCoherent engine parse_float named s'
    unfolding proc_all failing
    proc_all-uncached [] s r c keeps = (s, refl, r, c)
    proc_all-uncached (m ∷ ms) s r c (k, keeps) =
        let (s', e, r', c') = proc_cel-uncached engine parse_float named m s r c k in
        let (s'', e', r'', c'') = proc_all-uncached ms s' r' c' keeps in
        (s'', ground (arith, e, e'), r'', c'')

    -- From a state whose cache is valid, has room and is coherent, for requests that keep to the
    -- names of their identifiers and expressions: the results are those with no cache, one for
    -- each request and in the same order, and the error names the failed requests. The state stays
    -- so.
    pub proc_cel_many-uncached :
        (ms : List (CelModel F)) (s : State Program)
        → IsReady s
        → IsCoherent engine parse_float named s
        → All (Keeps engine parse_float named) ms
        → (s' : State Program) × (proc_cel_many ms s
            ≡ returns
                (s', map (λ m. (uncached engine parse_float m).0) ms, list_error (failing ms)))
          × IsReady s'
          × IsCoherent engine parse_float named s'
    unfolding proc_cel_many
    proc_cel_many-uncached ms s r c keeps =
        let (s', e, r', c') = proc_all-uncached ms s r c keeps in (s', ground (arith, e), r', c')
