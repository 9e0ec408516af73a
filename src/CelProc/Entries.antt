-- ===== src/CelProc/Entries.antt =====
-- When the cache of internal/celproc/celproc.go cannot be observed: as long as an identifier and
-- an expression always come with the same names of variables.
use cel_service.Base.Dict.{lookup}
use cel_service.Base.Int.{pos}
use cel_service.Base.Text.{Str, is_empty}
use cel_service.Base.{◌≡◌, ◌⊎◌, inl, inr, sym, ◌∙◌, ap, arith, false, Option, some, List, returns}
use cel_service.CelProc.Cached.{context_of, offered-reads, proc_cel-Answers}
use cel_service.CelProc.Engine.{CelEngine}
use cel_service.CelProc.Steps.{reads, IsReady, offered}
use cel_service.CelProc.Uncached.{uncached}
use cel_service.CelProc.{
  CacheEntry, State, init, built, build_declared, build_program, eval_program, finish, proc_cel,
}
use cel_service.LruCache.Queue.{view}
use cel_service.LruCache.Runs.{new-IsValid}
use cel_service.LruCache
use cel_service.Model.Value.{GoMap, names}
use cel_service.Model.{CelModel, CelResult}

pub init-IsReady : {P : Type 0} → IsReady (init {P = P})
unfolding init LruCache.new
init-IsReady = record { valid = new-IsValid (pos 10000); has_room = λ e. absurd (ground arith) }

module _ {F : Type 0} (engine : CelEngine F) (parse_float : Str → Option F) where
  open engine use {Program}

  -- From a state whose cache is valid and has room `ProcCel` never panics, whatever the request,
  -- and the state stays so.
  pub proc_cel_returns :
      (m : CelModel F) (s : State Program)
      → IsReady s
      → (s' : State Program) × (r : CelResult) × (e : Option Str) × (proc_cel engine parse_float m s
          ≡ returns (s', r, e))
        × IsReady s'
  proc_cel_returns m s r =
      let (s', out, a) = proc_cel-Answers engine parse_float m r in
      (s', out.0, out.1, a.returned, a.ready)

  -- `named i e` are the names of the variables with which the expression `e` comes under the
  -- identifier `i`.
  module _ (named : Str → Str → List Str) where
    abbrev pub Keeps : CelModel F → Type 0
    Keeps m = names (context_of engine parse_float m) ≡ named m.identifier m.expression

    -- Every program of the cache is the one that a context with these names gives.
    abbrev pub IsCoherent : State Program → Type 0
    IsCoherent s =
        (id : Str) (c : CacheEntry Program)
        → reads s id ≡ some c
        → (context : GoMap F) → names context ≡ named id c.expression
        → build_program engine context c.expression ≡ built c.program

    build_program-names :
        (c d : GoMap F) (expression : Str)
        → names c ≡ names d
        → build_program engine c expression ≡ build_program engine d expression
    unfolding build_program
    build_program-names c d expression e = ap (λ ns. build_declared engine ns expression) e

    pub same_answer :
        (m : CelModel F) (s : State Program) (prg : Program)
        → IsCoherent s
        → Keeps m
        → is_empty m.expression ≡ false
        → offered engine m.identifier m.expression s ≡ some prg
        → eval_program engine m.id prg (context_of engine parse_float m)
          ≡ uncached engine parse_float m
    unfolding uncached finish
    same_answer m s prg coherent keeps e hit =
        let (c, read, same, is_prg) =
          offered-reads engine parse_float m.identifier m.expression s prg hit in
        let compiled =
          coherent m.identifier c read (context_of engine parse_float m)
            (keeps ∙ ap (named m.identifier) (sym same)) in
        ground arith

    -- A state that has got no entries but the program that this request builds.
    pub IsCoherent-step :
        (m : CelModel F) (s s' : State Program)
        → IsCoherent s
        → Keeps m
        → ((j : Str) (c : CacheEntry Program)
            → reads s' j ≡ some c
            → (reads s j ≡ some c)
              ⊎ ((m.identifier ≡ j)
                  × (c.expression ≡ m.expression)
                  × (build_program engine (context_of engine parse_float m) m.expression
                      ≡ built c.program)))
        → IsCoherent s'
    IsCoherent-step m s s' coherent keeps now_reads id c read context same =
        elim (now_reads id c read) [
          | inl old ↦ coherent id c old context same
          | inr (here, is_expression, compiled) ↦
              build_program-names context (context_of engine parse_float m) c.expression
                (same ∙ rw (is_expression, ← here) (sym keeps))
              ∙ rw is_expression compiled
        ]

    -- From a state whose cache is valid, has room and is coherent, a request that keeps to the
    -- names of its identifier and expression gets the answer that it gets with no cache. The state
    -- stays so.
    pub proc_cel-uncached :
        (m : CelModel F) (s : State Program)
        → IsReady s
        → IsCoherent s
        → Keeps m
        → (s' : State Program) × (proc_cel engine parse_float m s
            ≡ returns (s', (uncached engine parse_float m).0, (uncached engine parse_float m).1))
          × IsReady s'
          × IsCoherent s'
    proc_cel-uncached m s r coherent keeps =
        let (s', out, a) = proc_cel-Answers engine parse_float m r in
        let same : out ≡ uncached engine parse_float m = elim a.source [
          | inl e ↦ e
          | inr (prg, hit, e, evaluated) ↦ evaluated ∙ same_answer m s prg coherent keeps e hit
        ] in
        (
          s',
          a.returned ∙ ap (λ o. returns (s', o.0, o.1)) same,
          a.ready,
          IsCoherent-step m s s' coherent keeps a.now_reads,
        )

    pub init-IsCoherent : IsCoherent init
    unfolding init LruCache.new view lookup
    init-IsCoherent id c read context same = cc
