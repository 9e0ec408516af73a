-- ===== src/CelProc/Interleaved/Turns.antt =====
-- One turn of a request to `ProcCel` of internal/celproc/celproc.go, whatever other requests have
-- done since its last one.
use cel_service.Base.Text.{Str, is_empty}
use cel_service.Base.{
  ◌+◌, ◌-◌, ◌≤◌, ◌≡◌, inl, inr, refl, sym, ◌∙◌, arith, false, Option, List, returns, Bool-cases,
  Option-cases,
}
use cel_service.CelProc.Cached.{context_of}
use cel_service.CelProc.Engine.{CelEngine}
use cel_service.CelProc.Entries.{Keeps, IsCoherent, same_answer, IsCoherent-step}
use cel_service.CelProc.Interleaved.{
  Phase, arrived, missed, has_program, answered, turns_left, advance, after_build,
}
use cel_service.CelProc.Steps.{IsReady, offered, cached_program-Looked, store_program-Stored}
use cel_service.CelProc.Uncached.{uncached}
use cel_service.CelProc.{
  State, Built, built, failed, build_program, creat_eval_program, eval_program, finish,
}
use cel_service.Model.{CelModel}

module _ {F : Type 0} (engine : CelEngine F) (parse_float : Str → Option F)
    (named : Str → Str → List Str) where
  open engine use {Program}

  -- What a phase says of the answer that is to come.
  abbrev pub IsRight : CelModel F → Phase Program → Type 0
  IsRight m arrived = Unit {0}
  IsRight m missed = is_empty m.expression ≡ false
  IsRight m (has_program prg) =
      eval_program engine m.id prg (context_of engine parse_float m) ≡ uncached engine parse_float m
  IsRight m (answered out) = out ≡ uncached engine parse_float m

  abbrev pub IsGood : State Program → Type 0
  IsGood s = IsReady s × IsCoherent engine parse_float named s

  abbrev pub IsSound : CelModel F × Phase Program → Type 0
  IsSound (m, p) = Keeps engine parse_float named m × IsRight m p

  -- A turn from a sound phase.
  abbrev pub Advances : CelModel F → Phase Program → State Program → Type 0
  Advances m p s =
      (s' : State Program) × (p' : Phase Program) × (advance engine parse_float m p s
        ≡ returns (s', p'))
      × IsGood s'
      × IsRight m p'
      × (turns_left p' ≤ turns_left p - 1)

  advance-arrived :
      (m : CelModel F) (s : State Program)
      → IsGood s
      → Keeps engine parse_float named m
      → Advances m arrived s
  unfolding advance uncached
  advance-arrived m s (r, coherent) keeps = elim (Bool-cases (is_empty m.expression)) [
    | inl e ↦ (
      s,
      answered (uncached engine parse_float m),
      rw (e, advance, uncached) refl,
      (r, coherent),
      refl,
      omega arith,
    )
    | inr e ↦
        let (s', l) = cached_program-Looked engine r m.identifier m.expression in
        let still : IsCoherent engine parse_float named s' =
          λ j c read. coherent j c (sym (l.same_reads j) ∙ read) in
        elim (Option-cases (offered engine m.identifier m.expression s)) [
          | inl miss ↦
              (s', missed, rw (e, l.returned, miss, advance) refl, (l.ready, still), e, omega arith)
          | inr (prg, hit) ↦ (
            s',
            has_program prg,
            rw (e, l.returned, hit, advance) refl,
            (l.ready, still),
            same_answer engine parse_float named m s prg coherent keeps e hit,
            omega arith,
          )
        ]
  ]

  after_build-IsRight :
      (m : CelModel F)
      → is_empty m.expression ≡ false
      → (b : Built Program)
      → build_program engine (context_of engine parse_float m) m.expression ≡ b
      → IsRight m (after_build engine parse_float b)
        × (turns_left (after_build engine parse_float b) ≤ 1)
  unfolding uncached finish
  after_build-IsRight m e (built prg) is_built = (rw (e, is_built, uncached) refl, omega arith)
  after_build-IsRight m e (failed r x) has_failed = (rw (e, has_failed, uncached) refl, omega arith)

  advance-missed :
      (m : CelModel F) (s : State Program)
      → IsGood s
      → Keeps engine parse_float named m
      → is_empty m.expression ≡ false
      → Advances m missed s
  unfolding advance creat_eval_program
  advance-missed m s (r, coherent) keeps e =
      let context = context_of engine parse_float m in
      let b = build_program engine context m.expression in
      let counts : IsReady (record s { build_evals = s.build_evals + 1 }) = record {
        valid = r.valid;
        has_room = r.has_room;
      } in
      let (s', t) = store_program-Stored engine counts m.identifier m.expression b in
      let (right, done) = after_build-IsRight m e b refl in
      let good : IsGood s' =
        (t.ready, IsCoherent-step engine parse_float named m s s' coherent keeps t.now_reads) in
      (
        s',
        after_build engine parse_float b,
        rw (t.returned, advance, creat_eval_program) refl,
        good,
        right,
        done,
      )

  pub advances :
      (m : CelModel F) (p : Phase Program) (s : State Program)
      → IsGood s
      → IsSound (m, p)
      → Advances m p s
  unfolding advance
  advances m arrived s good (keeps, right) = advance-arrived m s good keeps
  advances m missed s good (keeps, right) = advance-missed m s good keeps right
  advances m (has_program prg) s good (keeps, right) =
      (s, answered _, refl, good, right, omega arith)
  advances m (answered out) s good (keeps, right) =
      (s, answered out, refl, good, right, omega arith)
