-- ===== src/CelProc/Cached.antt =====
-- `ProcCel` of internal/celproc/celproc.go against the evaluation with no cache.
use cel_service.Base.Text.{Str, str_eq_iff, is_empty}
use cel_service.Base.{
  ◌+◌, ◌≡◌, ◌⊎◌, inl, inr, refl, sym, ◌∙◌, arith, true, false, Option, none, some, Option-cases,
  Bool-cases, returns,
}
use cel_service.CelProc.Convert.{convert_json2map}
use cel_service.CelProc.Engine.{CelEngine}
use cel_service.CelProc.Steps.{
  reads, IsReady, offered, Looked, cached_program-Looked, Stored, store_program-Stored,
}
use cel_service.CelProc.Uncached.{uncached}
use cel_service.CelProc.{
  CacheEntry, State, Built, built, failed, build_program, creat_eval_program, eval_program, finish,
  proc_cel,
}
use cel_service.Model.Value.{GoMap}
use cel_service.Model.{CelModel, CelResult}

module _ {F : Type 0} (engine : CelEngine F) (parse_float : Str → Option F) where
  open engine use {Program}

  abbrev pub context_of : CelModel F → GoMap F
  context_of m = convert_json2map parse_float m.context

  abbrev counted : State Program → State Program
  counted s = record s { build_evals = s.build_evals + 1 }

  pub offered-reads :
      (id expression : Str) (s : State Program) (prg : Program)
      → offered engine id expression s ≡ some prg
      → (c : CacheEntry Program) × (reads s id ≡ some c)
        × (c.expression ≡ expression)
        × (c.program ≡ prg)
  unfolding offered
  offered-reads id expression s prg e = elim (Option-cases (reads s id)) [
    | inl miss ↦ absurd (ground arith)
    | inr (c, hit) ↦ (c, hit, ground (arith, str_eq_iff c.expression expression), ground arith)
  ]

  -- The state has an entry with this expression under this identifier.
  abbrev pub KeepsEntry : Str → Str → State Program → Type 0
  KeepsEntry id expression s =
      (c : CacheEntry Program) × (reads s id ≡ some c) × (c.expression ≡ expression)

  -- Only a build that succeeds ends with no error.
  finish-built :
      (id : Str) (context : GoMap F) (b : Built Program)
      → (finish engine id context b).1 ≡ none
      → (prg : Program) × (b ≡ built prg)
  unfolding finish
  finish-built id context (failed r x) e = cc
  finish-built id context (built prg) e = (prg, refl)

  pub record Answers (m : CelModel F) (s s' : State Program) (out : CelResult × Option Str)
      : Type 0 where
    pub returned : proc_cel engine parse_float m s ≡ returns (s', out.0, out.1)
    pub ready : IsReady s'
    pub source :
        (out ≡ uncached engine parse_float m)
        ⊎ ((prg : Program) × (offered engine m.identifier m.expression s ≡ some prg)
            × (is_empty m.expression ≡ false)
            × (out ≡ eval_program engine m.id prg (context_of m)))
    pub now_reads :
        (j : Str) (c : CacheEntry Program)
        → reads s' j ≡ some c
        → (reads s j ≡ some c)
          ⊎ ((m.identifier ≡ j)
              × (c.expression ≡ m.expression)
              × (build_program engine (context_of m) m.expression ≡ built c.program))
    pub stored :
        is_empty m.identifier ≡ false → out.1 ≡ none → KeepsEntry m.identifier m.expression s'

  module _ (m : CelModel F) {s : State Program} (r : IsReady s) where
    Answers-empty : is_empty m.expression ≡ true → Answers m s s (uncached engine parse_float m)
    unfolding proc_cel uncached
    Answers-empty e = record {
      returned = ground arith;
      ready = r;
      source = inl refl;
      now_reads = λ j c h. inl h;
      stored = λ kept fine. absurd (ground arith);
    }

    Answers-hit :
        (s' : State Program) (prg : Program)
        → is_empty m.expression ≡ false
        → Looked engine m.identifier m.expression s s'
        → offered engine m.identifier m.expression s ≡ some prg
        → Answers m s s' (eval_program engine m.id prg (context_of m))
    unfolding proc_cel
    Answers-hit s' prg e l hit = record {
      returned = ground (arith, l.returned);
      ready = l.ready;
      source = inr (prg, hit, e, refl);
      now_reads = λ j c h. inl (sym (l.same_reads j) ∙ h);
      stored = λ kept fine.
          let (c, read, same, is_prg) = offered-reads m.identifier m.expression s prg hit in
          (c, l.same_reads m.identifier ∙ read, same);
    }

    Answers-miss :
        (s' s'' : State Program)
        → is_empty m.expression ≡ false
        → Looked engine m.identifier m.expression s s'
        → offered engine m.identifier m.expression s ≡ none
        → Stored engine m.identifier m.expression
            (build_program engine (context_of m) m.expression)
            (counted s')
            s''
        → Answers m s s'' (uncached engine parse_float m)
    unfolding proc_cel uncached creat_eval_program
    Answers-miss s' s'' e l miss t = record {
      returned = ground (arith, l.returned, t.returned);
      ready = t.ready;
      source = inl refl;
      now_reads = λ j c h. older j c (t.now_reads j c h);
      stored = λ kept fine.
          let (prg, is_built) =
            finish-built m.id (context_of m) (build_program engine (context_of m) m.expression)
              (ground arith) in
          (_, t.self_reads prg is_built kept, refl);
    }
      where
        older :
            (j : Str) (c : CacheEntry Program)
            → (reads s' j ≡ some c)
              ⊎ ((m.identifier ≡ j)
                  × (c.expression ≡ m.expression)
                  × (build_program engine (context_of m) m.expression ≡ built c.program))
            → (reads s j ≡ some c)
              ⊎ ((m.identifier ≡ j)
                  × (c.expression ≡ m.expression)
                  × (build_program engine (context_of m) m.expression ≡ built c.program))
        older j c (inl h) = inl (sym (l.same_reads j) ∙ h)
        older j c (inr h) = inr h

    pub proc_cel-Answers :
        (s' : State Program) × (out : CelResult × Option Str) × Answers m s s' out
    proc_cel-Answers = elim (Bool-cases (is_empty m.expression)) [
      | inl e ↦ (s, uncached engine parse_float m, Answers-empty e)
      | inr e ↦
          let (s', l) = cached_program-Looked engine r m.identifier m.expression in
          elim (Option-cases (offered engine m.identifier m.expression s)) [
            | inr (prg, hit) ↦ (s', _, Answers-hit s' prg e l hit)
            | inl miss ↦
                let counts : IsReady (counted s') = record {
                  valid = l.ready.valid;
                  has_room = l.ready.has_room;
                } in
                let (s'', t) =
                  store_program-Stored engine counts m.identifier m.expression
                    (build_program engine (context_of m) m.expression) in
                (s'', _, Answers-miss s' s'' e l miss t)
          ]
    ]
