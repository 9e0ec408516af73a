-- ===== src/CelProc/Steps.antt =====
-- The steps of `ProcCel` of internal/celproc/celproc.go on a state with a valid cache.
use cel_service.Base.Dict.{lookup}
use cel_service.Base.Int.{pos}
use cel_service.Base.Text.{Str, is_empty}
use cel_service.Base.{
  ◌+◌, ◌≡◌, ◌≢◌, ◌⊎◌, inl, inr, refl, sym, ◌∙◌, ap, arith, true, false, not, Option, none, some,
  Option-cases, Bool-cases, if◌then◌else◌, returns,
}
use cel_service.CelProc.Engine.{CelEngine}
use cel_service.CelProc.{
  CacheEntry, State, Built, built, failed, same_expression, get_from_cache, store_program,
  cached_program,
}
use cel_service.LruCache.Putting.{put-Becomes}
use cel_service.LruCache.Methods.{get-Becomes}
use cel_service.LruCache.Reads.{lookup-used_contents, lookup-put_contents, lookup-put_contents_self}
use cel_service.LruCache.Refine.{contents, used_contents, Becomes}
use cel_service.LruCache.Valid.{IsValid}
use cel_service.LruCache.{LruCache}
use cel_service.LruCache

-- The entry under an identifier.
abbrev pub reads : {P : Type 0} → State P → Str → Option (CacheEntry P)
reads s id = lookup id (contents s.lcache)

-- The cache is valid, and has room for an entry.
pub record IsReady {P : Type 0} (s : State P) : Type 0 where
  pub valid : IsValid s.lcache
  pub has_room : s.lcache.capacity ≢ pos 0

module _ {F : Type 0} (engine : CelEngine F) where
  open engine use {Program}

  -- What the cache offers for a request.
  unfoldable pub offered : Str → Str → State Program → Option Program
  offered id expression s =
      if not (is_empty id) then same_expression engine expression (reads s id) else none

  pub record Looked (id expression : Str) (s s' : State Program) : Type 0 where
    pub returned : cached_program engine id expression s ≡ returns (s', offered id expression s)
    pub ready : IsReady s'
    pub same_reads : (j : Str) → reads s' j ≡ reads s j
    pub same_builds : s'.build_evals ≡ s.build_evals

  module _ {s : State Program} (r : IsReady s) where
    Looked-empty : (id expression : Str) → is_empty id ≡ true → Looked id expression s s
    unfolding cached_program offered
    Looked-empty id expression e = record {
      returned = ground arith;
      ready = r;
      same_reads = λ j. refl;
      same_builds = refl;
    }

    Looked-miss :
        (id expression : Str) (l : LruCache (CacheEntry Program))
        → is_empty id ≡ false
        → reads s id ≡ none
        → LruCache.get id s.lcache ≡ returns (l, reads s id)
        → Becomes s.lcache l (used_contents id (contents s.lcache))
        → Looked id expression s (record s { lcache = l })
    unfolding cached_program offered get_from_cache
    Looked-miss id expression l e miss got b = record {
      returned = ground arith;
      ready = record { valid = b.valid; has_room = rw b.same_capacity r.has_room };
      same_reads = λ j. ap (lookup j) b.holds ∙ lookup-used_contents id j (contents s.lcache);
      same_builds = refl;
    }

    Looked-hit :
        (id expression : Str) (l : LruCache (CacheEntry Program)) (c : CacheEntry Program)
        → is_empty id ≡ false
        → reads s id ≡ some c
        → LruCache.get id s.lcache ≡ returns (l, reads s id)
        → Becomes s.lcache l (used_contents id (contents s.lcache))
        → Looked id expression s (record s { lcache = l; cache_hits = s.cache_hits + 1 })
    unfolding cached_program offered get_from_cache
    Looked-hit id expression l c e hit got b = record {
      returned = ground arith;
      ready = record { valid = b.valid; has_room = rw b.same_capacity r.has_room };
      same_reads = λ j. ap (lookup j) b.holds ∙ lookup-used_contents id j (contents s.lcache);
      same_builds = refl;
    }

    pub cached_program-Looked :
        (id expression : Str) → (s' : State Program) × Looked id expression s s'
    cached_program-Looked id expression = elim (Bool-cases (is_empty id)) [
      | inl e ↦ (s, Looked-empty id expression e)
      | inr e ↦
          let (l, got, b) = get-Becomes r.valid id in
          elim (Option-cases (reads s id)) [
            | inl miss ↦ (_, Looked-miss id expression l e miss got b)
            | inr (c, hit) ↦ (_, Looked-hit id expression l c e hit got b)
          ]
    ]

  -- What storing a built program does to the cache.
  pub record Stored (id expression : Str) (b : Built Program) (s s' : State Program) : Type 0 where
    pub returned : store_program engine id expression b s ≡ returns s'
    pub ready : IsReady s'
    pub now_reads :
        (j : Str) (c : CacheEntry Program)
        → reads s' j ≡ some c
        → (reads s j ≡ some c) ⊎ ((id ≡ j) × (c.expression ≡ expression) × (b ≡ built c.program))
    pub self_reads :
        (prg : Program)
        → b ≡ built prg
        → is_empty id ≡ false
        → reads s' id ≡ some (record { id = id; expression = expression; program = prg })
    pub same_builds : s'.build_evals ≡ s.build_evals
    pub same_hits : s'.cache_hits ≡ s.cache_hits

  module _ {s : State Program} (r : IsReady s) where
    Stored-failed :
        (id expression : Str) (b : Built Program)
        → store_program engine id expression b s ≡ returns s
        → ((prg : Program) → b ≡ built prg → is_empty id ≢ false)
        → Stored id expression b s s
    Stored-failed id expression b e none_stored = record {
      returned = e;
      ready = r;
      now_reads = λ j c h. inl h;
      self_reads = λ prg is_built kept. absurd (none_stored prg is_built kept);
      same_builds = refl;
      same_hits = refl;
    }

    Stored-built :
        (id expression : Str) (prg : Program)
        → is_empty id ≡ false
        → (s' : State Program) × Stored id expression (built prg) s s'
    unfolding store_program
    Stored-built id expression prg e =
        let c : CacheEntry Program = record { id = id; expression = expression; program = prg } in
        let (l, done, b) = put-Becomes r.valid id c r.has_room in
        (
          record s { lcache = l },
          record {
            returned = ground arith;
            ready = record { valid = b.valid; has_room = rw b.same_capacity r.has_room };
            now_reads = λ j d h. fresh_or_old c j d (
                lookup-put_contents s.lcache.capacity id j c d (contents s.lcache)
                  (ap (lookup j) (sym b.holds) ∙ h));
            self_reads = λ other same kept.
                ap (lookup id) b.holds
                ∙ lookup-put_contents_self s.lcache.capacity id c (contents s.lcache)
                ∙ ground arith;
            same_builds = refl;
            same_hits = refl;
          },
        )
      where
        fresh_or_old :
            (c : CacheEntry Program) (j : Str) (d : CacheEntry Program)
            → (id ≡ j) × (c ≡ d) ⊎ (reads s j ≡ some d)
            → (reads s j ≡ some d)
              ⊎ ((id ≡ j) × (d.expression ≡ c.expression) × (built c.program ≡ built d.program))
        fresh_or_old c j d (inl (same, e)) =
            inr (same, ap (λ x. x.expression) (sym e), ap (λ x. built x.program) e)
        fresh_or_old c j d (inr h) = inl h

    pub store_program-Stored :
        (id expression : Str) (b : Built Program)
        → (s' : State Program) × Stored id expression b s s'
    unfolding store_program
    store_program-Stored id expression (failed res e) =
        (s, Stored-failed id expression (failed res e) refl (λ prg h. cc))
    store_program-Stored id expression (built prg) = elim (Bool-cases (is_empty id)) [
      | inl e ↦ (s, Stored-failed id expression (built prg) (ground arith) (λ p h. ground arith))
      | inr e ↦ Stored-built id expression prg e
    ]
