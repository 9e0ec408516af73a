-- ===== src/Service/Session/Giving.antt =====
-- What each step of the service answers, from whatever state it starts.
use cel_service.Api.Counting.Counts.{shown, counted_once}
use cel_service.Api.Counting.{Site}
use cel_service.Base.Dict.{lookup}
use cel_service.Base.Int.{pos}
use cel_service.Base.Text.{Str, is_empty}
use cel_service.Base.{
  ℕ, ◌≡◌, ◌≢◌, some, inl, inr, refl, sym, ap, ◌∙◌, subst, Bool, true, false, List, [], ◌∷◌, none,
  Call, returns, ◌+◌, arith, if◌then◌else◌,
}
use cel_service.CelProc.Grpc.{plain_response, evaluate_uncached}
use cel_service.Config.{Config}
use cel_service.EvalApi.{error_body}
use cel_service.Health.{do_check}
use cel_service.Http.{Request}
use cel_service.Service.Guarded.{KeyGate, TokenGate, api_routes-guarded}
use cel_service.Service.Routes.{metrics_page, mounted_routes, is_jwt, api_routes}
use cel_service.Service.Session.Fitting.{
  IsServed, IsAnswered, Fits, IsFit, checked_at, Sound, IsBlind,
}
use cel_service.Service.Session.Hits.{hits, all_hits, hits-refused, hits-passed}
use cel_service.Service.Session.{
  tick, no_answer, Served, Parts, Event, rest, rpc, Answer, rest_answer, rpc_answer, surroundings,
  handle, respond, Exposed, exposed,
}
use cel_service.Service.Session.Stateless.{
  IsSound, stateless, stateless_steady, handle-stateless, IsSound-build_evals, IsSound-do_check,
}

module _ {F B : Type 0} (p : Parts F B) (named : Str → Str → List Str) (period : ℕ) (c : Config F)
    (key : Str) where
  open (p.engine) use {Program}

  -- From every sound state a step answers this for the counters that it leaves, the state stays sound, with the last health check at
  -- the time `next`, and the counters grow by so much.
  abbrev pub Gives :
      {A : Type 0}
      → (last next : ℕ) → (Site (Served Program) → Call (Site (Served Program) × A))
      → (Exposed → A)
      → (Str → ℕ)
      → Type 0
  Gives last next step a grown =
      (s : Site (Served Program))
      → Sound p named period c key last s
      → (s' : Site (Served Program)) × (step s ≡ returns (s', a (exposed s')))
        × Sound p named period c key next s'
        × ((name : Str)
            → shown (lookup name s'.metrics) ≡ shown (lookup name s.metrics) + grown name)

  -- Only for the page of the metrics do the counters matter.
  abbrev Steady : Request → (Exposed → B) → Type 0
  Steady r b = p.route_of (mounted_routes c) r ≢ some metrics_page → (x y : Exposed) → b x ≡ b y

  abbrev plainly : ℕ → Request → Exposed → B
  plainly last r = stateless p named period last (p.route_of (mounted_routes c) r) r

  plainly-Steady : (last : ℕ) (r : Request) → Steady r (plainly last r)
  plainly-Steady last r = stateless_steady p named period last (p.route_of (mounted_routes c) r) r

  routed-Gives :
      (last now : ℕ) (r : Request)
      → IsFit p named period c key last (rest now r)
      → Gives last last
          (handle p now (p.route_of (mounted_routes c) r) r)
          (plainly last r)
          (λ name. 0)
  routed-Gives last now r (fit, can) s good =
      let (s', e, good', kept) =
        handle-stateless p named period last now (p.route_of (mounted_routes c) r) r s good fit in
      (s', e, good', λ name. rw (kept) (omega arith))

  through_tokens :
      (last now : ℕ) (on : Bool) (r : Request)
      (inner : Site (Served Program) → Call (Site (Served Program) × B))
      → TokenGate (surroundings p now) on (mounted_routes c) r inner
      → IsFit p named period c key last (rest now r)
      → (b : Exposed → B) × ((x : Exposed) → IsServed p named period c key last x on r (b x))
        × Steady r b
        × Gives last last inner b (λ name. 0)
  through_tokens last now false r inner gate fit = (
    plainly last r,
    λ x. refl,
    plainly-Steady last r,
    subst (λ f. Gives last last f (plainly last r) (λ name. 0)) (sym gate)
        (routed-Gives last now r fit),
  )
  through_tokens last now true r inner (inl (jwt, decoded, readable, same, gate)) fit = (
    plainly last r,
    λ x. inl (readable, refl),
    plainly-Steady last r,
    subst (λ f. Gives last last f (plainly last r) (λ name. 0)) (sym gate)
        (routed-Gives last now r fit),
  )
  through_tokens last now true r inner (inr (unreadable, err, gate)) fit = (
    λ x. p.http_error err 401,
    λ x. inr (unreadable, err, refl),
    λ other x y. refl,
    λ s good. (s, ap (λ f. f s) gate, good, λ name. omega arith),
  )

  through_key :
      (last now : ℕ) (on : Bool) (r : Request)
      (inner outer : Site (Served Program) → Call (Site (Served Program) × B))
      → KeyGate (surroundings p now) on key r inner outer
      → TokenGate (surroundings p now) (is_jwt c) (mounted_routes c) r inner
      → IsFit p named period c key last (rest now r)
      → (b : Exposed → B) × ((x : Exposed) → IsAnswered p named period c key last x on r (b x))
        × Steady r b
        × Gives last last outer b (hits key on r)
  through_key last now false r inner outer gate tokens fit =
      let (b, served, steady, gives) = through_tokens last now (is_jwt c) r inner tokens fit in
      (b, served, steady, subst (λ f. Gives last last f b (λ name. 0)) (sym gate) gives)
  through_key last now true r inner outer (inl (checked, wrong, err, e)) tokens fit = (
    λ x. p.rendered (record { code = pos 400; body = error_body err }),
    λ x. inl (checked, wrong, err, refl),
    λ other x y. refl,
    λ s good. (s, ap (λ f. f s) e, good, λ name. hits-refused key r name _ checked wrong),
  )
  through_key last now true r inner outer (inr (passed, e)) tokens (fit, can) =
      let (b, served, steady, gives) =
        through_tokens last now (is_jwt c) r inner tokens (fit, can) in
      (
        b,
        λ x. inr (passed, served x),
        steady,
        λ s good.
            let (s1, counted, kept, grew) = counted_once p.can_register r s can in
            let (s', inner_e, good', same) =
              gives s1 (subst (IsSound p named period last) (sym kept) good) in
            (
              s',
              ap (λ f. f s) e ∙ rw (counted) inner_e,
              good',
              λ name. hits-passed key r name _ _ passed (omega (arith, same name) ∙ grew name),
            ),
      )

  pub respond-Gives :
      (last : ℕ) (e : Event F)
      → ((now : ℕ) → (api_routes (surroundings p now) c key).1 ≡ none)
      → IsFit p named period c key last e
      → (a : Exposed → Answer B) × ((x : Exposed) → Fits p named period c key last x e (a x))
        × (IsBlind p named period c key e → (x y : Exposed) → a x ≡ a y)
        × Gives last
            (checked_at p named period c key last e)
            (respond p c key e)
            a
            (all_hits key c.apikey (e ∷ []))
  unfolding respond all_hits
  respond-Gives last (rest now r) made fit =
      let (inner, key_gate, token_gate) =
        api_routes-guarded (surroundings p now) c key r (made now) in
      let (b, answered, steady, gives) =
        through_key last now c.apikey r inner _ key_gate token_gate fit in
      (
        λ x. rest_answer (b x),
        λ x. (b x, refl, answered x),
        λ blind x y. ap rest_answer (steady blind x y),
        λ s good.
            let (s', e, good', grew) = gives s good in
            (s', rw (e) refl, good', λ name. omega (arith, grew name)),
      )
  respond-Gives last (tick now) made fit = (
    λ x. no_answer,
    λ x. refl,
    λ blind x y. refl,
    λ s good. (
      record s { rest = record s.rest { health = do_check now s.rest.health } },
      refl,
      IsSound-do_check p named period last now s.rest good,
      λ name. omega arith,
    ),
  )
  respond-Gives last (rpc q) made fit = (
    λ x. rpc_answer (plain_response p.engine p.parse_float q),
    λ x. refl,
    λ blind x y. refl,
    λ s good.
        let n =
          if is_empty q.expression
          then s.rest.service.celproc.build_evals
          else s.rest.service.celproc.build_evals + 1 in
        (
          record s {
            rest = record s.rest {
              service = record s.rest.service {
                celproc = record s.rest.service.celproc { build_evals = n };
              };
            };
          },
          rw (evaluate_uncached p.engine p.parse_float q s.rest.service.celproc) refl,
          IsSound-build_evals p named period last s.rest n good,
          λ name. omega arith,
        ),
  )
