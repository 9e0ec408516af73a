-- ===== src/Service/Session/Stateless.antt =====
-- What a handler of the service answers if nothing that came before mattered but the time of the last
-- health check and, for the page of the metrics, the counters, and that it does.
use cel_service.Api.Counting.{Site}
use cel_service.Base.Text.{Str, text}
use cel_service.Base.{ℕ, ◌-◌, ◌*◌, ◌≤◌, ◌≡◌, ◌≢◌, refl, true, List, Option, some, returns}
use cel_service.Config.{servicename}
use cel_service.EvalApi.Answers.{
  IsGood, KeepsNames, KeepNames, answer_of, answer_of_all, post_eval-answer_of,
  post_eval_many-answer_of_all,
}
use cel_service.EvalApi.{decode, default_decoder}
use cel_service.Health.Readiness.{second, HasPeriod, timer_in_time}
use cel_service.Health.{
  State, check, do_check, get_liveness, head_liveness, get_readiness, head_readiness,
}
use cel_service.Http.{Request}
use cel_service.Service.Routes.{
  Endpoint, to_evaluate, to_evaluate_many, get_live, get_ready, head_live, head_ready, metrics_page,
}
use cel_service.Service.Session.{Parts, Served, Exposed, exposed, handle}

module _ {F B : Type 0} (p : Parts F B) (named : Str → Str → List Str) (period : ℕ) where
  open (p.engine) use {Program}

  -- The last check found the service healthy.
  pub record IsUp (last : ℕ) (h : State) : Type 0 where
    pub up : h.healthy ≡ true
    pub last_check : h.last_checked ≡ last
    pub same_period : h.period ≡ period
    pub has_period : HasPeriod h

  abbrev pub IsSound : ℕ → Served Program → Type 0
  IsSound last s =
      IsGood p.marshal servicename p.wrapper p.engine p.parse_float named s.service
      × IsUp last s.health

  -- What a request is answered if it reaches the routes and the last health check was at this time;
  -- only the page of the metrics shows the counters.
  pub stateless : ℕ → Option Endpoint → Request → Exposed → B
  stateless last (some to_evaluate) r x = p.rendered (
      answer_of p.marshal servicename p.wrapper p.engine p.parse_float named
        (decode p.marshal servicename p.wrapper p.decode_json p.decode_xml p.validate_struct r))
  stateless last (some to_evaluate_many) r x = p.rendered (
      answer_of_all p.marshal servicename p.wrapper p.engine p.parse_float named
        (default_decoder p.decode_all_json p.decode_all_xml r))
  stateless last (some get_live) r x = p.rendered_msg (record {
    status = 200;
    body = record { message = text "service started"; last_check = text "" };
  })
  stateless last (some head_live) r x = p.bare (p.no_content 200)
  stateless last (some get_ready) r x = p.rendered_msg (record {
    status = 200;
    body = record { message = text "service up and running"; last_check = p.time_string last };
  })
  stateless last (some head_ready) r x = p.bare (p.no_content 200)
  stateless last (some metrics_page) r x = p.metrics_text x r
  stateless last e r x = p.others e r

  -- The requests in a body keep to the names of their identifiers and expressions; a readiness probe
  -- comes at most two periods after the last health check.
  abbrev pub FitsRoute : ℕ → ℕ → Option Endpoint → Request → Type 0
  FitsRoute last now (some to_evaluate) r =
      KeepsNames p.marshal servicename p.wrapper p.engine p.parse_float named
        (decode p.marshal servicename p.wrapper p.decode_json p.decode_xml p.validate_struct r)
  FitsRoute last now (some to_evaluate_many) r =
      KeepNames p.marshal servicename p.wrapper p.engine p.parse_float named
        (default_decoder p.decode_all_json p.decode_all_xml r)
  FitsRoute last now (some get_ready) r = now - last ≤ 2 * period * second
  FitsRoute last now (some head_ready) r = now - last ≤ 2 * period * second
  FitsRoute last now e r = Unit {0}

  -- A readiness probe in time is a GET or a HEAD of a healthy service.
  probed :
      (last now : ℕ) (h : State)
      → IsUp last h
      → now - last ≤ 2 * period * second
      → (get_readiness p.time_string now h
          ≡ returns (
            h,
            record {
              status = 200;
              body = record {
                message = text "service up and running";
                last_check = p.time_string last;
              };
            },
          ))
        × (head_readiness p.no_content now h ≡ returns (h, p.no_content 200))
  unfolding get_readiness head_readiness
  probed last now h is soon =
      let in_time = timer_in_time now h is.has_period (rw (is.last_check, is.same_period) soon) in
      (rw (in_time, is.up, is.last_check) refl, rw (in_time, is.up) refl)

  pub handle-stateless :
      (last now : ℕ) (e : Option Endpoint) (r : Request) (s : Site (Served Program))
      → IsSound last s.rest
      → FitsRoute last now e r
      → (s' : Site (Served Program)) × (handle p now e r s
          ≡ returns (s', stateless last e r (exposed s')))
        × IsSound last s'.rest
        × (s'.metrics ≡ s.metrics)
  unfolding handle stateless get_liveness head_liveness text
  handle-stateless last now (some to_evaluate) r s (good, up) keeps =
      let (t, answered, good', more) =
        post_eval-answer_of p.marshal servicename p.wrapper p.engine p.parse_float named
          p.decode_json p.decode_xml p.validate_struct r s.rest.service good keeps in
      (record s { rest = record s.rest { service = t } }, rw (answered) refl, (good', up), refl)
  handle-stateless last now (some to_evaluate_many) r s (good, up) keep =
      let (t, answered, good') =
        post_eval_many-answer_of_all p.marshal servicename p.wrapper p.engine p.parse_float named
          p.decode_all_json p.decode_all_xml r s.rest.service good keep in
      (record s { rest = record s.rest { service = t } }, rw (answered) refl, (good', up), refl)
  handle-stateless last now (some get_ready) r s (good, up) soon =
      (s, rw ((probed last now s.rest.health up soon).0) refl, (good, up), refl)
  handle-stateless last now (some head_ready) r s (good, up) soon =
      (s, rw ((probed last now s.rest.health up soon).1) refl, (good, up), refl)
  handle-stateless last now e r s good fit = (s, refl, good, refl)

  pub stateless_steady :
      (last : ℕ) (e : Option Endpoint) (r : Request)
      → e ≢ some metrics_page
      → (x y : Exposed) → stateless last e r x ≡ stateless last e r y
  unfolding stateless
  stateless_steady last (some metrics_page) r other x y = absurd (other refl)
  stateless_steady last e r other x y = refl

  -- The count of the evaluations tells nothing about the cache.
  pub IsSound-build_evals :
      (last : ℕ) (s : Served Program) (n : ℕ)
      → IsSound last s
      → IsSound last (record s {
        service = record s.service { celproc = record s.service.celproc { build_evals = n } };
      })
  IsSound-build_evals last s n ((ready, coherent), up) =
      ((record { valid = ready.valid; has_room = ready.has_room }, coherent), up)

  -- A health check finds the service healthy.
  pub IsSound-do_check :
      (last now : ℕ) (s : Served Program)
      → IsSound last s
      → IsSound now (record s { health = do_check now s.health })
  unfolding do_check check
  IsSound-do_check last now s (good, is) = (
    good,
    record {
      up = refl;
      last_check = refl;
      same_period = is.same_period;
      has_period = is.has_period;
    },
  )
