-- ===== src/CelProc/Interleaved/Runs.antt =====
-- Requests to `ProcCel` of internal/celproc/celproc.go that run side by side, against the evaluation
-- with no cache.
use cel_service.Base.Text.{Str}
use cel_service.Base.{
  ℕ, zero, suc, ◌-◌, ◌≤◌, ◌≡◌, refl, ap, subst, arith, Option, some, List, [], ◌∷◌, All, get_elem?,
  ◌==◌, if◌then◌else◌, returns,
}
use cel_service.CelProc.Engine.{CelEngine}
use cel_service.CelProc.Entries.{Keeps, IsCoherent}
use cel_service.CelProc.Interleaved.{
  Phase, arrived, missed, has_program, answered, turns_left, turns, advance_at, run_schedule,
  all_arrived,
}
use cel_service.CelProc.Steps.{IsReady}
use cel_service.CelProc.Uncached.{uncached}
use cel_service.CelProc.{State}
use cel_service.Model.{CelModel}
use cel_service.CelProc.Interleaved.Turns.{IsRight, IsGood, IsSound, advances}

module _ {F : Type 0} (engine : CelEngine F) (parse_float : Str → Option F)
    (named : Str → Str → List Str) where
  open engine use {Program}

  -- Each request is still there, and has come on if it had the turn.
  abbrev Moved : ℕ → List (CelModel F × Phase Program) → List (CelModel F × Phase Program) → Type 0
  Moved n ts ts' =
      (j : ℕ) (m : CelModel F) (p : Phase Program)
      → get_elem? ts j ≡ some (m, p)
      → (p' : Phase Program) × (get_elem? ts' j ≡ some (m, p'))
        × (turns_left p' ≤ turns_left p - (if n == j then 1 else 0))

  same_thread :
      (m n : CelModel F) (p q : Phase Program)
      → ◌≡◌ {A = Option (CelModel F × Phase Program)} (some (m, p)) (some (n, q))
      → (m ≡ n) × (p ≡ q)
  same_thread m n p q e = ground arith

  IsSound-thread :
      (t : CelModel F × Phase Program)
      → IsSound engine parse_float named t
      → IsRight engine parse_float named t.0 t.1
  IsSound-thread (m, p) (keeps, right) = right

  Moved-first :
      (m : CelModel F) (p p' : Phase Program) (ts : List (CelModel F × Phase Program))
      → turns_left p' ≤ turns_left p - 1
      → Moved 0 ((m, p) ∷ ts) ((m, p') ∷ ts)
  Moved-first m p p' ts less zero n q e =
      let (same, is_p) = same_thread m n p q e in
      (p', ap (λ x. some (x, p')) same, subst (λ x. turns_left p' ≤ turns_left x - 1) is_p less)
  Moved-first m p p' ts less (suc j) n q e = (q, e, ground arith)

  Moved-later :
      (t : CelModel F × Phase Program) (i : ℕ) (ts ts' : List (CelModel F × Phase Program))
      → Moved i ts ts'
      → Moved (suc i) (t ∷ ts) (t ∷ ts')
  Moved-later t i ts ts' moved zero n q e = (q, e, ground arith)
  Moved-later t i ts ts' moved (suc j) n q e =
      let (q', there, less) = moved j n q e in (q', there, ground arith)

  advance_at-IsSound :
      (i : ℕ) (ts : List (CelModel F × Phase Program)) (s : State Program)
      → IsGood engine parse_float named s
      → All (IsSound engine parse_float named) ts
      → (s' : State Program) × (ts' : List (CelModel F × Phase Program)) × (advance_at engine
            parse_float i ts s
          ≡ returns (s', ts'))
        × IsGood engine parse_float named s'
        × All (IsSound engine parse_float named) ts'
        × Moved i ts ts'
  unfolding advance_at
  advance_at-IsSound i [] s good sound = (s, [], refl, good, tt, λ j m p e. cc)
  advance_at-IsSound zero ((m, p) ∷ ts) s good ((keeps, right), sound) =
      let (s', p', e, good', right', less) =
        advances engine parse_float named m p s good (keeps, right) in
      (s', (m, p') ∷ ts, rw e refl, good', ((keeps, right'), sound), Moved-first m p p' ts less)
  advance_at-IsSound (suc i) ((m, p) ∷ ts) s good (first, sound) =
      let (s', ts', e, good', sound', moved) = advance_at-IsSound i ts s good sound in
      (s', (m, p) ∷ ts', rw e refl, good', (first, sound'), Moved-later (m, p) i ts ts' moved)

  run_schedule-IsSound :
      (schedule : List ℕ) (ts : List (CelModel F × Phase Program)) (s : State Program)
      → IsGood engine parse_float named s
      → All (IsSound engine parse_float named) ts
      → (s' : State Program) × (ts' : List (CelModel F × Phase Program)) × (run_schedule engine
            parse_float schedule ts s
          ≡ returns (s', ts'))
        × IsGood engine parse_float named s'
        × All (IsSound engine parse_float named) ts'
        × ((j : ℕ) (m : CelModel F) (p : Phase Program)
            → get_elem? ts j ≡ some (m, p)
            → (p' : Phase Program) × (get_elem? ts' j ≡ some (m, p'))
              × (turns_left p' ≤ turns_left p - turns j schedule))
  unfolding run_schedule turns
  run_schedule-IsSound [] ts s good sound =
      (s, ts, refl, good, sound, λ j m p e. (p, e, omega arith))
  run_schedule-IsSound (i ∷ schedule) ts s good sound =
      let (s1, ts1, e1, good1, sound1, moved1) = advance_at-IsSound i ts s good sound in
      let (s2, ts2, e2, good2, sound2, moved2) =
        run_schedule-IsSound schedule ts1 s1 good1 sound1 in
      (
        s2,
        ts2,
        rw (e1, e2) refl,
        good2,
        sound2,
        λ j m p e.
            let (p1, there1, less1) = moved1 j m p e in
            let (p2, there2, less2) = moved2 j m p1 there1 in (p2, there2, omega arith),
      )

  arrived-IsSound :
      (ms : List (CelModel F))
      → All (Keeps engine parse_float named) ms
      → All (IsSound engine parse_float named) (all_arrived engine parse_float ms)
  unfolding all_arrived
  arrived-IsSound [] keeps = tt
  arrived-IsSound (m ∷ ms) (keep, keeps) = ((keep, tt), arrived-IsSound ms keeps)

  get_elem?-all_arrived :
      (ms : List (CelModel F)) (j : ℕ) (m : CelModel F)
      → get_elem? ms j ≡ some m
      → get_elem? (all_arrived engine parse_float ms) j ≡ some (m, arrived)
  unfolding all_arrived
  get_elem?-all_arrived [] j m e = cc
  get_elem?-all_arrived (n ∷ ms) zero m e = ground arith
  get_elem?-all_arrived (n ∷ ms) (suc j) m e = get_elem?-all_arrived ms j m e

  IsSound-at :
      (ts : List (CelModel F × Phase Program)) (j : ℕ) (m : CelModel F) (p : Phase Program)
      → All (IsSound engine parse_float named) ts
      → get_elem? ts j ≡ some (m, p)
      → IsRight engine parse_float named m p
  IsSound-at [] j m p sound e = cc
  IsSound-at (t ∷ ts) zero m p (first, sound) e =
      let (same, is_p) = same_thread t.0 m t.1 p e in
      subst (λ x. IsRight engine parse_float named m x) is_p
        (subst (λ x. IsRight engine parse_float named x t.1) same (IsSound-thread t first))
  IsSound-at (t ∷ ts) (suc j) m p (first, sound) e = IsSound-at ts j m p sound e

  ended :
      (m : CelModel F) (p : Phase Program)
      → turns_left p ≤ 0
      → IsRight engine parse_float named m p
      → p ≡ answered (uncached engine parse_float m)
  ended m arrived none_left right = absurd (omega arith)
  ended m missed none_left right = absurd (omega arith)
  ended m (has_program prg) none_left right = absurd (omega arith)
  ended m (answered out) none_left right = ap answered right

  -- From a state whose cache is valid, has room and is coherent, requests that keep to the names of
  -- their identifiers and expressions may run side by side in any order of their turns: no turn
  -- panics, the state stays so, an answer is never another than the one with no cache, and a request
  -- that has had three turns is answered.
  pub run_schedule-uncached :
      (schedule : List ℕ) (ms : List (CelModel F)) (s : State Program)
      → IsReady s
      → IsCoherent engine parse_float named s
      → All (Keeps engine parse_float named) ms
      → (s' : State Program) × (ts : List (CelModel F × Phase Program)) × (run_schedule engine
            parse_float schedule
            (all_arrived engine parse_float ms)
            s
          ≡ returns (s', ts))
        × IsReady s'
        × IsCoherent engine parse_float named s'
        × ((j : ℕ) (m : CelModel F)
            → get_elem? ms j ≡ some m
            → (p : Phase Program) × (get_elem? ts j ≡ some (m, p))
              × IsRight engine parse_float named m p
              × (3 ≤ turns j schedule → p ≡ answered (uncached engine parse_float m)))
  run_schedule-uncached schedule ms s r coherent keeps =
      let (s', ts, e, (r', coherent'), sound, moved) =
        run_schedule-IsSound schedule (all_arrived engine parse_float ms) s (r, coherent)
          (arrived-IsSound ms keeps) in
      (
        s',
        ts,
        e,
        r',
        coherent',
        λ j m there.
            let (p, still, less) = moved j m arrived (get_elem?-all_arrived ms j m there) in
            let right = IsSound-at ts j m p sound still in
            (p, still, right, λ enough. ended m p (omega arith) right),
      )
