-- ===== src/Readercomp/CatchUp.antt =====
-- The loops of `Equal` in internal/utils/readercomp/readercomp.go that catch up with the other
-- reader.
use cel_service.Base.Text.{Str}
use cel_service.Base.{
  ℕ, zero, suc, ◌-◌, ◌<◌, ◌≤◌, ◌≡◌, ◌⊎◌, inl, inr, refl, sym, ap, ◌∙◌, arith, ◌++◌, length,
  length-append, ltb, Bool-cases,
}
use cel_service.Readercomp.{
  ReadError, no_error, eof, failure, Reader, IsFinite, CaughtUp, caught, broken, starved, catch_up,
}
use mathlib.Core.List.{append_assoc}

ReadError-cases : (e : ReadError) → ((e ≡ eof) ⊎ (e ≡ no_error)) ⊎ ((t : Str) × (e ≡ failure t))
ReadError-cases no_error = inl (inr refl)
ReadError-cases eof = inl (inl refl)
ReadError-cases (failure e) = inr (e, refl)

module _ (rd : Reader) (fin : IsFinite rd) where
  open fin use {content, rank, Fails, bounded, reads, at_end, advances, failing}

  -- The end was met if it was reported, and there is no error but this.
  abbrev pub IsCalm : rd.State → ReadError → Type 0
  IsCalm s no_error = Unit {0}
  IsCalm s eof = rank s ≡ 0
  IsCalm s (failure e) = ⊥

  -- How the loop ends from `bs` and `s`: it has read on up to the target or to the end.
  abbrev pub Reached : ℕ → rd.State → Str → ReadError → CaughtUp rd.State → Type 0
  Reached target s bs err starved = ⊥
  Reached target s bs err (broken e) = Fails e
  Reached target s bs err (caught s' bs' err') =
      (bs' ++ content s' ≡ bs ++ content s)
      × (rank s' ≤ rank s)
      × IsCalm s' err'
      × (length bs ≤ length bs')
      × ((length bs' ≤ target) ⊎ (bs' ≡ bs))
      × ((target ≤ length bs') ⊎ (err' ≡ eof))
      × ((err' ≡ err) ⊎ (err' ≡ eof) ⊎ (rank s' < rank s))

  -- A loop that goes on after a read.
  further :
      (target : ℕ) (s s' : rd.State) (bs bs' : Str) (err : ReadError) (end : CaughtUp rd.State)
      → Reached target s' bs' no_error end
      → bs' ++ content s' ≡ bs ++ content s
      → rank s' < rank s
      → length bs ≤ length bs'
      → length bs' ≤ target
      → Reached target s bs err end
  further target s s' bs bs' err starved r joined fell longer within = r
  further target s s' bs bs' err (broken e) r joined fell longer within = r
  further target s s' bs bs' err (caught t cs err') (all, less, calm, more, inl top, stop, why)
        joined fell longer within =
      (all ∙ joined, omega arith, calm, omega arith, inl top, stop, inr (inr (omega arith)))
  further target s s' bs bs' err (caught t cs err') (all, less, calm, more, inr same, stop, why)
        joined fell longer within =
      let top : length cs ≤ target = rw (same) within in
      (all ∙ joined, omega arith, calm, omega arith, inl top, stop, inr (inr (omega arith)))

  pub catch_up-Reached :
      (fuel target : ℕ) (s : rd.State) (bs : Str) (err : ReadError)
      → rank s < fuel
      → IsCalm s err
      → Reached target s bs err (catch_up rd fuel target s bs err)
  unfolding catch_up
  catch_up-Reached zero target s bs err h calm = elim h [ ]
  catch_up-Reached (suc fuel) target s bs err h calm = elim (Bool-cases (ltb (length bs) target)) [
    | inr full ↦
        rw (full, catch_up)
          (refl, omega arith, calm, omega arith, inr refl, inl (ground arith), inl refl)
    | inl short ↦
        let k = target - length bs in
        let s' = (rd.read k s).0 in
        let more = (rd.read k s).1 in
        let longer = length-append bs more in
        let small : length more ≤ k = bounded k s in
        let joined : (bs ++ more) ++ content s' ≡ bs ++ content s =
          append_assoc bs more (content s') ∙ ap (λ c. bs ++ c) (sym (reads k s)) in
        elim (ReadError-cases (rd.read k s).2) [
          | inl (inl at_eof) ↦
              rw (short, at_eof, catch_up)
                (
                  joined,
                  ground (arith, at_end k s at_eof),
                  at_end k s at_eof,
                  ground (arith, longer),
                  ground (arith, longer, small),
                  inr refl,
                  inr (inl refl),
                )
          | inl (inr more_left) ↦
              let fell = advances k s (ground arith) more_left in
              rw (short, more_left, catch_up)
                (further target s s' bs (bs ++ more) err
                  (catch_up rd fuel target s' (bs ++ more) no_error)
                  (catch_up-Reached fuel target s' (bs ++ more) no_error (omega arith) tt) joined
                  fell (omega (arith, longer)) (ground (arith, longer, small)))
          | inr (e, is_failure) ↦ rw (short, is_failure, catch_up) (failing k s e is_failure)
        ]
  ]
