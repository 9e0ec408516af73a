-- ===== src/Readercomp/Rounds.antt =====
-- One round of the loop of `Equal` in internal/utils/readercomp/readercomp.go.
use cel_service.Base.Text.{Str}
use cel_service.Base.{ℕ, ◌<◌, ◌≤◌, ◌≡◌, ◌⊎◌, inl, inr, refl, sym, ap, ◌∙◌, arith, ◌++◌, length}
use cel_service.Readercomp.CatchUp.{IsCalm, Reached, catch_up-Reached}
use cel_service.Readercomp.{
  ReadError, no_error, eof, failure, Reader, IsFinite, CaughtUp, caught, broken, starved, catch_up,
  Round, both, failed, out_of_fuel, to_compare, second_catch_up, after_reads, read_round,
}
use native.Mathlib.Decide.{dec_lt}

lengths :
    (E E' : Type 0) (x y y' : ℕ)
    → (y ≤ x) ⊎ E
    → (y' ≤ x) ⊎ (y' ≡ y)
    → (x ≤ y') ⊎ E'
    → (x ≡ y') ⊎ ((x < y') × E) ⊎ ((y' < x) × E')
lengths E E' x y y' (inr end) top stop = elim (dec_lt x y') [
  | yes shorter ↦ inr (inl (shorter, end))
  | no up ↦ elim stop [
    | inl down ↦ inl (omega arith)
    | inr end' ↦ elim (dec_lt y' x) [
      | yes longer ↦ inr (inr (longer, end'))
      | no same ↦ inl (omega arith)
    ]
  ]
]
lengths E E' x y y' (inl full) top (inl down) = inl (ground arith)
lengths E E' x y y' (inl full) top (inr end') = elim (dec_lt y' x) [
  | yes longer ↦ inr (inr (longer, end'))
  | no same ↦ inl (ground arith)
]

-- What one read comes to, if it does not fail.
abbrev pub HasRead : (rd : Reader) → IsFinite rd → rd.State → rd.State → Str → ReadError → Type 0
HasRead rd fin s s' xs err =
    (xs ++ fin.content s' ≡ fin.content s)
    × (fin.rank s' ≤ fin.rank s)
    × IsCalm rd fin s' err
    × ((err ≡ eof) ⊎ (fin.rank s' < fin.rank s))

abbrev FirstRead : (rd : Reader) → IsFinite rd → rd.State → rd.State → Str → ReadError → Type 0
FirstRead rd fin s s' xs (failure e) = fin.Fails e
FirstRead rd fin s s' xs err = HasRead rd fin s s' xs err

first_read :
    (rd : Reader) (fin : IsFinite rd) (k : ℕ) (s : rd.State)
    → 0 < k
    → (err : ReadError) → (rd.read k s).2 ≡ err
    → FirstRead rd fin s (rd.read k s).0 (rd.read k s).1 err
first_read rd fin k s pos_k no_error e =
    let fell = fin.advances k s pos_k e in (sym (fin.reads k s), omega arith, tt, inr fell)
first_read rd fin k s pos_k eof e =
    let over = fin.at_end k s e in (sym (fin.reads k s), omega arith, over, inl refl)
first_read rd fin k s pos_k (failure t) e = fin.failing k s t e

-- What a read and a loop that catches up come to together.
HasRead-Reached :
    (rd : Reader) (fin : IsFinite rd) (s s' t : rd.State) (xs ys : Str) (err err' : ReadError)
    → HasRead rd fin s s' xs err
    → ys ++ fin.content t ≡ xs ++ fin.content s'
    → fin.rank t ≤ fin.rank s'
    → IsCalm rd fin t err'
    → (err' ≡ err) ⊎ (err' ≡ eof) ⊎ (fin.rank t < fin.rank s')
    → HasRead rd fin s t ys err'
HasRead-Reached rd fin s s' t xs ys err err' (all, less, calm, why) more further calm' (inl same) =
    elim why [
      | inl end ↦ (more ∙ all, omega arith, calm', inl (same ∙ end))
      | inr fell ↦ (more ∙ all, omega arith, calm', inr (omega arith))
    ]
HasRead-Reached rd fin s s' t xs ys err err' (all, less, calm, why) more further calm'
      (inr (inl end)) =
    (more ∙ all, omega arith, calm', inl end)
HasRead-Reached rd fin s s' t xs ys err err' (all, less, calm, why) more further calm'
      (inr (inr fell)) =
    (more ∙ all, omega arith, calm', inr (omega arith))

module _ (rd rd' : Reader) (fin : IsFinite rd) (fin' : IsFinite rd') where
  -- What a round comes to: two strings to compare, of one length unless one of the streams is at
  -- its end, or the failure of a reader.
  abbrev pub RoundRead : rd.State → rd'.State → Round rd.State rd'.State → Type 0
  RoundRead s t out_of_fuel = ⊥
  RoundRead s t (failed e) = fin.Fails e ⊎ fin'.Fails e
  RoundRead s t (both s' xs err t' ys err') =
      HasRead rd fin s s' xs err
      × HasRead rd' fin' t t' ys err'
      × ((length xs ≡ length ys)
          ⊎ ((length xs < length ys) × (err ≡ eof))
          ⊎ ((length ys < length xs) × (err' ≡ eof)))

  module _ (fuel : ℕ) (s : rd.State) (t : rd'.State) where
    to_compare-RoundRead :
        (s' s'' : rd.State) (xs xs' : Str) (err last_err : ReadError) (t' : rd'.State) (ys : Str)
        (err' : ReadError) (end : CaughtUp rd'.State)
        → HasRead rd fin s s' xs err
        → HasRead rd' fin' t t' ys err'
        → Reached rd fin (length ys) s' xs err (caught s'' xs' last_err)
        → Reached rd' fin' (length xs') t' ys err' end
        → RoundRead s t (to_compare rd rd' s'' xs' last_err end)
    to_compare-RoundRead s' s'' xs xs' err last_err t' ys err' starved h h' r r' = absurd r'
    to_compare-RoundRead s' s'' xs xs' err last_err t' ys err' (broken e) h h' r r' = inr r'
    to_compare-RoundRead s' s'' xs xs' err last_err t' ys err' (caught t'' ys' last_err') h h'
          (all, less, calm, longer, top, stop, why)
          (all', less', calm', longer', top', stop', why') =
        (
          HasRead-Reached rd fin s s' s'' xs xs' err last_err h all less calm why,
          HasRead-Reached rd' fin' t t' t'' ys ys' err' last_err' h' all' less' calm' why',
          lengths (last_err ≡ eof) (last_err' ≡ eof) (length xs') (length ys) (length ys') stop
              (elim top' [ inl down ↦ inl down | inr same ↦ inr (ap length same) ]) stop',
        )

    second_catch_up-RoundRead :
        (s' : rd.State) (xs : Str) (err : ReadError) (t' : rd'.State) (ys : Str) (err' : ReadError)
        (end : CaughtUp rd.State)
        → HasRead rd fin s s' xs err
        → HasRead rd' fin' t t' ys err'
        → fin'.rank t < fuel
        → Reached rd fin (length ys) s' xs err end
        → RoundRead s t (second_catch_up rd rd' fuel end t' ys err')
    second_catch_up-RoundRead s' xs err t' ys err' starved h h' enough r = absurd r
    second_catch_up-RoundRead s' xs err t' ys err' (broken e) h h' enough r = inl r
    second_catch_up-RoundRead s' xs err t' ys err' (caught s'' xs' last_err) h h' enough r =
        let less = h'.1 in
        to_compare-RoundRead s' s'' xs xs' err last_err t' ys err'
          (catch_up rd' fuel (length xs') t' ys err') h h' r
          (catch_up-Reached rd' fin' fuel (length xs') t' ys err' (omega arith) h'.2)

    both_read :
        (s' : rd.State) (xs : Str) (err : ReadError) (t' : rd'.State) (ys : Str) (err' : ReadError)
        → HasRead rd fin s s' xs err
        → HasRead rd' fin' t t' ys err'
        → fin.rank s < fuel
        → fin'.rank t < fuel
        → RoundRead s t
            (second_catch_up rd rd' fuel (catch_up rd fuel (length ys) s' xs err) t' ys err')
    both_read s' xs err t' ys err' h h' enough enough' =
        let less = h.1 in
        second_catch_up-RoundRead s' xs err t' ys err' (catch_up rd fuel (length ys) s' xs err) h h'
          enough' (catch_up-Reached rd fin fuel (length ys) s' xs err (omega arith) h.2)

    after_reads-RoundRead :
        (s' : rd.State) (xs : Str) (err : ReadError) (t' : rd'.State) (ys : Str) (err' : ReadError)
        → FirstRead rd fin s s' xs err
        → FirstRead rd' fin' t t' ys err'
        → fin.rank s < fuel
        → fin'.rank t < fuel
        → RoundRead s t (after_reads rd rd' fuel (s', xs, err) (t', ys, err'))
    after_reads-RoundRead s' xs (failure e) t' ys err' h h' n n' = inl h
    after_reads-RoundRead s' xs no_error t' ys (failure e) h h' n n' = inr h'
    after_reads-RoundRead s' xs eof t' ys (failure e) h h' n n' = inr h'
    after_reads-RoundRead s' xs no_error t' ys no_error h h' n n' =
        both_read s' xs _ t' ys _ h h' n n'
    after_reads-RoundRead s' xs no_error t' ys eof h h' n n' = both_read s' xs _ t' ys _ h h' n n'
    after_reads-RoundRead s' xs eof t' ys no_error h h' n n' = both_read s' xs _ t' ys _ h h' n n'
    after_reads-RoundRead s' xs eof t' ys eof h h' n n' = both_read s' xs _ t' ys _ h h' n n'

    pub read_round-RoundRead :
        (buf_size : ℕ)
        → 0 < buf_size
        → fin.rank s < fuel
        → fin'.rank t < fuel
        → RoundRead s t (read_round rd rd' fuel buf_size s t)
    unfolding read_round
    read_round-RoundRead k pos_k n n' =
        after_reads-RoundRead _ _ _ _ _ _ (first_read rd fin k s pos_k _ refl)
          (first_read rd' fin' k t pos_k _ refl) n n'
