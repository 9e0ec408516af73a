-- ===== src/Readercomp/Verdict.antt =====
-- What `Equal` and `FilesEqual` of internal/utils/readercomp/readercomp.go answer.
use cel_service.Base.Text.{Str, str_eq_cases}
use cel_service.Base.{
  ℕ, zero, suc, ◌+◌, ◌<◌, ◌≡◌, ◌≢◌, ◌⊎◌, inl, inr, refl, sym, ap, ◌∙◌, arith, Bool, true, false,
  Option, none, some, [], ◌∷◌, ◌++◌, length, length-append, ◌==◌, Bool-cases,
}
use cel_service.Readercomp.CatchUp.{IsCalm}
use cel_service.Readercomp.Rounds.{HasRead, RoundRead, read_round-RoundRead}
use cel_service.Readercomp.{
  ReadError, no_error, eof, failure, Reader, IsFinite, Round, both, failed, out_of_fuel, read_round,
  equal, is_eof, files_equal,
}

append-inj :
    (xs ys xs' ys' : Str) → length xs ≡ length ys → xs ++ xs' ≡ ys ++ ys' → (xs ≡ ys) × (xs' ≡ ys')
append-inj [] [] xs' ys' n e = (refl, e)
append-inj [] (y ∷ ys) xs' ys' n e = absurd (omega arith)
append-inj (x ∷ xs) [] xs' ys' n e = absurd (omega arith)
append-inj (x ∷ xs) (y ∷ ys) xs' ys' n e = ground (arith, append-inj xs ys xs' ys')

nothing_after :
    (rd : Reader) (fin : IsFinite rd) (s : rd.State) (err : ReadError)
    → err ≡ eof
    → IsCalm rd fin s err
    → fin.content s ≡ []
nothing_after rd fin s no_error e calm = cc
nothing_after rd fin s eof e calm = fin.nothing_left s calm
nothing_after rd fin s (failure t) e calm = absurd calm

rank_fell :
    (rd : Reader) (fin : IsFinite rd) (s s' : rd.State) (xs : Str)
    → HasRead rd fin s s' xs no_error
    → fin.rank s' < fin.rank s
rank_fell rd fin s s' xs (all, less, calm, inl e) = ground arith
rank_fell rd fin s s' xs (all, less, calm, inr fell) = fell

module _ (rd rd' : Reader) (fin : IsFinite rd) (fin' : IsFinite rd') where
  -- What the answer says of what is to be read of the two streams.
  abbrev pub Verdict : Str → Str → Option (Bool × Option Str) → Type 0
  Verdict all all' none = ⊥
  Verdict all all' (some (true, none)) = all ≡ all'
  Verdict all all' (some (false, none)) = all ≢ all'
  Verdict all all' (some (b, some e)) = (b ≡ false) × (fin.Fails e ⊎ fin'.Fails e)

  Verdict-prefix :
      (xs ys rest rest' all all' : Str) (o : Option (Bool × Option Str))
      → xs ≡ ys
      → xs ++ rest ≡ all
      → ys ++ rest' ≡ all'
      → Verdict rest rest' o
      → Verdict all all' o
  Verdict-prefix xs ys rest rest' all all' none same e e' v = v
  Verdict-prefix xs ys rest rest' all all' (some (true, none)) same e e' v = cc
  Verdict-prefix xs ys rest rest' all all' (some (false, none)) same e e' v =
      λ h. v ((append-inj xs ys rest rest' (ap length same) (e ∙ h ∙ sym e')).1)
  Verdict-prefix xs ys rest rest' all all' (some (true, some f)) same e e' v = v
  Verdict-prefix xs ys rest rest' all all' (some (false, some f)) same e e' v = v

  -- Two strings that differ, and were read up to one length or up to the end.
  differ :
      (s s' : rd.State) (t t' : rd'.State) (xs ys : Str) (err err' : ReadError)
      → xs ≢ ys
      → RoundRead rd rd' fin fin' s t (both s' xs err t' ys err')
      → fin.content s ≢ fin'.content t
  differ s s' t t' xs ys err err' other (h, h', inl same) e =
      other ((append-inj xs ys _ _ same (h.0 ∙ e ∙ sym h'.0)).0)
  differ s s' t t' xs ys err err' other (h, h', inr (inl (shorter, over))) e =
      let n = ap length (h.0 ∙ e ∙ sym h'.0) in
      let none_left = ap length (nothing_after rd fin s' err over h.2) in
      omega
        (arith, n, none_left, length-append xs (fin.content s'), length-append ys (fin'.content t'))
  differ s s' t t' xs ys err err' other (h, h', inr (inr (longer, over))) e =
      let n = ap length (h.0 ∙ e ∙ sym h'.0) in
      let none_left = ap length (nothing_after rd' fin' t' err' over h'.2) in
      omega
        (arith, n, none_left, length-append xs (fin.content s'), length-append ys (fin'.content t'))

  both_ended :
      (s s' : rd.State) (t t' : rd'.State) (xs ys : Str)
      → xs ≡ ys
      → HasRead rd fin s s' xs eof
      → HasRead rd' fin' t t' ys eof
      → fin.content s ≡ fin'.content t
  both_ended s s' t t' xs ys same h h' =
      sym h.0
      ∙ rw (fin.nothing_left s' h.2, fin'.nothing_left t' h'.2) (ap (λ x. x ++ []) same)
      ∙ h'.0

  -- A round that has read the same bytes of both streams.
  same_bytes :
      (fuel : ℕ) (s s' : rd.State) (t t' : rd'.State) (xs ys : Str) (err err' : ReadError)
      (o : Option (Bool × Option Str))
      → xs ≡ ys
      → HasRead rd fin s s' xs err
      → HasRead rd' fin' t t' ys err'
      → fin.rank s + fin'.rank t + 1 < suc fuel
      → (fin.rank s' + fin'.rank t' + 1 < fuel → Verdict (fin.content s') (fin'.content t') o)
      → Verdict (fin.content s) (fin'.content t) (elim (is_eof rd rd' err) [
        | false ↦ o
        | true ↦ elim (is_eof rd rd' err') [ true ↦ some (true, none) | false ↦ o ]
      ])
  same_bytes fuel s s' t t' xs ys eof eof o same h h' n next = both_ended s s' t t' xs ys same h h'
  same_bytes fuel s s' t t' xs ys eof no_error o same h h' n next =
      Verdict-prefix xs ys _ _ _ _ o same h.0 h'.0
        (next (let fell = rank_fell rd' fin' t t' ys h' in let less = h.1 in omega arith))
  same_bytes fuel s s' t t' xs ys no_error err' o same h h' n next =
      Verdict-prefix xs ys _ _ _ _ o same h.0 h'.0
        (next (let fell = rank_fell rd fin s s' xs h in let less = h'.1 in omega arith))
  same_bytes fuel s s' t t' xs ys eof (failure e) o same h h' n next = absurd h'.2
  same_bytes fuel s s' t t' xs ys (failure e) err' o same h h' n next = absurd h.2

  -- `Equal` ends with an answer if the fuel exceeds the ranks of both streams by two, and its
  -- buffers are not empty: true if the streams hold the same bytes, false if they do not, and an
  -- error only if one of the readers fails with it.
  pub equal-Verdict :
      (fuel buf_size : ℕ) (s : rd.State) (t : rd'.State)
      → 0 < buf_size
      → fin.rank s + fin'.rank t + 1 < fuel
      → Verdict (fin.content s) (fin'.content t) (equal rd rd' fuel buf_size s t)
  unfolding equal
  equal-Verdict zero k s t pos_k enough = absurd (omega arith)
  equal-Verdict (suc fuel) k s t pos_k enough =
      by_round (read_round rd rd' fuel k s t) refl
        (read_round-RoundRead rd rd' fin fin' fuel s t k pos_k (omega arith) (omega arith))
        (λ s' t' n. equal-Verdict fuel k s' t' pos_k n)
    where
      by_round :
          (r : Round rd.State rd'.State)
          → read_round rd rd' fuel k s t ≡ r
          → RoundRead rd rd' fin fin' s t r
          → ((s' : rd.State) (t' : rd'.State)
              → fin.rank s' + fin'.rank t' + 1 < fuel
              → Verdict (fin.content s') (fin'.content t') (equal rd rd' fuel k s' t'))
          → Verdict (fin.content s) (fin'.content t) (equal rd rd' (suc fuel) k s t)
      by_round out_of_fuel e r next = absurd r
      by_round (failed f) e r next = rw (e, equal) (refl, r)
      by_round (both s' xs err t' ys err') e r next = elim (str_eq_cases xs ys) [
        | inr (other, test) ↦ rw (e, test, equal) (differ s s' t t' xs ys err err' other r)
        | inl (same, test) ↦
            rw (e, test, equal)
              (same_bytes fuel s s' t t' xs ys err err' (equal rd rd' fuel k s' t') same r.0 r.1
                enough (next s' t'))
      ]

module _ (rd : Reader) (fin : IsFinite rd) (stat : Str → Str ⊎ ℕ) (open_file : Str → Str ⊎ rd.State)
    (fuel : ℕ) (name1 name2 : Str) (s t : rd.State) where
  -- For two files that can be opened, whose sizes are the numbers of their bytes, and enough fuel,
  -- `FilesEqual` says true if they hold the same bytes, false if they do not, and gives an error
  -- only if a reader fails with it.
  pub files_equal-Verdict :
      fin.rank s + fin.rank t + 1 < fuel
      → stat name1 ≡ inr (length (fin.content s))
      → stat name2 ≡ inr (length (fin.content t))
      → open_file name1 ≡ inr s
      → open_file name2 ≡ inr t
      → Verdict rd rd fin fin
          (fin.content s)
          (fin.content t)
          (files_equal rd stat open_file fuel name1 name2)
  unfolding files_equal
  files_equal-Verdict enough size1 size2 opened1 opened2 =
      elim (Bool-cases (length (fin.content s) == length (fin.content t))) [
        | inl same ↦
            rw (size1, size2, same, opened1, opened2)
              (equal-Verdict rd rd fin fin fuel 65536 s t (omega arith) enough)
        | inr other ↦ rw (size1, size2, other) (λ e. let n = ap length e in ground arith)
      ]
