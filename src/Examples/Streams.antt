-- ===== src/Examples/Streams.antt =====
-- Tests of internal/utils/readercomp/readercomp.go on strings that are read in pieces.
use cel_service.Base.Text.{Str, text, str_eq}
use cel_service.Base.{
  ℕ, zero, suc, ◌<◌, ◌≤◌, ◌≡◌, ◌≢◌, refl, ap, arith, true, none, some, [], ◌∷◌, ◌++◌, if◌then◌else◌,
  length, take, drop,
}
use cel_service.Readercomp.Verdict.{equal-Verdict}
use cel_service.Readercomp.{
  ReadError, no_error, eof, failure, Reader, IsFinite, catch_up, read_round, equal, files_equal,
}

program : Unit {0}
unfolding text str_eq equal read_round catch_up files_equal
program = tt

length-take : (n : ℕ) (s : Str) → length (take n s) ≤ n
length-take zero s = omega arith
length-take (suc n) [] = omega arith
length-take (suc n) (c ∷ s) = let rest = length-take n s in ground arith

take-drop : (n : ℕ) (s : Str) → s ≡ take n s ++ drop n s
take-drop zero s = refl
take-drop (suc n) [] = refl
take-drop (suc n) (c ∷ s) = ap (λ t. c ∷ t) (take-drop n s)

length-drop : (n : ℕ) (s : Str) → length (drop n s) ≤ length s
length-drop zero s = omega arith
length-drop (suc n) [] = omega arith
length-drop (suc n) (c ∷ s) = let rest = length-drop n s in ground arith

abbrev status : Str → ReadError
status [] = eof
status (c ∷ s) = no_error

-- A string of which one read takes at most `piece k` bytes for a buffer of `k` bytes.
abbrev pieces : (ℕ → ℕ) → Reader
pieces piece = record { State = Str; read = λ k s. (drop (piece k) s, take (piece k) s, status s) }

over : (n : ℕ) (s : Str) → status s ≡ eof → length (drop n s) ≡ 0
over zero [] e = refl
over (suc n) [] e = refl
over n (c ∷ s) e = cc

fewer : (n : ℕ) (s : Str) → 0 < n → status s ≡ no_error → length (drop n s) < length s
fewer n [] pos_n e = cc
fewer zero (c ∷ s) pos_n e = absurd (omega arith)
fewer (suc n) (c ∷ s) pos_n e = let less = length-drop n s in ground arith

no_failure : (s e : Str) → ¬ (status s ≡ failure e)
no_failure [] e h = cc
no_failure (c ∷ s) e h = cc

empty : (s : Str) → length s ≡ 0 → s ≡ []
empty [] e = refl
empty (c ∷ s) e = absurd (ground arith)

module _ (piece : ℕ → ℕ) (small : (k : ℕ) → piece k ≤ k)
    (some_bytes : (k : ℕ) → 0 < k → 0 < piece k) where
  pieces-IsFinite : IsFinite (pieces piece)
  pieces-IsFinite = record {
    content = λ s. s;
    rank = length;
    Fails = λ e. ⊥;
    bounded = λ k s. let few = length-take (piece k) s in let less = small k in omega arith;
    reads = λ k s. take-drop (piece k) s;
    at_end = λ k s. over (piece k) s;
    nothing_left = empty;
    advances = λ k s pos_k. fewer (piece k) s (some_bytes k pos_k);
    failing = λ k s e. no_failure s e;
  }

-- A reader that fills its buffer, and one that reads a byte at a time.
abbrev whole : ℕ → ℕ
whole k = k

abbrev one : ℕ → ℕ
one zero = 0
one (suc k) = 1

one_small : (k : ℕ) → one k ≤ k
one_small zero = omega arith
one_small (suc k) = omega arith

one_some : (k : ℕ) → 0 < k → 0 < one k
one_some zero h = absurd (omega arith)
one_some (suc k) h = omega arith

abbrev of_whole : IsFinite (pieces whole)
of_whole = pieces-IsFinite whole (λ k. omega arith) (λ k h. h)

abbrev of_one : IsFinite (pieces one)
of_one = pieces-IsFinite one one_small one_some

-- The second reader catches up with the first one.
caught_up : equal (pieces whole) (pieces one) 9 3 (text "abcde") (text "abcde") ≡ some (true, none)
unfolding program
caught_up = refl

equal-Verdict_example : text "abcde" ≢ text "abcdf"
unfolding program pieces-IsFinite
equal-Verdict_example =
    equal-Verdict (pieces whole) (pieces one) of_whole of_one 12 3 (text "abcde") (text "abcdf")
      (omega arith) (omega arith)

-- The files `a` and `b`
abbrev content_of : Str → Str
content_of name = if str_eq name (text "a") then text "same" else text "sane"
