-- ===== src/Readercomp.antt =====
-- internal/utils/readercomp/readercomp.go: comparing two streams of bytes. An `io.Reader` is a state
-- and a function that reads at most a number of bytes; what the documentation of `io.Reader` says of
-- a finite stream is the record `IsFinite`.
pub mod CatchUp
pub mod Rounds
pub mod Verdict
use cel_service.Base.Text.{Str, str_eq}
use cel_service.Base.{
  ℕ, zero, suc, ◌-◌, ◌<◌, ◌≤◌, ◌≡◌, ◌⊎◌, inl, inr, Bool, true, false, Option, none, some, [], ◌++◌,
  length, ltb, ◌==◌, not, if◌then◌else◌,
}

pub data ReadError : Type 0 where
  no_error eof : ReadError
  failure : Str → ReadError

pub record Reader : Type 1 where
  pub State : Type 0
  pub read : ℕ → State → State × Str × ReadError

-- `content` is what is still to be read, and `rank` bounds the reads before the end.
pub record IsFinite (rd : Reader) : Type 1 where
  pub content : rd.State → Str
  pub rank : rd.State → ℕ
  pub Fails : Str → Type 0
  pub bounded : (k : ℕ) (s : rd.State) → length (rd.read k s).1 ≤ k
  pub reads : (k : ℕ) (s : rd.State) → content s ≡ (rd.read k s).1 ++ content (rd.read k s).0
  pub at_end : (k : ℕ) (s : rd.State) → (rd.read k s).2 ≡ eof → rank (rd.read k s).0 ≡ 0
  pub nothing_left : (s : rd.State) → rank s ≡ 0 → content s ≡ []
  pub advances :
      (k : ℕ) (s : rd.State) → 0 < k → (rd.read k s).2 ≡ no_error → rank (rd.read k s).0 < rank s
  pub failing : (k : ℕ) (s : rd.State) (e : Str) → (rd.read k s).2 ≡ failure e → Fails e

-- How a loop that catches up ends; `starved` means that the fuel ran out.
pub data CaughtUp (S : Type 0) : Type 0 where
  caught : S → Str → ReadError → CaughtUp S
  broken : Str → CaughtUp S
  starved : CaughtUp S

-- `for n1 < n2`: `bs` is `b1[:n1]` and `target` is `n2`.
unfoldable pub catch_up : (rd : Reader) → ℕ → ℕ → rd.State → Str → ReadError → CaughtUp rd.State
catch_up rd zero target s bs err = if ltb (length bs) target then starved else caught s bs err
catch_up rd (suc fuel) target s bs err = elim (ltb (length bs) target) [
  | false ↦ caught s bs err
  | true ↦
      let (s', more, err') = rd.read (target - length bs) s in
      elim err' [
        | eof ↦ caught s' (bs ++ more) eof
        | failure e ↦ broken e
        | no_error ↦ catch_up rd fuel target s' (bs ++ more) no_error
      ]
]

abbrev failure_of : ReadError → Option Str
failure_of (failure e) = some e
failure_of _ = none

-- One round of the loop of `Equal`, up to the comparison.
pub data Round (S T : Type 0) : Type 0 where
  both : S → Str → ReadError → T → Str → ReadError → Round S T
  failed : Str → Round S T
  out_of_fuel : Round S T

module _ (rd : Reader) (rd' : Reader) where
  abbrev pub to_compare : rd.State → Str → ReadError → CaughtUp rd'.State → Round rd.State rd'.State
  to_compare s xs err starved = out_of_fuel
  to_compare s xs err (broken e) = failed e
  to_compare s xs err (caught t ys err') = both s xs err t ys err'

  abbrev pub second_catch_up :
      ℕ → CaughtUp rd.State → rd'.State → Str → ReadError → Round rd.State rd'.State
  second_catch_up fuel starved t ys err' = out_of_fuel
  second_catch_up fuel (broken e) t ys err' = failed e
  second_catch_up fuel (caught s xs err) t ys err' =
      to_compare s xs err (catch_up rd' fuel (length xs) t ys err')

  -- What the first two reads of a round lead to.
  abbrev pub after_reads :
      ℕ → rd.State × Str × ReadError → rd'.State × Str × ReadError → Round rd.State rd'.State
  after_reads fuel (s, xs, err) (t, ys, err') = elim (failure_of err) [
    | some e ↦ failed e
    | none ↦ elim (failure_of err') [
      | some e ↦ failed e
      | none ↦ second_catch_up fuel (catch_up rd fuel (length ys) s xs err) t ys err'
    ]
  ]

  unfoldable pub read_round : ℕ → ℕ → rd.State → rd'.State → Round rd.State rd'.State
  read_round fuel buf_size s t = after_reads fuel (rd.read buf_size s) (rd'.read buf_size t)

  abbrev pub is_eof : ReadError → Bool
  is_eof eof = true
  is_eof _ = false

  -- `Equal`: the result and the error, or `none` if the fuel ran out.
  unfoldable pub equal : ℕ → ℕ → rd.State → rd'.State → Option (Bool × Option Str)
  equal zero buf_size s t = none
  equal (suc fuel) buf_size s t = elim (read_round fuel buf_size s t) [
    | out_of_fuel ↦ none
    | failed e ↦ some (false, some e)
    | both s' xs err t' ys err' ↦ elim (str_eq xs ys) [
      | false ↦ some (false, none)
      | true ↦ elim (is_eof err) [
        | false ↦ equal fuel buf_size s' t'
        | true ↦ elim (is_eof err') [ true ↦ some (true, none) | false ↦ equal fuel buf_size s' t' ]
      ]
    ]
  ]

-- `FilesEqual`: `stat` gives the size of a file, and `open_file` a reader of it, or an error.
module _ (rd : Reader) (stat : Str → Str ⊎ ℕ) (open_file : Str → Str ⊎ rd.State) where
  abbrev opened_equal : ℕ → Str ⊎ rd.State → Str ⊎ rd.State → Option (Bool × Option Str)
  opened_equal fuel (inl e) f2 = some (false, some e)
  opened_equal fuel (inr s) (inl e) = some (false, some e)
  opened_equal fuel (inr s) (inr t) = equal rd rd fuel 65536 s t

  abbrev sizes_equal : ℕ → Str → Str → Str ⊎ ℕ → Str ⊎ ℕ → Option (Bool × Option Str)
  sizes_equal fuel name1 name2 (inl e) info = some (false, some e)
  sizes_equal fuel name1 name2 (inr n) (inl e) = some (false, some e)
  sizes_equal fuel name1 name2 (inr n) (inr n') =
      if not (n == n')
      then some (false, none)
      else opened_equal fuel (open_file name1) (open_file name2)

  unfoldable pub files_equal : ℕ → Str → Str → Option (Bool × Option Str)
  files_equal fuel name1 name2 = sizes_equal fuel name1 name2 (stat name1) (stat name2)
