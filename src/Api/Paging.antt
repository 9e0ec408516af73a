-- ===== src/Api/Paging.antt =====
-- `Paginate` of internal/api/sysapihandler.go.
use cel_service.Api.{Page, refuse, read_number, with_number, paginate}
use cel_service.Base.Int.{ℤ, pos}
use cel_service.Base.Strconv.{
  Parsed, parsed, syntax_error, range_error, parse_int, parse_int_half, InRange,
  parse_int_half-InRange, parse_int_half-print_int, print_int,
}
use cel_service.Base.Text.{Str, text}
use cel_service.Base.{◌≡◌, ◌≢◌, ◌⊎◌, ◌^◌, refl, ap, ◌∙◌, inl, inr, arith, Option, some, [], ◌∷◌}
use cel_service.Http.{Request}
use cel_service.Serror.Laws.{bad_request-code}
use cel_service.Serror.{Serr, other_error, bad_request}

-- The numbers of 64 bits with a sign.
abbrev pub IsInt : ℤ → Type 0
IsInt z = InRange (2 ^ 63) z

parse_int-print_int : (z : ℤ) → IsInt z → parse_int 64 (print_int z) ≡ parsed z
unfolding parse_int
parse_int-print_int z h = parse_int_half-print_int (2 ^ 63) z h

parse_int-IsInt : (n : Str) (z : ℤ) → parse_int 64 n ≡ parsed z → IsInt z
unfolding parse_int
parse_int-IsInt n z e = parse_int_half-InRange (2 ^ 63) n z (omega arith) e

-- A number of the query: 0 if it is not there, else the 64-bit integer that its text stands for.
abbrev pub Stands : Str → ℤ → Type 0
Stands n z = ((n ≡ []) × (z ≡ pos 0)) ⊎ ((n ≢ []) × IsInt z × (parse_int 64 n ≡ parsed z))

abbrev pub StandsForNone : Str → Type 0
StandsForNone n = (n ≢ []) × ((parse_int 64 n ≡ syntax_error) ⊎ (parse_int 64 n ≡ range_error))

module _ (marshal : Serr → Option Str) (service : Str) {R : Type 0} (render_json : ℤ → Serr → R)
    (atoi_error : Str → Str) where
  with_number_parsed :
      (n : Str) (msg : Str) (next : ℤ → R) (z : ℤ)
      → parse_int 64 n ≡ parsed z
      → with_number marshal service render_json atoi_error n msg next ≡ next z
  unfolding parse_int parse_int_half
  with_number_parsed [] msg next z e = ground arith
  with_number_parsed (c ∷ n) msg next z e = rw (e) refl

  -- A page of two printed 64-bit numbers is handed on to the handler as it is.
  pub paginate-print_int :
      (next : Page → Request → R) (r : Request) (page : Page)
      → IsInt page.offset
      → IsInt page.limit
      → r.query (text "offset") ≡ print_int page.offset
      → r.query (text "limit") ≡ print_int page.limit
      → paginate marshal service render_json atoi_error next r ≡ next page r
  unfolding paginate
  paginate-print_int next r page offset_ok limit_ok is_offset is_limit =
      rw (is_offset, is_limit)
        (with_number_parsed (print_int page.offset) _ _ page.offset
            (parse_int-print_int _ offset_ok)
          ∙ with_number_parsed (print_int page.limit) _ _ page.limit
              (parse_int-print_int _ limit_ok))

  -- What is done with a number: it is handed on, or there is none and the answer has the status 400.
  abbrev Handled : Str → (ℤ → R) → R → Type 0
  Handled n next answer =
      ((z : ℤ) × Stands n z × (answer ≡ next z))
      ⊎ (StandsForNone n × (e : Serr) × (answer ≡ render_json (pos 400) e))

  refused :
      (n msg : Str)
      → (e : Serr) × (refuse marshal service render_json
            (some (other_error (atoi_error n)))
            (text "wrong-type")
            msg
          ≡ render_json (pos 400) e)
  refused n msg =
      let e =
        bad_request marshal service (some (other_error (atoi_error n)))
          (text "wrong-type" ∷ msg ∷ []) in
      (e, ap (λ code. render_json code e) (bad_request-code marshal service _ _))

  read_number-Handled :
      (n : Str) (p : Parsed ℤ) (next : ℤ → R) (msg : Str)
      → n ≢ []
      → parse_int 64 n ≡ p
      → Handled n next (read_number marshal service render_json atoi_error n p next msg)
  read_number-Handled n (parsed z) next msg ne e = inl (z, inr (ne, parse_int-IsInt n z e, e), refl)
  read_number-Handled n syntax_error next msg ne e =
      let (err, answered) = refused n msg in inr ((ne, inl e), err, answered)
  read_number-Handled n range_error next msg ne e =
      let (err, answered) = refused n msg in inr ((ne, inr e), err, answered)

  with_number-Handled :
      (n : Str) (msg : Str) (next : ℤ → R)
      → Handled n next (with_number marshal service render_json atoi_error n msg next)
  with_number-Handled [] msg next = inl (pos 0, inl (refl, refl), refl)
  with_number-Handled (c ∷ n) msg next =
      read_number-Handled (c ∷ n) (parse_int 64 (c ∷ n)) next msg (λ e. cc) refl

  abbrev with_limit : (Page → Request → R) → Request → ℤ → R
  with_limit next r offset =
      with_number marshal service render_json atoi_error (r.query (text "limit"))
        (text "type of limit string is not correct.")
        (λ limit. next (record { offset = offset; limit = limit }) r)

  -- In every case the handler is called with the page that the query asks for, its offset and its
  -- limit 0 if they are not there and else the 64-bit integers that their texts stand for, or one
  -- of the two is there and stands for none, and the answer has the status 400.
  pub paginate_cases :
      (next : Page → Request → R) (r : Request)
      → ((page : Page) × Stands (r.query (text "offset")) page.offset
          × Stands (r.query (text "limit")) page.limit
          × (paginate marshal service render_json atoi_error next r ≡ next page r))
        ⊎ ((StandsForNone (r.query (text "offset")) ⊎ StandsForNone (r.query (text "limit")))
            × (e : Serr) × (paginate marshal service render_json atoi_error next r
                ≡ render_json (pos 400) e))
  unfolding paginate
  paginate_cases next r =
      elim (with_number-Handled (r.query (text "offset"))
        (text "type of offset string is not correct.") (with_limit next r)) [
          | inr (none_there, e, answered) ↦ inr (inl none_there, e, answered)
          | inl (offset, offset_ok, called) ↦
              elim (with_number-Handled (r.query (text "limit"))
                (text "type of limit string is not correct.")
                (λ limit. next (record { offset = offset; limit = limit }) r)) [
                  | inr (none_there, e, answered) ↦ inr (inr none_there, e, called ∙ answered)
                  | inl (limit, limit_ok, also_called) ↦ inl (
                    record { offset = offset; limit = limit },
                    offset_ok,
                    limit_ok,
                    called ∙ also_called,
                  )
                ]
        ]
