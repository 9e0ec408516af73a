-- ===== src/Http/Helpers.antt =====
-- internal/utils/httputils/httphelper.go: decoding a body, a parameter of the path, and the answer to
-- a creation. `Err` stands with the handlers, `FileServer` with the routes.
use cel_service.Base.Text.{Str, text, is_empty}
use cel_service.Base.{
  ℕ, ◌≡◌, ◌⊎◌, ◌↔◌, inl, inr, subst, [], ◌∷◌, ◌++◌, Option, none, some, if◌then◌else◌, arith,
  Option-cases,
}
use cel_service.Http.{Request}
use cel_service.Serror.{Serr, GoError, service_error, bad_request}

-- The header `Location`, the status and the body of an answer.
pub record Creation (B : Type 0) : Type 0 where
  pub location : Str
  pub status : ℕ
  pub body : B

unfoldable created : {B : Type 0} → Str → B → Creation B
created id v = record { location = id; status = 201; body = v }

module _ (marshal : Serr → Option Str) (service : Str) where
  -- `url_param` is `chi.URLParam`.
  unfoldable param : (Request → Str → Str) → Request → Str → GoError ⊎ Str
  param url_param r name =
      if is_empty (url_param r name)
      then inl (
          service_error (
            bad_request marshal service none
              (text "missing-param" ∷ (text "missing " ++ (name ++ text " in path")) ∷ [])))
      else inr (url_param r name)

  -- `default_decoder` is `render.DefaultDecoder` and `validate_struct` is `Validate.Struct`.
  module _ {A : Type 0} (default_decoder : Request → GoError ⊎ A)
      (validate_struct : A → Option GoError) where
    abbrev checked : A → Option GoError → GoError ⊎ A
    checked v none = inr v
    checked v (some e) = inl (
        service_error
          (bad_request marshal service (some e) (text "validate-body" ∷ text "body invalid" ∷ [])))

    abbrev after_decoding : GoError ⊎ A → GoError ⊎ A
    after_decoding (inl e) = inl (
        service_error (
          bad_request marshal service (some e)
            (text "decode-body" ∷ text "could not decode body" ∷ [])))
    after_decoding (inr v) = checked v (validate_struct v)

    unfoldable decode : Request → GoError ⊎ A
    decode r = after_decoding (default_decoder r)

    after_decoding_iff :
        (x : GoError ⊎ A) (v : A)
        → (after_decoding x ≡ inr v) ↔ ((x ≡ inr v) × (validate_struct v ≡ none))
    after_decoding_iff (inl e) v = (λ h. cc, λ (h, valid). cc)
    after_decoding_iff (inr w) v = elim (Option-cases (validate_struct w)) [
      | inl valid ↦ rw (valid) (
        λ h.
            let same : w ≡ v = ground arith in
            (h, subst (λ u. validate_struct u ≡ none) same valid),
        λ (h, also_valid). h,
      )
      | inr (e, invalid) ↦ rw (invalid) (λ h. cc, λ (h, valid). ground arith)
    ]

    -- A body is decoded to a value exactly if the decoder makes this value of it and it is valid.
    decode_iff :
        (r : Request) (v : A)
        → (decode r ≡ inr v) ↔ ((default_decoder r ≡ inr v) × (validate_struct v ≡ none))
    unfolding decode
    decode_iff r v = after_decoding_iff (default_decoder r) v
