-- ===== src/Auth/Decoding.antt =====
-- Laws of `DecodeJWT` in internal/auth/jwt.go.
use cel_service.Auth.{
  Jwt, Outcome, done, failed, strip_bearer, jwt_decode_part, decode_parts, decode_jwt, no_jwt,
}
use cel_service.Base.Split.{Lacks, split_found}
use cel_service.Base.Text.{Str, text, str_eq, to_upper, split, split_first, split_rest}
use cel_service.Base.{
  ◌≡◌, ◌⊎◌, refl, inl, inr, arith, true, false, List, [], ◌∷◌, ◌++◌, Option, none, some,
  length-append,
}
use cel_service.Model.Value.{GoMap, nil_map}

module _ {F : Type 0} (decode_string : Str → Outcome Str)
    (unmarshal : Str → Outcome (GoMap F)) where
  -- The part is the base64 form of a JSON object, here `m`.
  abbrev Encodes : Str → GoMap F → Type 0
  Encodes part m = (bytes : Str) × (decode_string part ≡ done bytes) × (unmarshal bytes ≡ done m)

  Outcome-cases :
      {A : Type 0} (o : Outcome A) → ((s : Str) × (o ≡ failed s)) ⊎ ((a : A) × (o ≡ done a))
  Outcome-cases (failed s) = inl (s, refl)
  Outcome-cases (done a) = inr (a, refl)

  -- A part is read as a map, or gives an error and the nil map.
  jwt_decode_part_cases :
      (part : Str)
      → ((m : GoMap F) × Encodes part m
          × (jwt_decode_part decode_string unmarshal part ≡ (m, none)))
        ⊎ ((err : Str) × (jwt_decode_part decode_string unmarshal part ≡ (nil_map, some err))
            × ((m : GoMap F) → ¬ Encodes part m))
  unfolding jwt_decode_part
  jwt_decode_part_cases part = elim (Outcome-cases (decode_string part)) [
    | inl (s, bad) ↦ inr (
      text "token payload can't be decoded: " ++ s,
      rw (bad) refl,
      λ m (bytes, good, is_json). ground (arith, bad, good),
    )
    | inr (bytes, good) ↦ elim (Outcome-cases (unmarshal bytes)) [
      | inl (s, bad) ↦ inr (
        text "token payload parse error, " ++ s,
        rw (good, bad) refl,
        λ m (bytes', good', is_json).
            let same : bytes ≡ bytes' = ground arith in
            let is_bad : unmarshal bytes' ≡ failed s = rw (← same) bad in ground arith,
      )
      | inr (m, is_json) ↦ inl (m, (bytes, good, is_json), rw (good, is_json) refl)
    ]
  ]

  -- The parts of the token are a header and a payload that can be read, and perhaps others.
  abbrev AreReadable : List Str → Type 0
  AreReadable (h ∷ p ∷ rest) = ((m : GoMap F) × Encodes h m) × ((n : GoMap F) × Encodes p n)
  AreReadable _ = ⊥

  abbrev pub IsReadable : Str → Type 0
  IsReadable token = AreReadable (split b'.' (strip_bearer token))

  -- What comes of the parts, if the start `jwt` is not marked valid.
  abbrev pub Decoded : Jwt F → List Str → Jwt F × Option Str → Type 0
  Decoded jwt parts (read, none) =
      AreReadable parts × (read.is_valid ≡ true) × (read.token ≡ jwt.token)
  Decoded jwt parts (read, some err) =
      (¬ AreReadable parts) × (read.is_valid ≡ false) × (read.token ≡ jwt.token)

  decode_parts-Decoded :
      (jwt : Jwt F) (parts : List Str)
      → jwt.is_valid ≡ false
      → Decoded jwt parts (decode_parts decode_string unmarshal jwt parts)
  unfolding decode_parts
  decode_parts-Decoded jwt [] fresh = ((λ x. x), fresh, refl)
  decode_parts-Decoded jwt (h ∷ []) fresh = ((λ x. x), fresh, refl)
  decode_parts-Decoded jwt (h ∷ p ∷ rest) fresh = elim (jwt_decode_part_cases h) [
    | inr (err, bad, unreadable) ↦
        rw (bad) ((λ ((m, is_header), _). unreadable m is_header), fresh, refl)
    | inl (m, is_header, good) ↦ elim (jwt_decode_part_cases p) [
      | inr (err, bad, unreadable) ↦
          rw (good, bad) ((λ (_, (n, is_payload)). unreadable n is_payload), fresh, refl)
      | inl (n, is_payload, also_good) ↦
          rw (good, also_good) (((m, is_header), (n, is_payload)), refl, refl)
    ]
  ]

  -- `DecodeJWT` has no error exactly if the token has a header and a payload that can be read, and
  -- then alone the token is marked valid. In every case the text is kept.
  pub decode_jwt_cases :
      (token : Str)
      → Decoded
          (record no_jwt { token = token })
          (split b'.' (strip_bearer token))
          (decode_jwt decode_string unmarshal token)
  unfolding decode_jwt strip_bearer split split_first split_rest
  decode_jwt_cases [] = ((λ x. x), refl, refl)
  decode_jwt_cases (c ∷ token) = decode_parts-Decoded _ _ refl

  abbrev pub signed_token : Str → Str → Str → Str
  signed_token h p s = text "Bearer " ++ (h ++ (b'.' ∷ (p ++ (b'.' ∷ s))))

  strip_bearer-signed_token :
      (h p s : Str) → strip_bearer (signed_token h p s) ≡ h ++ (b'.' ∷ (p ++ (b'.' ∷ s)))
  unfolding strip_bearer text to_upper str_eq
  strip_bearer-signed_token h p s = ground (arith, length-append h (b'.' ∷ (p ++ (b'.' ∷ s))))

  decode_parts-rest :
      (h p : Str) (rest rest' : List Str) (t t' : Str)
      → let first =
          decode_parts decode_string unmarshal (record no_jwt { token = t }) (h ∷ p ∷ rest) in
        let second =
          decode_parts decode_string unmarshal (record no_jwt { token = t' }) (h ∷ p ∷ rest') in
        (first.1 ≡ second.1)
        × (first.0.header ≡ second.0.header)
        × (first.0.payload ≡ second.0.payload)
        × (first.0.is_valid ≡ second.0.is_valid)
  unfolding decode_parts
  decode_parts-rest h p rest rest' t t' = elim (jwt_decode_part_cases h) [
    | inr (err, bad, unreadable) ↦ rw (bad) (refl, refl, refl, refl)
    | inl (m, is_header, good) ↦ elim (jwt_decode_part_cases p) [
      | inr (err, bad, unreadable) ↦ rw (good, bad) (refl, refl, refl, refl)
      | inl (n, is_payload, also_good) ↦ rw (good, also_good) (refl, refl, refl, refl)
    ]
  ]

  -- Nothing but the signature of what is decoded depends on what follows the payload: with any two
  -- signatures the same is decoded, and with the same error. The header and the payload hold no
  -- dot.
  pub decode_jwt-signed_token :
      (h p s s' : Str)
      → Lacks b'.' h
      → Lacks b'.' p
      → let first = decode_jwt decode_string unmarshal (signed_token h p s) in
        let second = decode_jwt decode_string unmarshal (signed_token h p s') in
        (first.1 ≡ second.1)
        × (first.0.header ≡ second.0.header)
        × (first.0.payload ≡ second.0.payload)
        × (first.0.is_valid ≡ second.0.is_valid)
  unfolding decode_jwt text
  decode_jwt-signed_token h p s s' h_ok p_ok =
      rw
        (
          strip_bearer-signed_token h p s,
          strip_bearer-signed_token h p s',
          split_found b'.' h (p ++ (b'.' ∷ s)) h_ok,
          split_found b'.' h (p ++ (b'.' ∷ s')) h_ok,
          split_found b'.' p s p_ok,
          split_found b'.' p s' p_ok,
        )
        (decode_parts-rest h p _ _ _ _)
