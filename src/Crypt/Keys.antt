-- ===== src/Crypt/Keys.antt =====
-- The key and the start of the certificate of internal/crypt/generatecert.go.
use cel_service.Base.Text.{Str, text, str_eq, str_eq_cases, is_empty}
use cel_service.Base.{
  ◌≡◌, ◌≢◌, ◌⊎◌, inl, inr, refl, sym, ap, ◌∙◌, arith, Bool, true, false, Bool-cases, [], ◌∷◌, ◌++◌,
  if◌then◌else◌,
}
use cel_service.Crypt.{
  GenerateCertificate, Crypto, PrivateKey, rsa_private, ecdsa_private, ed25519_private, Curve, p224,
  p256, p384, p521, private_key, public_key, not_before_of, as_rsa, as_ecdsa, as_ed25519,
}

-- The name of a curve in the configuration.
unfoldable pub name_of : Curve → Str
name_of p224 = text "P224"
name_of p256 = text "P256"
name_of p384 = text "P384"
name_of p521 = text "P521"

module _ (lib : Crypto) where
  open lib use {Rsa, Ecdsa, Ed25519, Public, Time}

  -- The private key that is asked for, with its public key: on the curve of this name, or, with no
  -- curve, an Ed25519 key if there is to be one, else an RSA key of as many bits.
  abbrev pub KeyOf : GenerateCertificate → PrivateKey Rsa Ecdsa Ed25519 → Public → Type 0
  KeyOf gc priv public =
      ((gc.ecdsa_curve ≡ [])
        × (gc.ed25519_key ≡ true)
        × (k : Ed25519) × (lib.generate_ed25519 ≡ inr k)
        × (priv ≡ ed25519_private k)
        × (public ≡ lib.ed25519_public k))
      ⊎ ((gc.ecdsa_curve ≡ [])
          × (gc.ed25519_key ≡ false)
          × (k : Rsa) × (lib.generate_rsa gc.rsa_bits ≡ inr k)
          × (priv ≡ rsa_private k)
          × (public ≡ lib.rsa_public k))
      ⊎ ((curve : Curve) × (gc.ecdsa_curve ≡ name_of curve)
          × (k : Ecdsa) × (lib.generate_ecdsa curve ≡ inr k)
          × (priv ≡ ecdsa_private k)
          × (public ≡ lib.ecdsa_public k))

  -- The time that the certificate is valid from: the one that is asked for, else now.
  abbrev pub StartOf : GenerateCertificate → Time → Type 0
  StartOf gc start =
      ((gc.valid_from ≡ []) × (start ≡ lib.now))
      ⊎ ((gc.valid_from ≢ []) × (lib.parse_time gc.valid_from ≡ inr start))

  as_rsa-inr :
      (x : Str ⊎ Rsa) (priv : PrivateKey Rsa Ecdsa Ed25519)
      → as_rsa lib x ≡ inr priv
      → (k : Rsa) × (x ≡ inr k) × (priv ≡ rsa_private k)
  as_rsa-inr (inl err) priv e = cc
  as_rsa-inr (inr k) priv e = (k, refl, cc)

  as_ecdsa-inr :
      (x : Str ⊎ Ecdsa) (priv : PrivateKey Rsa Ecdsa Ed25519)
      → as_ecdsa lib x ≡ inr priv
      → (k : Ecdsa) × (x ≡ inr k) × (priv ≡ ecdsa_private k)
  as_ecdsa-inr (inl err) priv e = cc
  as_ecdsa-inr (inr k) priv e = (k, refl, cc)

  as_ed25519-inr :
      (x : Str ⊎ Ed25519) (priv : PrivateKey Rsa Ecdsa Ed25519)
      → as_ed25519 lib x ≡ inr priv
      → (k : Ed25519) × (x ≡ inr k) × (priv ≡ ed25519_private k)
  as_ed25519-inr (inl err) priv e = cc
  as_ed25519-inr (inr k) priv e = (k, refl, cc)

  private_key-named :
      (gc : GenerateCertificate) (curve : Curve)
      → gc.ecdsa_curve ≡ name_of curve
      → (private_key lib gc).1 ≡ as_ecdsa lib (lib.generate_ecdsa curve)
  unfolding private_key name_of text str_eq
  private_key-named gc p224 named = rw (named) refl
  private_key-named gc p256 named = rw (named) refl
  private_key-named gc p384 named = rw (named) refl
  private_key-named gc p521 named = rw (named) refl

  private_key-empty :
      (gc : GenerateCertificate) (b : Bool)
      → gc.ecdsa_curve ≡ []
      → gc.ed25519_key ≡ b
      → (private_key lib gc).1 ≡ (
          if b
          then as_ed25519 lib lib.generate_ed25519
          else as_rsa lib (lib.generate_rsa gc.rsa_bits))
  unfolding private_key
  private_key-empty gc true no_curve kind = rw (no_curve, kind) refl
  private_key-empty gc false no_curve kind = rw (no_curve, kind) refl

  is_empty-false : (s : Str) → s ≢ [] → is_empty s ≡ false
  is_empty-false [] ne = absurd (ne refl)
  is_empty-false (c ∷ s) ne = refl

  -- A name is that of a curve, or empty, or no key is made.
  curve_cases :
      (gc : GenerateCertificate)
      → ((curve : Curve) × (gc.ecdsa_curve ≡ name_of curve))
        ⊎ (gc.ecdsa_curve ≡ [])
        ⊎ ((err : Str) × ((private_key lib gc).1 ≡ inl err))
  unfolding private_key name_of
  curve_cases gc = elim (str_eq_cases gc.ecdsa_curve []) [
    | inl (no_curve, test) ↦ inr (inl no_curve)
    | inr (a_name, test) ↦ elim (str_eq_cases gc.ecdsa_curve (text "P224")) [
      | inl (named, test') ↦ inl (p224, named)
      | inr (no224, test224) ↦ elim (str_eq_cases gc.ecdsa_curve (text "P256")) [
        | inl (named, test') ↦ inl (p256, named)
        | inr (no256, test256) ↦ elim (str_eq_cases gc.ecdsa_curve (text "P384")) [
          | inl (named, test') ↦ inl (p384, named)
          | inr (no384, test384) ↦ elim (str_eq_cases gc.ecdsa_curve (text "P521")) [
            | inl (named, test') ↦ inl (p521, named)
            | inr (no521, test521) ↦ inr (
                inr (
                  text "\"" ++ (gc.ecdsa_curve ++ text "\""),
                  rw (is_empty-false gc.ecdsa_curve a_name, test224, test256, test384, test521)
                      refl,
                ))
          ]
        ]
      ]
    ]
  ]

  pub private_key-KeyOf :
      (gc : GenerateCertificate) (priv : PrivateKey Rsa Ecdsa Ed25519)
      → (private_key lib gc).1 ≡ inr priv
      → KeyOf gc priv (public_key lib priv)
  unfolding public_key
  private_key-KeyOf gc priv e = elim (curve_cases gc) [
    | inl (curve, named) ↦
        let (k, made, is_key) =
          as_ecdsa-inr (lib.generate_ecdsa curve) priv
            (sym (private_key-named gc curve named) ∙ e) in
        inr (inr (curve, named, k, made, is_key, ap (public_key lib) is_key))
    | inr (inr (err, failed)) ↦ cc
    | inr (inl no_curve) ↦ elim (Bool-cases gc.ed25519_key) [
      | inl kind ↦
          let (k, made, is_key) =
            as_ed25519-inr lib.generate_ed25519 priv
              (sym (private_key-empty gc true no_curve kind) ∙ e) in
          inl (no_curve, kind, k, made, is_key, ap (public_key lib) is_key)
      | inr kind ↦
          let (k, made, is_key) =
            as_rsa-inr (lib.generate_rsa gc.rsa_bits) priv
              (sym (private_key-empty gc false no_curve kind) ∙ e) in
          inr (inl (no_curve, kind, k, made, is_key, ap (public_key lib) is_key))
    ]
  ]

  pub KeyOf-private_key :
      (gc : GenerateCertificate) (priv : PrivateKey Rsa Ecdsa Ed25519) (public : Public)
      → KeyOf gc priv public
      → ((private_key lib gc).1 ≡ inr priv) × (public_key lib priv ≡ public)
  unfolding private_key public_key name_of text str_eq
  KeyOf-private_key gc priv public (inl (no_curve, wanted, k, made, is_key, is_public)) =
      rw (no_curve, wanted, made, is_key, is_public) (refl, refl)
  KeyOf-private_key gc priv public (inr (inl (no_curve, other, k, made, is_key, is_public))) =
      rw (no_curve, other, made, is_key, is_public) (refl, refl)
  KeyOf-private_key gc priv public (inr (inr (p224, named, k, made, is_key, is_public))) =
      rw (named, made, is_key, is_public) (refl, refl)
  KeyOf-private_key gc priv public (inr (inr (p256, named, k, made, is_key, is_public))) =
      rw (named, made, is_key, is_public) (refl, refl)
  KeyOf-private_key gc priv public (inr (inr (p384, named, k, made, is_key, is_public))) =
      rw (named, made, is_key, is_public) (refl, refl)
  KeyOf-private_key gc priv public (inr (inr (p521, named, k, made, is_key, is_public))) =
      rw (named, made, is_key, is_public) (refl, refl)

  pub not_before_of-StartOf :
      (gc : GenerateCertificate) (start : Time)
      → (not_before_of lib gc).1 ≡ inr start
      → StartOf gc start
  unfolding not_before_of
  not_before_of-StartOf gc start e = ground arith

  pub StartOf-not_before_of :
      (gc : GenerateCertificate) (start : Time)
      → StartOf gc start
      → (not_before_of lib gc).1 ≡ inr start
  unfolding not_before_of
  StartOf-not_before_of gc start h = ground arith
