-- ===== src/Crypt.antt =====
-- internal/crypt/generatecert.go: making a key and a self-signed certificate for the TLS server.
pub mod Keys
pub mod SelfSigned
use cel_service.Base.Int.{ℤ}
use cel_service.Base.Text.{Str, text, str_eq, split, is_empty}
use cel_service.Base.{
  ℕ, ◌^◌, Bool, true, false, List, [], ◌∷◌, ◌++◌, Option, none, some, ◌⊎◌, inl, inr, if◌then◌else◌,
}

pub record GenerateCertificate : Type 0 where
  pub organization : Str
  pub host : Str
  pub valid_from : Str
  pub valid_for : ℤ
  pub is_ca : Bool
  pub rsa_bits : ℤ
  pub ecdsa_curve : Str
  pub ed25519_key : Bool

pub data Curve : Type 0 where
  p224 p256 p384 p521 : Curve

-- The private keys that `publicKey` tells apart.
pub data PrivateKey (R E D : Type 0) : Type 0 where
  rsa_private : R → PrivateKey R E D
  ecdsa_private : E → PrivateKey R E D
  ed25519_private : D → PrivateKey R E D

-- The fields of `x509.Certificate` that are set; the flags of the key usage are given one by one.
pub record Template (Time Ip : Type 0) : Type 0 where
  pub serial_number : ℕ
  pub organization : List Str
  pub not_before : Time
  pub not_after : Time
  pub key_encipherment : Bool
  pub digital_signature : Bool
  pub cert_sign : Bool
  pub server_auth : Bool
  pub basic_constraints_valid : Bool
  pub ip_addresses : List Ip
  pub dns_names : List Str
  pub template_is_ca : Bool

-- What the code calls of the packages of `crypto`, `net` and `time`, with errors as their texts:
-- `parse_time` is `time.Parse` with the layout of the source, `random_below` is `rand.Int`, and `key_pair` is `tls.X509KeyPair`, whose error is not looked at.
pub record Crypto : Type 1 where
  pub Rsa : Type 0
  pub Ecdsa : Type 0
  pub Ed25519 : Type 0
  pub Public : Type 0
  pub Time : Type 0
  pub Ip : Type 0
  pub Certificate : Type 0
  pub generate_rsa : ℤ → Str ⊎ Rsa
  pub generate_ecdsa : Curve → Str ⊎ Ecdsa
  pub generate_ed25519 : Str ⊎ Ed25519
  pub rsa_public : Rsa → Public
  pub ecdsa_public : Ecdsa → Public
  pub ed25519_public : Ed25519 → Public
  pub now : Time
  pub parse_time : Str → Str ⊎ Time
  pub add_duration : Time → ℤ → Time
  pub random_below : ℕ → Str ⊎ ℕ
  pub parse_ip : Str → Option Ip
  pub create_certificate :
      Template Time Ip → Template Time Ip → Public → PrivateKey Rsa Ecdsa Ed25519 → Str ⊎ Str
  pub marshal_private_key : PrivateKey Rsa Ecdsa Ed25519 → Str ⊎ Str
  pub encode_pem : Str → Str → Str
  pub key_pair : Str → Str → Certificate

-- `log.Fatalf` ends the program with a message; else the configuration holds one certificate.
pub data TlsResult (C : Type 0) : Type 0 where
  exits : Str → TlsResult C
  configured : C → TlsResult C

infixl 5 ◌>>=◌
abbrev pub ◌>>=◌ : {A C : Type 0} → Str × (Str ⊎ A) → (A → TlsResult C) → TlsResult C
(message, inl err) >>= next = exits (message ++ err)
(message, inr a) >>= next = next a

module _ (lib : Crypto) where
  open lib use {Rsa, Ecdsa, Ed25519, Public, Time, Ip, Certificate}

  unfoldable pub public_key : PrivateKey Rsa Ecdsa Ed25519 → Public
  public_key (rsa_private k) = lib.rsa_public k
  public_key (ecdsa_private k) = lib.ecdsa_public k
  public_key (ed25519_private k) = lib.ed25519_public k

  abbrev as_rsa : Str ⊎ Rsa → Str ⊎ PrivateKey Rsa Ecdsa Ed25519
  as_rsa (inl err) = inl err
  as_rsa (inr k) = inr (rsa_private k)

  abbrev as_ecdsa : Str ⊎ Ecdsa → Str ⊎ PrivateKey Rsa Ecdsa Ed25519
  as_ecdsa (inl err) = inl err
  as_ecdsa (inr k) = inr (ecdsa_private k)

  abbrev as_ed25519 : Str ⊎ Ed25519 → Str ⊎ PrivateKey Rsa Ecdsa Ed25519
  as_ed25519 (inl err) = inl err
  as_ed25519 (inr k) = inr (ed25519_private k)

  -- `switch gc.EcdsaCurve`, with the message of the `log.Fatalf` that a failure leads to. The
  -- name of a curve that is not known stands in quotes, as it is if its characters are printable.
  unfoldable pub private_key : GenerateCertificate → Str × (Str ⊎ PrivateKey Rsa Ecdsa Ed25519)
  private_key gc =
      let failing = text "Failed to generate private key: " in
      if is_empty gc.ecdsa_curve
      then (if gc.ed25519_key
          then (failing, as_ed25519 lib.generate_ed25519)
          else (failing, as_rsa (lib.generate_rsa gc.rsa_bits)))
      else if str_eq gc.ecdsa_curve (text "P224")
      then (failing, as_ecdsa (lib.generate_ecdsa p224))
      else if str_eq gc.ecdsa_curve (text "P256")
      then (failing, as_ecdsa (lib.generate_ecdsa p256))
      else if str_eq gc.ecdsa_curve (text "P384")
      then (failing, as_ecdsa (lib.generate_ecdsa p384))
      else if str_eq gc.ecdsa_curve (text "P521")
      then (failing, as_ecdsa (lib.generate_ecdsa p521))
      else (text "Unrecognized elliptic curve: ", inl (text "\"" ++ (gc.ecdsa_curve ++ text "\"")))

  unfoldable pub not_before_of : GenerateCertificate → Str × (Str ⊎ Time)
  not_before_of gc = (
    text "Failed to parse creation date: ",
    if is_empty gc.valid_from then inr lib.now else lib.parse_time gc.valid_from,
  )

  -- The loop over the hosts.
  unfoldable pub add_hosts : List Str → Template Time Ip → Template Time Ip
  add_hosts [] t = t
  add_hosts (h ∷ hosts) t = add_hosts hosts (elim (lib.parse_ip h) [
    | some ip ↦ record t { ip_addresses = t.ip_addresses ++ (ip ∷ []) }
    | none ↦ record t { dns_names = t.dns_names ++ (h ∷ []) }
  ])

  abbrev pub with_ca : Bool → Template Time Ip → Template Time Ip
  with_ca true t = record t { template_is_ca = true; cert_sign = true }
  with_ca false t = t

  unfoldable pub template_of : GenerateCertificate → Time → ℕ → Template Time Ip
  template_of gc not_before serial = with_ca gc.is_ca (
      add_hosts (split b',' gc.host) (record {
        serial_number = serial;
        organization = gc.organization ∷ [];
        not_before = not_before;
        not_after = lib.add_duration not_before gc.valid_for;
        key_encipherment = true;
        digital_signature = true;
        cert_sign = false;
        server_auth = true;
        basic_constraints_valid = true;
        ip_addresses = [];
        dns_names = [];
        template_is_ca = false;
      }))

  unfoldable pub generate_tls_config : GenerateCertificate → TlsResult Certificate
  generate_tls_config gc = do
    priv ← private_key gc
    not_before ← not_before_of gc
    serial ← (text "Failed to generate serial number: ", lib.random_below (2 ^ 128))
    let template = template_of gc not_before serial
    der ← (
      text "Failed to create certificate: ",
      lib.create_certificate template template (public_key priv) priv,
    )
    bytes ← (text "Unable to marshal private key: ", lib.marshal_private_key priv)
    configured (
        lib.key_pair (lib.encode_pem (text "CERTIFICATE") der)
          (lib.encode_pem (text "PRIVATE KEY") bytes))
