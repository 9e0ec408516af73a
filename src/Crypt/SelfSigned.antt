-- ===== src/Crypt/SelfSigned.antt =====
-- The certificate of internal/crypt/generatecert.go.
use cel_service.Base.Text.{Str, text, split}
use cel_service.Base.{
  ℕ, ◌^◌, ◌≡◌, ◌⊎◌, ◌↔◌, inl, inr, refl, sym, ap, ◌∙◌, arith, Bool, true, false, List, [], ◌∷◌,
  ◌++◌, none, some, Option-cases,
}
use cel_service.Crypt.Keys.{
  KeyOf, StartOf, private_key-KeyOf, KeyOf-private_key, not_before_of-StartOf,
  StartOf-not_before_of,
}
use cel_service.Crypt.{
  GenerateCertificate, Crypto, PrivateKey, Template, TlsResult, configured, ◌>>=◌, private_key,
  public_key, not_before_of, add_hosts, with_ca, template_of, generate_tls_config,
}
use mathlib.Core.List.{append_assoc, append-nil}

module _ (lib : Crypto) where
  open lib use {Rsa, Ecdsa, Ed25519, Public, Time, Ip, Certificate}

  -- The hosts that are addresses, and the others.
  pub addresses : List Str → List Ip
  addresses [] = []
  addresses (h ∷ hosts) = elim (lib.parse_ip h) [
    | some ip ↦ ip ∷ addresses hosts
    | none ↦ addresses hosts
  ]

  unfoldable pub names : List Str → List Str
  names [] = []
  names (h ∷ hosts) = elim (lib.parse_ip h) [ some ip ↦ names hosts | none ↦ h ∷ names hosts ]

  add_hosts_lem :
      (hosts : List Str) (t : Template Time Ip)
      → add_hosts lib hosts t ≡ record t {
        ip_addresses = t.ip_addresses ++ addresses hosts;
        dns_names = t.dns_names ++ names hosts;
      }
  unfolding add_hosts addresses names
  add_hosts_lem [] t = simp append-nil
  add_hosts_lem (h ∷ hosts) t = elim (Option-cases (lib.parse_ip h)) [
    | inl a_name ↦
        rw (a_name, add_hosts, addresses, names)
          (add_hosts_lem hosts (record t { dns_names = t.dns_names ++ (h ∷ []) })
            ∙ simp append_assoc)
    | inr (ip, an_address) ↦
        rw (an_address, add_hosts, addresses, names)
          (add_hosts_lem hosts (record t { ip_addresses = t.ip_addresses ++ (ip ∷ []) })
            ∙ simp append_assoc)
  ]

  -- The certificate that is asked for: with this number, for the organization and for the addresses
  -- and the names of the hosts, in order, from its start on for the time asked for, for servers, and
  -- for signing others only if it is the one of an authority.
  abbrev IsFor : GenerateCertificate → Time → ℕ → Template Time Ip → Type 0
  IsFor gc start serial t =
      (t.ip_addresses ≡ addresses (split b',' gc.host))
      × (t.dns_names ≡ names (split b',' gc.host))
      × (t.organization ≡ gc.organization ∷ [])
      × (t.serial_number ≡ serial)
      × (t.not_before ≡ start)
      × (t.not_after ≡ lib.add_duration start gc.valid_for)
      × (t.key_encipherment ≡ true)
      × (t.digital_signature ≡ true)
      × (t.server_auth ≡ true)
      × (t.basic_constraints_valid ≡ true)
      × (t.template_is_ca ≡ gc.is_ca)
      × (t.cert_sign ≡ gc.is_ca)

  with_ca-IsFor :
      (gc : GenerateCertificate) (start : Time) (serial : ℕ) (ca : Bool) (t : Template Time Ip)
      → gc.is_ca ≡ ca
      → IsFor (record gc { is_ca = false }) start serial t
      → IsFor gc start serial (with_ca lib ca t)
  with_ca-IsFor gc start serial true t is_ca (a, b, c, d, e, f, g, h, i, j, k, l) =
      (a, b, c, d, e, f, g, h, i, j, sym is_ca, sym is_ca)
  with_ca-IsFor gc start serial false t is_ca (a, b, c, d, e, f, g, h, i, j, k, l) =
      (a, b, c, d, e, f, g, h, i, j, k ∙ sym is_ca, l ∙ sym is_ca)

  template_of-IsFor :
      (gc : GenerateCertificate) (start : Time) (serial : ℕ)
      → IsFor gc start serial (template_of lib gc start serial)
  unfolding template_of
  template_of-IsFor gc start serial = with_ca-IsFor gc start serial gc.is_ca _ refl (
      rw (add_hosts_lem (split b',' gc.host))
        (refl, refl, refl, refl, refl, refl, refl, refl, refl, refl, refl, refl))

  -- The template is all told by what is asked for.
  IsFor-eq :
      (gc : GenerateCertificate) (start : Time) (serial : ℕ) (t t' : Template Time Ip)
      → IsFor gc start serial t
      → IsFor gc start serial t'
      → t ≡ t'
  IsFor-eq gc start serial t t' (a, b, c, d, e, f, g, h, k, l, m, n)
        (a', b', c', d', e', f', g', h', k', l', m', n') =
      λ i. record {
        serial_number = (d ∙ sym d') i;
        organization = (c ∙ sym c') i;
        not_before = (e ∙ sym e') i;
        not_after = (f ∙ sym f') i;
        key_encipherment = (g ∙ sym g') i;
        digital_signature = (h ∙ sym h') i;
        cert_sign = (n ∙ sym n') i;
        server_auth = (k ∙ sym k') i;
        basic_constraints_valid = (l ∙ sym l') i;
        ip_addresses = (a ∙ sym a') i;
        dns_names = (b ∙ sym b') i;
        template_is_ca = (m ∙ sym m') i;
      }

  >>=-eq-configured :
      {A C : Type 0} (x : Str × (Str ⊎ A)) (next : A → TlsResult C) (c : C)
      → (x >>= next) ≡ configured c
      → (a : A) × (x.1 ≡ inr a) × (next a ≡ configured c)
  >>=-eq-configured (message, inl err) next c e = cc
  >>=-eq-configured (message, inr a) next c e = (a, refl, e)

  bind-inr :
      {A C : Type 0} (x : Str × (Str ⊎ A)) (next : A → TlsResult C) (a : A)
      → x.1 ≡ inr a
      → (x >>= next) ≡ next a
  bind-inr (message, inl err) next a e = cc
  bind-inr (message, inr a') next a e = ap next (ground arith)

  -- A self-signed certificate: it was made for what was asked for, with the public part of the
  -- private key that stands beside it.
  abbrev pub IsSelfSigned : GenerateCertificate → Certificate → Type 0
  IsSelfSigned gc c =
      (priv : PrivateKey Rsa Ecdsa Ed25519) × (public : Public) × (start : Time) × (serial : ℕ)
      × (t : Template Time Ip) × (der : Str) × (bytes : Str) × KeyOf lib gc priv public
      × StartOf lib gc start
      × (lib.random_below (2 ^ 128) ≡ inr serial)
      × IsFor gc start serial t
      × (lib.create_certificate t t public priv ≡ inr der)
      × (lib.marshal_private_key priv ≡ inr bytes)
      × (c
          ≡ lib.key_pair (lib.encode_pem (text "CERTIFICATE") der)
              (lib.encode_pem (text "PRIVATE KEY") bytes))

  made-IsSelfSigned :
      (gc : GenerateCertificate) (c : Certificate)
      → generate_tls_config lib gc ≡ configured c
      → IsSelfSigned gc c
  unfolding generate_tls_config
  made-IsSelfSigned gc c e =
      let (priv, made, e1) = >>=-eq-configured (private_key lib gc) _ c e in
      let (start, begins, e2) = >>=-eq-configured (not_before_of lib gc) _ c e1 in
      let (serial, drawn, e3) =
        >>=-eq-configured (text "Failed to generate serial number: ", lib.random_below (2 ^ 128)) _
          c e2 in
      let t = template_of lib gc start serial in
      let (der, signed, e4) =
        >>=-eq-configured
          (
            text "Failed to create certificate: ",
            lib.create_certificate t t (public_key lib priv) priv,
          )
          _ c e3 in
      let (bytes, marshalled, e5) =
        >>=-eq-configured (text "Unable to marshal private key: ", lib.marshal_private_key priv) _ c
          e4 in
      (
        priv,
        public_key lib priv,
        start,
        serial,
        t,
        der,
        bytes,
        private_key-KeyOf lib gc priv made,
        not_before_of-StartOf lib gc start begins,
        drawn,
        template_of-IsFor gc start serial,
        signed,
        marshalled,
        cc,
      )

  IsSelfSigned-made :
      (gc : GenerateCertificate) (c : Certificate)
      → IsSelfSigned gc c
      → generate_tls_config lib gc ≡ configured c
  unfolding generate_tls_config
  IsSelfSigned-made gc c
        (
          priv, public, start, serial, t, der, bytes, key, begins, drawn, for, signed, marshalled,
          same,
        ) =
      let (made, is_public) = KeyOf-private_key lib gc priv public key in
      let is_signed : lib.create_certificate (template_of lib gc start serial)
            (template_of lib gc start serial) (public_key lib priv) priv
          ≡ inr der =
        rw (is_public, ← IsFor-eq gc start serial t _ for (template_of-IsFor gc start serial))
          signed in
      bind-inr (private_key lib gc) _ priv made
      ∙ (bind-inr (not_before_of lib gc) _ start (StartOf-not_before_of lib gc start begins)
          ∙ rw (drawn, is_signed, marshalled) (ap configured (sym same)))

  -- A configuration is made exactly if the key, the start, the number, the certificate and its
  -- encoding can be made, and then it holds this certificate. The key is of the kind that was asked
  -- for: on the curve of the name, or, without a name, Ed25519 or else RSA with as many bits. The
  -- certificate is self-signed, and for the hosts, the time and the use that were asked for.
  pub generate_tls_config_iff :
      (gc : GenerateCertificate) (c : Certificate)
      → (generate_tls_config lib gc ≡ configured c) ↔ IsSelfSigned gc c
  generate_tls_config_iff gc c = (made-IsSelfSigned gc c, IsSelfSigned-made gc c)
