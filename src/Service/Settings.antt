-- ===== src/Service/Settings.antt =====
-- The settings of cmd/service/main.go: which flags override the configuration, where the log goes,
-- and the api key that it makes.
use cel_service.Api.ApiKey.{sys_api_handler_cases}
use cel_service.Api.{sys_api_handler}
use cel_service.Base.Int.{ℤ, pos}
use cel_service.Base.Text.{Str, text, to_lower, to_upper, to_lower-hex}
use cel_service.Base.{◌≡◌, Bool, ◌⊎◌, inl, inr, refl, arith, [], ◌∷◌, Option}
use cel_service.Config.{Config}
use cel_service.Http.{Request}
use cel_service.Logging
use cel_service.Logging.{Output, Written}
use cel_service.Serror.{Serr}
use cel_service.Service.{default_flags, init_config, get_apikey}

to_lower-to_upper : (s : Str) → to_lower s ≡ s → to_lower (to_upper s) ≡ s
unfolding to_lower to_upper
to_lower-to_upper [] e = refl
to_lower-to_upper (c ∷ s) e = ground (arith, to_lower-to_upper s)

-- The key that `getApikey` makes is in small letters.
to_lower-get_apikey : (md5 : Str → Str) → to_lower (get_apikey md5) ≡ get_apikey md5
unfolding get_apikey
to_lower-get_apikey md5 = rw (to_lower-hex) (to_lower-hex _)

module _ {F : Type 0} where
  -- With nothing on the command line the configuration is kept, but for the port of the gRPC
  -- server, which the default of its flag replaces.
  init_config-default_flags :
      (file : Str) (c : Config F)
      → init_config (default_flags file) c ≡ record c { grpc_port = pos 50051 }
  unfolding init_config default_flags
  init_config-default_flags file c = refl

module _ (marshal : Serr → Option Str) (service : Str) (md5 : Str → Str) {R : Type 0}
    (render_json : ℤ → Serr → R) (skip : Option (Request → Bool)) where
  -- A request that carries the key of `getApikey`, as it is or in capital letters, is handed on.
  pub get_apikey-admitted :
      (next : Request → R) (r : Request)
      → (r.header (text "apikey") ≡ get_apikey md5)
        ⊎ (r.header (text "apikey") ≡ to_upper (get_apikey md5))
      → sys_api_handler marshal service render_json
          (record { apikey = get_apikey md5; skip_func = skip })
          next
          r
        ≡ next r
  get_apikey-admitted next r key =
      elim (sys_api_handler_cases marshal service render_json
        (record { apikey = get_apikey md5; skip_func = skip }) next r) [
          | inl (why, e) ↦ e
          | inr (checked, wrong, err, e) ↦ absurd (
              wrong (elim key [
                | inl same ↦ rw (same) (to_lower-get_apikey md5)
                | inr upper ↦
                    rw (upper) (to_lower-to_upper (get_apikey md5) (to_lower-get_apikey md5))
              ]))
        ]
