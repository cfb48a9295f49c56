-- ===== src/Config.antt =====
-- internal/config/config.go
pub mod RoundTrip
use vpn_backend.Base.{ℕ, Bool, List, [], ◌∷◌, String, str_eq, if◌then◌else◌}
use vpn_backend.Base.Int.{ℤ, pos}
use vpn_backend.Action.{Result, ok, err}
use vpn_backend.Text.{trim_space, split}

-- `Config`, over the type of the floating-point numbers. Durations are in nanoseconds.
pub record Config (F : Type 0) : Type 0 where
  pub app_env : String
  pub app_port : String
  pub database_url : String
  pub jwt_secret : String
  pub jwt_expiry : ℤ
  pub session_cookie : String
  pub secret_encryption_key : String
  pub vpn_domain : String
  pub api_domain : String
  pub google_client_id : String
  pub cors_allowed_origins : List String
  pub rate_limit_rps : F
  pub rate_limit_burst : ℤ
  pub outline_api_url : String
  pub outline_api_cert_sha256 : String

-- `os.Getenv`, and the parsers of the libraries; `ten` is the number 10.
pub record Environment (F : Type 0) : Type 0 where
  pub getenv : String → String
  pub atoi : String → Result ℤ
  pub parse_float : String → Result F
  pub parse_duration : String → Result ℤ
  pub ten : F

-- The parts between the commas, less the white space around them, that are not empty.
unfoldable pub keep_parts : List String → List String
keep_parts [] = []
keep_parts (p ∷ ps) =
    let part = trim_space p in
    let rest = keep_parts ps in if str_eq part "" then rest else part ∷ rest

unfoldable pub split_csv : String → List String
unfolding keep_parts
split_csv v = keep_parts (split 44 v)

module _ {F : Type 0} (env : Environment F) where
  unfoldable pub get_env : (key fallback : String) → String
  get_env key fallback = let v = env.getenv key in if str_eq v "" then fallback else v

  -- `getIntEnv`, `getFloatEnv` and `getDurationEnv`, which differ in their parser.
  unfoldable pub get_parsed_env : {A : Type 0} → (String → Result A) → String → A → A
  get_parsed_env parse key fallback =
      let v = env.getenv key in
      if str_eq v "" then fallback else elim (parse v) [ ok a ↦ a | err e ↦ fallback ]

  unfoldable pub load : Config F
  unfolding get_env get_parsed_env split_csv
  load = record {
    app_env = get_env "APP_ENV" "development";
    app_port = get_env "APP_PORT" "8080";
    database_url = get_env "DATABASE_URL" "";
    jwt_secret = get_env "JWT_SECRET" "";
    jwt_expiry = get_parsed_env env.parse_duration "JWT_EXPIRY" (pos 86400000000000);
    session_cookie = get_env "SESSION_COOKIE_NAME" "vpn_admin_session";
    secret_encryption_key = get_env "SECRET_ENCRYPTION_KEY" "";
    vpn_domain = get_env "VPN_DOMAIN" "vpn.thestrm.space";
    api_domain = get_env "API_DOMAIN" "api.vpn.thestrm.space";
    google_client_id = get_env "GOOGLE_CLIENT_ID" "";
    cors_allowed_origins = split_csv (get_env "CORS_ALLOWED_ORIGINS" "http://localhost:3000");
    rate_limit_rps = get_parsed_env env.parse_float "RATE_LIMIT_RPS" env.ten;
    rate_limit_burst = get_parsed_env env.atoi "RATE_LIMIT_BURST" (pos 20);
    outline_api_url = get_env "OUTLINE_API_URL" "";
    outline_api_cert_sha256 = get_env "OUTLINE_API_CERT_SHA256" "";
  }

unfoldable pub is_production : {F : Type 0} → Config F → Bool
is_production c = str_eq c.app_env "production"
