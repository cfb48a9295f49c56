-- ===== src/Server.antt =====
-- cmd/server/main.go, up to the server that listens, and `Connect` of internal/database/database.go.
pub mod Startup
pub mod Runs
use vpn_backend.Base.{ℕ, Bool, String, str_eq, if◌then◌else◌}
use vpn_backend.Errors.{message, wrapped}
use vpn_backend.Action.{Result, ok, err, Action, fail, lift, ◌>>=◌, ◌>>◌, on_error}
use vpn_backend.Platform.{Bytes, Random, Encoding, Aead}
use vpn_backend.Config.{Config}
use vpn_backend.Crypto.{SecretBox, new_secret_box}
use vpn_backend.Database.Migrations.{Migrator, migrate}
use vpn_backend.Services.AccessKeys as AccessKeys
use vpn_backend.Services.AccessKeys.{AccessKeyService}
use vpn_backend.Services.Users as Users
use vpn_backend.Services.Users.{UserService}

-- What `main` calls of the libraries: `open_db` is `gorm.Open` for PostgreSQL, and `sql_db` is `DB`
-- and the settings of the pool.
pub record Libraries (W Block : Type 0) : Type 0 where
  pub open_db : String → Action W (Unit {0})
  pub sql_db : Action W (Unit {0})
  pub migrator : Migrator W
  pub random : Random W
  pub encoding : Encoding
  pub new_cipher : Bytes → Result Block
  pub new_gcm : Block → Result Aead

module _ {W Block F : Type 0} (lib : Libraries W Block) where
  -- `Connect`
  unfoldable pub connect : Config F → Action W (Unit {0})
  connect cfg = if str_eq cfg.database_url "" then fail (message "DATABASE_URL is not set") else do
    on_error (wrapped "connect to postgres") (lib.open_db cfg.database_url)
    on_error (wrapped "get sql.DB") lib.sql_db

  -- `main`, until the key for encryption at rest is there: an error is a `log.Fatal`.
  unfoldable pub start : Config F → Action W (SecretBox W)
  start cfg =
      if str_eq cfg.jwt_secret ""
      then fail (message "JWT_SECRET must be set")
      else if str_eq cfg.secret_encryption_key ""
      then fail (message "SECRET_ENCRYPTION_KEY must be set")
      else do
        on_error (wrapped "database connection failed") (connect cfg)
        on_error (wrapped "migration failed") (migrate lib.migrator)
        key ←
            on_error (wrapped "invalid SECRET_ENCRYPTION_KEY")
              (lift (lib.encoding.std_decode cfg.secret_encryption_key))
        on_error (wrapped "invalid SECRET_ENCRYPTION_KEY")
            (lift (new_secret_box lib.random lib.encoding lib.new_cipher lib.new_gcm key))

module _ {W : Type 0} (users : UserService W) (keys : AccessKeyService W) where
  -- A tick of `startExpirationSweep`: the second sweep runs whatever the first one answers.
  unfoldable pub sweep_tick : W → W
  sweep_tick w = (AccessKeys.sweep_expired keys (Users.sweep_expired users w).1).1
