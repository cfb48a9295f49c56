-- ===== src/Server/Startup.antt =====
-- A server that has started.
use vpn_backend.Base.{
  not, String, str_eq, length, ◌==◌, ◌≡◌, ◌≢◌, sym, ◌∙◌, subst, List, [], if_eq_rule, arith,
}
use vpn_backend.Errors.{wrapped}
use vpn_backend.Action.{Result, ok, Action, bind-eq-ok, on_error-eq-ok, on_error_world}
use vpn_backend.Platform.{Bytes, Random, Encoding, Aead}
use vpn_backend.Config.{Config}
use vpn_backend.Crypto.{SecretBox, new_secret_box}
use vpn_backend.Database.Migrations.{Entry, migrate, up_files, sort_files}
use vpn_backend.Database.Migrations.History.{History, LawfulMigrator, missing}
use vpn_backend.Database.Migrations.Again.{migrate-again}
use vpn_backend.Text.{str_eq-false}
use vpn_backend.Server.{Libraries, start}

-- What a server has that has started: a secret to sign with, a key of 32 bytes, and each migration.
pub record HasStarted {F : Type 0} (cfg : Config F) (decode : String → Result Bytes)
    (entries : List Entry) (h : History) : Type 0 where
  pub signs : cfg.jwt_secret ≢ ""
  pub key : Bytes
  pub decoded : decode cfg.secret_encryption_key ≡ ok key
  pub long : length key ≡ 32
  pub migrated : missing h.recorded (sort_files (up_files entries)) ≡ []

box_key :
    {W Block : Type 0} (random : Random W) (encoding : Encoding) (new_cipher : Bytes → Result Block)
    (new_gcm : Block → Result Aead) (key : Bytes) (box : SecretBox W)
    → new_secret_box random encoding new_cipher new_gcm key ≡ ok box
    → length key ≡ 32
unfolding new_secret_box
box_key random encoding new_cipher new_gcm key box =
    if_eq_rule (λ r. r ≡ ok box → length key ≡ 32) (not (length key == 32)) (λ _ h. absurd (cc h))
      (λ long _. ground arith)

module _ {W Block F : Type 0} (lib : Libraries W Block) (history : W → History)
    (lawful : LawfulMigrator history lib.migrator) where
  -- If the migrator behaves as documented and its directory can be read: a server that starts has a secret to sign sessions with, a key for encryption at rest of 32 bytes,
  -- and a database on which each migration of its directory is recorded.
  pub start_ok :
      (cfg : Config F) (entries : List Entry) (w : W) (box : SecretBox W)
      → lib.migrator.read_dir ≡ ok entries
      → (start lib cfg w).0 ≡ ok box
      → HasStarted cfg lib.encoding.std_decode entries (history (start lib cfg w).1)
  unfolding start
  start_ok cfg entries w box listed =
      if_eq_rule Started (str_eq cfg.jwt_secret "") (λ _ h. absurd (cc h))
        λ signs.
          if_eq_rule Started (str_eq cfg.secret_encryption_key "") (λ _ h. absurd (cc h))
            λ _ h.
              let (_, _, h₁, e₁) = bind-eq-ok _ _ w box h in
              let (_, migrated, h₂, e₂) = bind-eq-ok _ _ _ box h₁ in
              let (key, decoded, made, e₃) = bind-eq-ok _ _ _ box h₂ in
              let returned =
                on_error-eq-ok (wrapped "migration failed") (migrate lib.migrator) _ tt migrated in
              let (done, _) = migrate-again lib.migrator history lawful entries _ listed returned in
              record {
                signs = str_eq-false _ "" signs;
                key = key;
                decoded = on_error-eq-ok (wrapped "invalid SECRET_ENCRYPTION_KEY") _ _ key decoded;
                long =
                    box_key lib.random lib.encoding lib.new_cipher lib.new_gcm key box
                      (on_error-eq-ok (wrapped "invalid SECRET_ENCRYPTION_KEY") _ _ box made);
                migrated =
                    subst (λ w'. missing (history w').recorded (sort_files (up_files entries)) ≡ [])
                      (sym (
                        e₁
                        ∙ e₂
                        ∙ e₃
                        ∙ on_error_world _ _ _
                        ∙ on_error_world _ _ _
                        ∙ on_error_world _ _ _))
                      done;
              }
    where
      Started : Action W (SecretBox W) → Type 0
      Started m =
          (m w).0 ≡ ok box → HasStarted cfg lib.encoding.std_decode entries (history (m w).1)
