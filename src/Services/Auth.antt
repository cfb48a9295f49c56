-- ===== src/Services/Auth.antt =====
-- internal/services/auth_service.go
pub mod Login
use vpn_backend.Base.{Bool, Option, none, some, List, [], ◌∷◌, String, if◌then◌else◌}
use vpn_backend.Errors.{
  Error, sentinel, wrapped, record_not_found, unauthorized, not_authorized_google_account, is_error,
}
use vpn_backend.Action.{Action, pure, fail, ◌>>=◌, ◌>>◌, on_error, ignore_error}
use vpn_backend.Models.{Uuid, Time, Admin, admin_login, is_active_admin}
use vpn_backend.Database.{Gorm}
use vpn_backend.Repositories.Admins as Admins
use vpn_backend.Auth.Google.{GoogleIdentity}
use vpn_backend.Services.Audit.{AuditService, record_entry, text}

-- `verify` is `GoogleVerifier.Verify`, and `issue` is `SessionManager.Issue`.
pub record AuthService (W : Type 0) : Type 0 where
  pub verify : String → Action W GoogleIdentity
  pub issue : Uuid → Action W (String × Time)
  pub db : Gorm W
  pub audit : Option (AuditService W)

pub record LoginResult : Type 0 where
  pub token : String
  pub expires_at : Time
  pub admin : Admin

-- `if errors.Is(err, gorm.ErrRecordNotFound) { return nil, ErrNotAuthorizedGoogleAccount }`
abbrev pub or_not_authorized : Error → Error
or_not_authorized e =
    if is_error e record_not_found then sentinel not_authorized_google_account else e

abbrev pub refreshed : GoogleIdentity → Admin → Admin
refreshed identity admin = record admin {
  name = identity.name;
  picture_url = identity.picture;
  email = identity.email;
}

module _ {W : Type 0} (s : AuthService W) where
  unfoldable pub record_login : Option (AuditService W) → Admin → String → Action W (Unit {0})
  record_login none admin ip_address = pure tt
  record_login (some audit) admin ip_address = ignore_error (
      record_entry audit (some admin.id) admin_login "admin" (some admin.id) ip_address
        (some (("email", text admin.email) ∷ [])))

  -- The steps of `LoginWithGoogle` for an administrator that is known and active.
  unfoldable pub complete_login : GoogleIdentity → String → Admin → Action W LoginResult
  unfolding record_login
  complete_login identity ip_address known = do
    let admin = refreshed identity known
    Admins.update s.db admin
    ignore_error (Admins.touch_last_login s.db admin.id)
    issued ← s.issue admin.id
    record_login s.audit admin ip_address
    pure (record { token = issued.0; expires_at = issued.1; admin = admin })

  unfoldable pub login_with_google : (id_token ip_address : String) → Action W LoginResult
  login_with_google id_token ip_address = do
    identity ← on_error (λ _. wrapped "" (sentinel unauthorized)) (s.verify id_token)
    admin ← on_error or_not_authorized (Admins.find_by_google_sub s.db identity.sub)
    if is_active_admin admin.status
        then complete_login identity ip_address admin
        else fail (sentinel not_authorized_google_account)

  unfoldable pub get_by_id : Uuid → Action W Admin
  get_by_id id = Admins.find_by_id s.db id
