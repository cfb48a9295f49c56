-- ===== src/Services/Users.antt =====
-- internal/services/user_service.go
pub mod KeyLoop
pub mod DeviceLoop
pub mod Cascade
pub mod Lookup
pub mod Disable
pub mod Expiry
use vpn_backend.Base.{
  ℕ, Bool, true, false, Option, none, some, List, [], ◌∷◌, String, length, get_or, map,
  if◌then◌else◌,
}
use vpn_backend.Base.Int.{ℤ, pos}
use vpn_backend.Errors.{Error, wrapped}
use vpn_backend.Action.{Action, pure, ◌>>=◌, ◌>>◌, on_error}
use vpn_backend.Models.{
  Uuid, nil_uuid, Time, AccessKey, AccessKeyStatus, VpnUser, VpnUserStatus, VpnDevice, DeviceStatus,
  is_active_key, is_revoked_device,
}
use vpn_backend.Database.{Gorm}
use vpn_backend.Provider.{VpnProvider}
use vpn_backend.Repositories.{Pagination}
use vpn_backend.Repositories.AccessKeys as Keys
use vpn_backend.Repositories.Devices as Devices
use vpn_backend.Repositories.Devices.{LoadedDevice, DeviceFilter}
use vpn_backend.Repositories.Users as Users
use vpn_backend.Repositories.Users.{LoadedUser, UserFilter}
use vpn_backend.Services.{or_not_found}

pub record UserService (W : Type 0) : Type 0 where
  pub db : Gorm W
  pub provider : VpnProvider W

pub record CreateUserInput : Type 0 where
  pub name : String
  pub email : String
  pub expires_at : Option Time
  pub traffic_limit_bytes : ℤ

-- A nil pointer leaves its column alone; `ExpiresAt` is a pointer to a pointer.
pub record UpdateUserInput : Type 0 where
  pub name : Option String
  pub email : Option String
  pub expires_at : Option (Option Time)
  pub traffic_limit_bytes : Option ℤ

abbrev pub new_user : CreateUserInput → VpnUser
new_user input = record {
  id = nil_uuid;
  email = input.email;
  name = input.name;
  status = VpnUserStatus.active;
  expires_at = input.expires_at;
  traffic_limit_bytes = input.traffic_limit_bytes;
  traffic_used_bytes = pos 0;
}

abbrev pub apply_input : UpdateUserInput → VpnUser → VpnUser
apply_input input u = record u {
  name = get_or input.name u.name;
  email = get_or input.email u.email;
  expires_at = get_or input.expires_at u.expires_at;
  traffic_limit_bytes = get_or input.traffic_limit_bytes u.traffic_limit_bytes;
}

-- `repositories.DeviceFilter{UserID: &userID}` and `repositories.Pagination{PageSize: 1000}`
abbrev pub devices_of : Uuid → DeviceFilter
devices_of user_id = record { status = ""; platform = ""; user_id = some user_id }

abbrev pub device_page : Pagination
device_page = record { page = pos 0; page_size = pos 1000 }

module _ {W : Type 0} (s : UserService W) where
  unfoldable pub create : CreateUserInput → Action W VpnUser
  create input = Users.create s.db (new_user input)

  unfoldable pub list : UserFilter → Pagination → Action W (List LoadedUser × ℤ)
  list f p = Users.list s.db f p

  unfoldable pub get : Uuid → Action W LoadedUser
  get id = on_error (or_not_found "user") (Users.find_by_id s.db id)

  unfoldable pub update : Uuid → UpdateUserInput → Action W LoadedUser
  update id input = do
    loaded ← get id
    let user = apply_input input loaded.user
    Users.update s.db user
    pure (record loaded { user = user })

  -- The two loops of `revokeAllAccess`.
  unfoldable pub revoke_keys : List AccessKey → Action W (Unit {0})
  revoke_keys [] = pure tt
  revoke_keys (key ∷ keys) =
      let rest = revoke_keys keys in
      if is_active_key key.status
      then on_error (wrapped "revoke access key")
          (s.provider.revoke_access_key key.secret_reference)
        >> (Keys.update s.db (record key { status = AccessKeyStatus.revoked }) >> rest)
      else rest

  unfoldable pub revoke_devices : List VpnDevice → Action W (Unit {0})
  revoke_devices [] = pure tt
  revoke_devices (device ∷ devices) =
      let rest = revoke_devices devices in
      if is_revoked_device device.status
      then rest
      else Devices.update s.db (record device { status = DeviceStatus.revoked }) >> rest

  unfoldable pub revoke_all_access : Uuid → Action W (Unit {0})
  revoke_all_access user_id = do
    keys ← Keys.find_by_user s.db user_id
    revoke_keys keys
    page ← Devices.list s.db (devices_of user_id) device_page
    revoke_devices (map (λ d. d.device) (page.0))

  unfoldable pub disable : Uuid → Action W LoadedUser
  disable id = do
    loaded ← get id
    let user = record (loaded.user) { status = VpnUserStatus.disabled }
    Users.update s.db user
    revoke_all_access id
    pure (record loaded { user = user })

  unfoldable pub enable : Uuid → Action W LoadedUser
  enable id = do
    loaded ← get id
    let user = record (loaded.user) { status = VpnUserStatus.active }
    Users.update s.db user
    pure (record loaded { user = user })

  unfoldable pub delete : Uuid → Action W (Unit {0})
  delete id = do get id; revoke_all_access id; Users.delete s.db id

  -- The loop of `SweepExpired`.
  unfoldable pub expire_all : List VpnUser → Action W (Unit {0})
  expire_all [] = pure tt
  expire_all (user ∷ users) = do
    Users.update s.db (record user { status = VpnUserStatus.expired })
    revoke_all_access user.id
    expire_all users

  unfoldable pub sweep_expired : Action W ℤ
  sweep_expired = do
    expired ← Users.find_expired s.db
    expire_all expired
    pure (pos (length expired))

  unfoldable pub count_total : Action W ℤ
  count_total = Users.count s.db

  unfoldable pub count_active : Action W ℤ
  count_active = Users.count_by_status s.db VpnUserStatus.active
