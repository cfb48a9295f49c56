-- ===== src/Repositories/Devices.antt =====
-- internal/repositories/device_repository.go
use vpn_backend.Base.{Bool, Option, List, String, ◌==◌, ◌&&◌, map, keep, head_of}
use vpn_backend.Base.Int.{ℤ}
use vpn_backend.Action.{Action, pure, ◌>>=◌, ◌>>◌}
use vpn_backend.Models.{
  Uuid, VpnUser, VpnDevice, device_status_text, platform_text, is_active_device,
}
use vpn_backend.Models.Hooks.{device_before_create}
use vpn_backend.Database.{Gorm}
use vpn_backend.Repositories.{Pagination, normalize}
use vpn_backend.Repositories.AccessKeys.{is_in, unless_nil, unless_empty}

pub record DeviceFilter : Type 0 where
  pub status : String
  pub platform : String
  pub user_id : Option Uuid

-- A row with its `User` association.
pub record LoadedDevice : Type 0 where
  pub device : VpnDevice
  pub user : Option VpnUser

abbrev pub attach : List VpnUser → VpnDevice → LoadedDevice
attach users d = record { device = d; user = head_of (keep (λ u. u.id == d.vpn_user_id) users) }

-- The conditions that `List` builds up.
unfoldable pub matches : DeviceFilter → VpnDevice → Bool
matches f d =
    unless_empty f.status (device_status_text d.status)
    && unless_empty f.platform (platform_text d.platform)
    && unless_nil f.user_id d.vpn_user_id

module _ {W : Type 0} (db : Gorm W) where
  unfoldable pub list : DeviceFilter → Pagination → Action W (List LoadedDevice × ℤ)
  list f p = do
    let n = normalize p
    total ← db.devices.count (matches f)
    devices ← db.devices.page (matches f) n.offset n.page_size
    users ← db.users.find (λ u. is_in u.id (map (λ d. d.vpn_user_id) devices))
    pure (map (attach users) devices, total)

  unfoldable pub find_by_id : Uuid → Action W LoadedDevice
  find_by_id id = do
    device ← db.devices.first (λ d. d.id == id)
    users ← db.users.find (λ u. u.id == device.vpn_user_id)
    pure (attach users device)

  unfoldable pub create : VpnDevice → Action W VpnDevice
  create device = do
    device' ← device_before_create db.new_uuid device
    db.devices.create device'
    pure device'

  unfoldable pub update : VpnDevice → Action W (Unit {0})
  update device = db.devices.save device

  unfoldable pub delete : Uuid → Action W (Unit {0})
  delete id = db.devices.delete id

  unfoldable pub count_active : Action W ℤ
  count_active = db.devices.count (λ d. is_active_device d.status)
