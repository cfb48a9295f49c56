-- ===== src/Services/Devices.antt =====
-- internal/services/device_service.go
use vpn_backend.Base.{Option, none, some, List, String, get_or}
use vpn_backend.Base.Int.{ℤ}
use vpn_backend.Action.{Action, pure, ◌>>=◌, ◌>>◌, on_error}
use vpn_backend.Models.{Uuid, VpnDevice, DeviceStatus}
use vpn_backend.Database.{Gorm}
use vpn_backend.Repositories.{Pagination}
use vpn_backend.Repositories.Devices as Repository
use vpn_backend.Repositories.Devices.{LoadedDevice, DeviceFilter}
use vpn_backend.Services.{or_not_found}

pub record UpdateDeviceInput : Type 0 where
  pub name : Option String
  pub status : Option DeviceStatus

abbrev pub apply_input : UpdateDeviceInput → VpnDevice → VpnDevice
apply_input input d = record d {
  name = get_or input.name d.name;
  status = get_or input.status d.status;
}

module _ {W : Type 0} (db : Gorm W) where
  unfoldable pub list : DeviceFilter → Pagination → Action W (List LoadedDevice × ℤ)
  list f p = Repository.list db f p

  unfoldable pub get : Uuid → Action W LoadedDevice
  get id = on_error (or_not_found "device") (Repository.find_by_id db id)

  unfoldable pub update : Uuid → UpdateDeviceInput → Action W LoadedDevice
  update id input = do
    loaded ← get id
    let device = apply_input input loaded.device
    Repository.update db device
    pure (record loaded { device = device })

  unfoldable pub disable : Uuid → Action W LoadedDevice
  disable id = update id (record { name = none; status = some DeviceStatus.disabled })

  unfoldable pub revoke : Uuid → Action W LoadedDevice
  revoke id = update id (record { name = none; status = some DeviceStatus.revoked })

  unfoldable pub delete : Uuid → Action W (Unit {0})
  delete id = do get id; Repository.delete db id

  unfoldable pub count_active : Action W ℤ
  count_active = Repository.count_active db
