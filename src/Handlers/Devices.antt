-- ===== src/Handlers/Devices.antt =====
-- internal/handlers/device_handler.go
use vpn_backend.Base.{none, String}
use vpn_backend.Action.{Result}
use vpn_backend.Models.{device_revoked}
use vpn_backend.Database.{Gorm}
use vpn_backend.Repositories.Devices.{DeviceFilter}
use vpn_backend.Services.Devices as Service
use vpn_backend.Services.Devices.{UpdateDeviceInput}
use vpn_backend.Services.Audit.{AuditService}
use vpn_backend.Handlers.{
  Parsers, Handler, success, success_with_meta, no_content, device_data, devices_data, on_success,
  with_id, with_body, audited, optional_uuid, pagination_from_query, meta_from_pagination,
}

-- The fields of `updateDeviceRequest` are those of the service's input, of the same names.
abbrev pub UpdateDeviceRequest : Type 0
UpdateDeviceRequest = UpdateDeviceInput

-- The device service is its repository.
pub record DeviceHandler (W : Type 0) : Type 0 where
  pub devices : Gorm W
  pub audit : AuditService W
  pub parsers : Parsers
  pub bind_update : String → Result UpdateDeviceRequest

module _ {W : Type 0} (h : DeviceHandler W) where
  unfoldable pub list : Handler W
  list req =
      let p = pagination_from_query h.parsers req in
      let f : DeviceFilter = record {
        status = req.query "status";
        platform = req.query "platform";
        user_id = optional_uuid h.parsers (req.query "user_id");
      } in
      on_success (Service.list h.devices f p) λ page w.
        (success_with_meta 200 (devices_data (page.0)) (meta_from_pagination p (page.1)), w)

  unfoldable pub get : Handler W
  get req =
      with_id h.parsers req λ id.
        on_success (Service.get h.devices id) λ device w. (success 200 (device_data device), w)

  unfoldable pub update : Handler W
  update req = with_id h.parsers req λ id.
      with_body h.parsers h.bind_update "Invalid request body." req λ body.
        on_success (Service.update h.devices id body)
          λ device w. (success 200 (device_data device), w)

  unfoldable pub delete : Handler W
  delete req = with_id h.parsers req λ id.
      on_success (Service.delete h.devices id)
        λ _. audited h.parsers h.audit req device_revoked "vpn_device" id none no_content
