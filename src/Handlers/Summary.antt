-- ===== src/Handlers/Summary.antt =====
-- internal/handlers/metrics_handler.go
use vpn_backend.Database.{Gorm}
use vpn_backend.Services.Users as Users
use vpn_backend.Services.Users.{UserService}
use vpn_backend.Services.Devices as Devices
use vpn_backend.Services.AccessKeys as AccessKeys
use vpn_backend.Services.AccessKeys.{AccessKeyService}
use vpn_backend.Handlers.{Handler, success, dashboard_data, on_success}

pub record MetricsSummaryHandler (W : Type 0) : Type 0 where
  pub users : UserService W
  pub devices : Gorm W
  pub access_keys : AccessKeyService W

module _ {W : Type 0} (h : MetricsSummaryHandler W) where
  unfoldable pub summary : Handler W
  summary req = on_success (Users.count_total h.users) λ total.
      on_success (Users.count_active h.users) λ active.
        on_success (Devices.count_active h.devices) λ active_devices.
          on_success (AccessKeys.count_active h.access_keys) λ active_keys w. (
            success 200 (
                dashboard_data (record {
                  total_users = total;
                  active_users = active;
                  active_devices = active_devices;
                  active_access_keys = active_keys;
                })),
            w,
          )
