-- ===== src/Models/Hooks.antt =====
-- The `BeforeCreate` hooks of internal/models, which gorm calls before an insert: a row with no
-- identifier gets a new one.
use vpn_backend.Base.{◌==◌, if◌then◌else◌}
use vpn_backend.Action.{Action, pure, ◌>>=◌}
use vpn_backend.Models.{
  Uuid, nil_uuid, AccessKey, VpnUser, VpnDevice, VpnServer, ServerMetric, Admin, AuditLog,
}

module _ {W : Type 0} (new_uuid : Action W Uuid) where
  -- `if id == uuid.Nil { id = uuid.New() }`
  abbrev assign_id : Uuid → Action W Uuid
  assign_id id = if id == nil_uuid then new_uuid else pure id

  unfoldable pub access_key_before_create : AccessKey → Action W AccessKey
  access_key_before_create k = do i ← assign_id k.id; pure (record k { id = i })

  unfoldable pub user_before_create : VpnUser → Action W VpnUser
  user_before_create u = do i ← assign_id u.id; pure (record u { id = i })

  unfoldable pub device_before_create : VpnDevice → Action W VpnDevice
  device_before_create d = do i ← assign_id d.id; pure (record d { id = i })

  unfoldable pub server_before_create : VpnServer → Action W VpnServer
  server_before_create s = do i ← assign_id s.id; pure (record s { id = i })

  unfoldable pub metric_before_create : ServerMetric → Action W ServerMetric
  metric_before_create m = do i ← assign_id m.id; pure (record m { id = i })

  unfoldable pub admin_before_create : Admin → Action W Admin
  admin_before_create a = do i ← assign_id a.id; pure (record a { id = i })

  unfoldable pub audit_log_before_create : AuditLog → Action W AuditLog
  audit_log_before_create a = do i ← assign_id a.id; pure (record a { id = i })
