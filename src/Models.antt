-- ===== src/Models.antt =====
-- internal/models: the rows of the database. Identifiers are 128-bit numbers, with `uuid.Nil` as
-- 0; an instant is a number of nanoseconds from the zero time; `int` and `int64` are integers. Associations that
-- gorm fills on request (`User`, `Server`, `Devices`, ...) are held beside a row, in the `Loaded`
-- records of Repositories. UpdatedAt is left out, and CreatedAt but for that of the audit log: gorm
-- writes them and only SQL reads them, to order a page.
pub mod Hooks
use vpn_backend.Base.{ℕ, Bool, true, false, Option, none, some, String, ltb, ◌&&◌}
use vpn_backend.Base.Int.{ℤ, pos, ltb_ℤ, leb_ℤ}

abbrev pub Uuid : Type 0
Uuid = ℕ

abbrev pub nil_uuid : Uuid
nil_uuid = 0

abbrev pub Time : Type 0
Time = ℕ

-- A float64 by its 64-bit pattern: the program copies it and computes with it nowhere below.
abbrev pub Float : Type 0
Float = ℕ

pub data AccessKeyStatus : Type 0 where
  active revoked expired : AccessKeyStatus

pub data AccessKeyProtocol : Type 0 where
  shadowsocks : AccessKeyProtocol

pub record AccessKey : Type 0 where
  pub id : Uuid
  pub vpn_user_id : Uuid
  pub vpn_server_id : Uuid
  pub name : String
  pub secret_reference : String
  pub encrypted_secret : String
  pub port : ℤ
  pub cipher : String
  pub protocol : AccessKeyProtocol
  pub tcp_enabled : Bool
  pub udp_enabled : Bool
  pub websocket_enabled : Bool
  pub websocket_path : String
  pub websocket_udp_path : String
  pub expires_at : Option Time
  pub traffic_limit_bytes : ℤ
  pub traffic_used_bytes : ℤ
  pub status : AccessKeyStatus

pub data VpnUserStatus : Type 0 where
  active disabled expired : VpnUserStatus

pub record VpnUser : Type 0 where
  pub id : Uuid
  pub email : String
  pub name : String
  pub status : VpnUserStatus
  pub expires_at : Option Time
  pub traffic_limit_bytes : ℤ
  pub traffic_used_bytes : ℤ

pub data DevicePlatform : Type 0 where
  android ios windows macos : DevicePlatform

pub data DeviceStatus : Type 0 where
  active disabled revoked : DeviceStatus

pub record VpnDevice : Type 0 where
  pub id : Uuid
  pub vpn_user_id : Uuid
  pub name : String
  pub platform : DevicePlatform
  pub status : DeviceStatus
  pub last_seen_at : Option Time

pub data ServerStatus : Type 0 where
  online offline degraded maintenance : ServerStatus

pub record VpnServer : Type 0 where
  pub id : Uuid
  pub name : String
  pub hostname : String
  pub public_ip : String
  pub country : String
  pub city : String
  pub status : ServerStatus
  pub vpn_port : ℤ
  pub tls_port : ℤ

pub record ServerMetric : Type 0 where
  pub id : Uuid
  pub vpn_server_id : Uuid
  pub cpu_usage : Float
  pub memory_usage : Float
  pub bandwidth_in : ℤ
  pub bandwidth_out : ℤ
  pub active_connections : ℤ
  pub recorded_at : Time

pub data AdminRole : Type 0 where
  admin operator viewer : AdminRole

pub data AdminStatus : Type 0 where
  active disabled : AdminStatus

pub record Admin : Type 0 where
  pub id : Uuid
  pub google_sub : String
  pub email : String
  pub name : String
  pub picture_url : String
  pub role : AdminRole
  pub status : AdminStatus
  pub last_login_at : Option Time

pub data AuditAction : Type 0 where
  admin_login admin_disabled : AuditAction
  user_created user_updated user_disabled : AuditAction
  device_revoked : AuditAction
  access_key_created access_key_revoked access_key_rotated : AuditAction
  server_created server_updated server_deleted : AuditAction

-- `Metadata` is the encoded JSON, none where the column is null.
pub record AuditLog : Type 0 where
  pub id : Uuid
  pub admin_id : Option Uuid
  pub action : AuditAction
  pub resource_type : String
  pub resource_id : Option Uuid
  pub metadata : Option String
  pub ip_address : String
  pub created_at : Time

abbrev pub is_active_key : AccessKeyStatus → Bool
is_active_key active = true
is_active_key _ = false

abbrev pub is_active_user : VpnUserStatus → Bool
is_active_user active = true
is_active_user _ = false

abbrev pub is_active_device : DeviceStatus → Bool
is_active_device active = true
is_active_device _ = false

abbrev pub is_revoked_device : DeviceStatus → Bool
is_revoked_device revoked = true
is_revoked_device _ = false

abbrev pub is_active_admin : AdminStatus → Bool
is_active_admin active = true
is_active_admin _ = false

-- `t != nil && t.Before(now)`; in SQL, `t IS NOT NULL AND t < now()`.
abbrev pub before : Option Time → Time → Bool
before none now = false
before (some t) now = ltb t now

-- `AccessKey.IsExpired`, at the instant `now`.
unfoldable pub key_is_expired : AccessKey → Time → Bool
key_is_expired k now = before k.expires_at now

unfoldable pub user_is_expired : VpnUser → Time → Bool
user_is_expired u now = before u.expires_at now

unfoldable pub is_over_quota : VpnUser → Bool
is_over_quota u =
    ltb_ℤ (pos 0) u.traffic_limit_bytes && leb_ℤ u.traffic_limit_bytes u.traffic_used_bytes

unfoldable pub admin_is_active : Admin → Bool
admin_is_active a = is_active_admin a.status

-- The constants of the status types, as the columns hold them.
unfoldable pub key_status_text : AccessKeyStatus → String
key_status_text active = "ACTIVE"
key_status_text revoked = "REVOKED"
key_status_text expired = "EXPIRED"

unfoldable pub user_status_text : VpnUserStatus → String
user_status_text active = "ACTIVE"
user_status_text disabled = "DISABLED"
user_status_text expired = "EXPIRED"

unfoldable pub platform_text : DevicePlatform → String
platform_text android = "ANDROID"
platform_text ios = "IOS"
platform_text windows = "WINDOWS"
platform_text macos = "MACOS"

unfoldable pub device_status_text : DeviceStatus → String
device_status_text active = "ACTIVE"
device_status_text disabled = "DISABLED"
device_status_text revoked = "REVOKED"

unfoldable pub action_text : AuditAction → String
action_text admin_login = "ADMIN_LOGIN"
action_text admin_disabled = "ADMIN_DISABLED"
action_text user_created = "USER_CREATED"
action_text user_updated = "USER_UPDATED"
action_text user_disabled = "USER_DISABLED"
action_text device_revoked = "DEVICE_REVOKED"
action_text access_key_created = "ACCESS_KEY_CREATED"
action_text access_key_revoked = "ACCESS_KEY_REVOKED"
action_text access_key_rotated = "ACCESS_KEY_ROTATED"
action_text server_created = "SERVER_CREATED"
action_text server_updated = "SERVER_UPDATED"
action_text server_deleted = "SERVER_DELETED"
