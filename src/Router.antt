-- ===== src/Router.antt =====
-- internal/handlers/router.go: an endpoint for each registration, with what guards it.
pub mod Reads
pub mod Keeps
pub mod Views
pub mod Access
use vpn_backend.Base.{Bool, Option, none, some, List, [], ◌∷◌}
use vpn_backend.Models.{AdminRole, admin, operator, viewer}
use vpn_backend.Database.{Gorm}
use vpn_backend.Auth.Sessions.{SessionManager}
use vpn_backend.Middleware.{RateLimiter, require_auth, require_role, limited}
use vpn_backend.Handlers.{Request, Response, Handler, success, alive_data}
use vpn_backend.Handlers.AccessKeys as Keys
use vpn_backend.Handlers.Users as Users
use vpn_backend.Handlers.Devices as Devices
use vpn_backend.Handlers.Servers as Servers
use vpn_backend.Handlers.Admins as Admins
use vpn_backend.Handlers.AuditLogs as AuditLogs
use vpn_backend.Handlers.Login as Login
use vpn_backend.Handlers.Usage as Usage
use vpn_backend.Handlers.Summary as Summary

pub data Endpoint : Type 0 where
  prometheus healthz : Endpoint
  auth_google auth_me auth_logout : Endpoint
  admins_list admins_get admins_update : Endpoint
  users_list users_get users_create users_update users_disable users_delete : Endpoint
  devices_list devices_get devices_update devices_delete : Endpoint
  keys_list keys_get keys_create keys_delete keys_revoke keys_rotate keys_config keys_qr : Endpoint
  servers_list servers_get servers_health servers_metrics : Endpoint
  servers_create servers_update servers_delete : Endpoint
  usage_summary usage_users usage_servers : Endpoint
  audit_logs metrics_summary : Endpoint

abbrev pub all_roles : List AdminRole
all_roles = admin ∷ operator ∷ viewer ∷ []

abbrev pub write_roles : List AdminRole
write_roles = admin ∷ operator ∷ []

abbrev pub admin_only : List AdminRole
admin_only = admin ∷ []

-- What stands in front of a handler: nothing, `RequireAuth`, or `RequireAuth` and `RequireRole`.
pub data Guard : Type 0 where
  open_to_all signed_in : Guard
  roles : List AdminRole → Guard

unfoldable pub guard : Endpoint → Guard
guard prometheus = open_to_all
guard healthz = open_to_all
guard auth_google = open_to_all
guard auth_me = signed_in
guard auth_logout = signed_in
guard admins_list = roles admin_only
guard admins_get = roles admin_only
guard admins_update = roles admin_only
guard users_list = roles all_roles
guard users_get = roles all_roles
guard users_create = roles write_roles
guard users_update = roles write_roles
guard users_disable = roles write_roles
guard users_delete = roles write_roles
guard devices_list = roles all_roles
guard devices_get = roles all_roles
guard devices_update = roles write_roles
guard devices_delete = roles write_roles
guard keys_list = roles all_roles
guard keys_get = roles all_roles
guard keys_create = roles write_roles
guard keys_delete = roles write_roles
guard keys_revoke = roles write_roles
guard keys_rotate = roles write_roles
guard keys_config = roles write_roles
guard keys_qr = roles write_roles
guard servers_list = roles all_roles
guard servers_get = roles all_roles
guard servers_health = roles all_roles
guard servers_metrics = roles all_roles
guard servers_create = roles admin_only
guard servers_update = roles admin_only
guard servers_delete = roles admin_only
guard usage_summary = roles all_roles
guard usage_users = roles all_roles
guard usage_servers = roles all_roles
guard audit_logs = roles all_roles
guard metrics_summary = roles all_roles

-- What `NewRouter` builds its handlers from. `metrics_page` is `promhttp.Handler`, and `cors` is what
-- gin-contrib/cors answers itself, if it does. Which endpoint a request is for is gin's.
pub record Api (W L : Type 0) : Type 0 where
  pub metrics_page : Handler W
  pub cors : Request → Option Response
  pub limiter : RateLimiter W L
  pub sessions : SessionManager W
  pub admin_rows : Gorm W
  pub keys : Keys.AccessKeyHandler W
  pub users : Users.UserHandler W
  pub devices : Devices.DeviceHandler W
  pub servers : Servers.ServerHandler W
  pub admins : Admins.AdminHandler W
  pub logs : AuditLogs.AuditLogHandler W
  pub login : Login.AuthHandler W
  pub usage : Usage.UsageHandler W
  pub summary : Summary.MetricsSummaryHandler W

module _ {W L : Type 0} (api : Api W L) where
  unfoldable pub dispatch : Endpoint → Handler W
  dispatch prometheus = api.metrics_page
  dispatch healthz = λ req w. (success 200 alive_data, w)
  dispatch auth_google = Login.login api.login
  dispatch auth_me = Login.me api.login
  dispatch auth_logout = Login.logout api.login
  dispatch admins_list = Admins.list api.admins
  dispatch admins_get = Admins.get api.admins
  dispatch admins_update = Admins.update api.admins
  dispatch users_list = Users.list api.users
  dispatch users_get = Users.get api.users
  dispatch users_create = Users.create api.users
  dispatch users_update = Users.update api.users
  dispatch users_disable = Users.disable api.users
  dispatch users_delete = Users.delete api.users
  dispatch devices_list = Devices.list api.devices
  dispatch devices_get = Devices.get api.devices
  dispatch devices_update = Devices.update api.devices
  dispatch devices_delete = Devices.delete api.devices
  dispatch keys_list = Keys.list api.keys
  dispatch keys_get = Keys.get api.keys
  dispatch keys_create = Keys.create api.keys
  dispatch keys_delete = Keys.delete api.keys
  dispatch keys_revoke = Keys.revoke api.keys
  dispatch keys_rotate = Keys.rotate api.keys
  dispatch keys_config = Keys.get_config api.keys
  dispatch keys_qr = Keys.get_qr api.keys
  dispatch servers_list = Servers.list api.servers
  dispatch servers_get = Servers.get api.servers
  dispatch servers_health = Servers.health api.servers
  dispatch servers_metrics = Servers.metrics_history api.servers
  dispatch servers_create = Servers.create api.servers
  dispatch servers_update = Servers.update api.servers
  dispatch servers_delete = Servers.delete api.servers
  dispatch usage_summary = Usage.summary api.usage
  dispatch usage_users = Usage.by_user api.usage
  dispatch usage_servers = Usage.by_server api.usage
  dispatch audit_logs = AuditLogs.list api.logs
  dispatch metrics_summary = Summary.summary api.summary

  unfoldable pub guarded : Guard → Handler W → Handler W
  guarded open_to_all next = next
  guarded signed_in next = require_auth api.sessions api.admin_rows next
  guarded (roles allowed) next =
      require_auth api.sessions api.admin_rows (require_role allowed next)

  -- A request for an endpoint: `CORS`, the rate limiter, the guard and the handler. It comes with no
  -- administrator in its context.
  unfoldable pub serve : Endpoint → Handler W
  serve e req w =
      let fresh = record req { admin = none } in
      elim (api.cors fresh) [
        | some answer ↦ (answer, w)
        | none ↦ limited api.limiter (guarded (guard e) (dispatch e)) fresh w
      ]
