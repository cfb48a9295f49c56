-- ===== src/Router/Reads.antt =====
-- The reads of the services: what the endpoints call that every role may call.
use vpn_backend.Base.{ℕ, List, [], ◌∷◌, ◌-◌, refl}
use vpn_backend.Base.Int.{ℤ}
use vpn_backend.Models.{Uuid, Time, VpnServer}
use vpn_backend.Database.{Gorm}
use vpn_backend.Database.View.{View}
use vpn_backend.Database.Laws.{LawfulGorm}
use vpn_backend.Database.Reads.{IsRead, bind-IsRead, on_error-IsRead}
use vpn_backend.Repositories.{Pagination}
use vpn_backend.Repositories.AccessKeys as KeyRows
use vpn_backend.Repositories.Users as UserRows
use vpn_backend.Repositories.Devices as DeviceRows
use vpn_backend.Repositories.Servers as ServerRows
use vpn_backend.Repositories.AuditLogs as LogRows
use vpn_backend.Services.{or_not_found}
use vpn_backend.Services.AccessKeys as Keys
use vpn_backend.Services.AccessKeys.{AccessKeyService}
use vpn_backend.Services.AccessKeys.Lookup as KeyLookup
use vpn_backend.Services.Users as Users
use vpn_backend.Services.Users.{UserService}
use vpn_backend.Services.Users.Lookup as UserLookup
use vpn_backend.Services.Users.Cascade as Cascade
use vpn_backend.Services.Devices as Devices
use vpn_backend.Services.Servers as Servers
use vpn_backend.Services.Servers.{ServerService, HealthReport, earlier, sample_of}
use vpn_backend.Services.Audit as Audit
use vpn_backend.Services.Audit.{AuditService}
use vpn_backend.Services.Usage as Usage
use vpn_backend.Services.Usage.{UsageService, BandwidthDataPoint}

module _ {W : Type 0} (view : W → View) where
  module _ (s : AccessKeyService W) (db : LawfulGorm view s.db) where
    pub keys_list-IsRead :
        (f : KeyRows.AccessKeyFilter) (p : Pagination) → IsRead view (Keys.list s f p)
    unfolding Keys.list KeyRows.list
    keys_list-IsRead f p = bind-IsRead view _ _ (db.access_keys.count_view _) λ _.
        bind-IsRead view _ _ (db.access_keys.page_view _ _ _) λ _.
          bind-IsRead view _ _ (db.users.find_view _)
            λ _. bind-IsRead view _ _ (db.servers.find_view _) λ _ w. refl

    pub keys_get-IsRead : (id : Uuid) → IsRead view (Keys.get s id)
    unfolding Keys.get
    keys_get-IsRead id =
        on_error-IsRead view (or_not_found "access key") _
          (KeyLookup.find_by_id-IsRead view s.db db id)

    pub keys_count-IsRead : IsRead view (Keys.count_active s)
    unfolding Keys.count_active KeyRows.count_active
    keys_count-IsRead = db.access_keys.count_view _

  module _ (db : Gorm W) (lawful : LawfulGorm view db) where
    user_rows-IsRead :
        (f : UserRows.UserFilter) (p : Pagination) → IsRead view (UserRows.list db f p)
    unfolding UserRows.list
    user_rows-IsRead f p = bind-IsRead view _ _ (lawful.users.count_view _) λ _.
        bind-IsRead view _ _ (lawful.users.page_view _ _ _) λ _.
          bind-IsRead view _ _ (lawful.access_keys.find_view _)
            λ _. bind-IsRead view _ _ (lawful.devices.find_view _) λ _ w. refl

    pub devices_list-IsRead :
        (f : DeviceRows.DeviceFilter) (p : Pagination) → IsRead view (Devices.list db f p)
    unfolding Devices.list
    devices_list-IsRead f p = Cascade.list-IsRead view db lawful f p

    pub devices_get-IsRead : (id : Uuid) → IsRead view (Devices.get db id)
    unfolding Devices.get DeviceRows.find_by_id
    devices_get-IsRead id = on_error-IsRead view (or_not_found "device") _ (
        bind-IsRead view _ _ (lawful.devices.first_view _)
          λ _. bind-IsRead view _ _ (lawful.users.find_view _) λ _ w. refl)

    pub devices_count-IsRead : IsRead view (Devices.count_active db)
    unfolding Devices.count_active DeviceRows.count_active
    devices_count-IsRead = lawful.devices.count_view _

    all_servers-IsRead : IsRead view (ServerRows.all db)
    unfolding ServerRows.all
    all_servers-IsRead = lawful.servers.find_view _

    since-IsRead : (id : Uuid) (t : Time) → IsRead view (ServerRows.metrics_since db id t)
    unfolding ServerRows.metrics_since
    since-IsRead id t = lawful.metrics.find_view _

  module _ (s : UserService W) (db : LawfulGorm view s.db) where
    pub users_list-IsRead :
        (f : UserRows.UserFilter) (p : Pagination) → IsRead view (Users.list s f p)
    unfolding Users.list
    users_list-IsRead f p = user_rows-IsRead s.db db f p

    pub users_get-IsRead : (id : Uuid) → IsRead view (Users.get s id)
    unfolding Users.get
    users_get-IsRead id =
        on_error-IsRead view (or_not_found "user") _ (UserLookup.find_by_id-IsRead view s.db db id)

    pub users_total-IsRead : IsRead view (Users.count_total s)
    unfolding Users.count_total UserRows.count
    users_total-IsRead = db.users.count_view _

    pub users_active-IsRead : IsRead view (Users.count_active s)
    unfolding Users.count_active UserRows.count_by_status
    users_active-IsRead = db.users.count_view _

  module _ (s : ServerService W) (db : LawfulGorm view s.db) where
    pub servers_list-IsRead : (p : Pagination) → IsRead view (Servers.list s p)
    unfolding Servers.list ServerRows.list
    servers_list-IsRead p =
        bind-IsRead view _ _ (db.servers.count_view _)
          λ _. bind-IsRead view _ _ (db.servers.page_view _ _ _) λ _ w. refl

    pub servers_get-IsRead : (id : Uuid) → IsRead view (Servers.get s id)
    unfolding Servers.get ServerRows.find_by_id
    servers_get-IsRead id = on_error-IsRead view (or_not_found "server") _ (db.servers.first_view _)

    pub history-IsRead :
        (id : Uuid) (window : ℤ) → IsRead view (Servers.metrics_history s id window)
    unfolding Servers.metrics_history
    history-IsRead id window =
        bind-IsRead view _ _ (servers_get-IsRead id)
          λ _ w. since-IsRead s.db db id (earlier (s.db.now w) window) w

  module _ (s : AuditService W) (db : LawfulGorm view s.db) where
    pub logs_list-IsRead :
        (f : LogRows.AuditLogFilter) (p : Pagination) → IsRead view (Audit.list s f p)
    unfolding Audit.list LogRows.list
    logs_list-IsRead f p = bind-IsRead view _ _ (db.audit_logs.count_view _) λ _.
        bind-IsRead view _ _ (db.audit_logs.page_view _ _ _)
          λ _. bind-IsRead view _ _ (db.admins.find_view _) λ _ w. refl

  module _ (s : UsageService W) (db : LawfulGorm view s.db) where
    collect-IsRead :
        (t : Time) (servers : List VpnServer) (points : List BandwidthDataPoint)
        → IsRead view (Usage.collect_points s t servers points)
    unfolding Usage.collect_points
    collect-IsRead t [] points = λ w. refl
    collect-IsRead t (x ∷ xs) points =
        let rest = collect-IsRead t xs in
        bind-IsRead view _ _ (since-IsRead s.db db x.id t) λ _. rest _

    bandwidth-IsRead : (window : ℕ) → IsRead view (Usage.bandwidth_since s window)
    unfolding Usage.bandwidth_since
    bandwidth-IsRead window =
        bind-IsRead view _ _ (all_servers-IsRead s.db db)
          λ servers w. collect-IsRead (s.db.now w - window) servers [] w

    pub usage_summary-IsRead : IsRead view (Usage.summary s)
    unfolding Usage.summary UserRows.sum_traffic_used
    usage_summary-IsRead = bind-IsRead view _ _ (db.users.sum_view _ _) λ _.
        bind-IsRead view _ _ (bandwidth-IsRead _)
          λ _. bind-IsRead view _ _ (bandwidth-IsRead _) λ _ w. refl

    pub by_user-IsRead : (p : Pagination) → IsRead view (Usage.by_user s p)
    unfolding Usage.by_user
    by_user-IsRead p = bind-IsRead view _ _ (user_rows-IsRead s.db db _ p) λ _ w. refl

    sum_servers-IsRead : (servers : List VpnServer) → IsRead view (Usage.sum_servers s servers)
    unfolding Usage.sum_servers KeyRows.sum_traffic_by_server
    sum_servers-IsRead [] = λ w. refl
    sum_servers-IsRead (x ∷ xs) =
        let rest = sum_servers-IsRead xs in
        bind-IsRead view _ _ (db.access_keys.sum_view _ _)
          λ _. bind-IsRead view _ _ rest λ _ w. refl

    pub by_server-IsRead : IsRead view (Usage.by_server s)
    unfolding Usage.by_server
    by_server-IsRead =
        bind-IsRead view _ _ (all_servers-IsRead s.db db) λ servers. sum_servers-IsRead servers
