-- ===== src/Router/Views.antt =====
-- What the endpoints that every role may call leave of a world's view.
use vpn_backend.Base.{Bool, true, false, Option, none, some, List, String, ◌≡◌, refl}
use vpn_backend.Models.{Admin, viewer}
use vpn_backend.Database.View.{View}
use vpn_backend.Database.Laws.{LawfulGorm}
use vpn_backend.Middleware.{is_allowed}
use vpn_backend.Handlers.{failure, success, admin_data, Request, Response}
use vpn_backend.Handlers.Rules.{on_success_rule}
use vpn_backend.Handlers.AccessKeys as KeyHandlers
use vpn_backend.Handlers.Users as UserHandlers
use vpn_backend.Handlers.Devices as DeviceHandlers
use vpn_backend.Handlers.Servers as ServerHandlers
use vpn_backend.Handlers.AuditLogs as LogHandlers
use vpn_backend.Handlers.Login as LoginHandlers
use vpn_backend.Handlers.Usage as UsageHandlers
use vpn_backend.Handlers.Summary as SummaryHandlers
use vpn_backend.Router.{
  Api, Endpoint, Guard, guard, dispatch, prometheus, healthz, auth_google, auth_me, auth_logout,
  admins_list, admins_get, admins_update, users_list, users_get, users_create, users_update,
  users_disable, users_delete, devices_list, devices_get, devices_update, devices_delete, keys_list,
  keys_get, keys_create, keys_delete, keys_revoke, keys_rotate, keys_config, keys_qr, servers_list,
  servers_get, servers_health, servers_metrics, servers_create, servers_update, servers_delete,
  usage_summary, usage_users, usage_servers, audit_logs, metrics_summary,
}
use vpn_backend.Router.Reads as Reads
use vpn_backend.Router.Keeps.{
  SameButMetrics, read-SameButMetrics, Keeps, on_success-Keeps, with_id-Keeps, reads-Keeps,
  lookups-Keeps, health-Keeps,
}

-- The administrators of every role pass the guard.
unfoldable pub lets_viewers_in : Guard → Bool
lets_viewers_in Guard.open_to_all = false
lets_viewers_in Guard.signed_in = true
lets_viewers_in (Guard.roles allowed) = is_allowed allowed viewer

-- What the router's parts rely on, as far as the theorems on it go.
pub record LawfulRouter {W L : Type 0} (view : W → View) (api : Api W L) : Type 0 where
  pub keys : LawfulGorm view api.keys.keys.db
  pub users : LawfulGorm view api.users.users.db
  pub devices : LawfulGorm view api.devices.devices
  pub servers : LawfulGorm view api.servers.servers.db
  pub logs : LawfulGorm view api.logs.audit.db
  pub usage : LawfulGorm view api.usage.usage.db
  pub summary_users : LawfulGorm view api.summary.users.db
  pub summary_devices : LawfulGorm view api.summary.devices
  pub summary_keys : LawfulGorm view api.summary.access_keys.db
  pub admin_rows : LawfulGorm view api.admin_rows
  -- the readers of the host, and the state of the limiter, are no part of the view
  pub status_view : (w : W) → view (api.servers.servers.provider.get_server_status w).1 ≡ view w
  pub system_view : (w : W) → view (api.servers.servers.read_system_metrics w).1 ≡ view w
  pub service_view :
      (unit : String) (w : W) → view (api.servers.servers.is_service_active unit w).1 ≡ view w
  pub limiter_view :
      (ls : List (String × L)) (w : W) → view (api.limiter.set_limiters ls w) ≡ view w

module _ {W L : Type 0} (view : W → View) (api : Api W L) (lawful : LawfulRouter view api) where
  -- Each endpoint whose guard lets the administrators of every role in.
  pub dispatch-Keeps :
      (e : Endpoint) (req : Request)
      → lets_viewers_in (guard e) ≡ true
      → Keeps view (dispatch api e req)
  unfolding lets_viewers_in guard dispatch LoginHandlers.me LoginHandlers.logout UserHandlers.list
      UserHandlers.get DeviceHandlers.list DeviceHandlers.get KeyHandlers.list KeyHandlers.get
      ServerHandlers.list ServerHandlers.get ServerHandlers.health ServerHandlers.metrics_history
      UsageHandlers.summary UsageHandlers.by_user UsageHandlers.by_server LogHandlers.list
      SummaryHandlers.summary
  dispatch-Keeps auth_me req h = me req.admin
    where
      me :
          (o : Option Admin)
          → Keeps view (λ w. elim o as (λ _. Response × W) [
            | none ↦ (failure 401 "UNAUTHORIZED" "Authentication required.", w)
            | some admin ↦ (success 200 (admin_data admin), w)
          ])
      me none w = read-SameButMetrics refl
      me (some admin) w = read-SameButMetrics refl
  dispatch-Keeps auth_logout req h = λ w. read-SameButMetrics refl
  dispatch-Keeps users_list req h =
      reads-Keeps view _ _ (Reads.users_list-IsRead view api.users.users lawful.users _ _)
  dispatch-Keeps users_get req h =
      lookups-Keeps view _ req _ _ (Reads.users_get-IsRead view api.users.users lawful.users)
  dispatch-Keeps devices_list req h =
      reads-Keeps view _ _ (Reads.devices_list-IsRead view api.devices.devices lawful.devices _ _)
  dispatch-Keeps devices_get req h =
      lookups-Keeps view _ req _ _
        (Reads.devices_get-IsRead view api.devices.devices lawful.devices)
  dispatch-Keeps keys_list req h =
      reads-Keeps view _ _ (Reads.keys_list-IsRead view api.keys.keys lawful.keys _ _)
  dispatch-Keeps keys_get req h =
      lookups-Keeps view _ req _ _ (Reads.keys_get-IsRead view api.keys.keys lawful.keys)
  dispatch-Keeps servers_list req h =
      reads-Keeps view _ _ (Reads.servers_list-IsRead view api.servers.servers lawful.servers _)
  dispatch-Keeps servers_get req h =
      lookups-Keeps view _ req _ _
        (Reads.servers_get-IsRead view api.servers.servers lawful.servers)
  dispatch-Keeps servers_health req h = with_id-Keeps view _ req _ λ id w.
      on_success_rule (λ r. SameButMetrics (view w) (view r.1)) _ _ w
        (λ _ _.
          health-Keeps view api.servers.servers lawful.servers lawful.status_view lawful.system_view
            lawful.service_view id w)
        (λ _ _.
          health-Keeps view api.servers.servers lawful.servers lawful.status_view lawful.system_view
            lawful.service_view id w)
  dispatch-Keeps servers_metrics req h =
      lookups-Keeps view _ req _ _
        (λ id. Reads.history-IsRead view api.servers.servers lawful.servers id _)
  dispatch-Keeps usage_summary req h =
      reads-Keeps view _ _ (Reads.usage_summary-IsRead view api.usage.usage lawful.usage)
  dispatch-Keeps usage_users req h =
      reads-Keeps view _ _ (Reads.by_user-IsRead view api.usage.usage lawful.usage _)
  dispatch-Keeps usage_servers req h =
      reads-Keeps view _ _ (Reads.by_server-IsRead view api.usage.usage lawful.usage)
  dispatch-Keeps audit_logs req h =
      reads-Keeps view _ _ (Reads.logs_list-IsRead view api.logs.audit lawful.logs _ _)
  dispatch-Keeps metrics_summary req h =
      on_success-Keeps view _ _
        (Reads.users_total-IsRead view api.summary.users lawful.summary_users)
        λ _.
          on_success-Keeps view _ _
            (Reads.users_active-IsRead view api.summary.users lawful.summary_users)
            λ _.
              on_success-Keeps view _ _
                (Reads.devices_count-IsRead view api.summary.devices lawful.summary_devices)
                λ _.
                  reads-Keeps view _ _
                    (Reads.keys_count-IsRead view api.summary.access_keys lawful.summary_keys)
  dispatch-Keeps prometheus req h = absurd (cc h)
  dispatch-Keeps healthz req h = absurd (cc h)
  dispatch-Keeps auth_google req h = absurd (cc h)
  dispatch-Keeps admins_list req h = absurd (cc h)
  dispatch-Keeps admins_get req h = absurd (cc h)
  dispatch-Keeps admins_update req h = absurd (cc h)
  dispatch-Keeps users_create req h = absurd (cc h)
  dispatch-Keeps users_update req h = absurd (cc h)
  dispatch-Keeps users_disable req h = absurd (cc h)
  dispatch-Keeps users_delete req h = absurd (cc h)
  dispatch-Keeps devices_update req h = absurd (cc h)
  dispatch-Keeps devices_delete req h = absurd (cc h)
  dispatch-Keeps keys_create req h = absurd (cc h)
  dispatch-Keeps keys_delete req h = absurd (cc h)
  dispatch-Keeps keys_revoke req h = absurd (cc h)
  dispatch-Keeps keys_rotate req h = absurd (cc h)
  dispatch-Keeps keys_config req h = absurd (cc h)
  dispatch-Keeps keys_qr req h = absurd (cc h)
  dispatch-Keeps servers_create req h = absurd (cc h)
  dispatch-Keeps servers_update req h = absurd (cc h)
  dispatch-Keeps servers_delete req h = absurd (cc h)
