-- ===== src/Services/Servers.antt =====
-- internal/services/server_service.go
use vpn_backend.Base.{Bool, false, Option, List, String, ◌-◌, ◌+◌, suc, get_or, if◌then◌else◌}
use vpn_backend.Base.Int.{ℤ, pos, negsuc}
use vpn_backend.Action.{Result, Action, pure, ◌>>=◌, ◌>>◌, on_error, ignore_error}
use vpn_backend.Models.{Uuid, nil_uuid, Time, Float, VpnServer, ServerStatus, ServerMetric}
use vpn_backend.Database.{Gorm}
use vpn_backend.Provider.{VpnProvider}
use vpn_backend.Provider as Provider
use vpn_backend.Repositories.{Pagination}
use vpn_backend.Repositories.Servers as Repository
use vpn_backend.Services.{or_not_found}

-- `vpn.SystemMetrics`, without the disk usage, which nothing sets or reads.
pub record SystemMetrics : Type 0 where
  pub cpu_usage_percent : Float
  pub memory_used_pct : Float
  pub uptime_seconds : Float

-- `read_system_metrics` and `is_service_active` stand for package vpn's readers of the host.
pub record ServerService (W : Type 0) : Type 0 where
  pub db : Gorm W
  pub provider : VpnProvider W
  pub read_system_metrics : Action W SystemMetrics
  pub is_service_active : String → W → Bool × W

pub record CreateServerInput : Type 0 where
  pub name : String
  pub hostname : String
  pub public_ip : String
  pub country : String
  pub city : String
  pub vpn_port : ℤ
  pub tls_port : ℤ

pub record UpdateServerInput : Type 0 where
  pub name : Option String
  pub status : Option ServerStatus
  pub vpn_port : Option ℤ
  pub tls_port : Option ℤ

abbrev pub new_server : CreateServerInput → VpnServer
new_server input = record {
  id = nil_uuid;
  name = input.name;
  hostname = input.hostname;
  public_ip = input.public_ip;
  country = input.country;
  city = input.city;
  status = ServerStatus.online;
  vpn_port = input.vpn_port;
  tls_port = input.tls_port;
}

abbrev pub apply_input : UpdateServerInput → VpnServer → VpnServer
apply_input input s = record s {
  name = get_or input.name s.name;
  status = get_or input.status s.status;
  vpn_port = get_or input.vpn_port s.vpn_port;
  tls_port = get_or input.tls_port s.tls_port;
}

pub record HealthReport : Type 0 where
  pub status : String
  pub cpu_usage : Float
  pub memory_usage : Float
  pub uptime_seconds : Float
  pub active_connections : ℤ
  pub shadowsocks_healthy : Bool
  pub caddy_healthy : Bool

-- `providerErr == nil && providerStatus != nil && providerStatus.Healthy`
abbrev pub is_healthy : Result Provider.ServerStatus → Bool
is_healthy (Result.ok status) = status.healthy
is_healthy (Result.err e) = false

-- `if sysErr != nil { sysMetrics = &vpn.SystemMetrics{} }`
abbrev pub metrics_or_zero : Result SystemMetrics → SystemMetrics
metrics_or_zero (Result.ok m) = m
metrics_or_zero (Result.err e) = record {
  cpu_usage_percent = 0;
  memory_used_pct = 0;
  uptime_seconds = 0;
}

abbrev pub health_report : (healthy caddy : Bool) → SystemMetrics → HealthReport
health_report healthy caddy m = record {
  status = if healthy then "healthy" else "degraded";
  cpu_usage = m.cpu_usage_percent;
  memory_usage = m.memory_used_pct;
  uptime_seconds = m.uptime_seconds;
  active_connections = pos 0;
  shadowsocks_healthy = healthy;
  caddy_healthy = caddy;
}

-- `RecordedAt` is left at the zero time, in whose place gorm writes the time of the insert.
abbrev pub sample_of : Uuid → HealthReport → ServerMetric
sample_of id report = record {
  id = nil_uuid;
  vpn_server_id = id;
  cpu_usage = report.cpu_usage;
  memory_usage = report.memory_usage;
  bandwidth_in = pos 0;
  bandwidth_out = pos 0;
  active_connections = report.active_connections;
  recorded_at = 0;
}

-- `now.Add(-window)`, at an instant from which the window does not reach back past 0.
abbrev pub earlier : Time → ℤ → Time
earlier now (pos d) = now - d
earlier now (negsuc d) = now + suc d

module _ {W : Type 0} (s : ServerService W) where
  unfoldable pub create : CreateServerInput → Action W VpnServer
  create input = Repository.create s.db (new_server input)

  unfoldable pub list : Pagination → Action W (List VpnServer × ℤ)
  list p = Repository.list s.db p

  unfoldable pub get : Uuid → Action W VpnServer
  get id = on_error (or_not_found "server") (Repository.find_by_id s.db id)

  unfoldable pub update : Uuid → UpdateServerInput → Action W VpnServer
  update id input = do
    server ← get id
    let server' = apply_input input server
    Repository.update s.db server'
    pure server'

  unfoldable pub delete : Uuid → Action W (Unit {0})
  delete id = do get id; Repository.delete s.db id

  -- The report of `Health`, once the server is known to exist.
  unfoldable pub probe : Action W HealthReport
  probe w =
      let (status, w₁) = s.provider.get_server_status w in
      let (system, w₂) = s.read_system_metrics w₁ in
      let (caddy, w₃) = s.is_service_active "caddy" w₂ in
      (Result.ok (health_report (is_healthy status) caddy (metrics_or_zero system)), w₃)

  unfoldable pub health : Uuid → Action W HealthReport
  health id = do
    get id
    report ← probe
    ignore_error (Repository.create_metric s.db (sample_of id report))
    pure report

  unfoldable pub metrics_history : Uuid → ℤ → Action W (List ServerMetric)
  metrics_history id window = do
    get id
    (λ w. Repository.metrics_since s.db id (earlier (s.db.now w) window) w)
