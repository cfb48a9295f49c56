-- ===== src/Services/Usage.antt =====
-- internal/services/usage_service.go
pub mod Totals
use vpn_backend.Base.{ℕ, ◌-◌, ◌*◌, List, [], ◌∷◌, ◌++◌, String, map}
use vpn_backend.Base.Int.{ℤ}
use vpn_backend.Action.{Action, pure, ◌>>=◌, ◌>>◌}
use vpn_backend.Models.{Uuid, Time, VpnUser, VpnServer, ServerMetric}
use vpn_backend.Database.{Gorm}
use vpn_backend.Repositories.{Pagination}
use vpn_backend.Repositories.AccessKeys as Keys
use vpn_backend.Repositories.Servers as Servers
use vpn_backend.Repositories.Users as Users
use vpn_backend.Repositories.Users.{LoadedUser, UserFilter}

-- `uuid_text` is `UUID.String`, and `hour` is `time.Hour` on the clock of the world.
pub record UsageService (W : Type 0) : Type 0 where
  pub db : Gorm W
  pub uuid_text : Uuid → String
  pub hour : ℕ

pub record BandwidthDataPoint : Type 0 where
  pub timestamp : Time
  pub bytes_in : ℤ
  pub bytes_out : ℤ
  pub active_connections : ℤ

pub record UsageSummary : Type 0 where
  pub total_traffic_bytes : ℤ
  pub daily_bandwidth : List BandwidthDataPoint
  pub monthly_bandwidth : List BandwidthDataPoint

pub record UserUsage : Type 0 where
  pub user_id : String
  pub name : String
  pub email : String
  pub traffic_used_bytes : ℤ
  pub traffic_limit_bytes : ℤ

pub record ServerUsage : Type 0 where
  pub server_id : String
  pub name : String
  pub traffic_used_bytes : ℤ

abbrev pub data_point : ServerMetric → BandwidthDataPoint
data_point sample = record {
  timestamp = sample.recorded_at;
  bytes_in = sample.bandwidth_in;
  bytes_out = sample.bandwidth_out;
  active_connections = sample.active_connections;
}

module _ {W : Type 0} (s : UsageService W) where
  -- The loop of `bandwidthSince`, with the points that it has.
  unfoldable pub collect_points :
      Time → List VpnServer → List BandwidthDataPoint → Action W (List BandwidthDataPoint)
  collect_points since [] points = pure points
  collect_points since (server ∷ servers) points = do
    samples ← Servers.metrics_since s.db server.id since
    collect_points since servers (points ++ map data_point samples)

  -- `time.Now().Add(-window)`, at an instant from which the window does not reach back past 0.
  unfoldable pub bandwidth_since : ℕ → Action W (List BandwidthDataPoint)
  bandwidth_since window = do
    servers ← Servers.all s.db
    (λ w. collect_points (s.db.now w - window) servers [] w)

  unfoldable pub summary : Action W UsageSummary
  summary = do
    total ← Users.sum_traffic_used s.db
    daily ← bandwidth_since (24 * s.hour)
    monthly ← bandwidth_since (30 * 24 * s.hour)
    pure (record {
      total_traffic_bytes = total;
      daily_bandwidth = daily;
      monthly_bandwidth = monthly;
    })

  abbrev pub user_usage : VpnUser → UserUsage
  user_usage u = record {
    user_id = s.uuid_text u.id;
    name = u.name;
    email = u.email;
    traffic_used_bytes = u.traffic_used_bytes;
    traffic_limit_bytes = u.traffic_limit_bytes;
  }

  unfoldable pub by_user : Pagination → Action W (List UserUsage × ℤ)
  by_user p = do
    page ← Users.list s.db (record { status = ""; search = "" }) p
    pure (map (λ (u : LoadedUser). user_usage u.user) (page.0), page.1)

  abbrev pub server_usage : VpnServer → ℤ → ServerUsage
  server_usage server total = record {
    server_id = s.uuid_text server.id;
    name = server.name;
    traffic_used_bytes = total;
  }

  -- The loop of `ByServer`.
  unfoldable pub sum_servers : List VpnServer → Action W (List ServerUsage)
  sum_servers [] = pure []
  sum_servers (server ∷ servers) = do
    total ← Keys.sum_traffic_by_server s.db server.id
    rest ← sum_servers servers
    pure (server_usage server total ∷ rest)

  unfoldable pub by_server : Action W (List ServerUsage)
  by_server = do servers ← Servers.all s.db; sum_servers servers
