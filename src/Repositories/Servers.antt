-- ===== src/Repositories/Servers.antt =====
-- internal/repositories/server_repository.go and server_metric_repository.go
use vpn_backend.Base.{true, List, ◌==◌, ◌&&◌, leb}
use vpn_backend.Base.Int.{ℤ}
use vpn_backend.Action.{Action, pure, ◌>>=◌, ◌>>◌}
use vpn_backend.Models.{Uuid, Time, VpnServer, ServerMetric}
use vpn_backend.Models.Hooks.{server_before_create, metric_before_create}
use vpn_backend.Database.{Gorm}
use vpn_backend.Repositories.{Pagination, normalize}

module _ {W : Type 0} (db : Gorm W) where
  unfoldable pub list : Pagination → Action W (List VpnServer × ℤ)
  list p = do
    let n = normalize p
    total ← db.servers.count (λ _. true)
    servers ← db.servers.page (λ _. true) n.offset n.page_size
    pure (servers, total)

  unfoldable pub all : Action W (List VpnServer)
  all = db.servers.find (λ _. true)

  unfoldable pub find_by_id : Uuid → Action W VpnServer
  find_by_id id = db.servers.first (λ s. s.id == id)

  unfoldable pub create : VpnServer → Action W VpnServer
  create server = do
    server' ← server_before_create db.new_uuid server
    db.servers.create server'
    pure server'

  unfoldable pub update : VpnServer → Action W (Unit {0})
  update server = db.servers.save server

  unfoldable pub delete : Uuid → Action W (Unit {0})
  delete id = db.servers.delete id

  unfoldable pub create_metric : ServerMetric → Action W ServerMetric
  create_metric m = do m' ← metric_before_create db.new_uuid m; db.metrics.create m'; pure m'

  -- `Order("recorded_at ASC")` gives the list its order, which no theorem speaks of.
  unfoldable pub metrics_since : Uuid → Time → Action W (List ServerMetric)
  metrics_since server_id since =
      db.metrics.find (λ m. m.vpn_server_id == server_id && leb since m.recorded_at)
