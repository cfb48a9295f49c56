-- ===== src/Testing/Operations.antt =====
-- Operations one after the other, the pages of a list and the traffic of a server.
use vpn_backend.Base.{ℕ, ◌≤◌, ◌<◌, ◌*◌, true, [], ◌∷◌, List, ◌≡◌, refl, arith}
use vpn_backend.Base.Int.{pos, sum_ℤ, ◌+ℤ◌}
use vpn_backend.Action.{ok, ◌>>=◌}
use vpn_backend.Models.{VpnServer}
use vpn_backend.Database.Laws.{Selects}
use vpn_backend.Database.Backing.{IsBacked}
use vpn_backend.Repositories.{Pagination, normalize}
use vpn_backend.Repositories.AccessKeys as Keys
use vpn_backend.Repositories.Servers as Servers
use vpn_backend.Handlers.{meta_from_pagination}
use vpn_backend.Handlers.Pages.{meta-normalize}
use vpn_backend.Services.AccessKeys as KeyService
use vpn_backend.Services.Usage.{UsageService, by_server, sum_servers, server_usage}
use vpn_backend.Services.Usage.Totals.{AreTotals, by_server_outcome}
use vpn_backend.Server.{sweep_tick}
use vpn_backend.Server.Runs.{
  Reaches, started, then_step, created, revoked, ticked, Reaches-IsBacked,
}
use vpn_backend.Testing.World.{
  World, view, db, db-LawfulGorm, access_keys, access_keys-Lawful, users, users-Lawful,
}
use vpn_backend.Testing.Examples.{gateway, world, world-IsBacked}
use vpn_backend.Testing.Witnesses.{tablet_input, tablet, created_tablet}

abbrev busy : World
busy = (KeyService.create access_keys tablet_input world).1

abbrev calm : World
calm = (KeyService.revoke access_keys 7 busy).1

-- A key is created, another one is revoked, and the sweeps run.
reached : Reaches view users access_keys world (sweep_tick users access_keys calm)
reached =
    then_step
      (then_step (then_step started (created tablet_input tablet created_tablet)) (revoked 7))
      ticked

Reaches-IsBacked_example : IsBacked (view (sweep_tick users access_keys calm))
Reaches-IsBacked_example =
    Reaches-IsBacked view users access_keys users-Lawful access_keys-Lawful world
      (sweep_tick users access_keys calm) reached world-IsBacked

abbrev third_page : Pagination
third_page = record { page = pos 3; page_size = pos 20 }

meta-normalize_example :
    ((meta_from_pagination third_page (pos 45)).page ≡ (normalize third_page).page)
    × ((meta_from_pagination third_page (pos 45)).page_size ≡ pos 20)
    × ((normalize third_page).page_size ≡ pos 20)
    × ((n : ℕ) × ((meta_from_pagination third_page (pos 45)).total_pages ≡ pos n)
        × (45 ≤ n * 20)
        × (n * 20 < 65))
meta-normalize_example = meta-normalize (pos 3) 20 45 (omega arith) (omega arith) (omega arith)

abbrev usage : UsageService World
usage = record { db = db; uuid_text = λ i. "id"; hour = 3600 }

totals : (by_server usage world).0 ≡ ok (server_usage usage gateway (pos 0) ∷ [])
unfolding by_server sum_servers Servers.all Keys.sum_traffic_by_server sum_ℤ ◌+ℤ◌ ◌>>=◌
totals = refl

by_server_outcome_example :
    (servers : List VpnServer) × Selects (λ x. x.id) (λ _. true) (view world).servers servers
    × AreTotals usage (view world) servers (server_usage usage gateway (pos 0) ∷ [])
by_server_outcome_example =
    by_server_outcome view usage db-LawfulGorm world (server_usage usage gateway (pos 0) ∷ [])
      totals
