-- ===== src/Services/Usage/Totals.antt =====
-- `ByServer`: one total for each server.
use vpn_backend.Base.{true, List, [], ◌∷◌, ◌≡◌, refl, ◌∙◌, subst, ◌==◌}
use vpn_backend.Base.Int.{ℤ, sum_ℤ}
use vpn_backend.Action.{ok, bind-eq-ok}
use vpn_backend.Models.{AccessKey, VpnServer}
use vpn_backend.Database.View.{View}
use vpn_backend.Database.Laws.{LawfulGorm, Selects}
use vpn_backend.Repositories.AccessKeys as Keys
use vpn_backend.Repositories.Servers as Servers
use vpn_backend.Services.Usage.{UsageService, ServerUsage, server_usage, sum_servers, by_server}

-- The entry has the name of the server, and the sum over the rows of its keys.
pub record IsTotal {W : Type 0} (s : UsageService W) (v : View) (server : VpnServer)
    (u : ServerUsage) : Type 0 where
  pub total : ℤ
  pub entry : u ≡ server_usage s server total
  pub keys : List AccessKey
  pub keys_selected : Selects (λ k. k.id) (λ k. k.vpn_server_id == server.id) v.access_keys keys
  pub summed : total ≡ sum_ℤ (λ k. k.traffic_used_bytes) keys

-- One entry for each server, in the same order.
abbrev pub AreTotals :
    {W : Type 0} → UsageService W → View → List VpnServer → List ServerUsage → Type 0
AreTotals s v [] [] = Unit
AreTotals s v [] (u ∷ us) = ⊥
AreTotals s v (x ∷ xs) [] = ⊥
AreTotals s v (x ∷ xs) (u ∷ us) = IsTotal s v x u × AreTotals s v xs us

module _ {W : Type 0} (view : W → View) (s : UsageService W) (lawful : LawfulGorm view s.db) where
  sum_servers-AreTotals :
      (v : View) (servers : List VpnServer) (w : W) (us : List ServerUsage)
      → view w ≡ v
      → (sum_servers s servers w).0 ≡ ok us
      → AreTotals s v servers us
  unfolding sum_servers Keys.sum_traffic_by_server
  sum_servers-AreTotals v [] w us same h = let e : [] ≡ us = cc h in subst (AreTotals s v []) e tt
  sum_servers-AreTotals v (x ∷ xs) w us same h =
      let (total, summed, h₁, _) = bind-eq-ok _ _ w us h in
      let (rest, tail, h₂, _) = bind-eq-ok _ _ _ us h₁ in
      let (keys, selected, e) = lawful.access_keys.sum_ok _ _ w total summed in
      let kept =
        lawful.access_keys.sum_view (λ k. k.vpn_server_id == x.id) (λ k. k.traffic_used_bytes) w in
      let here : server_usage s x total ∷ rest ≡ us = cc h₂ in
      subst (AreTotals s v (x ∷ xs)) here (
        record {
          total = total;
          entry = refl;
          keys = keys;
          keys_selected =
              subst (λ u. Selects (λ k. k.id) (λ k. k.vpn_server_id == x.id) u.access_keys keys)
                same selected;
          summed = e;
        },
        sum_servers-AreTotals v xs _ rest (kept ∙ same) tail,
      )

  -- A `ByServer` that returns has one entry for each row of the servers, in the order of a list that
  -- holds each row once: with the identifier and the name of the server, and with the sum of the
  -- traffic over exactly the keys of that server.
  pub by_server_outcome :
      (w : W) (us : List ServerUsage)
      → (by_server s w).0 ≡ ok us
      → (servers : List VpnServer) × Selects (λ x. x.id) (λ _. true) (view w).servers servers
        × AreTotals s (view w) servers us
  unfolding by_server Servers.all
  by_server_outcome w us h =
      let (servers, found, h₁, _) = bind-eq-ok _ _ w us h in
      (
        servers,
        lawful.servers.find_ok (λ _. true) w servers found,
        sum_servers-AreTotals (view w) servers _ us (lawful.servers.find_view (λ _. true) w) h₁,
      )
