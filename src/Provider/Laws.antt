-- ===== src/Provider/Laws.antt =====
-- The contract of the data plane: a call that succeeds has its effect on the keys that are served
-- and no other. A call that fails may have had its effect nevertheless, since the answer of a request
-- may be lost; a failed rotation may have dropped the old key, and may have served a new one.
use vpn_backend.Base.{String, Bool, false, ◌≡◌, ◌⊎◌, true}
use vpn_backend.Errors.{Error}
use vpn_backend.Action.{ok, err, Returns}
use vpn_backend.Provider.{AccessKeySpec, ProvisionedKey, VpnProvider}
use vpn_backend.Database.View.{View, add_live, drop_live}

abbrev pub set_live : (String → Bool) → View → View
set_live live v = record v { live = live }

pub record LawfulProvider {W : Type 0} (view : W → View) (p : VpnProvider W) : Type 0 where
  pub create_ok :
      (spec : AccessKeySpec) (w : W) (k : ProvisionedKey)
      → (p.create_access_key spec w).0 ≡ ok k
      → ((view w).live k.provider_key_id ≡ false)
        × (view (p.create_access_key spec w).1
            ≡ set_live (add_live k.provider_key_id (view w).live) (view w))
  pub create_err :
      (spec : AccessKeySpec) (w : W) (e : Error)
      → (p.create_access_key spec w).0 ≡ err e
      → (view (p.create_access_key spec w).1 ≡ view w)
        ⊎ ((r : String) × ((view w).live r ≡ false)
            × (view (p.create_access_key spec w).1 ≡ set_live (add_live r (view w).live) (view w)))
  pub revoke_ok :
      (r : String) (w : W)
      → (p.revoke_access_key r w).0 ≡ ok tt
      → view (p.revoke_access_key r w).1 ≡ set_live (drop_live r (view w).live) (view w)
  pub revoke_err :
      (r : String) (w : W) (e : Error)
      → (p.revoke_access_key r w).0 ≡ err e
      → (view (p.revoke_access_key r w).1 ≡ view w)
        ⊎ (view (p.revoke_access_key r w).1 ≡ set_live (drop_live r (view w).live) (view w))
  pub rotate_ok :
      (r : String) (spec : AccessKeySpec) (w : W) (k : ProvisionedKey)
      → (p.rotate_access_key r spec w).0 ≡ ok k
      → (drop_live r (view w).live k.provider_key_id ≡ false)
        × (view (p.rotate_access_key r spec w).1
            ≡ set_live (add_live k.provider_key_id (drop_live r (view w).live)) (view w))
  pub rotate_err :
      (r : String) (spec : AccessKeySpec) (w : W) (e : Error)
      → (p.rotate_access_key r spec w).0 ≡ err e
      → (view (p.rotate_access_key r spec w).1 ≡ view w)
        ⊎ ((view (p.rotate_access_key r spec w).1 ≡ set_live (drop_live r (view w).live) (view w))
            ⊎ ((r' : String) × (view (p.rotate_access_key r spec w).1
                  ≡ set_live (add_live r' (drop_live r (view w).live)) (view w))))
  pub status_view : (w : W) → view (p.get_server_status w).1 ≡ view w

-- A data plane that does not know a credential fails to revoke it.
abbrev pub Refuses : {W : Type 0} → (W → View) → VpnProvider W → Type 0
Refuses {W} view p =
    (r : String) (w : W)
    → (view w).live r ≡ false
    → (e : Error) × ((p.revoke_access_key r w).0 ≡ err e)

-- A data plane that can be reached revokes each credential that it serves.
abbrev pub RevokesServed : {W : Type 0} → (W → View) → VpnProvider W → Type 0
RevokesServed {W} view p =
    (r : String) (w : W) → (view w).live r ≡ true → Returns (p.revoke_access_key r) w
