-- ===== src/Services/Users/DeviceLoop.antt =====
-- The second loop of `revokeAllAccess`: over one page of the devices of the user.
use vpn_backend.Base.{List, [], ◌∷◌, ◌≡◌, refl, subst, inl, inr, Bool-cases, if◌then◌else◌}
use vpn_backend.Action.{Result, bind_rule, IfOk}
use vpn_backend.Models.{VpnDevice, DeviceStatus, is_revoked_device}
use vpn_backend.Database.View.{View, Rows, put}
use vpn_backend.Database.Laws.{set_devices}
use vpn_backend.Repositories.Devices as Devices
use vpn_backend.Services.Users.{UserService, revoke_devices}
use vpn_backend.Services.Users.KeyLoop.{Lawful}

abbrev pub as_revoked : VpnDevice → VpnDevice
as_revoked d = record d { status = DeviceStatus.revoked }

abbrev pub mark_one : VpnDevice → Rows VpnDevice → Rows VpnDevice
mark_one d rows = if is_revoked_device d.status then rows else put d.id (as_revoked d) rows

abbrev pub mark_devices : List VpnDevice → Rows VpnDevice → Rows VpnDevice
mark_devices [] rows = rows
mark_devices (d ∷ ds) rows = mark_devices ds (mark_one d rows)

-- The loop writes rows of devices and nothing else; if it returns, those of the page.
pub record DeviceLoop (ds : List VpnDevice) (v : View) (r : Result (Unit {0})) (v' : View)
    : Type 0 where
  pub written : Rows VpnDevice
  pub only_devices : v' ≡ set_devices written v
  pub on_ok : IfOk r (λ _. written ≡ mark_devices ds v.devices)

pub DeviceLoop-at :
    {ds : List VpnDevice} {v₁ v₂ v' : View} {r : Result (Unit {0})}
    → v₁ ≡ v₂
    → DeviceLoop ds v₁ r v'
    → DeviceLoop ds v₂ r v'
DeviceLoop-at {ds} {v' = v'} {r = r} e = subst (λ x. DeviceLoop ds x r v') e

module _ {W : Type 0} (view : W → View) (s : UserService W) (lawful : Lawful view s) where
  after_write :
      (d : VpnDevice) (ds : List VpnDevice) (v v₁ v' : View) (r : Result (Unit {0}))
      → v₁ ≡ set_devices (mark_one d v.devices) v
      → DeviceLoop ds v₁ r v'
      → DeviceLoop (d ∷ ds) v r v'
  after_write d ds v v₁ v' r e loop =
      let loop' = subst (λ x. DeviceLoop ds x r v') e loop in
      record { written = loop'.written; only_devices = loop'.only_devices; on_ok = loop'.on_ok }

  pub revoke_devices_loop :
      (ds : List VpnDevice) (w : W)
      → DeviceLoop ds (view w) (revoke_devices s ds w).0 (view (revoke_devices s ds w).1)
  unfolding revoke_devices Devices.update
  revoke_devices_loop [] w = record {
    written = (view w).devices;
    only_devices = refl;
    on_ok = refl;
  }
  revoke_devices_loop (d ∷ ds) w =
      let rest = revoke_devices_loop ds in
      elim (Bool-cases (is_revoked_device d.status)) [
        | inl on ↦ rw on (after_write d ds (view w) (view w) _ _ (rw on refl) (rest w))
        | inr off ↦ rw off (
            bind_rule (λ r. DeviceLoop (d ∷ ds) (view w) r.0 (view r.1)) _ _ w
              (λ _ saved.
                after_write d ds (view w) _ _ _
                  (rw off (lawful.db.devices.save_ok (as_revoked d) w saved)) (rest _))
              (λ e failed. record {
                written = (view w).devices;
                only_devices = lawful.db.devices.save_err (as_revoked d) w e failed;
                on_ok = tt;
              }))
      ]
