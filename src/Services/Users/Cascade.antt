-- ===== src/Services/Users/Cascade.antt =====
-- `revokeAllAccess` as a whole: the keys of the user, then a page of its devices.
use vpn_backend.Base.{Bool, List, [], ◌∷◌, ◌≡◌, refl, sym, ap, ◌∙◌, subst, map, take, ◌==◌, arith}
use vpn_backend.Base.Int.{ℤ, pos, ◌-64◌, ◌*64◌}
use vpn_backend.Errors.{Error}
use vpn_backend.Action.{Result, ok, err, ◌>>=◌, bind_rule, bind-eq-ok, IfOk}
use vpn_backend.Models.{Uuid, AccessKey, VpnUser, VpnDevice}
use vpn_backend.Database.{Gorm}
use vpn_backend.Database.View.{View}
use vpn_backend.Database.Laws.{LawfulGorm, Selects, set_devices}
use vpn_backend.Database.Reads.{IsRead, bind-IsRead}
use vpn_backend.Database.Backing.{IsBacked}
use vpn_backend.Repositories.{Pagination, normalize}
use vpn_backend.Repositories.AccessKeys as Keys
use vpn_backend.Repositories.Devices as Devices
use vpn_backend.Repositories.Devices.{LoadedDevice}
use vpn_backend.Services.RetireAll.{retire_all}
use vpn_backend.Services.Selected.{selected-IsCurrent}
use vpn_backend.Services.Users.{
  UserService, revoke_all_access, revoke_devices, devices_of, device_page,
}
use vpn_backend.Services.Users.KeyLoop.{
  Lawful, as_revoked, as_revoked-IsMark, KeyLoop-at, retired_by, revoke_keys_loop,
}
use vpn_backend.Services.Users.DeviceLoop.{
  mark_devices, DeviceLoop, DeviceLoop-at, revoke_devices_loop,
}

abbrev pub of_user : Uuid → AccessKey → Bool
of_user user_id k = k.vpn_user_id == user_id

module _ {W : Type 0} (view : W → View) (db : Gorm W) (lawful : LawfulGorm view db) where
  find_by_user-IsRead : (u : Uuid) → IsRead view (Keys.find_by_user db u)
  unfolding Keys.find_by_user
  find_by_user-IsRead u =
      bind-IsRead view _ _ (lawful.access_keys.find_view _)
        λ ks. bind-IsRead view _ _ (lawful.servers.find_view _) λ _ w. refl

  find_by_user-Selects :
      (u : Uuid) (w : W) (ks : List AccessKey)
      → (Keys.find_by_user db u w).0 ≡ ok ks
      → Selects (λ k. k.id) (of_user u) (view w).access_keys ks
  unfolding Keys.find_by_user
  find_by_user-Selects u w ks h =
      let (found, e, h₁, _) = bind-eq-ok _ _ w ks h in
      let (_, _, h₂, _) = bind-eq-ok _ _ _ ks h₁ in
      let same : found ≡ ks = ground (arith, h₂) in
      subst (Selects (λ k. k.id) (of_user u) (view w).access_keys) same
        (lawful.access_keys.find_ok (of_user u) w found e)

  pub list-IsRead : (f : Devices.DeviceFilter) (p : Pagination) → IsRead view (Devices.list db f p)
  unfolding Devices.list
  list-IsRead f p = bind-IsRead view _ _ (lawful.devices.count_view _) λ total.
      bind-IsRead view _ _ (lawful.devices.page_view _ _ _)
        λ ds. bind-IsRead view _ _ (lawful.users.find_view _) λ _ w. refl

  rows_attach :
      (users : List VpnUser) (ds : List VpnDevice)
      → map (λ (x : LoadedDevice). x.device) (map (Devices.attach users) ds) ≡ ds
  rows_attach users [] = refl
  rows_attach users (d ∷ ds) = ap (λ t. d ∷ t) (rows_attach users ds)

  -- The page of 1000 devices that `revokeAllAccess` asks for has 200.
  page_of_user :
      (u : Uuid) (w : W) (page : List LoadedDevice × ℤ)
      → (Devices.list db (devices_of u) device_page w).0 ≡ ok page
      → (all : List VpnDevice) × Selects
          (λ d. d.id)
          (Devices.matches (devices_of u))
          (view w).devices
          all
        × (map (λ d. d.device) page.0 ≡ take 200 all)
  unfolding Devices.list normalize ◌-64◌ ◌*64◌
  page_of_user u w page h =
      let (total, _, h₁, _) = bind-eq-ok _ _ w page h in
      let (ds, e, h₂, _) = bind-eq-ok _ _ _ page h₁ in
      let (users, _, h₃, _) = bind-eq-ok _ _ _ page h₂ in
      let (all, selected, taken) =
        lawful.devices.page_ok (Devices.matches (devices_of u)) (pos 0) 200 _ ds (omega arith) e in
      let kept = lawful.devices.count_view (Devices.matches (devices_of u)) w in
      let answer : (map (Devices.attach users) ds, total) ≡ page = cc h₃ in
      (
        all,
        subst (λ v. Selects (λ d. d.id) (Devices.matches (devices_of u)) v.devices all) kept
            selected,
        sym (ap (λ (q : List LoadedDevice × ℤ). map (λ x. x.device) q.0) answer)
            ∙ rows_attach users ds
            ∙ taken,
      )

-- What a `revokeAllAccess` that returned has done.
pub record Revoked (u : Uuid) (v v' : View) : Type 0 where
  pub keys : List AccessKey
  pub keys_selected : Selects (λ k. k.id) (of_user u) v.access_keys keys
  pub devices : List VpnDevice
  pub devices_selected : Selects (λ d. d.id) (Devices.matches (devices_of u)) v.devices devices
  pub result :
      v' ≡ set_devices (mark_devices (take 200 devices) v.devices) (retire_all as_revoked keys v)

pub record Cascade (u : Uuid) (v : View) (r : Result (Unit {0})) (v' : View) : Type 0 where
  pub on_ok : IfOk r (λ _. Revoked u v v')
  pub same_users : v'.users ≡ v.users
  pub backed : IsBacked v → IsBacked v'

pub Cascade-at :
    {u : Uuid} {v₁ v₂ v' : View} {r : Result (Unit {0})}
    → v₁ ≡ v₂
    → Cascade u v₁ r v'
    → Cascade u v₂ r v'
Cascade-at {u} {v' = v'} {r = r} e = subst (λ x. Cascade u x r v') e

pub Revoked-Cascade :
    {u : Uuid} {v v' : View} {r : Result (Unit {0})} → r ≡ ok tt → Cascade u v r v' → Revoked u v v'
Revoked-Cascade {u} {v} {v'} done c = subst (λ r. IfOk r (λ _. Revoked u v v')) done c.on_ok

module _ {W : Type 0} (view : W → View) (s : UserService W) (lawful : Lawful view s) where
  unchanged-Cascade : (u : Uuid) (v v' : View) (e : Error) → v' ≡ v → Cascade u v (err e) v'
  unchanged-Cascade u v v' e same = record {
    on_ok = tt;
    same_users = ap (λ x. x.users) same;
    backed = subst IsBacked (sym same);
  }

  broken_keys :
      (u : Uuid) (ks : List AccessKey) (v v' : View) (e : Error)
      → (IsBacked v → IsBacked v')
      → v'.users ≡ v.users
      → Cascade u v (err e) v'
  broken_keys u ks v v' e backed users = record { on_ok = tt; same_users = users; backed = backed }

  finish :
      (u : Uuid) (v v₂ v' : View) (r : Result (Unit {0})) (ks : List AccessKey)
      (all ds : List VpnDevice)
      → Selects (λ k. k.id) (of_user u) v.access_keys ks
      → Selects (λ d. d.id) (Devices.matches (devices_of u)) v₂.devices all
      → ds ≡ take 200 all
      → v₂ ≡ retire_all as_revoked ks v
      → v₂.devices ≡ v.devices
      → DeviceLoop ds v₂ r v'
      → IfOk r (λ _. Revoked u v v')
  finish u v v₂ v' (err _) ks all ds _ _ _ _ _ _ = tt
  finish u v v₂ v' (ok _) ks all ds chosen listed page retired same loop = record {
    keys = ks;
    keys_selected = chosen;
    devices = all;
    devices_selected =
        subst (λ rows. Selects (λ d. d.id) (Devices.matches (devices_of u)) rows all) same listed;
    result =
        loop.only_devices
        ∙ ap (λ rows. set_devices rows v₂)
            (loop.on_ok
              ∙ ap (λ x. mark_devices x v₂.devices) page
              ∙ ap (mark_devices (take 200 all)) same)
        ∙ ap (set_devices (mark_devices (take 200 all) v.devices)) retired;
  }

  -- The part after the key loop, which has led from `v` to the view of `w`.
  device_part :
      (u : Uuid) (v : View) (ks : List AccessKey) (w : W)
      → Selects (λ k. k.id) (of_user u) v.access_keys ks
      → view w ≡ retire_all as_revoked ks v
      → (view w).users ≡ v.users
      → (view w).devices ≡ v.devices
      → (IsBacked v → IsBacked (view w))
      → let m =
          Devices.list s.db (devices_of u) device_page
          >>= (λ page. revoke_devices s (map (λ d. d.device) page.0)) in
        Cascade u v (m w).0 (view (m w).1)
  device_part u v ks w chosen retired users devices backed =
      bind_rule (λ r. Cascade u v r.0 (view r.1)) _ _ w
        (λ page listed.
          let same = list-IsRead view s.db lawful.db (devices_of u) device_page w in
          let (all, selected, taken) = page_of_user view s.db lawful.db u w page listed in
          let loop' =
            DeviceLoop-at same (revoke_devices_loop view s lawful (map (λ d. d.device) page.0) _) in
          record {
            on_ok = finish u v (view w) _ _ ks all _ chosen selected taken retired devices loop';
            same_users = ap (λ x. x.users) loop'.only_devices ∙ users;
            backed = λ h. subst IsBacked (sym loop'.only_devices) (backed h);
          })
        (λ e _.
          let same = list-IsRead view s.db lawful.db (devices_of u) device_page w in
          broken_keys u ks v _ e (λ h. subst IsBacked (sym same) (backed h))
            (ap (λ x. x.users) same ∙ users))

  pub revoke_all_access-Cascade :
      (u : Uuid) (w : W)
      → Cascade u (view w) (revoke_all_access s u w).0 (view (revoke_all_access s u w).1)
  unfolding revoke_all_access
  revoke_all_access-Cascade u w =
      bind_rule (λ r. Cascade u (view w) r.0 (view r.1)) _ _ w
        (λ ks found.
          let same = find_by_user-IsRead view s.db lawful.db u w in
          let chosen = find_by_user-Selects view s.db lawful.db u w ks found in
          let current =
            selected-IsCurrent as_revoked as_revoked-IsMark (of_user u) (view w) ks chosen
              (lawful.db.access_keys.keyed w) in
          let loop = KeyLoop-at same (revoke_keys_loop view s lawful ks _) in
          bind_rule (λ r. Cascade u (view w) r.0 (view r.1)) _ _ _
            (λ _ done.
              device_part u (view w) ks _ chosen (retired_by done loop) loop.same_users
                loop.same_devices (loop.backed current))
            (λ e _. broken_keys u ks (view w) _ e (loop.backed current) loop.same_users))
        (λ e _. unchanged-Cascade u (view w) _ e (find_by_user-IsRead view s.db lawful.db u w))

  -- A `revokeAllAccess` that returns has taken each key of the user that was ACTIVE out of service,
  -- and written each of the first 200 of its devices that was not REVOKED as REVOKED; the other
  -- devices of the user, and everything else, are as they were.
  pub revoke_all_access_outcome :
      (u : Uuid) (w : W)
      → (revoke_all_access s u w).0 ≡ ok tt
      → Revoked u (view w) (view (revoke_all_access s u w).1)
  revoke_all_access_outcome u w h = Revoked-Cascade h (revoke_all_access-Cascade u w)
