-- ===== src/Repositories/Users.antt =====
-- internal/repositories/vpn_user_repository.go
use Prim.Native.String
use vpn_backend.Base.{Bool, true, List, String, str_eq, ◌==◌, ◌&&◌, ◌||◌, map, keep, if◌then◌else◌}
use vpn_backend.Base.Int.{ℤ}
use vpn_backend.Action.{Action, pure, ◌>>=◌, ◌>>◌}
use vpn_backend.Models.{
  Uuid, AccessKey, VpnUser, VpnUserStatus, VpnDevice, user_status_text, is_active_user, before,
}
use vpn_backend.Models.Hooks.{user_before_create}
use vpn_backend.Database.{Gorm}
use vpn_backend.Repositories.{Pagination, normalize}
use vpn_backend.Repositories.AccessKeys.{is_in, unless_empty}

pub record UserFilter : Type 0 where
  pub status : String
  pub search : String

-- A row with its `Devices` and `AccessKeys` associations.
pub record LoadedUser : Type 0 where
  pub user : VpnUser
  pub devices : List VpnDevice
  pub access_keys : List AccessKey

abbrev pub attach : List VpnDevice → List AccessKey → VpnUser → LoadedUser
attach devices keys u = record {
  user = u;
  devices = keep (λ d. d.vpn_user_id == u.id) devices;
  access_keys = keep (λ k. k.vpn_user_id == u.id) keys;
}

module _ {W : Type 0} (db : Gorm W) where
  -- The conditions that `List` builds up.
  unfoldable pub matches : UserFilter → VpnUser → Bool
  matches f u =
      let like = String.◌++◌ "%" (String.◌++◌ f.search "%") in
      unless_empty f.status (user_status_text u.status)
      && (if str_eq f.search "" then true else db.ilike u.name like || db.ilike u.email like)

  unfoldable pub list : UserFilter → Pagination → Action W (List LoadedUser × ℤ)
  list f p = do
    let n = normalize p
    total ← db.users.count (matches f)
    users ← db.users.page (matches f) n.offset n.page_size
    keys ← db.access_keys.find (λ k. is_in k.vpn_user_id (map (λ u. u.id) users))
    devices ← db.devices.find (λ d. is_in d.vpn_user_id (map (λ u. u.id) users))
    pure (map (attach devices keys) users, total)

  unfoldable pub find_by_id : Uuid → Action W LoadedUser
  find_by_id id = do
    user ← db.users.first (λ u. u.id == id)
    keys ← db.access_keys.find (λ k. k.vpn_user_id == user.id)
    db.servers.find (λ s. is_in s.id (map (λ k. k.vpn_server_id) keys))
    devices ← db.devices.find (λ d. d.vpn_user_id == user.id)
    pure (attach devices keys user)

  unfoldable pub create : VpnUser → Action W VpnUser
  create user = do user' ← user_before_create db.new_uuid user; db.users.create user'; pure user'

  unfoldable pub update : VpnUser → Action W (Unit {0})
  update user = db.users.save user

  unfoldable pub delete : Uuid → Action W (Unit {0})
  delete id = db.users.delete id

  unfoldable pub count_by_status : VpnUserStatus → Action W ℤ
  count_by_status status =
      db.users.count (λ u. str_eq (user_status_text u.status) (user_status_text status))

  unfoldable pub count : Action W ℤ
  count = db.users.count (λ _. true)

  unfoldable pub find_expired : Action W (List VpnUser)
  find_expired w =
      let now = db.now w in
      db.users.find (λ u. is_active_user u.status && before u.expires_at now) w

  unfoldable pub sum_traffic_used : Action W ℤ
  sum_traffic_used = db.users.sum (λ _. true) (λ u. u.traffic_used_bytes)
