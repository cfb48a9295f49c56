-- ===== src/Repositories/AccessKeys.antt =====
-- internal/repositories/access_key_repository.go
use vpn_backend.Base.{
  Bool, true, false, Option, none, some, List, [], ◌∷◌, String, str_eq, ◌==◌, ◌&&◌, map, head_of,
  keep, if◌then◌else◌,
}
use vpn_backend.Base.Int.{ℤ}
use vpn_backend.Action.{Action, pure, ◌>>=◌, ◌>>◌}
use vpn_backend.Models.{Uuid, AccessKey, VpnUser, VpnServer, key_status_text, is_active_key, before}
use vpn_backend.Models.Hooks.{access_key_before_create}
use vpn_backend.Database.{Gorm}
use vpn_backend.Repositories.{Pagination, normalize}

-- Empty texts and nil pointers mean no restriction.
pub record AccessKeyFilter : Type 0 where
  pub status : String
  pub user_id : Option Uuid
  pub server_id : Option Uuid

-- A row with its `User` and `Server` associations.
pub record LoadedKey : Type 0 where
  pub key : AccessKey
  pub user : Option VpnUser
  pub server : Option VpnServer

abbrev pub is_in : Uuid → List Uuid → Bool
is_in i [] = false
is_in i (j ∷ js) = if i == j then true else is_in i js

abbrev pub unless_nil : Option Uuid → Uuid → Bool
unless_nil none i = true
unless_nil (some j) i = i == j

abbrev pub unless_empty : String → String → Bool
unless_empty f t = if str_eq f "" then true else str_eq t f

-- The conditions that `List` builds up.
unfoldable pub matches : AccessKeyFilter → AccessKey → Bool
matches f k =
    unless_empty f.status (key_status_text k.status)
    && unless_nil f.user_id k.vpn_user_id
    && unless_nil f.server_id k.vpn_server_id

-- What `Preload` attaches to a row, from the associated rows that it has read.
abbrev pub attach : List VpnUser → List VpnServer → AccessKey → LoadedKey
attach users servers k = record {
  key = k;
  user = head_of (keep (λ u. u.id == k.vpn_user_id) users);
  server = head_of (keep (λ s. s.id == k.vpn_server_id) servers);
}

module _ {W : Type 0} (db : Gorm W) where
  unfoldable pub list : AccessKeyFilter → Pagination → Action W (List LoadedKey × ℤ)
  list f p = do
    let n = normalize p
    total ← db.access_keys.count (matches f)
    keys ← db.access_keys.page (matches f) n.offset n.page_size
    users ← db.users.find (λ u. is_in u.id (map (λ k. k.vpn_user_id) keys))
    servers ← db.servers.find (λ s. is_in s.id (map (λ k. k.vpn_server_id) keys))
    pure (map (attach users servers) keys, total)

  unfoldable pub find_by_id : Uuid → Action W LoadedKey
  find_by_id id = do
    key ← db.access_keys.first (λ k. k.id == id)
    users ← db.users.find (λ u. u.id == key.vpn_user_id)
    servers ← db.servers.find (λ s. s.id == key.vpn_server_id)
    pure (attach users servers key)

  -- The row comes back with the identifier that the hook gave it.
  unfoldable pub create : AccessKey → Action W AccessKey
  create key = do
    key' ← access_key_before_create db.new_uuid key
    db.access_keys.create key'
    pure key'

  unfoldable pub update : AccessKey → Action W (Unit {0})
  update key = db.access_keys.save key

  unfoldable pub delete : Uuid → Action W (Unit {0})
  delete id = db.access_keys.delete id

  unfoldable pub count_active : Action W ℤ
  count_active = db.access_keys.count (λ k. is_active_key k.status)

  -- `Preload("Server")` fills an association that no caller reads.
  unfoldable pub find_by_user : Uuid → Action W (List AccessKey)
  find_by_user user_id = do
    keys ← db.access_keys.find (λ k. k.vpn_user_id == user_id)
    db.servers.find (λ s. is_in s.id (map (λ k. k.vpn_server_id) keys))
    pure keys

  unfoldable pub find_expired : Action W (List AccessKey)
  find_expired w =
      let now = db.now w in
      db.access_keys.find (λ k. is_active_key k.status && before k.expires_at now) w

  unfoldable pub sum_traffic_by_server : Uuid → Action W ℤ
  sum_traffic_by_server server_id =
      db.access_keys.sum (λ k. k.vpn_server_id == server_id) (λ k. k.traffic_used_bytes)
