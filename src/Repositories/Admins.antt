-- ===== src/Repositories/Admins.antt =====
-- internal/repositories/admin_repository.go
use vpn_backend.Base.{true, some, List, String, str_eq, ◌==◌}
use vpn_backend.Base.Int.{ℤ}
use vpn_backend.Action.{Action, pure, ◌>>=◌, ◌>>◌}
use vpn_backend.Models.{Uuid, Admin}
use vpn_backend.Models.Hooks.{admin_before_create}
use vpn_backend.Database.{Gorm}
use vpn_backend.Repositories.{Pagination, normalize}

module _ {W : Type 0} (db : Gorm W) where
  unfoldable pub find_by_google_sub : String → Action W Admin
  find_by_google_sub sub = db.admins.first (λ a. str_eq a.google_sub sub)

  unfoldable pub find_by_id : Uuid → Action W Admin
  find_by_id id = db.admins.first (λ a. a.id == id)

  unfoldable pub list : Pagination → Action W (List Admin × ℤ)
  list p = do
    let n = normalize p
    total ← db.admins.count (λ _. true)
    admins ← db.admins.page (λ _. true) n.offset n.page_size
    pure (admins, total)

  unfoldable pub update : Admin → Action W (Unit {0})
  update admin = db.admins.save admin

  unfoldable pub create : Admin → Action W Admin
  create admin = do
    admin' ← admin_before_create db.new_uuid admin
    db.admins.create admin'
    pure admin'

  unfoldable pub touch_last_login : Uuid → Action W (Unit {0})
  touch_last_login id w =
      let now = db.now w in
      db.admins.update (λ a. a.id == id) (λ a. record a { last_login_at = some now }) w
