-- ===== src/Services/Admins.antt =====
-- internal/services/admin_service.go
use vpn_backend.Base.{Option, List, get_or}
use vpn_backend.Base.Int.{ℤ}
use vpn_backend.Action.{Action, pure, ◌>>=◌, ◌>>◌, on_error}
use vpn_backend.Models.{Uuid, Admin, AdminRole, AdminStatus}
use vpn_backend.Database.{Gorm}
use vpn_backend.Repositories.{Pagination}
use vpn_backend.Repositories.Admins as Repository
use vpn_backend.Services.{or_not_found}

pub record UpdateAdminInput : Type 0 where
  pub role : Option AdminRole
  pub status : Option AdminStatus

abbrev pub apply_input : UpdateAdminInput → Admin → Admin
apply_input input a = record a {
  role = get_or input.role a.role;
  status = get_or input.status a.status;
}

module _ {W : Type 0} (db : Gorm W) where
  unfoldable pub list : Pagination → Action W (List Admin × ℤ)
  list p = Repository.list db p

  unfoldable pub get : Uuid → Action W Admin
  get id = on_error (or_not_found "admin") (Repository.find_by_id db id)

  unfoldable pub update : Uuid → UpdateAdminInput → Action W Admin
  update id input = do
    admin ← get id
    let admin' = apply_input input admin
    Repository.update db admin'
    pure admin'
