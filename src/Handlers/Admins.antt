-- ===== src/Handlers/Admins.antt =====
-- internal/handlers/admin_handler.go
use vpn_backend.Base.{Option, none, some, [], ◌∷◌, String}
use vpn_backend.Action.{Result}
use vpn_backend.Models.{AuditAction, AdminStatus, user_updated, admin_disabled}
use vpn_backend.Database.{Gorm}
use vpn_backend.Services.Admins as Service
use vpn_backend.Services.Admins.{UpdateAdminInput}
use vpn_backend.Services.Audit.{AuditService, text}
use vpn_backend.Handlers.{
  Parsers, Handler, success, success_with_meta, admin_data, admins_data, on_success, with_id,
  with_body, audited, pagination_from_query, meta_from_pagination,
}

-- The fields of `updateAdminRequest` are those of the service's input, of the same names.
abbrev pub UpdateAdminRequest : Type 0
UpdateAdminRequest = UpdateAdminInput

-- The admin service is its repository.
pub record AdminHandler (W : Type 0) : Type 0 where
  pub admins : Gorm W
  pub audit : AuditService W
  pub parsers : Parsers
  pub bind_update : String → Result UpdateAdminRequest

-- The action that `Update` records.
abbrev pub update_action : Option AdminStatus → AuditAction
update_action (some AdminStatus.disabled) = admin_disabled
update_action (some AdminStatus.active) = user_updated
update_action none = user_updated

module _ {W : Type 0} (h : AdminHandler W) where
  unfoldable pub list : Handler W
  list req =
      let p = pagination_from_query h.parsers req in
      on_success (Service.list h.admins p) λ page w.
        (success_with_meta 200 (admins_data (page.0)) (meta_from_pagination p (page.1)), w)

  unfoldable pub get : Handler W
  get req =
      with_id h.parsers req
        λ id. on_success (Service.get h.admins id) λ admin w. (success 200 (admin_data admin), w)

  unfoldable pub update : Handler W
  update req = with_id h.parsers req λ id.
      with_body h.parsers h.bind_update "Invalid request body." req λ body.
        on_success (Service.update h.admins id body) λ admin.
          audited h.parsers h.audit req (update_action body.status) "admin" admin.id
            (some (("admin_email", text admin.email) ∷ [])) (success 200 (admin_data admin))
