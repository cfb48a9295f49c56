-- ===== src/Repositories/AuditLogs.antt =====
-- internal/repositories/audit_log_repository.go
use vpn_backend.Base.{
  Bool, true, false, Option, none, some, List, [], ◌∷◌, String, str_eq, ◌==◌, ◌&&◌, map, keep,
  head_of, leb, if◌then◌else◌,
}
use vpn_backend.Base.Int.{ℤ}
use vpn_backend.Action.{Action, pure, ◌>>=◌, ◌>>◌}
use vpn_backend.Models.{Uuid, Time, Admin, AuditLog, action_text}
use vpn_backend.Models.Hooks.{audit_log_before_create}
use vpn_backend.Database.{Gorm}
use vpn_backend.Repositories.{Pagination, normalize}
use vpn_backend.Repositories.AccessKeys.{unless_empty}

pub record AuditLogFilter : Type 0 where
  pub admin_id : String
  pub action : String
  pub resource_type : String
  pub resource_id : String
  pub from : Option Time
  pub to : Option Time

-- A row with its `Admin` association.
pub record LoadedLog : Type 0 where
  pub log : AuditLog
  pub admin : Option Admin

abbrev pub points_to : Option Uuid → Uuid → Bool
points_to none i = false
points_to (some j) i = i == j

abbrev pub attach : List Admin → AuditLog → LoadedLog
attach admins l = record { log = l; admin = head_of (keep (λ a. points_to l.admin_id a.id) admins) }

abbrev pub any_log : (AuditLog → Bool) → List AuditLog → Bool
any_log p logs = elim (keep p logs) [ [] ↦ false | _ ∷ _ ↦ true ]

abbrev pub not_before : Option Time → Time → Bool
not_before none t = true
not_before (some from) t = leb from t

abbrev pub not_after : Option Time → Time → Bool
not_after none t = true
not_after (some to) t = leb t to

module _ {W : Type 0} (db : Gorm W) where
  unfoldable pub create : AuditLog → Action W AuditLog
  create log = do
    log' ← audit_log_before_create db.new_uuid log
    db.audit_logs.create log'
    pure log'

  -- The conditions that `List` builds up.
  unfoldable pub matches : AuditLogFilter → AuditLog → Bool
  matches f l =
      (if str_eq f.admin_id "" then true else db.uuid_is l.admin_id f.admin_id)
      && unless_empty f.action (action_text l.action)
      && unless_empty f.resource_type l.resource_type
      && (if str_eq f.resource_id "" then true else db.uuid_is l.resource_id f.resource_id)
      && not_before f.from l.created_at
      && not_after f.to l.created_at

  unfoldable pub list : AuditLogFilter → Pagination → Action W (List LoadedLog × ℤ)
  list f p = do
    let n = normalize p
    total ← db.audit_logs.count (matches f)
    logs ← db.audit_logs.page (matches f) n.offset n.page_size
    admins ← db.admins.find (λ a. any_log (λ l. points_to l.admin_id a.id) logs)
    pure (map (attach admins) logs, total)
