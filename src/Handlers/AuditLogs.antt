-- ===== src/Handlers/AuditLogs.antt =====
-- internal/handlers/audit_log_handler.go
use vpn_backend.Base.{Option, none, some, String, str_eq, if◌then◌else◌}
use vpn_backend.Action.{ok, err}
use vpn_backend.Models.{Time}
use vpn_backend.Repositories.AuditLogs.{AuditLogFilter}
use vpn_backend.Services.Audit as Service
use vpn_backend.Services.Audit.{AuditService}
use vpn_backend.Handlers.{
  Parsers, Handler, success_with_meta, logs_data, on_success, pagination_from_query,
  meta_from_pagination,
}

pub record AuditLogHandler (W : Type 0) : Type 0 where
  pub audit : AuditService W
  pub parsers : Parsers

-- `if t, err := time.Parse(time.RFC3339, text); text != "" && err == nil { f = &t }`
unfoldable pub optional_time : Parsers → String → Option Time
optional_time parsers text =
    if str_eq text "" then none else elim (parsers.parse_time text) [ ok t ↦ some t | err e ↦ none ]

module _ {W : Type 0} (h : AuditLogHandler W) where
  unfoldable pub list : Handler W
  list req =
      let p = pagination_from_query h.parsers req in
      let f : AuditLogFilter = record {
        admin_id = req.query "admin_id";
        action = req.query "action";
        resource_type = req.query "resource_type";
        resource_id = req.query "resource_id";
        from = optional_time h.parsers (req.query "from");
        to = optional_time h.parsers (req.query "to");
      } in
      on_success (Service.list h.audit f p)
        λ page w. (success_with_meta 200 (logs_data (page.0)) (meta_from_pagination p (page.1)), w)
