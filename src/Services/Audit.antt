-- ===== src/Services/Audit.antt =====
-- internal/services/audit_service.go
use vpn_backend.Base.{Option, none, some, List, String}
use vpn_backend.Base.Int.{ℤ}
use vpn_backend.Action.{Result, ok, Action, pure, ◌>>=◌, ◌>>◌, lift}
use vpn_backend.Models.{Uuid, nil_uuid, AuditAction}
use vpn_backend.Database.{Gorm}
use vpn_backend.Repositories.{Pagination}
use vpn_backend.Repositories.AuditLogs as Repository
use vpn_backend.Repositories.AuditLogs.{LoadedLog, AuditLogFilter}

-- A `map[string]any` whose values are texts or `true`, as the handlers pass it.
pub data MetadataValue : Type 0 where
  text : String → MetadataValue
  yes_flag : MetadataValue

abbrev pub Metadata : Type 0
Metadata = List (String × MetadataValue)

-- `json.Marshal`
pub record AuditService (W : Type 0) : Type 0 where
  pub db : Gorm W
  pub marshal : Metadata → Result String

module _ {W : Type 0} (s : AuditService W) where
  unfoldable pub encode_metadata : Option Metadata → Result (Option String)
  encode_metadata none = ok none
  encode_metadata (some m) = elim (s.marshal m) [
    | Result.ok t ↦ Result.ok (some t)
    | Result.err e ↦ Result.err e
  ]

  -- `Record`. The 0 of CreatedAt is the zero time, in whose place gorm writes the time of the insert:
  -- this is part of the laws of the table.
  unfoldable pub record_entry :
      Option Uuid
      → AuditAction
      → String
      → Option Uuid
      → String
      → Option Metadata
      → Action W (Unit {0})
  record_entry admin_id action resource_type resource_id ip_address metadata = do
    meta_json ← lift (encode_metadata metadata)
    Repository.create s.db (record {
      id = nil_uuid;
      admin_id = admin_id;
      action = action;
      resource_type = resource_type;
      resource_id = resource_id;
      metadata = meta_json;
      ip_address = ip_address;
      created_at = 0;
    })
    pure tt

  unfoldable pub list : AuditLogFilter → Pagination → Action W (List LoadedLog × ℤ)
  list f p = Repository.list s.db f p
