-- ===== src/Database/View.antt =====
-- What a world holds, as far as the theorems speak of it: each table as a partial map from primary
-- keys (of `vpn_users`, the rows that are not soft-deleted), and the keys that the data plane serves.
use vpn_backend.Base.{Bool, true, false, Option, none, some, String, str_eq, ◌==◌, if◌then◌else◌}
use vpn_backend.Models.{
  Uuid, AccessKey, VpnUser, VpnDevice, VpnServer, ServerMetric, Admin, AuditLog,
}

abbrev pub Rows : Type 0 → Type 0
Rows Row = Uuid → Option Row

module _ {Row : Type 0} where
  abbrev pub put : Uuid → Row → Rows Row → Rows Row
  put i row rows j = if i == j then some row else rows j

  abbrev pub remove : Uuid → Rows Row → Rows Row
  remove i rows j = if i == j then none else rows j

  abbrev pub keep_unless : (Row → Bool) → Option Row → Option Row
  keep_unless p none = none
  keep_unless p (some row) = if p row then none else some row

  -- Without the rows that pass the test.
  abbrev pub drop_rows : (Row → Bool) → Rows Row → Rows Row
  drop_rows p rows i = keep_unless p (rows i)

  abbrev pub change : (Row → Bool) → (Row → Row) → Option Row → Option Row
  change p f none = none
  change p f (some row) = if p row then some (f row) else some row

  abbrev pub change_rows : (Row → Bool) → (Row → Row) → Rows Row → Rows Row
  change_rows p f rows i = change p f (rows i)

pub record View : Type 0 where
  pub users : Rows VpnUser
  pub devices : Rows VpnDevice
  pub access_keys : Rows AccessKey
  pub servers : Rows VpnServer
  pub metrics : Rows ServerMetric
  pub admins : Rows Admin
  pub audit_logs : Rows AuditLog
  -- whether the data plane serves the key of this provider id
  pub live : String → Bool

abbrev pub add_live : String → (String → Bool) → String → Bool
add_live r live s = if str_eq r s then true else live s

abbrev pub drop_live : String → (String → Bool) → String → Bool
drop_live r live s = if str_eq r s then false else live s
