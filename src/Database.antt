-- ===== src/Database.antt =====
-- What the program uses of gorm and PostgreSQL, as parameters: a table for each model, with the
-- calls that internal/repositories makes. A condition (`Where("status = ?", ...)`) is a test on
-- rows. Nothing here is a definition of gorm: Database/Laws has what its documentation says.
pub mod Migrations
pub mod View
pub mod Laws
pub mod Reads
pub mod Backing
pub mod Reliable
use vpn_backend.Base.{Bool, List, Option, String}
use vpn_backend.Base.Int.{ℤ}
use vpn_backend.Action.{Action}
use vpn_backend.Models.{
  Uuid, Time, AccessKey, VpnUser, VpnDevice, VpnServer, ServerMetric, Admin, AuditLog,
}

pub record Table (W Row : Type 0) : Type 0 where
  -- `First`
  pub first : (Row → Bool) → Action W Row
  -- `Find`
  pub find : (Row → Bool) → Action W (List Row)
  -- `Order("created_at DESC").Offset(offset).Limit(limit).Find`
  pub page : (Row → Bool) → (offset limit : ℤ) → Action W (List Row)
  -- `Count`
  pub count : (Row → Bool) → Action W ℤ
  -- `Select("COALESCE(SUM(column), 0)").Scan`
  pub sum : (Row → Bool) → (column : Row → ℤ) → Action W ℤ
  -- `Create`; gorm has called the row's `BeforeCreate`
  pub create : Row → Action W (Unit {0})
  -- `Save`
  pub save : Row → Action W (Unit {0})
  -- `Where(...).Update(column, value)`
  pub update : (Row → Bool) → (Row → Row) → Action W (Unit {0})
  -- `Delete(&Model{}, "id = ?", id)`
  pub delete : Uuid → Action W (Unit {0})

pub record Gorm (W : Type 0) : Type 0 where
  pub users : Table W VpnUser
  pub devices : Table W VpnDevice
  pub access_keys : Table W AccessKey
  pub servers : Table W VpnServer
  pub metrics : Table W ServerMetric
  pub admins : Table W Admin
  pub audit_logs : Table W AuditLog
  -- SQL's `now()`, and `time.Now()`
  pub now : W → Time
  -- PostgreSQL's `text ILIKE pattern`
  pub ilike : (text pattern : String) → Bool
  -- a uuid column against a text that the query casts to a uuid
  pub uuid_is : Option Uuid → String → Bool
  -- `uuid.New`
  pub new_uuid : Action W Uuid
