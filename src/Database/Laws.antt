-- ===== src/Database/Laws.antt =====
-- The documented behaviour of the calls, as laws on the view of the world. A call that fails
-- changes no table: each is one statement, which PostgreSQL runs in full or not at all.
use mathlib.Core.List.{Memᴰ}
use vpn_backend.Base.{
  ℕ, Bool, true, false, Option, none, some, ◌==◌, if◌then◌else◌, List, [], ◌∷◌, ◌≡◌, ◌≢◌, ◌<◌, All,
  take, drop, length,
}
use vpn_backend.Base.Int.{ℤ, pos, pos_part, sum_ℤ}
use vpn_backend.Errors.{Error, record_not_found, is_error}
use vpn_backend.Action.{ok, err}
use vpn_backend.Models.{
  Uuid, Time, AccessKey, VpnUser, VpnDevice, VpnServer, ServerMetric, Admin, AuditLog,
}
use vpn_backend.Database.{Table, Gorm}
use vpn_backend.Database.View.{Rows, View, put, remove, drop_rows, change_rows}

module _ {Row : Type 0} (id : Row → Uuid) where
  -- No two rows of the list have one primary key.
  abbrev pub Distinct : List Row → Type 0
  Distinct [] = Unit
  Distinct (r ∷ rs) = All (λ s. id r ≢ id s) rs × Distinct rs

  -- The list holds each row that passes the test, once, and no other.
  pub record Selects (p : Row → Bool) (rows : Rows Row) (rs : List Row) : Type 0 where
    pub sound : All (λ r. (rows (id r) ≡ some r) × (p r ≡ true)) rs
    pub complete : (i : Uuid) (r : Row) → rows i ≡ some r → p r ≡ true → Memᴰ r rs
    pub distinct : Distinct rs

module _ {W Row : Type 0} (view : W → View) where
  -- `fill` is what gorm writes into the columns of a new row that it fills, and `cascade` what the
  -- foreign keys of other tables do with the rows that refer to one that is deleted.
  pub record LawfulTable (t : Table W Row) (id : Row → Uuid) (rows : View → Rows Row)
      (set : Rows Row → View → View) (fill : W → Row → Row) (cascade : Uuid → View → View)
      : Type 0 where
    pub keyed : (w : W) (i : Uuid) (r : Row) → rows (view w) i ≡ some r → id r ≡ i
    pub first_ok :
        (p : Row → Bool) (w : W) (r : Row)
        → (t.first p w).0 ≡ ok r
        → (rows (view w) (id r) ≡ some r) × (p r ≡ true)
    -- gorm.ErrRecordNotFound comes back if no row passes, and then only.
    pub first_missing :
        (p : Row → Bool) (w : W) (e : Error)
        → (t.first p w).0 ≡ err e
        → is_error e record_not_found ≡ true
        → (i : Uuid) (r : Row) → rows (view w) i ≡ some r
        → p r ≡ false
    pub first_view : (p : Row → Bool) (w : W) → view (t.first p w).1 ≡ view w
    pub find_ok :
        (p : Row → Bool) (w : W) (rs : List Row)
        → (t.find p w).0 ≡ ok rs
        → Selects id p (rows (view w)) rs
    pub find_view : (p : Row → Bool) (w : W) → view (t.find p w).1 ≡ view w
    -- A page is a stretch of the rows that pass, in some order.
    pub page_ok :
        (p : Row → Bool) (offset : ℤ) (limit : ℕ) (w : W) (rs : List Row)
        → 0 < limit
        → (t.page p offset (pos limit) w).0 ≡ ok rs
        → (all : List Row) × Selects id p (rows (view w)) all
          × (rs ≡ take limit (drop (pos_part offset) all))
    pub page_view :
        (p : Row → Bool) (offset limit : ℤ) (w : W) → view (t.page p offset limit w).1 ≡ view w
    pub count_ok :
        (p : Row → Bool) (w : W) (n : ℤ)
        → (t.count p w).0 ≡ ok n
        → (all : List Row) × Selects id p (rows (view w)) all × (n ≡ pos (length all))
    pub count_view : (p : Row → Bool) (w : W) → view (t.count p w).1 ≡ view w
    pub sum_ok :
        (p : Row → Bool) (column : Row → ℤ) (w : W) (n : ℤ)
        → (t.sum p column w).0 ≡ ok n
        → (all : List Row) × Selects id p (rows (view w)) all × (n ≡ sum_ℤ column all)
    pub sum_view : (p : Row → Bool) (column : Row → ℤ) (w : W) → view (t.sum p column w).1 ≡ view w
    -- A second row of one primary key is refused.
    pub create_ok :
        (r : Row) (w : W)
        → (t.create r w).0 ≡ ok tt
        → (rows (view w) (id r) ≡ none)
          × (view (t.create r w).1 ≡ set (put (id r) (fill w r) (rows (view w))) (view w))
    pub create_err :
        (r : Row) (w : W) (e : Error) → (t.create r w).0 ≡ err e → view (t.create r w).1 ≡ view w
    -- `Save` writes every column of the row, and no row of an association.
    pub save_ok :
        (r : Row) (w : W)
        → (t.save r w).0 ≡ ok tt
        → view (t.save r w).1 ≡ set (put (id r) r (rows (view w))) (view w)
    pub save_err :
        (r : Row) (w : W) (e : Error) → (t.save r w).0 ≡ err e → view (t.save r w).1 ≡ view w
    pub update_ok :
        (p : Row → Bool) (f : Row → Row) (w : W)
        → ((r : Row) → id (f r) ≡ id r)
        → (t.update p f w).0 ≡ ok tt
        → view (t.update p f w).1 ≡ set (change_rows p f (rows (view w))) (view w)
    pub update_err :
        (p : Row → Bool) (f : Row → Row) (w : W) (e : Error)
        → (t.update p f w).0 ≡ err e
        → view (t.update p f w).1 ≡ view w
    pub delete_ok :
        (i : Uuid) (w : W)
        → (t.delete i w).0 ≡ ok tt
        → view (t.delete i w).1 ≡ cascade i (set (remove i (rows (view w))) (view w))
    pub delete_err :
        (i : Uuid) (w : W) (e : Error) → (t.delete i w).0 ≡ err e → view (t.delete i w).1 ≡ view w

abbrev pub set_users : Rows VpnUser → View → View
set_users rows v = record v { users = rows }

abbrev pub set_devices : Rows VpnDevice → View → View
set_devices rows v = record v { devices = rows }

abbrev pub set_access_keys : Rows AccessKey → View → View
set_access_keys rows v = record v { access_keys = rows }

abbrev pub set_servers : Rows VpnServer → View → View
set_servers rows v = record v { servers = rows }

abbrev pub set_metrics : Rows ServerMetric → View → View
set_metrics rows v = record v { metrics = rows }

abbrev pub set_admins : Rows Admin → View → View
set_admins rows v = record v { admins = rows }

abbrev pub set_audit_logs : Rows AuditLog → View → View
set_audit_logs rows v = record v { audit_logs = rows }

-- The columns of a new row that gorm leaves as they are, and those of type time.Time that it fills if
-- they are zero: `CreatedAt` of an entry of the log, and `RecordedAt`, an `autoCreateTime`.
abbrev pub as_given : {W Row : Type 0} → W → Row → Row
as_given w r = r

abbrev pub logged_at : Time → AuditLog → AuditLog
logged_at now r = if r.created_at == 0 then record r { created_at = now } else r

abbrev pub sample_at : Time → ServerMetric → ServerMetric
sample_at now r = if r.recorded_at == 0 then record r { recorded_at = now } else r

-- The foreign keys: no row refers to one that is deleted, or none is changed (a user's row is only
-- marked); `ON DELETE CASCADE` of server_metrics, and `ON DELETE SET NULL` of audit_logs.
abbrev pub no_cascade : Uuid → View → View
no_cascade i v = v

abbrev pub delete_samples : Uuid → View → View
delete_samples i v = record v { metrics = drop_rows (λ m. m.vpn_server_id == i) v.metrics }

abbrev pub is_actor : Uuid → Option Uuid → Bool
is_actor i none = false
is_actor i (some j) = j == i

abbrev pub forget_admin : Uuid → View → View
forget_admin i v = record v {
  audit_logs =
      change_rows (λ l. is_actor i l.admin_id) (λ l. record l { admin_id = none }) v.audit_logs;
}

pub record LawfulGorm {W : Type 0} (view : W → View) (db : Gorm W) : Type 0 where
  pub users : LawfulTable view db.users (λ r. r.id) (λ v. v.users) set_users as_given no_cascade
  pub devices :
      LawfulTable view db.devices (λ r. r.id) (λ v. v.devices) set_devices as_given no_cascade
  pub access_keys :
      LawfulTable view db.access_keys
        (λ r. r.id)
        (λ v. v.access_keys)
        set_access_keys
        as_given
        no_cascade
  pub servers :
      LawfulTable view db.servers (λ r. r.id) (λ v. v.servers) set_servers as_given delete_samples
  pub metrics :
      LawfulTable view db.metrics
        (λ r. r.id)
        (λ v. v.metrics)
        set_metrics
        (λ w. sample_at (db.now w))
        no_cascade
  pub admins :
      LawfulTable view db.admins (λ r. r.id) (λ v. v.admins) set_admins as_given forget_admin
  pub audit_logs :
      LawfulTable view db.audit_logs
        (λ r. r.id)
        (λ v. v.audit_logs)
        set_audit_logs
        (λ w. logged_at (db.now w))
        no_cascade
  pub new_uuid_view : (w : W) → view (db.new_uuid w).1 ≡ view w
