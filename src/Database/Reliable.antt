-- ===== src/Database/Reliable.antt =====
-- A database that answers each call: no call fails, but a lookup that finds no row.
use vpn_backend.Base.{Bool, true, some, ◌≡◌, refl, ==_iff, ◌==◌}
use vpn_backend.Base.Int.{ℤ}
use vpn_backend.Errors.{Error, record_not_found, is_error}
use vpn_backend.Action.{Result, ok, err, Returns}
use vpn_backend.Models.{Uuid}
use vpn_backend.Database.{Table, Gorm}
use vpn_backend.Database.View.{View, Rows}
use vpn_backend.Database.Laws.{LawfulTable}

pub record ReliableTable {W Row : Type 0} (t : Table W Row) : Type 0 where
  pub first_fails :
      (p : Row → Bool) (w : W) (e : Error)
      → (t.first p w).0 ≡ err e
      → is_error e record_not_found ≡ true
  pub find_returns : (p : Row → Bool) (w : W) → Returns (t.find p) w
  pub page_returns : (p : Row → Bool) (offset limit : ℤ) (w : W) → Returns (t.page p offset limit) w
  pub count_returns : (p : Row → Bool) (w : W) → Returns (t.count p) w
  pub save_returns : (r : Row) (w : W) → Returns (t.save r) w
  pub delete_returns : (i : Uuid) (w : W) → Returns (t.delete i) w

pub record ReliableGorm {W : Type 0} (db : Gorm W) : Type 0 where
  pub users : ReliableTable db.users
  pub devices : ReliableTable db.devices
  pub access_keys : ReliableTable db.access_keys
  pub servers : ReliableTable db.servers

-- A lookup by the identifier of a row that there is returns.
pub first-Returns :
    {W Row : Type 0} (view : W → View) (t : Table W Row) (id : Row → Uuid) (rows : View → Rows Row)
    (set : Rows Row → View → View) (fill : W → Row → Row) (cascade : Uuid → View → View)
    → LawfulTable view t id rows set fill cascade
    → ReliableTable t
    → (i : Uuid) (w : W) (r : Row) → rows (view w) i ≡ some r
    → Returns (t.first (λ r. id r == i)) w
first-Returns view t id rows set fill cascade lawful reliable i w r stored = go _ refl
  where
    go : (x : Result _) → (t.first (λ r. id r == i) w).0 ≡ x → Returns (t.first (λ r. id r == i)) w
    go (ok a) h = (a, h)
    go (err e) h =
        let hidden =
          lawful.first_missing (λ r. id r == i) w e h (reliable.first_fails _ w e h) i r stored in
        absurd (cc (hidden, (==_iff (id r) i).1 (lawful.keyed w i r stored)))
