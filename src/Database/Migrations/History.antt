-- ===== src/Database/Migrations/History.antt =====
-- What `Migrate` has done to a database, as its history.
use vpn_backend.Base.{List, [], ◌∷◌, String, ◌≡◌, if◌then◌else◌}
use vpn_backend.Errors.{Error}
use vpn_backend.Action.{ok, err, Action}
use vpn_backend.Database.Migrations.{Migrator, contains}

-- The migrations that have been committed, the last one first: their texts, and their versions in
-- `schema_migrations`.
pub record History : Type 0 where
  pub executed : List String
  pub recorded : List String

-- The committed history after a text and after a version.
abbrev pub add_text : String → History → History
add_text contents h = record h { executed = contents ∷ h.executed }

abbrev pub add_version : String → History → History
add_version version h = record h { recorded = version ∷ h.recorded }

-- A failing statement leaves the history to the transaction around it, which takes it back.
pub record LawfulMigrator {W : Type 0} (history : W → History) (m : Migrator W) : Type 0 where
  pub auto_migrate_same : (w : W) → history (m.auto_migrate w).1 ≡ history w
  pub find_same : (w : W) → history (m.find_applied w).1 ≡ history w
  pub find_ok :
      (w : W) (vs : List String)
      → (m.find_applied w).0 ≡ ok vs
      → (version : String) → contains version vs ≡ contains version (history w).recorded
  pub exec_ok :
      (text : String) (w : W)
      → (m.exec text w).0 ≡ ok tt
      → history (m.exec text w).1 ≡ add_text text (history w)
  pub create_ok :
      (version : String) (w : W)
      → (m.create_record version w).0 ≡ ok tt
      → history (m.create_record version w).1 ≡ add_version version (history w)
  pub transaction_ok :
      (body : Action W (Unit {0})) (w : W)
      → (m.transaction body w).0 ≡ ok tt
      → ((body w).0 ≡ ok tt) × (history (m.transaction body w).1 ≡ history (body w).1)
  pub transaction_err :
      (body : Action W (Unit {0})) (w : W) (e : Error)
      → (m.transaction body w).0 ≡ err e
      → history (m.transaction body w).1 ≡ history w

-- The files whose version is not in the list, in their order.
abbrev pub missing : List String → List (String × String) → List (String × String)
missing applied [] = []
missing applied (f ∷ fs) =
    let rest = missing applied fs in if contains f.1 applied then rest else f ∷ rest

module _ {W : Type 0} (m : Migrator W) where
  -- From a history to another by the files, in their order: each is read, executed and recorded.
  pub data Applies : List (String × String) → History → History → Type 0 where
    none_left : {h : History} → Applies [] h h
    next :
        {name version contents : String} {fs : List (String × String)} {h h' : History}
        → m.read_file name ≡ ok contents
        → Applies fs (add_version version (add_text contents h)) h'
        → Applies ((name, version) ∷ fs) h h'
