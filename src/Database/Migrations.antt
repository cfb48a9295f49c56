-- ===== src/Database/Migrations.antt =====
-- internal/database/migrate.go
pub mod Order
pub mod History
pub mod Runs
pub mod Again
use Prim.Native.String
use Prim.Native.String.{[] as []ˢ, ◌∷◌ as ◌∷ˢ◌, ◌++◌ as ◌++ˢ◌}
use Prim.Native.Nat.{Ordering}
use vpn_backend.Base.{
  Bool, true, false, not, Option, none, some, List, [], ◌∷◌, String, str_eq, if◌then◌else◌,
}
use vpn_backend.Text.{leb_text}
use vpn_backend.Errors.{Error, message, wrapped}
use vpn_backend.Action.{Result, ok, err, Action, pure, fail, lift, ◌>>=◌, ◌>>◌, on_error}

-- `fs.DirEntry`
pub record Entry : Type 0 where
  pub name : String
  pub is_dir : Bool

-- The migrations' file system, nil if it was not set, and gorm: `Transaction` runs its function and
-- takes back what it wrote if it fails.
pub record Migrator (W : Type 0) : Type 0 where
  pub configured : Bool
  pub read_dir : Result (List Entry)
  pub read_file : String → Result String
  pub auto_migrate : Action W (Unit {0})
  pub find_applied : Action W (List String)
  pub exec : String → Action W (Unit {0})
  pub create_record : String → Action W (Unit {0})
  pub transaction : Action W (Unit {0}) → Action W (Unit {0})

-- `HasSuffix`, and then `TrimSuffix`: what stands before the suffix.
unfoldable pub before_suffix : (suffix s : String) → Option String
before_suffix suffix []ˢ = if str_eq suffix "" then some "" else none
before_suffix suffix (c ∷ˢ s) =
    let rest = before_suffix suffix s in
    if str_eq suffix (c ∷ˢ s)
    then some ""
    else elim rest as (λ _. Option String) [ none ↦ none | some before ↦ some (c ∷ˢ before) ]

abbrev up_suffix : String
up_suffix = ".up.sql"

-- The files that are migrations, as `upFiles`, each with its version.
unfoldable pub up_files : List Entry → List (String × String)
unfolding before_suffix
up_files [] = []
up_files (e ∷ es) =
    let rest = up_files es in
    if e.is_dir then rest else elim (before_suffix up_suffix e.name) [
      | none ↦ rest
      | some version ↦ (e.name, version) ∷ rest
    ]

-- `sort.Strings`, on the names
unfoldable pub insert : String × String → List (String × String) → List (String × String)
insert x [] = x ∷ []
insert x (y ∷ ys) = let rest = insert x ys in if leb_text x.0 y.0 then x ∷ y ∷ ys else y ∷ rest

unfoldable pub sort_files : List (String × String) → List (String × String)
unfolding insert
sort_files [] = []
sort_files (x ∷ xs) = insert x (sort_files xs)

abbrev pub contains : String → List String → Bool
contains version [] = false
contains version (v ∷ vs) = if str_eq v version then true else contains version vs

module _ {W : Type 0} (m : Migrator W) where
  -- The body of the transaction of a migration.
  unfoldable pub apply_file : (name version contents : String) → Action W (Unit {0})
  apply_file name version contents = m.transaction (
      on_error (wrapped ("apply migration " ++ˢ name)) (m.exec contents) >> m.create_record version)

  -- The loop of `Migrate`
  unfoldable pub run_files : List String → List (String × String) → Action W (Unit {0})
  unfolding apply_file
  run_files applied [] = pure tt
  run_files applied ((name, version) ∷ files) =
      let rest = run_files applied files in
      if contains version applied then rest else do
        contents ← on_error (wrapped ("read migration " ++ˢ name)) (lift (m.read_file name))
        apply_file name version contents
        rest

  unfoldable pub migrate : Action W (Unit {0})
  unfolding run_files up_files sort_files
  migrate = if not m.configured then fail (message "migrations filesystem not configured") else do
    on_error (wrapped "create schema_migrations table") m.auto_migrate
    entries ← on_error (wrapped "read migrations dir") (lift m.read_dir)
    applied ← on_error (wrapped "load applied migrations") m.find_applied
    run_files applied (sort_files (up_files entries))
