-- ===== src/Testing/Startup.antt =====
-- A start on an empty database, with two migrations, and a configuration.
use vpn_backend.Base.{ℕ, true, false, [], ◌∷◌, List, String, eq_iff, ◌≡◌, refl, ap, All, arith}
use vpn_backend.Base.Int.{pos}
use vpn_backend.Errors.{Error, message}
use vpn_backend.Action.{Result, ok, err, Action, on_error, ◌>>=◌}
use vpn_backend.Platform.{Encoding, Bytes}
use vpn_backend.Text.{leb_text, trim_space, trim_left, trim_right, is_space}
use vpn_backend.Config.{Config, split_csv}
use vpn_backend.Config.RoundTrip.{IsPart, join, split_csv-join}
use vpn_backend.Crypto.{SecretBox, new_secret_box}
use vpn_backend.Database.Migrations.{
  Entry, Migrator, migrate, run_files, apply_file, up_files, before_suffix, sort_files, insert,
  contains,
}
use vpn_backend.Database.Migrations.History.{
  History, LawfulMigrator, add_text, add_version, missing,
}
use mathlib.Core.List.{Permᴰ}
use vpn_backend.Database.Migrations.Order.{IsSorted}
use vpn_backend.Database.Migrations.Runs.{Run, migrate_outcome}
use vpn_backend.Database.Migrations.Again.{migrate-again}
use vpn_backend.Server.{Libraries, connect, start}
use vpn_backend.Server.Startup.{HasStarted, start_ok}
use vpn_backend.Vpn.System.{total_ticks, sub_uint64}
use vpn_backend.Vpn.System.Ticks.{total_ticks_delta}
use vpn_backend.Testing.World as World

abbrev file : String → Entry
file name = record { name = name; is_dir = false }

abbrev directory : List Entry
directory = file "2_keys.up.sql" ∷ file "1_users.down.sql" ∷ file "1_users.up.sql" ∷ []

abbrev in_transaction : Action History (Unit {0}) → Action History (Unit {0})
in_transaction body h = let (r, h') = body h in elim r [ ok a ↦ (ok a, h') | err e ↦ (err e, h) ]

abbrev migrator : Migrator History
migrator = record {
  configured = true;
  read_dir = ok directory;
  read_file = λ name. ok name;
  auto_migrate = λ h. (ok tt, h);
  find_applied = λ h. (ok h.recorded, h);
  exec = λ text h. (ok tt, add_text text h);
  create_record = λ version h. (ok tt, add_version version h);
  transaction = in_transaction;
}

abbrev self : History → History
self h = h

in_transaction_ok :
    (body : Action History (Unit {0})) (h : History)
    → (in_transaction body h).0 ≡ ok tt
    → ((body h).0 ≡ ok tt) × ((in_transaction body h).1 ≡ (body h).1)
in_transaction_ok body h = go (body h).0 refl
  where
    go :
        (r : Result (Unit {0}))
        → (body h).0 ≡ r
        → let t : Result (Unit {0}) × History = elim r [
          | ok a ↦ (ok a, (body h).1)
          | err e ↦ (err e, h)
        ] in
          t.0 ≡ ok tt → ((body h).0 ≡ ok tt) × (t.1 ≡ (body h).1)
    go (ok tt) e k = (e, refl)
    go (err x) e k = absurd (cc k)

in_transaction_err :
    (body : Action History (Unit {0})) (h : History) (e : Error)
    → (in_transaction body h).0 ≡ err e
    → (in_transaction body h).1 ≡ h
in_transaction_err body h e = go (body h).0
  where
    go :
        (r : Result (Unit {0}))
        → let t : Result (Unit {0}) × History = elim r [
          | ok a ↦ (ok a, (body h).1)
          | err e ↦ (err e, h)
        ] in
          t.0 ≡ err e → t.1 ≡ h
    go (ok tt) k = absurd (cc k)
    go (err x) k = refl

migrator-LawfulMigrator : LawfulMigrator self migrator
migrator-LawfulMigrator = record {
  auto_migrate_same = λ h. refl;
  find_same = λ h. refl;
  find_ok = λ h vs found version. ap_contains h vs found version;
  exec_ok = λ text h e. refl;
  create_ok = λ version h e. refl;
  transaction_ok = in_transaction_ok;
  transaction_err = in_transaction_err;
}
  where
    ap_contains :
        (h : History) (vs : List String)
        → ok h.recorded ≡ ok vs
        → (version : String) → contains version vs ≡ contains version h.recorded
    ap_contains h vs found version = let e : h.recorded ≡ vs = cc found in rw e refl

abbrev empty : History
empty = record { executed = []; recorded = [] }

abbrev migrated : History
migrated = record {
  executed = "2_keys.up.sql" ∷ "1_users.up.sql" ∷ [];
  recorded = "2_keys" ∷ "1_users" ∷ [];
}

migrate_returns : migrate migrator empty ≡ (ok tt, migrated)
unfolding migrate run_files apply_file up_files before_suffix sort_files insert leb_text on_error
    ◌>>=◌
migrate_returns = refl

returned : (migrate migrator empty).0 ≡ ok tt
returned = ap (λ (r : Result (Unit {0}) × History). r.0) migrate_returns

migrate_outcome_example :
    (files : List (String × String)) × Permᴰ (up_files directory) files
    × IsSorted files
    × Run migrator (missing [] files) empty (migrate migrator empty).0 (migrate migrator empty).1
migrate_outcome_example = migrate_outcome migrator self migrator-LawfulMigrator directory empty refl

migrate-again_example :
    (missing (migrate migrator empty).1.recorded (sort_files (up_files directory)) ≡ [])
    × ((migrate migrator (migrate migrator empty).1).1 ≡ (migrate migrator empty).1)
migrate-again_example =
    migrate-again migrator self migrator-LawfulMigrator directory empty refl returned

-- 32 bytes, each 1.
abbrev key : Bytes
key =
    1 ∷ 1 ∷ 1 ∷ 1 ∷ 1 ∷ 1 ∷ 1 ∷ 1 ∷ 1 ∷ 1 ∷ 1 ∷ 1 ∷ 1 ∷ 1 ∷ 1 ∷ 1 ∷ 1 ∷ 1 ∷ 1 ∷ 1 ∷ 1 ∷ 1 ∷ 1 ∷ 1
    ∷ 1 ∷ 1 ∷ 1 ∷ 1 ∷ 1 ∷ 1 ∷ 1 ∷ 1 ∷ []

abbrev encoding : Encoding
encoding = record World.encoding { std_decode = λ text. ok key }

abbrev libraries : Libraries History (Unit {0})
libraries = record {
  open_db = λ url h. (ok tt, h);
  sql_db = λ h. (ok tt, h);
  migrator = migrator;
  random = record { read = λ n h. (err (message "no entropy"), h) };
  encoding = encoding;
  new_cipher = λ k. ok tt;
  new_gcm = λ block. ok World.aead;
}

abbrev cfg : Config ℕ
cfg = record {
  app_env = "production";
  app_port = "8080";
  database_url = "postgres://localhost/vpn";
  jwt_secret = "secret";
  jwt_expiry = pos 86400000000000;
  session_cookie = "vpn_admin_session";
  secret_encryption_key = "AQEBAQEBAQEBAQEBAQEBAQEBAQEBAQEBAQEBAQEBAQE=";
  vpn_domain = "vpn.example.com";
  api_domain = "api.example.com";
  google_client_id = "client";
  cors_allowed_origins = [];
  rate_limit_rps = 10;
  rate_limit_burst = pos 20;
  outline_api_url = "https://127.0.0.1:9000";
  outline_api_cert_sha256 = "";
}

abbrev box : SecretBox History
box = record { gcm = World.aead; random = libraries.random; encoding = encoding }

has_started : (start libraries cfg empty).0 ≡ ok box
unfolding start connect new_secret_box migrate run_files apply_file up_files before_suffix
    sort_files insert leb_text on_error ◌>>=◌
has_started = refl

start_ok_example : HasStarted cfg encoding.std_decode directory (start libraries cfg empty).1
start_ok_example =
    start_ok libraries self migrator-LawfulMigrator cfg directory empty box refl has_started

origins_are_parts : All IsPart ("http://localhost:3000" ∷ "https://vpn.example.com" ∷ [])
unfolding trim_space trim_left trim_right is_space
origins_are_parts = (
  record { no_comma = refl; trimmed = refl; not_empty = λ e. no_text ((eq_iff _ "").1 e) },
  (record { no_comma = refl; trimmed = refl; not_empty = λ e. no_text ((eq_iff _ "").1 e) }, tt),
)
  where
    no_text : false ≡ true → ⊥
    no_text h = absurd (cc h)

split_csv-join_example :
    split_csv (join ("http://localhost:3000" ∷ "https://vpn.example.com" ∷ []))
    ≡ "http://localhost:3000" ∷ "https://vpn.example.com" ∷ []
split_csv-join_example =
    split_csv-join ("http://localhost:3000" ∷ "https://vpn.example.com" ∷ []) origins_are_parts

total_ticks_delta_example :
    sub_uint64 (total_ticks (30 ∷ 0 ∷ 12 ∷ 900 ∷ []) 0) (total_ticks (20 ∷ 0 ∷ 10 ∷ 850 ∷ []) 0)
    ≡ 62
total_ticks_delta_example =
    total_ticks_delta (20 ∷ 0 ∷ 10 ∷ 850 ∷ []) (30 ∷ 0 ∷ 12 ∷ 900 ∷ []) (omega arith) (omega arith)
