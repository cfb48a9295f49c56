-- ===== src/Testing/World.antt =====
-- A world of lists, with a data plane that refuses a name that it serves, and a cipher that
-- changes nothing.
use vpn_backend.Base.{
  ◌==◌, if_rule, ℕ, zero, suc, Bool, true, false, none, List, [], ◌∷◌, String, str_eq, ◌≡◌, refl,
  sym, ap, ◌∙◌, inl, inr, Bool-cases, length, if◌then◌else◌,
}
use vpn_backend.Base.Int.{pos}
use vpn_backend.Errors.{Error, message}
use vpn_backend.Action.{ok, err, Action}
use vpn_backend.Models.{
  Uuid, Time, AccessKey, VpnUser, VpnDevice, VpnServer, ServerMetric, Admin, AuditLog,
}
use vpn_backend.Database.{Gorm}
use vpn_backend.Database.View.{View, add_live, drop_live}
use vpn_backend.Database.Laws.{
  as_given, logged_at, sample_at, no_cascade, delete_samples, is_actor, forget_admin, LawfulGorm,
  set_users, set_devices, set_access_keys, set_servers, set_metrics, set_admins, set_audit_logs,
}
use vpn_backend.Provider.{AccessKeySpec, ProvisionedKey, VpnProvider}
use vpn_backend.Provider.Laws.{LawfulProvider, set_live}
use vpn_backend.Platform.{Bytes, Random, LawfulRandom, Encoding, LawfulEncoding, Aead, LawfulAead}
use vpn_backend.Crypto.{SecretBox}
use vpn_backend.Services.AccessKeys.{AccessKeyService}
use vpn_backend.Services.AccessKeys.Lookup as Keys
use vpn_backend.Services.Users.{UserService}
use vpn_backend.Services.Users.KeyLoop as Users
use vpn_backend.Services.Auth.{AuthService}
use vpn_backend.Database.Reliable.{ReliableGorm}
use vpn_backend.Testing.Codec.{bytes_of, text_of, text_of-bytes_of, runs, unruns, unruns-runs}
use vpn_backend.Testing.Rows.{drop_where, amend, look-drop_where, look-amend, look}
use vpn_backend.Testing.Tables.{list_table, list_table-LawfulTable, list_table-ReliableTable}

pub record World : Type 0 where
  pub users : List VpnUser
  pub devices : List VpnDevice
  pub access_keys : List AccessKey
  pub servers : List VpnServer
  pub metrics : List ServerMetric
  pub admins : List Admin
  pub audit_logs : List AuditLog
  pub live : String → Bool
  -- the identifier, and the name of the data plane's key, that come next
  pub next_uuid : Uuid
  pub next_key : String
  pub clock : Time
  pub limiters : List (String × ℕ)

abbrev pub view : World → View
view w = record {
  users = look (λ r. r.id) w.users;
  devices = look (λ r. r.id) w.devices;
  access_keys = look (λ r. r.id) w.access_keys;
  servers = look (λ r. r.id) w.servers;
  metrics = look (λ r. r.id) w.metrics;
  admins = look (λ r. r.id) w.admins;
  audit_logs = look (λ r. r.id) w.audit_logs;
  live = w.live;
}

abbrev drop_samples : Uuid → World → World
drop_samples i w = record w {
  metrics = drop_where (λ r. r.id) (λ m. m.vpn_server_id == i) w.metrics;
}

abbrev forget_actor : Uuid → World → World
forget_actor i w = record w {
  audit_logs =
      amend (λ r. r.id) (λ l. is_actor i l.admin_id) (λ l. record l { admin_id = none })
        w.audit_logs;
}

abbrev fill_sample : World → ServerMetric → ServerMetric
fill_sample w = sample_at w.clock

abbrev fill_log : World → AuditLog → AuditLog
fill_log w = logged_at w.clock

abbrev pub db : Gorm World
db = record {
  users =
      list_table (λ r. r.id) (λ w. w.users) (λ rs w. record w { users = rs }) as_given (λ i w. w);
  devices =
      list_table (λ r. r.id) (λ w. w.devices) (λ rs w. record w { devices = rs }) as_given
        (λ i w. w);
  access_keys =
      list_table (λ r. r.id) (λ w. w.access_keys) (λ rs w. record w { access_keys = rs }) as_given
        (λ i w. w);
  servers =
      list_table (λ r. r.id) (λ w. w.servers) (λ rs w. record w { servers = rs }) as_given
        drop_samples;
  metrics =
      list_table (λ r. r.id) (λ w. w.metrics) (λ rs w. record w { metrics = rs }) fill_sample
        (λ i w. w);
  admins =
      list_table (λ r. r.id) (λ w. w.admins) (λ rs w. record w { admins = rs }) as_given
        forget_actor;
  audit_logs =
      list_table (λ r. r.id) (λ w. w.audit_logs) (λ rs w. record w { audit_logs = rs }) fill_log
        (λ i w. w);
  now = λ w. w.clock;
  ilike = λ text pattern. str_eq text pattern;
  uuid_is = λ i text. false;
  new_uuid = λ w. (ok w.next_uuid, w);
}

view-drop_samples : (i : Uuid) (w : World) → view (drop_samples i w) ≡ delete_samples i (view w)
view-drop_samples i w =
    ap (λ rows. set_metrics rows (view w))
      (look-drop_where (λ r. r.id) (λ m. m.vpn_server_id == i) w.metrics)

view-forget_actor : (i : Uuid) (w : World) → view (forget_actor i w) ≡ forget_admin i (view w)
view-forget_actor i w =
    ap (λ rows. set_audit_logs rows (view w))
      (look-amend (λ r. r.id) (λ l. is_actor i l.admin_id) (λ l. record l { admin_id = none })
        (λ l. refl) w.audit_logs)

fill_sample_id : (w : World) (m : ServerMetric) → (fill_sample w m).id ≡ m.id
fill_sample_id w m = if_rule (λ (x : ServerMetric). x.id ≡ m.id) (m.recorded_at == 0) refl refl

fill_log_id : (w : World) (l : AuditLog) → (fill_log w l).id ≡ l.id
fill_log_id w l = if_rule (λ (x : AuditLog). x.id ≡ l.id) (l.created_at == 0) refl refl

pub db-LawfulGorm : LawfulGorm view db
db-LawfulGorm = record {
  users =
      list_table-LawfulTable (λ r. r.id) (λ w. w.users) (λ rs w. record w { users = rs }) as_given
        (λ i w. w) view (λ v. v.users) set_users (λ w. refl) (λ rs w. refl) no_cascade (λ w r. refl)
        (λ i w. refl);
  devices =
      list_table-LawfulTable (λ r. r.id) (λ w. w.devices) (λ rs w. record w { devices = rs })
        as_given (λ i w. w) view (λ v. v.devices) set_devices (λ w. refl) (λ rs w. refl) no_cascade
        (λ w r. refl) (λ i w. refl);
  access_keys =
      list_table-LawfulTable (λ r. r.id) (λ w. w.access_keys)
        (λ rs w. record w { access_keys = rs }) as_given (λ i w. w) view (λ v. v.access_keys)
        set_access_keys (λ w. refl) (λ rs w. refl) no_cascade (λ w r. refl) (λ i w. refl);
  servers =
      list_table-LawfulTable (λ r. r.id) (λ w. w.servers) (λ rs w. record w { servers = rs })
        as_given drop_samples view (λ v. v.servers) set_servers (λ w. refl) (λ rs w. refl)
        delete_samples (λ w r. refl) view-drop_samples;
  metrics =
      list_table-LawfulTable (λ r. r.id) (λ w. w.metrics) (λ rs w. record w { metrics = rs })
        fill_sample (λ i w. w) view (λ v. v.metrics) set_metrics (λ w. refl) (λ rs w. refl)
        no_cascade fill_sample_id (λ i w. refl);
  admins =
      list_table-LawfulTable (λ r. r.id) (λ w. w.admins) (λ rs w. record w { admins = rs }) as_given
        forget_actor view (λ v. v.admins) set_admins (λ w. refl) (λ rs w. refl) forget_admin
        (λ w r. refl) view-forget_actor;
  audit_logs =
      list_table-LawfulTable (λ r. r.id) (λ w. w.audit_logs) (λ rs w. record w { audit_logs = rs })
        fill_log (λ i w. w) view (λ v. v.audit_logs) set_audit_logs (λ w. refl) (λ rs w. refl)
        no_cascade fill_log_id (λ i w. refl);
  new_uuid_view = λ w. refl;
}

abbrev pub provisioned : String → ProvisionedKey
provisioned r = record {
  provider_key_id = r;
  password = "secret";
  method = "chacha20-ietf-poly1305";
  port = pos 17508;
}

-- Creating takes the next name, which may be taken; revoking always succeeds.
abbrev create_key : AccessKeySpec → Action World ProvisionedKey
create_key spec w =
    if w.live w.next_key
    then (err (message "conflict"), w)
    else (ok (provisioned w.next_key), record w { live = add_live w.next_key w.live })

abbrev revoke_key : String → Action World (Unit {0})
revoke_key r w = (ok tt, record w { live = drop_live r w.live })

abbrev rotate_key : String → AccessKeySpec → Action World ProvisionedKey
rotate_key r spec w =
    if drop_live r w.live w.next_key
    then (err (message "conflict"), w)
    else (ok (provisioned w.next_key), record w { live = add_live w.next_key (drop_live r w.live) })

abbrev pub provider : VpnProvider World
provider = record {
  create_access_key = create_key;
  revoke_access_key = revoke_key;
  rotate_access_key = rotate_key;
  get_server_status = λ w. (
    ok (record {
      healthy = true;
      version = "1";
      metrics_enabled = false;
      active_connections = pos 0;
    }),
    w,
  );
  get_usage = λ r w. (ok (record { bytes_transferred = pos 0 }), w);
}

create_ok :
    (spec : AccessKeySpec) (w : World) (k : ProvisionedKey)
    → (create_key spec w).0 ≡ ok k
    → (w.live k.provider_key_id ≡ false)
      × (view (create_key spec w).1 ≡ set_live (add_live k.provider_key_id w.live) (view w))
create_ok spec w k h = elim (Bool-cases (w.live w.next_key)) [
  | inl taken ↦ absurd (cc (rw taken at h))
  | inr free ↦
      let same : provisioned w.next_key ≡ k = cc (rw free at h) in
      let name : w.next_key ≡ k.provider_key_id =
        ap (λ (x : ProvisionedKey). x.provider_key_id) same in
      rw (← name, free) (refl, refl)
]

create_err :
    (spec : AccessKeySpec) (w : World) (e : Error)
    → (create_key spec w).0 ≡ err e
    → view (create_key spec w).1 ≡ view w
create_err spec w e h = elim (Bool-cases (w.live w.next_key)) [
  | inl taken ↦ rw taken refl
  | inr free ↦ absurd (cc (rw free at h))
]

rotate_ok :
    (r : String) (spec : AccessKeySpec) (w : World) (k : ProvisionedKey)
    → (rotate_key r spec w).0 ≡ ok k
    → (drop_live r w.live k.provider_key_id ≡ false)
      × (view (rotate_key r spec w).1
          ≡ set_live (add_live k.provider_key_id (drop_live r w.live)) (view w))
rotate_ok r spec w k h = elim (Bool-cases (drop_live r w.live w.next_key)) [
  | inl taken ↦ absurd (cc (rw taken at h))
  | inr free ↦
      let same : provisioned w.next_key ≡ k = cc (rw free at h) in
      let name : w.next_key ≡ k.provider_key_id =
        ap (λ (x : ProvisionedKey). x.provider_key_id) same in
      rw (← name, free) (refl, refl)
]

rotate_err :
    (r : String) (spec : AccessKeySpec) (w : World) (e : Error)
    → (rotate_key r spec w).0 ≡ err e
    → view (rotate_key r spec w).1 ≡ view w
rotate_err r spec w e h = elim (Bool-cases (drop_live r w.live w.next_key)) [
  | inl taken ↦ rw taken refl
  | inr free ↦ absurd (cc (rw free at h))
]

pub provider-LawfulProvider : LawfulProvider view provider
provider-LawfulProvider = record {
  create_ok = create_ok;
  create_err = λ spec w e h. inl (create_err spec w e h);
  revoke_ok = λ r w _. refl;
  revoke_err = λ r w e h. absurd (cc h);
  rotate_ok = rotate_ok;
  rotate_err = λ r spec w e h. inl (rotate_err r spec w e h);
  status_view = λ w. refl;
}

-- `n` bytes, each 0.
abbrev zeros : ℕ → Bytes
zeros zero = []
zeros (suc n) = 0 ∷ zeros n

length-zeros : (n : ℕ) → length (zeros n) ≡ n
length-zeros zero = refl
length-zeros (suc n) = ap suc (length-zeros n)

abbrev pub random : Random World
random = record { read = λ n w. (ok (zeros n), w) }

pub random-LawfulRandom : LawfulRandom view random
random-LawfulRandom = record {
  read_ok = λ n w b h. let same : zeros n ≡ b = cc h in ap length (sym same) ∙ length-zeros n;
  read_view = λ n w. refl;
}

abbrev pub encoding : Encoding
encoding = record {
  bytes = bytes_of;
  text = text_of;
  std_encode = runs;
  std_decode = unruns;
  raw_url_encode = runs;
  decimal = λ n. "17508";
  url_string = λ s u h f. h;
}

pub encoding-LawfulEncoding : LawfulEncoding encoding
encoding-LawfulEncoding = record { text-bytes = text_of-bytes_of; std_decode-encode = unruns-runs }

abbrev pub aead : Aead
aead = record { nonce_size = 12; seal = λ nonce b. b; unseal = λ nonce b. ok b }

pub aead-LawfulAead : LawfulAead aead
aead-LawfulAead = record { unseal-seal = λ nonce b h. refl }

abbrev pub secret_box : SecretBox World
secret_box = record { gcm = aead; random = random; encoding = encoding }

abbrev pub access_keys : AccessKeyService World
access_keys = record {
  db = db;
  provider = provider;
  secret_box = secret_box;
  vpn_domain = "vpn.example.com";
  random = random;
  encoding = encoding;
}

pub access_keys-Lawful : Keys.Lawful view access_keys
access_keys-Lawful = record {
  db = db-LawfulGorm;
  provider = provider-LawfulProvider;
  random = random-LawfulRandom;
  box_random = random-LawfulRandom;
  box_encoding = encoding-LawfulEncoding;
  aead = aead-LawfulAead;
}

abbrev pub users : UserService World
users = record { db = db; provider = provider }

pub users-Lawful : Users.Lawful view users
users-Lawful = record { db = db-LawfulGorm; provider = provider-LawfulProvider }

pub db-ReliableGorm : ReliableGorm db
db-ReliableGorm = record {
  users =
      list_table-ReliableTable (λ r. r.id) (λ w. w.users) (λ rs w. record w { users = rs }) as_given
        (λ i w. w);
  devices =
      list_table-ReliableTable (λ r. r.id) (λ w. w.devices) (λ rs w. record w { devices = rs })
        as_given (λ i w. w);
  access_keys =
      list_table-ReliableTable (λ r. r.id) (λ w. w.access_keys)
        (λ rs w. record w { access_keys = rs }) as_given (λ i w. w);
  servers =
      list_table-ReliableTable (λ r. r.id) (λ w. w.servers) (λ rs w. record w { servers = rs })
        as_given drop_samples;
}

-- A data plane that revokes nothing.
abbrev pub stalled_provider : VpnProvider World
stalled_provider = record {
  create_access_key = create_key;
  revoke_access_key = λ r w. (err (message "unexpected status 503"), w);
  rotate_access_key = rotate_key;
  get_server_status = provider.get_server_status;
  get_usage = provider.get_usage;
}

stalled_provider-LawfulProvider : LawfulProvider view stalled_provider
stalled_provider-LawfulProvider = record {
  create_ok = create_ok;
  create_err = λ spec w e h. inl (create_err spec w e h);
  revoke_ok = λ r w h. absurd (cc h);
  revoke_err = λ r w e h. inl refl;
  rotate_ok = rotate_ok;
  rotate_err = λ r spec w e h. inl (rotate_err r spec w e h);
  status_view = λ w. refl;
}

abbrev pub stalled_users : UserService World
stalled_users = record { db = db; provider = stalled_provider }

pub stalled_users-Lawful : Users.Lawful view stalled_users
stalled_users-Lawful = record { db = db-LawfulGorm; provider = stalled_provider-LawfulProvider }

abbrev pub auth : AuthService World
auth = record {
  verify = λ id_token w. (
    ok (record { sub = id_token; email = "carol@example.org"; name = "Carol C."; picture = "p" }),
    w,
  );
  issue = λ id w. (ok ("token", 3600), w);
  db = db;
  audit = none;
}
