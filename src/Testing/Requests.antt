-- ===== src/Testing/Requests.antt =====
-- A server over the small world, and a request to revoke a key.
use vpn_backend.Base.{
  ℕ, true, false, none, some, str_eq, ◌≡◌, ◌≢◌, ◌⊎◌, refl, if◌then◌else◌, ◌==◌, ◌-◌,
}
use vpn_backend.Base.Int.{pos}
use vpn_backend.Errors.{message}
use vpn_backend.Action.{ok, err}
use vpn_backend.Models.{Admin}
use vpn_backend.Handlers.{Request, Parsers, alive_data, success}
use vpn_backend.Services.Audit.{AuditService}
use vpn_backend.Middleware.{RateLimiter, is_allowed}
use vpn_backend.Middleware.Admission.{IsSession, IsRefusal}
use vpn_backend.Router.{Api, guard, Guard, keys_revoke, serve, dispatch, write_roles}
use vpn_backend.Router.Views.{LawfulRouter}
use vpn_backend.Router.Keeps.{SameButMetrics}
use vpn_backend.Router.Access.{Passes, counted, serve_access, serve_writes}
use vpn_backend.Testing.World.{World, view, db, db-LawfulGorm, access_keys, users, provider, auth}
use vpn_backend.Testing.Sessions.{sessions}
use vpn_backend.Testing.Examples.{world}

abbrev parsers : Parsers
parsers = record {
  atoi = λ text. pos 0;
  parse_uuid = λ text. if str_eq text "7" then ok 7 else err (message "invalid UUID");
  parse_time = λ text. err (message "cannot parse");
  parse_duration = λ text. err (message "invalid duration");
  split_host = λ text. ok text;
}

abbrev audit : AuditService World
audit = record { db = db; marshal = λ m. ok "{}" }

-- Ten requests of each client.
abbrev limiter : RateLimiter World ℕ
limiter = record {
  limiters = λ w. w.limiters;
  set_limiters = λ ls w. record w { limiters = ls };
  new_limiter = 10;
  allow = λ now left. if left == 0 then (false, 0) else (true, left - 1);
  now = λ w. w.clock;
}

abbrev pub api : Api World ℕ
api = record {
  metrics_page = λ req w. (success 200 alive_data, w);
  cors = λ req. none;
  limiter = limiter;
  sessions = sessions;
  admin_rows = db;
  keys = record {
    keys = access_keys;
    audit = audit;
    parsers = parsers;
    bind_create = λ text. err (message "EOF");
    encode_qr = λ text size. err (message "too long");
    count = λ operation w. w;
  };
  users = record {
    users = users;
    audit = audit;
    parsers = parsers;
    bind_create = λ text. err (message "EOF");
    bind_update = λ text. err (message "EOF");
  };
  devices = record {
    devices = db;
    audit = audit;
    parsers = parsers;
    bind_update = λ text. err (message "EOF");
  };
  servers = record {
    servers = record {
      db = db;
      provider = provider;
      read_system_metrics = λ w. (err (message "no /proc"), w);
      is_service_active = λ unit w. (true, w);
    };
    audit = audit;
    parsers = parsers;
    bind_create = λ text. err (message "EOF");
    bind_update = λ text. err (message "EOF");
    hour = 3600;
  };
  admins = record {
    admins = db;
    audit = audit;
    parsers = parsers;
    bind_update = λ text. err (message "EOF");
  };
  logs = record { audit = audit; parsers = parsers };
  login = record { auth = auth; parsers = parsers; bind_login = λ text. err (message "EOF") };
  usage = record {
    usage = record { db = db; uuid_text = λ i. "id"; hour = 3600 };
    parsers = parsers;
  };
  summary = record { users = users; devices = db; access_keys = access_keys };
}

api-LawfulRouter : LawfulRouter view api
api-LawfulRouter = record {
  keys = db-LawfulGorm;
  users = db-LawfulGorm;
  devices = db-LawfulGorm;
  servers = db-LawfulGorm;
  logs = db-LawfulGorm;
  usage = db-LawfulGorm;
  summary_users = db-LawfulGorm;
  summary_devices = db-LawfulGorm;
  summary_keys = db-LawfulGorm;
  admin_rows = db-LawfulGorm;
  status_view = λ w. refl;
  system_view = λ w. refl;
  service_view = λ unit w. refl;
  limiter_view = λ ls w. refl;
}

abbrev revocation : Request
revocation = record {
  param = λ name. "7";
  query = λ name. "";
  header = λ name. "Bearer session";
  body = "";
  remote_ip = "192.0.2.1";
  remote_addr = "192.0.2.1:5000";
  admin = none;
}

is_guarded : guard keys_revoke ≢ Guard.open_to_all
unfolding guard
is_guarded h = absurd (cc h)

serve_writes_example :
    SameButMetrics (view world) (view (serve api keys_revoke revocation world).1)
    ⊎ ((a : Admin) × IsSession view sessions revocation (counted api revocation world) world a
        × (is_allowed write_roles a.role ≡ true))
serve_writes_example =
    serve_writes view api api-LawfulRouter keys_revoke revocation world is_guarded

serve_access_example :
    (none ≡ some (serve api keys_revoke revocation world).0)
      × (view (serve api keys_revoke revocation world).1 ≡ view world)
    ⊎ (IsRefusal (serve api keys_revoke revocation world).0
          × (view (serve api keys_revoke revocation world).1 ≡ view world)
        ⊎ ((a : Admin) × IsSession view sessions revocation (counted api revocation world) world a
            × Passes (guard keys_revoke) a
            × ((w' : World) × (view w' ≡ view world)
                × (serve api keys_revoke revocation world
                    ≡ dispatch api keys_revoke (record revocation { admin = some a }) w'))))
serve_access_example =
    serve_access view api api-LawfulRouter keys_revoke revocation world is_guarded
