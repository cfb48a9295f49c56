-- ===== src/Testing/Witnesses.antt =====
-- More examples: creation, rotation, the sweeps, the logins, the pages and the Outline provider.
use vpn_backend.Base.{
  ℕ, ◌-◌, ◌*◌, ◌≤◌, true, false, none, some, [], ◌∷◌, String, ◌≡◌, ◌≢◌, refl, arith, All,
}
use vpn_backend.Base.Int.{pos, ◌≤ℤ◌}
use vpn_backend.Errors.{Error, message, wrapped}
use vpn_backend.Action.{ok, err, on_error, on_error_run, ignore_error, ◌>>=◌}
use vpn_backend.Models.{VpnUser}
use vpn_backend.Models.Hooks.{access_key_before_create}
use vpn_backend.Database.Backing.{IsBacked}
use vpn_backend.Crypto as Crypto
use vpn_backend.Repositories.{Pagination, normalize}
use vpn_backend.Repositories.Pages.{normalize-bounds, normalize-offset}
use vpn_backend.Repositories.AccessKeys as Keys
use vpn_backend.Repositories.AccessKeys.{LoadedKey}
use vpn_backend.Repositories.Servers as Servers
use vpn_backend.Repositories.Admins as Admins
use vpn_backend.Repositories.Users as Users
use vpn_backend.Provider.Laws.{LawfulProvider}
use vpn_backend.Services.AccessKeys as KeyService
use vpn_backend.Services.AccessKeys.{CreateAccessKeyInput, new_key, renewed_key}
use vpn_backend.Services.AccessKeys.Creation.{Creation, create_outcome, create-IsBacked}
use vpn_backend.Services.AccessKeys.Rotation.{Rotation, rotate_outcome, rotate-IsBacked}
use vpn_backend.Services.AccessKeys.Sweep.{Swept, sweep_outcome, sweep-IsBacked}
use vpn_backend.Services.Auth.{LoginResult, login_with_google, complete_login, record_login}
use vpn_backend.Services.Auth.Login.{LoggedIn, login_outcome}
use vpn_backend.Services.Users as UserService
use vpn_backend.Services.Users.Expiry.{as_expired, user_sweep-IsBacked, sweep_forgets}
use vpn_backend.Vpn.Outline.{outline_provider}
use vpn_backend.Vpn.Outline.Contract.{outline_provider-LawfulProvider}
use vpn_backend.Testing.World.{
  World, view, db-LawfulGorm, access_keys, access_keys-Lawful, users, users-Lawful, stalled_users,
  stalled_users-Lawful, auth, secret_box, provisioned,
}
use vpn_backend.Testing.Management.{api, api-LawfulApi}
use vpn_backend.Testing.Examples.{alice, carol, laptop_key, gateway, world, world-IsBacked}

abbrev pub tablet_input : CreateAccessKeyInput
tablet_input = record {
  vpn_user_id = 1;
  vpn_server_id = 3;
  name = "tablet";
  expires_at = none;
  traffic_limit_bytes = pos 0;
  tcp_enabled = true;
  udp_enabled = false;
  websocket_enabled = false;
}

create_outcome_example :
    Creation tablet_input
      (Crypto.decrypt secret_box)
      (view world)
      (KeyService.create access_keys tablet_input world).0
      (view (KeyService.create access_keys tablet_input world).1)
create_outcome_example = create_outcome view access_keys access_keys-Lawful tablet_input world

abbrev pub sealed_password : String
sealed_password =
    Crypto.envelope secret_box "secret" (0 ∷ 0 ∷ 0 ∷ 0 ∷ 0 ∷ 0 ∷ 0 ∷ 0 ∷ 0 ∷ 0 ∷ 0 ∷ 0 ∷ [])

abbrev pub tablet : LoadedKey
tablet = record {
  key = record (new_key tablet_input (provisioned "k2") sealed_password) { id = 9 };
  user = none;
  server = some gateway;
}

pub created_tablet : (KeyService.create access_keys tablet_input world).0 ≡ ok tablet
unfolding KeyService.create KeyService.add_paths Keys.create Servers.find_by_id Crypto.encrypt
    access_key_before_create on_error on_error_run ◌>>=◌
created_tablet = refl

create-IsBacked_example : IsBacked (view (KeyService.create access_keys tablet_input world).1)
create-IsBacked_example =
    create-IsBacked view access_keys access_keys-Lawful tablet_input world tablet created_tablet
      world-IsBacked

rotate_outcome_example :
    Rotation 7
      (Crypto.decrypt secret_box)
      (view world)
      (KeyService.rotate access_keys 7 world).0
      (view (KeyService.rotate access_keys 7 world).1)
rotate_outcome_example = rotate_outcome view access_keys access_keys-Lawful 7 world

abbrev rotated_laptop : LoadedKey
rotated_laptop = record {
  key = renewed_key laptop_key (provisioned "k2") sealed_password;
  user = some alice;
  server = some gateway;
}

rotated_laptop_key : (KeyService.rotate access_keys 7 world).0 ≡ ok rotated_laptop
unfolding KeyService.rotate KeyService.rotate_loaded KeyService.get KeyService.add_paths
    Keys.find_by_id Keys.update Crypto.encrypt on_error ◌>>=◌
rotated_laptop_key = refl

rotate-IsBacked_example : IsBacked (view (KeyService.rotate access_keys 7 world).1)
rotate-IsBacked_example =
    rotate-IsBacked view access_keys access_keys-Lawful 7 world rotated_laptop rotated_laptop_key
      world-IsBacked

keys_swept : (KeyService.sweep_expired access_keys world).0 ≡ ok (pos 1)
unfolding KeyService.sweep_expired KeyService.expire_all Keys.find_expired Keys.update on_error
    ◌>>=◌
keys_swept = refl

sweep_outcome_example :
    Swept 100 (view world) (pos 1) (view (KeyService.sweep_expired access_keys world).1)
sweep_outcome_example = sweep_outcome view access_keys access_keys-Lawful world (pos 1) keys_swept

sweep-IsBacked_example : IsBacked (view (KeyService.sweep_expired access_keys world).1)
sweep-IsBacked_example = sweep-IsBacked view access_keys access_keys-Lawful world world-IsBacked

user_sweep-IsBacked_example : IsBacked (view (UserService.sweep_expired users world).1)
user_sweep-IsBacked_example = user_sweep-IsBacked view users users-Lawful world world-IsBacked

abbrev unreachable : Error
unreachable = wrapped "revoke access key" (message "unexpected status 503")

alice_saved : (Users.update stalled_users.db (as_expired alice) world).0 ≡ ok tt
unfolding Users.update
alice_saved = refl

alice_kept :
    (UserService.revoke_all_access stalled_users 1
      (Users.update stalled_users.db (as_expired alice) world).1).0
    ≡ err unreachable
unfolding UserService.revoke_all_access UserService.revoke_keys Keys.find_by_user Users.update
    on_error ◌>>=◌
alice_kept = refl

abbrev left : World
left = record world { users = as_expired alice ∷ alice ∷ [] }

alice-left :
    (view left).users 1 ≡ (view (UserService.expire_all stalled_users (alice ∷ []) world).1).users 1
unfolding UserService.expire_all UserService.revoke_all_access UserService.revoke_keys
    Keys.find_by_user Users.update on_error ◌>>=◌
alice-left = refl

none_due : (Users.find_expired stalled_users.db left).0 ≡ ok []
unfolding Users.find_expired
none_due = refl

sweep_forgets_example :
    ((UserService.expire_all stalled_users (alice ∷ []) world).0 ≡ err unreachable)
    × All (λ (x : VpnUser). x.id ≢ 1) []
sweep_forgets_example =
    sweep_forgets view stalled_users stalled_users-Lawful alice [] world unreachable alice_saved
      alice_kept left [] alice-left none_due

abbrev last_page : Pagination
last_page = record { page = pos 3; page_size = pos 1000 }

normalize-bounds_example :
    (pos 1 ≤ℤ (normalize last_page).page)
    × (pos 1 ≤ℤ (normalize last_page).page_size)
    × ((normalize last_page).page_size ≤ℤ pos 200)
normalize-bounds_example = normalize-bounds last_page

normalize-offset_example :
    (k : ℕ) × (1 ≤ k)
    × (k ≤ 200)
    × ((normalize last_page).page_size ≡ pos k)
    × ((normalize last_page).offset ≡ pos ((3 - 1) * k))
normalize-offset_example = normalize-offset 3 (pos 1000) (omega arith) (omega arith)

abbrev carol_session : LoginResult
carol_session = record {
  token = "token";
  expires_at = 3600;
  admin = record carol { name = "Carol C."; picture_url = "p"; email = "carol@example.org" };
}

carol_admitted : (login_with_google auth "sub-1" "192.0.2.7" world).0 ≡ ok carol_session
unfolding login_with_google complete_login record_login Admins.find_by_google_sub Admins.update
    on_error ignore_error ◌>>=◌
carol_admitted = refl

login_outcome_example : LoggedIn view auth "sub-1" world carol_session
login_outcome_example =
    login_outcome view auth db-LawfulGorm (λ t w. refl) "sub-1" "192.0.2.7" world carol_session
      carol_admitted

outline_provider-LawfulProvider_example : LawfulProvider view (outline_provider api)
outline_provider-LawfulProvider_example = outline_provider-LawfulProvider view api api-LawfulApi
