-- ===== src/Testing/Examples.antt =====
-- One user with two keys, one of them REVOKED already, on one server.
use vpn_backend.Base.{true, false, none, some, [], ◌∷◌, String, str_eq, eq_iff, ◌≡◌, refl}
use vpn_backend.Base.Int.{pos}
use vpn_backend.Action.{ok, on_error, ◌>>=◌}
use vpn_backend.Models.{
  AccessKey, AccessKeyStatus, VpnUser, VpnUserStatus, VpnDevice, DevicePlatform, DeviceStatus,
  VpnServer, ServerStatus, Admin, AdminRole, AdminStatus, shadowsocks,
}
use vpn_backend.Database.Backing.{IsBacked}
use vpn_backend.Services.AccessKeys as KeyService
use vpn_backend.Services.AccessKeys.Revocation.{
  Revocation, Deletion, revoke_outcome, revoke-IsBacked, delete_outcome, delete-IsBacked,
}
use vpn_backend.Services.Users as UserService
use vpn_backend.Base.Int.{◌-64◌, ◌*64◌}
use vpn_backend.Repositories.{normalize}
use vpn_backend.Repositories.Devices as Devices
use vpn_backend.Repositories.Users as UserRows
use vpn_backend.Repositories.Users.{LoadedUser}
use vpn_backend.Services.Users.Cascade.{Revoked, revoke_all_access_outcome}
use vpn_backend.Services.Users.Disable.{
  as_disabled, Disabled, Deleted, disable_outcome, delete_user_outcome, disable-IsBacked,
  delete_user-IsBacked,
}
use vpn_backend.Repositories.AccessKeys as Rows
use vpn_backend.Crypto.{encrypt, decrypt}
use vpn_backend.Crypto.RoundTrip.{decrypt-encrypt}
use vpn_backend.Testing.World.{
  World, view, access_keys, access_keys-Lawful, users, users-Lawful, secret_box, aead-LawfulAead,
  encoding-LawfulEncoding, random-LawfulRandom,
}

abbrev pub alice : VpnUser
alice = record {
  id = 1;
  email = "alice@example.com";
  name = "Alice";
  status = VpnUserStatus.active;
  expires_at = some 50;
  traffic_limit_bytes = pos 0;
  traffic_used_bytes = pos 0;
}

abbrev pub laptop_key : AccessKey
laptop_key = record {
  id = 7;
  vpn_user_id = 1;
  vpn_server_id = 3;
  name = "laptop";
  secret_reference = "k1";
  encrypted_secret = "";
  port = pos 17508;
  cipher = "chacha20-ietf-poly1305";
  protocol = shadowsocks;
  tcp_enabled = true;
  udp_enabled = true;
  websocket_enabled = false;
  websocket_path = "";
  websocket_udp_path = "";
  expires_at = some 60;
  traffic_limit_bytes = pos 0;
  traffic_used_bytes = pos 0;
  status = AccessKeyStatus.active;
}

abbrev pub phone_key : AccessKey
phone_key = record laptop_key {
  id = 8;
  name = "phone";
  secret_reference = "k0";
  status = AccessKeyStatus.revoked;
}

abbrev pub laptop : VpnDevice
laptop = record {
  id = 4;
  vpn_user_id = 1;
  name = "laptop";
  platform = DevicePlatform.windows;
  status = DeviceStatus.active;
  last_seen_at = none;
}

abbrev pub gateway : VpnServer
gateway = record {
  id = 3;
  name = "gateway";
  hostname = "vpn.example.com";
  public_ip = "192.0.2.1";
  country = "NL";
  city = "Amsterdam";
  status = ServerStatus.online;
  vpn_port = pos 8388;
  tls_port = pos 17508;
}

abbrev pub carol : Admin
carol = record {
  id = 2;
  google_sub = "sub-1";
  email = "carol@example.com";
  name = "Carol";
  picture_url = "";
  role = AdminRole.admin;
  status = AdminStatus.active;
  last_login_at = none;
}

abbrev pub world : World
world = record {
  users = alice ∷ [];
  devices = laptop ∷ [];
  access_keys = laptop_key ∷ phone_key ∷ [];
  servers = gateway ∷ [];
  metrics = [];
  admins = carol ∷ [];
  audit_logs = [];
  live = λ r. str_eq "k1" r;
  next_uuid = 9;
  next_key = "k2";
  clock = 100;
  limiters = [];
}

pub world-IsBacked : IsBacked (view world)
world-IsBacked r live = record {
  id = 7;
  key = laptop_key;
  stored = refl;
  active = refl;
  refers = (eq_iff "k1" r).0 live;
}

revoke_outcome_example :
    Revocation 7
      (view world)
      (KeyService.revoke access_keys 7 world).0
      (view (KeyService.revoke access_keys 7 world).1)
revoke_outcome_example = revoke_outcome view access_keys access_keys-Lawful 7 world

revoke-IsBacked_example : IsBacked (view (KeyService.revoke access_keys 7 world).1)
revoke-IsBacked_example = revoke-IsBacked view access_keys access_keys-Lawful 7 world world-IsBacked

delete_outcome_example :
    Deletion 7
      (view world)
      (KeyService.delete access_keys 7 world).0
      (view (KeyService.delete access_keys 7 world).1)
delete_outcome_example = delete_outcome view access_keys access_keys-Lawful 7 world

delete-IsBacked_example : IsBacked (view (KeyService.delete access_keys 7 world).1)
delete-IsBacked_example = delete-IsBacked view access_keys access_keys-Lawful 7 world world-IsBacked

abbrev disabled_alice : LoadedUser
disabled_alice = record {
  user = as_disabled alice;
  devices = laptop ∷ [];
  access_keys = laptop_key ∷ phone_key ∷ [];
}

alice_disabled : (UserService.disable users 1 world).0 ≡ ok disabled_alice
unfolding UserService.disable UserService.get UserService.revoke_all_access UserService.revoke_keys
    UserService.revoke_devices UserRows.find_by_id UserRows.update Rows.find_by_user Rows.update
    Devices.list Devices.update Devices.matches normalize ◌-64◌ ◌*64◌ on_error ◌>>=◌
alice_disabled = refl

disable_outcome_example :
    Disabled 1 (view world) disabled_alice (view (UserService.disable users 1 world).1)
disable_outcome_example =
    disable_outcome view users users-Lawful 1 world disabled_alice alice_disabled

disable-IsBacked_example : IsBacked (view (UserService.disable users 1 world).1)
disable-IsBacked_example = disable-IsBacked view users users-Lawful 1 world world-IsBacked

alice_deleted : (UserService.delete users 1 world).0 ≡ ok tt
unfolding UserService.delete UserService.get UserService.revoke_all_access UserService.revoke_keys
    UserService.revoke_devices UserRows.find_by_id UserRows.delete Rows.find_by_user Rows.update
    Devices.list Devices.update Devices.matches normalize ◌-64◌ ◌*64◌ on_error ◌>>=◌
alice_deleted = refl

delete_user_outcome_example : Deleted 1 (view world) (view (UserService.delete users 1 world).1)
delete_user_outcome_example = delete_user_outcome view users users-Lawful 1 world alice_deleted

delete_user-IsBacked_example : IsBacked (view (UserService.delete users 1 world).1)
delete_user-IsBacked_example = delete_user-IsBacked view users users-Lawful 1 world world-IsBacked

alice_cut : (UserService.revoke_all_access users 1 world).0 ≡ ok tt
unfolding UserService.revoke_all_access UserService.revoke_keys UserService.revoke_devices
    Rows.find_by_user Rows.update Devices.list Devices.update Devices.matches normalize ◌-64◌ ◌*64◌
    on_error ◌>>=◌
alice_cut = refl

revoke_all_access_outcome_example :
    Revoked 1 (view world) (view (UserService.revoke_all_access users 1 world).1)
revoke_all_access_outcome_example =
    revoke_all_access_outcome view users users-Lawful 1 world alice_cut

abbrev sealed_secret : String
sealed_secret =
    secret_box.encoding.std_encode (0 ∷ 0 ∷ 0 ∷ 0 ∷ 0 ∷ 0 ∷ 0 ∷ 0 ∷ 0 ∷ 0 ∷ 0 ∷ 0 ∷ 115 ∷ [])

sealed_by : (encrypt secret_box "s" world).0 ≡ ok sealed_secret
unfolding encrypt on_error ◌>>=◌
sealed_by = refl

decrypt-encrypt_example : decrypt secret_box sealed_secret ≡ ok "s"
decrypt-encrypt_example =
    decrypt-encrypt secret_box aead-LawfulAead encoding-LawfulEncoding view random-LawfulRandom "s"
      world sealed_secret sealed_by

-- The examples reach the branches that they are there for.
revoke_run : (KeyService.revoke access_keys 7 world).1.live "k1" ≡ false
unfolding KeyService.revoke KeyService.get Rows.find_by_id Rows.update on_error ◌>>=◌
revoke_run = refl
