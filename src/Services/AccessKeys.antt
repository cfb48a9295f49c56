-- ===== src/Services/AccessKeys.antt =====
-- internal/services/access_key_service.go
pub mod Lookup
pub mod Paths
pub mod Creation
pub mod Revocation
pub mod Rotation
pub mod Sweep
pub mod Success
pub mod Blocked
use vpn_backend.Base.{
  ℕ, Bool, true, false, Option, none, some, List, [], ◌∷◌, String, length, if◌then◌else◌,
}
use vpn_backend.Base.Int.{ℤ, pos}
use vpn_backend.Errors.{Error, wrapped, message}
use vpn_backend.Action.{
  Result, ok, err, Action, pure, fail, lift, ◌>>=◌, ◌>>◌, on_error, on_error_run,
}
use vpn_backend.Models.{
  Uuid, nil_uuid, Time, AccessKey, AccessKeyStatus, VpnServer, shadowsocks, is_active_key,
}
use vpn_backend.Database.{Gorm}
use vpn_backend.Platform.{Bytes, Random, Encoding}
use vpn_backend.Provider.{AccessKeySpec, ProvisionedKey, VpnProvider}
use vpn_backend.Crypto
use vpn_backend.Crypto.{SecretBox}
use vpn_backend.Vpn.{
  CrossPlatformConfig, generate_secret_path, shadowsocks_uri, build_cross_platform_config,
}
use vpn_backend.Repositories.{Pagination}
use vpn_backend.Repositories.AccessKeys as Keys
use vpn_backend.Repositories.AccessKeys.{LoadedKey, AccessKeyFilter}
use vpn_backend.Repositories.Servers as Servers
use vpn_backend.Services.{or_not_found}

-- `random` and `encoding` are those that package vpn uses.
pub record AccessKeyService (W : Type 0) : Type 0 where
  pub db : Gorm W
  pub provider : VpnProvider W
  pub secret_box : SecretBox W
  pub vpn_domain : String
  pub random : Random W
  pub encoding : Encoding

pub record CreateAccessKeyInput : Type 0 where
  pub vpn_user_id : Uuid
  pub vpn_server_id : Uuid
  pub name : String
  pub expires_at : Option Time
  pub traffic_limit_bytes : ℤ
  pub tcp_enabled : Bool
  pub udp_enabled : Bool
  pub websocket_enabled : Bool

-- The literal of `Create`: the fields that it leaves out are zero values.
abbrev pub new_key : CreateAccessKeyInput → ProvisionedKey → String → AccessKey
new_key input provisioned encrypted_secret = record {
  id = nil_uuid;
  vpn_user_id = input.vpn_user_id;
  vpn_server_id = input.vpn_server_id;
  name = input.name;
  secret_reference = provisioned.provider_key_id;
  encrypted_secret = encrypted_secret;
  port = provisioned.port;
  cipher = provisioned.method;
  protocol = shadowsocks;
  tcp_enabled = input.tcp_enabled;
  udp_enabled = input.udp_enabled;
  websocket_enabled = input.websocket_enabled;
  websocket_path = "";
  websocket_udp_path = "";
  expires_at = input.expires_at;
  traffic_limit_bytes = input.traffic_limit_bytes;
  traffic_used_bytes = pos 0;
  status = AccessKeyStatus.active;
}

abbrev pub renewed_key : AccessKey → ProvisionedKey → String → AccessKey
renewed_key key provisioned encrypted_secret = record key {
  secret_reference = provisioned.provider_key_id;
  encrypted_secret = encrypted_secret;
  port = provisioned.port;
  cipher = provisioned.method;
  status = AccessKeyStatus.active;
}

abbrev pub key_spec : (name : String) (traffic_limit_bytes port : ℤ) → AccessKeySpec
key_spec name limit port = record { name = name; traffic_limit_bytes = limit; port = port }

pub record AccessKeyConfig : Type 0 where
  pub shadowsocks_uri : String
  pub cross_platform : CrossPlatformConfig

module _ {W : Type 0} (s : AccessKeyService W) where
  -- The second path of the WebSocket block, which `Create` and `Rotate` share.
  unfoldable pub add_udp_path : AccessKey → Action W AccessKey
  add_udp_path key =
      if key.udp_enabled
      then generate_secret_path s.random s.encoding
        >>= (λ udp_path. pure (record key { websocket_udp_path = udp_path }))
      else pure key

  -- `if key.WebSocketEnabled { ... }`
  unfoldable pub add_paths : AccessKey → Action W AccessKey
  add_paths key =
      if key.websocket_enabled
      then generate_secret_path s.random s.encoding
        >>= (λ tcp_path. add_udp_path (record key { websocket_path = tcp_path }))
      else pure key

  unfoldable pub create : CreateAccessKeyInput → Action W LoadedKey
  create input = do
    server ← on_error (or_not_found "server") (Servers.find_by_id s.db input.vpn_server_id)
    provisioned ← on_error (wrapped "provision access key") (
        s.provider.create_access_key
          (key_spec input.name input.traffic_limit_bytes server.tls_port))
    encrypted_secret ← Crypto.encrypt s.secret_box provisioned.password
    key ← add_paths (new_key input provisioned encrypted_secret)
    key' ←
        on_error_run (s.provider.revoke_access_key provisioned.provider_key_id)
          (Keys.create s.db key)
    pure (record { key = key'; user = none; server = some server })

  unfoldable pub list : AccessKeyFilter → Pagination → Action W (List LoadedKey × ℤ)
  list f p = Keys.list s.db f p

  unfoldable pub get : Uuid → Action W LoadedKey
  get id = on_error (or_not_found "access key") (Keys.find_by_id s.db id)

  unfoldable pub revoke : Uuid → Action W LoadedKey
  revoke id = do
    loaded ← get id
    on_error (wrapped "revoke on data plane")
        (s.provider.revoke_access_key loaded.key.secret_reference)
    let key = record (loaded.key) { status = AccessKeyStatus.revoked }
    Keys.update s.db key
    pure (record loaded { key = key })

  -- The steps of `Rotate` once the key and its server are at hand.
  unfoldable pub rotate_loaded : LoadedKey → VpnServer → Action W LoadedKey
  rotate_loaded loaded server = do
    let key = loaded.key
    provisioned ← on_error (wrapped "rotate on data plane") (
        s.provider.rotate_access_key key.secret_reference
          (key_spec key.name key.traffic_limit_bytes server.tls_port))
    encrypted_secret ← Crypto.encrypt s.secret_box provisioned.password
    key' ← add_paths (renewed_key key provisioned encrypted_secret)
    Keys.update s.db key'
    pure (record loaded { key = key' })

  -- `key.Server.TLSPort` of a nil server panics; the foreign key of the table rules it out.
  unfoldable pub rotate : Uuid → Action W LoadedKey
  unfolding rotate_loaded
  rotate id = do
    loaded ← get id
    elim (loaded.server) [
      | none ↦ fail (message "nil pointer dereference")
      | some server ↦ rotate_loaded loaded server
    ]

  unfoldable pub get_config : Uuid → Action W AccessKeyConfig
  get_config id = do
    loaded ← get id
    let key = loaded.key
    server ← Servers.find_by_id s.db key.vpn_server_id
    password ←
        on_error (wrapped "decrypt secret")
          (lift (Crypto.decrypt s.secret_box key.encrypted_secret))
    pure (record {
      shadowsocks_uri =
          shadowsocks_uri s.encoding key.cipher password server.hostname server.tls_port key.name;
      cross_platform = build_cross_platform_config (record {
        vpn_domain = s.vpn_domain;
        method = key.cipher;
        password = password;
        fallback_port = server.tls_port;
        websocket_path = key.websocket_path;
        websocket_udp_path = key.websocket_udp_path;
        supports_udp = key.udp_enabled;
      });
    })

  -- `qrcode.Encode(payload, qrcode.Medium, 256)` is the parameter `encode`.
  unfoldable pub get_qr_png : (encode : String → ℤ → Result Bytes) → Uuid → Action W Bytes
  get_qr_png encode id = do cfg ← get_config id; lift (encode cfg.shadowsocks_uri (pos 256))

  unfoldable pub delete : Uuid → Action W (Unit {0})
  delete id = do
    loaded ← get id
    (if is_active_key loaded.key.status
        then on_error (wrapped "revoke on data plane")
            (s.provider.revoke_access_key loaded.key.secret_reference)
        else pure tt)
    Keys.delete s.db id

  unfoldable pub count_active : Action W ℤ
  count_active = Keys.count_active s.db

  -- The loop of `SweepExpired`.
  unfoldable pub expire_all : List AccessKey → Action W (Unit {0})
  expire_all [] = pure tt
  expire_all (key ∷ keys) = do
    s.provider.revoke_access_key key.secret_reference
    Keys.update s.db (record key { status = AccessKeyStatus.expired })
    expire_all keys

  unfoldable pub sweep_expired : Action W ℤ
  sweep_expired = do
    expired ← Keys.find_expired s.db
    expire_all expired
    pure (pos (length expired))
