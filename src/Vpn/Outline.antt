-- ===== src/Vpn/Outline.antt =====
-- internal/vpn/outline_provider.go: the data plane over the management API of an Outline server.
pub mod Contract
use vpn_backend.Base.{
  Bool, true, false, Option, none, some, List, [], ◌∷◌, String, str_eq, ◌&&◌, not, if◌then◌else◌,
}
use vpn_backend.Base.Int.{ℤ, pos, ltb_ℤ}
use vpn_backend.Errors.{Error, wrapped, message}
use vpn_backend.Action.{Result, ok, err, Action, pure, fail, lift, ◌>>=◌, ◌>>◌, on_error}
use vpn_backend.Provider.{AccessKeySpec, ProvisionedKey, ServerStatus, UsageStats, VpnProvider}
use vpn_backend.Vpn.{◌<>◌}

-- The bodies that the requests send, before `json.Marshal`.
pub data Body : Type 0 where
  port : ℤ → Body
  name : String → Body
  bytes : ℤ → Body

-- The fields of the answers that the program reads.
pub record OutlineAccessKey : Type 0 where
  pub id : String
  pub password : String
  pub port : ℤ
  pub method : String

pub record OutlineServerInfo : Type 0 where
  pub metrics_enabled : Bool
  pub version : String

pub record Reply : Type 0 where
  pub status : ℤ
  pub body : String

-- `metrics.BytesTransferredByUserID[id]`: the index of a map gives 0 for a missing key.
abbrev pub bytes_of : List (String × ℤ) → String → ℤ
bytes_of [] id = pos 0
bytes_of ((key, n) ∷ rest) id = if str_eq key id then n else bytes_of rest id

-- `net/http` with the client of the provider, and `encoding/json`.
pub record OutlineApi (W : Type 0) : Type 0 where
  pub exchange : (method path : String) → Option Body → Action W Reply
  pub decode_key : String → Result OutlineAccessKey
  pub decode_info : String → Result OutlineServerInfo
  pub decode_transfer : String → Result (List (String × ℤ))

-- `resp.StatusCode < 200 || resp.StatusCode >= 300`, negated
abbrev pub is_success : ℤ → Bool
is_success status = not (ltb_ℤ status (pos 200)) && ltb_ℤ status (pos 300)

-- A decoder for a call with no `out`.
abbrev pub no_out : String → Result (Unit {0})
no_out body = ok tt

abbrev pub key_path : String → String
key_path id = "/access-keys/" <> id

abbrev pub port_body : ℤ → Option Body
port_body p = if ltb_ℤ (pos 0) p then some (Body.port p) else none

abbrev pub provisioned_key : OutlineAccessKey → ProvisionedKey
provisioned_key k = record {
  provider_key_id = k.id;
  password = k.password;
  method = k.method;
  port = k.port;
}

module _ {W : Type 0} (api : OutlineApi W) where
  unfoldable pub do_json :
      {A : Type 0} → (String → Result A) → (method path : String) → Option Body → Action W A
  do_json decode method path body = do
    reply ← api.exchange method path body
    if is_success reply.status
        then lift (decode reply.body)
        else fail (message ("unexpected status: " <> reply.body))

  unfoldable pub rename_access_key : String → String → Action W (Unit {0})
  unfolding do_json
  rename_access_key id text =
      on_error (wrapped "outline: rename access key")
        (do_json no_out "PUT" (key_path id <> "/name") (some (Body.name text)))

  unfoldable pub set_data_limit : String → ℤ → Action W (Unit {0})
  unfolding do_json
  set_data_limit id limit =
      on_error (wrapped "outline: set data limit")
        (do_json no_out "PUT" (key_path id <> "/data-limit") (some (Body.bytes limit)))

  unfoldable pub create_access_key : AccessKeySpec → Action W ProvisionedKey
  create_access_key spec = do
    created ←
        on_error (wrapped "outline: create access key")
          (do_json api.decode_key "POST" "/access-keys" (port_body spec.port))
    (if str_eq spec.name "" then pure tt else rename_access_key created.id spec.name)
    (if ltb_ℤ (pos 0) spec.traffic_limit_bytes
        then set_data_limit created.id spec.traffic_limit_bytes
        else pure tt)
    pure (provisioned_key created)

  unfoldable pub revoke_access_key : String → Action W (Unit {0})
  revoke_access_key id =
      on_error (wrapped "outline: revoke access key") (do_json no_out "DELETE" (key_path id) none)

  unfoldable pub rotate_access_key : String → AccessKeySpec → Action W ProvisionedKey
  rotate_access_key id spec = do revoke_access_key id; create_access_key spec

  -- An error comes with a status that the callers do not read.
  unfoldable pub get_server_status : Action W ServerStatus
  get_server_status = do
    info ←
        on_error (wrapped "outline: get server status")
          (do_json api.decode_info "GET" "/server" none)
    pure (record {
      healthy = true;
      version = info.version;
      metrics_enabled = info.metrics_enabled;
      active_connections = pos 0;
    })

  unfoldable pub get_usage : String → Action W UsageStats
  get_usage id = do
    report ←
        on_error (wrapped "outline: get usage")
          (do_json api.decode_transfer "GET" "/metrics/transfer" none)
    pure (record { bytes_transferred = bytes_of report id })

  abbrev pub outline_provider : VpnProvider W
  outline_provider = record {
    create_access_key = create_access_key;
    revoke_access_key = revoke_access_key;
    rotate_access_key = rotate_access_key;
    get_server_status = get_server_status;
    get_usage = get_usage;
  }
