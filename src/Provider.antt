-- ===== src/Provider.antt =====
-- internal/vpn/provider.go: the data plane behind an interface. The services call it through
-- `VpnProvider`; Vpn/Outline and Testutil/FakeProvider implement it.
pub mod Laws
use vpn_backend.Base.{Bool, String}
use vpn_backend.Base.Int.{ℤ}
use vpn_backend.Action.{Action}

pub record AccessKeySpec : Type 0 where
  pub name : String
  pub traffic_limit_bytes : ℤ
  pub port : ℤ

pub record ProvisionedKey : Type 0 where
  pub provider_key_id : String
  pub password : String
  pub method : String
  pub port : ℤ

pub record UsageStats : Type 0 where
  pub bytes_transferred : ℤ

pub record ServerStatus : Type 0 where
  pub healthy : Bool
  pub version : String
  pub metrics_enabled : Bool
  pub active_connections : ℤ

-- The `context.Context` argument carries a deadline only, and is left out.
pub record VpnProvider (W : Type 0) : Type 0 where
  pub create_access_key : AccessKeySpec → Action W ProvisionedKey
  pub revoke_access_key : String → Action W (Unit {0})
  pub rotate_access_key : String → AccessKeySpec → Action W ProvisionedKey
  pub get_server_status : Action W ServerStatus
  pub get_usage : String → Action W UsageStats
