-- ===== src/Vpn.antt =====
-- internal/vpn: the client configurations (config.go), and the implementation of the data plane's
-- interface for an Outline server (Outline).
pub mod System
pub mod Outline
use Prim.Native.String
use vpn_backend.Base.{
  ℕ, Bool, true, false, Option, none, some, List, [], ◌∷◌, String, str_eq, ◌&&◌, not, if◌then◌else◌,
}
use vpn_backend.Base.Int.{ℤ, pos}
use vpn_backend.Errors.{wrapped}
use vpn_backend.Action.{Action, pure, ◌>>=◌, on_error}
use vpn_backend.Platform.{Random, Encoding}

infixr 66 ◌<>◌
abbrev pub ◌<>◌ : String → String → String
s <> t = String.◌++◌ s t

-- `GenerateSecretPath`
unfoldable pub generate_secret_path : {W : Type 0} → Random W → Encoding → Action W String
generate_secret_path random encoding = do
  buf ← on_error (wrapped "generate secret path") (random.read 16)
  pure (encoding.raw_url_encode buf)

-- `ShadowsocksURI`; base64.URLEncoding with no padding is RawURLEncoding.
unfoldable pub shadowsocks_uri :
    Encoding → (method password host : String) → (port : ℤ) → (name : String) → String
shadowsocks_uri encoding method password host port name =
    let userinfo = encoding.raw_url_encode (encoding.bytes (method <> ":" <> password)) in
    encoding.url_string "ss" userinfo (host <> ":" <> encoding.decimal port) name

-- An omitted field is the empty text or 0.
pub record TransportOption : Type 0 where
  pub transport : String
  pub url : String
  pub host : String
  pub port : ℤ
  pub method : String
  pub password : String

pub record CrossPlatformConfig : Type 0 where
  pub first_supported : List TransportOption
  pub udp : Option TransportOption

pub record ConfigParams : Type 0 where
  pub vpn_domain : String
  pub method : String
  pub password : String
  pub fallback_port : ℤ
  pub websocket_path : String
  pub websocket_udp_path : String
  pub supports_udp : Bool

abbrev pub wss_option : ConfigParams → (path suffix : String) → TransportOption
wss_option p path suffix = record {
  transport = "wss";
  url = "wss://" <> p.vpn_domain <> "/" <> path <> suffix;
  host = "";
  port = pos 0;
  method = p.method;
  password = p.password;
}

abbrev pub shadowsocks_option : ConfigParams → TransportOption
shadowsocks_option p = record {
  transport = "shadowsocks";
  url = "";
  host = p.vpn_domain;
  port = p.fallback_port;
  method = p.method;
  password = p.password;
}

-- `BuildCrossPlatformConfig`
unfoldable pub build_cross_platform_config : ConfigParams → CrossPlatformConfig
build_cross_platform_config p = record {
  first_supported = wss_option p p.websocket_path "/tcp" ∷ shadowsocks_option p ∷ [];
  udp =
      if p.supports_udp && not (str_eq p.websocket_udp_path "")
      then some (wss_option p p.websocket_udp_path "/udp")
      else none;
}
