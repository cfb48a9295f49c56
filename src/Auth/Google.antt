-- ===== src/Auth/Google.antt =====
-- internal/auth/google.go
pub mod Keys
pub mod Soundness
use Prim.Native.String.{◌++◌ as ◌++ˢ◌}
use vpn_backend.Base.{
  ℕ, ◌+◌, ◌*◌, ◌%◌, Bool, true, false, not, ◌||◌, Option, none, some, List, [], ◌∷◌, ◌++◌, String,
  str_eq, ltb, if◌then◌else◌,
}
use vpn_backend.Base.Int.{ℤ, pos, pos_part, ltb_ℤ, leb_ℤ, full_range, of_bits, ◌*64◌}
use vpn_backend.Errors.{Error, message, wrapped}
use vpn_backend.Action.{Result, ok, err, Action, pure, fail, lift, ◌>>=◌, ◌>>◌, on_error}
use vpn_backend.Models.{Time}
use vpn_backend.Platform.{Bytes}
use vpn_backend.Text.{lookup}

abbrev pub valid_issuer : String → Bool
valid_issuer iss = str_eq iss "accounts.google.com" || str_eq iss "https://accounts.google.com"

pub record GoogleIdentity : Type 0 where
  pub sub : String
  pub email : String
  pub name : String
  pub picture : String

-- `jwk`, as far as it is read.
pub record Jwk : Type 0 where
  pub kid : String
  pub kty : String
  pub n : String
  pub e : String

-- `rsa.PublicKey`
pub record PublicKey : Type 0 where
  pub modulus : ℕ
  pub exponent : ℤ

-- `jwt.MapClaims`: a claim that is absent or of another type reads as the empty text, or false.
pub record MapClaims : Type 0 where
  pub text : String → String
  pub flag : String → Bool

-- The response of the certificates' URL: what `io.ReadAll` makes of its body, and `Cache-Control`.
pub record Certs : Type 0 where
  pub body : Result String
  pub cache_control : String

-- `GoogleVerifier`. The world has the cached keys and the instant until which they count; times are
-- in nanoseconds. `parse` is `jwt.Parse` for RS256: it calls the key function with the token's
-- `kid` header, the empty text if there is none. `scan_max_age` is `Sscanf(_, "max-age=%d", _)`.
pub record GoogleVerifier (W : Type 0) : Type 0 where
  pub client_id : String
  pub keys : W → List (String × PublicKey)
  pub expires_at : W → Time
  pub store : List (String × PublicKey) → Time → W → W
  pub now : W → Time
  pub fetch : Action W Certs
  pub parse_set : String → Result (List Jwk)
  pub raw_url_decode : String → Result Bytes
  pub scan_max_age : String → Result ℤ
  pub parse : (String → Action W PublicKey) → String → Action W MapClaims

-- `big.Int.SetBytes`: the first byte is the most significant.
unfoldable pub big_endian : ℕ → Bytes → ℕ
big_endian n [] = n
big_endian n (b ∷ bs) = big_endian (n * 256 + b) bs

module _ {W : Type 0} (v : GoogleVerifier W) where
  -- `jwkToRSAPublicKey`; `Int64` keeps the low 64 bits.
  unfoldable pub jwk_to_rsa : Jwk → Result PublicKey
  unfolding big_endian
  jwk_to_rsa k = elim (v.raw_url_decode k.n) [
    | err e ↦ err e
    | ok n ↦ elim (v.raw_url_decode k.e) [
      | err e ↦ err e
      | ok e ↦
          ok (record { modulus = big_endian 0 n; exponent = of_bits (big_endian 0 e % full_range) })
    ]
  ]

  -- A turn of the loop of `refreshKeys`: a later key of one `kid` takes the place of an earlier one.
  unfoldable pub add_key : Jwk → List (String × PublicKey) → List (String × PublicKey)
  unfolding jwk_to_rsa
  add_key k keys =
      if str_eq k.kty "RSA"
      then elim (jwk_to_rsa k) [ ok key ↦ (k.kid, key) ∷ keys | err e ↦ keys ]
      else keys

  unfoldable pub collect_keys : List Jwk → List (String × PublicKey) → List (String × PublicKey)
  collect_keys [] keys = keys
  collect_keys (k ∷ ks) keys = collect_keys ks (add_key k keys)

  unfoldable pub parse_max_age : String → ℤ
  parse_max_age cache_control = elim (v.scan_max_age cache_control) [
    | err e ↦ pos 0
    | ok age ↦ if leb_ℤ age (pos 0) then pos 0 else age *64 pos 1000000000
  ]

  -- An hour, unless the response names a longer or shorter time.
  unfoldable pub cache_duration : String → ℤ
  unfolding parse_max_age
  cache_duration cache_control =
      if str_eq cache_control ""
      then pos 3600000000000
      else if ltb_ℤ (pos 0) (parse_max_age cache_control)
      then parse_max_age cache_control
      else pos 3600000000000

  unfoldable pub refresh_keys : Action W (Unit {0})
  refresh_keys = do
    certs ← on_error (wrapped "fetch google certs") v.fetch
    body ← on_error (wrapped "read google certs") (lift certs.body)
    set ← on_error (wrapped "parse google certs") (lift (v.parse_set body))
    λ w. (
      ok tt,
      v.store (collect_keys set []) (v.now w + pos_part (cache_duration certs.cache_control)) w,
    )

  unfoldable pub cached_key : String → W → Option PublicKey
  cached_key kid w = if ltb (v.expires_at w) (v.now w) then none else lookup kid (v.keys w)

  abbrev pub key_or_unknown : String → Option PublicKey → Result PublicKey
  key_or_unknown kid none = err (message ("unknown signing key: " ++ˢ kid))
  key_or_unknown kid (some key) = ok key

  unfoldable pub key_func : String → Action W PublicKey
  key_func kid w =
      if str_eq kid ""
      then (err (message "token missing kid header"), w)
      else elim (cached_key kid w) [
        | some key ↦ (ok key, w)
        | none ↦ (refresh_keys >>= λ _ w'. (key_or_unknown kid (cached_key kid w'), w')) w
      ]

  -- The checks of `Verify` after the signature's.
  unfoldable pub identity_of : MapClaims → Result GoogleIdentity
  identity_of claims =
      if not (valid_issuer (claims.text "iss"))
      then err (message ("unexpected issuer: " ++ˢ claims.text "iss"))
      else if not (str_eq (claims.text "aud") v.client_id)
      then err (message "token audience does not match configured client id")
      else if str_eq (claims.text "sub") ""
      then err (message "token missing sub claim")
      else if not (claims.flag "email_verified")
      then err (message "google email is not verified")
      else ok (record {
        sub = claims.text "sub";
        email = claims.text "email";
        name = claims.text "name";
        picture = claims.text "picture";
      })

  -- `Verify`: what `Parse` accepts is valid, and its claims are a map.
  unfoldable pub verify : String → Action W GoogleIdentity
  verify id_token =
      if str_eq v.client_id "" then fail (message "google client id not configured") else do
        claims ← on_error (wrapped "invalid google id token") (v.parse key_func id_token)
        lift (identity_of claims)
