-- ===== src/Crypto.antt =====
-- internal/crypto/secretbox.go: encryption at rest of the one secret that the backend keeps.
pub mod RoundTrip
use vpn_backend.Base.{ℕ, List, String, length, take, drop, ltb, not, ◌==◌, ◌++◌, if◌then◌else◌}
use vpn_backend.Errors.{message, wrapped}
use vpn_backend.Action.{Result, ok, err, Action, ◌>>=◌, pure, fail, lift, on_error}
use vpn_backend.Platform.{Bytes, Random, Encoding, Aead}

-- `SecretBox`; the package's own calls of the standard library come with it.
pub record SecretBox (W : Type 0) : Type 0 where
  pub gcm : Aead
  pub random : Random W
  pub encoding : Encoding

-- `NewSecretBox`, over `aes.NewCipher` and `cipher.NewGCM`.
unfoldable pub new_secret_box :
    {W Block : Type 0} (random : Random W) (encoding : Encoding) (new_cipher : Bytes → Result Block)
    (new_gcm : Block → Result Aead)
    → Bytes
    → Result (SecretBox W)
new_secret_box random encoding new_cipher new_gcm key =
    if not (length key == 32)
    then err (message "secret encryption key must be 32 bytes")
    else elim (new_cipher key) [
      | err e ↦ err (wrapped "create cipher" e)
      | ok block ↦ elim (new_gcm block) [
        | err e ↦ err (wrapped "create gcm" e)
        | ok gcm ↦ ok (record { gcm = gcm; random = random; encoding = encoding })
      ]
    ]

module _ {W : Type 0} (b : SecretBox W) where
  -- `gcm.Seal(nonce, nonce, plaintext, nil)`, encoded.
  abbrev pub envelope : String → Bytes → String
  envelope plaintext nonce =
      b.encoding.std_encode (nonce ++ b.gcm.seal nonce (b.encoding.bytes plaintext))

  unfoldable pub encrypt : String → Action W String
  encrypt plaintext = do
    nonce ← on_error (wrapped "generate nonce") (b.random.read b.gcm.nonce_size)
    pure (envelope plaintext nonce)

  -- The tail of `Decrypt`, on the decoded bytes.
  unfoldable pub open_sealed : Bytes → Result String
  open_sealed sealed =
      if ltb (length sealed) b.gcm.nonce_size
      then err (message "ciphertext too short")
      else elim (b.gcm.unseal (take b.gcm.nonce_size sealed) (drop b.gcm.nonce_size sealed)) [
        | err e ↦ err (wrapped "decrypt" e)
        | ok plaintext ↦ ok (b.encoding.text plaintext)
      ]

  unfoldable pub decrypt : String → Result String
  unfolding open_sealed
  decrypt encoded = elim (b.encoding.std_decode encoded) [
    | err e ↦ err (wrapped "decode ciphertext" e)
    | ok sealed ↦ open_sealed sealed
  ]
