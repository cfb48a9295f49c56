-- ===== src/Crypto/RoundTrip.antt =====
-- `Encrypt` and `Decrypt` of crypto/secretbox.go, one after the other.
use vpn_backend.Base.{
  [], ◌∷◌, ◌++◌, String, length, length-append, take, drop, ltb, ◌≡◌, refl, ap, arith, false,
}
use vpn_backend.Errors.{wrapped}
use vpn_backend.Action.{ok, pure, on_error, bind-eq-ok, on_error-eq-ok}
use vpn_backend.Platform.{LawfulRandom, LawfulEncoding, LawfulAead, Bytes}
use vpn_backend.Crypto.{SecretBox, envelope, encrypt, decrypt, open_sealed}
use vpn_backend.Database.View.{View}

take-append : (a b : Bytes) → take (length a) (a ++ b) ≡ a
take-append [] b = refl
take-append (x ∷ a) b = ap (λ t. x ∷ t) (take-append a b)

drop-append : (a b : Bytes) → drop (length a) (a ++ b) ≡ b
drop-append [] b = refl
drop-append (x ∷ a) b = drop-append a b

module _ {W : Type 0} (b : SecretBox W) (aead : LawfulAead b.gcm)
    (encoding : LawfulEncoding b.encoding) where
  open_sealed-seal :
      (nonce : Bytes) (plaintext : String)
      → length nonce ≡ b.gcm.nonce_size
      → open_sealed b (nonce ++ b.gcm.seal nonce (b.encoding.bytes plaintext)) ≡ ok plaintext
  unfolding open_sealed
  open_sealed-seal nonce plaintext h =
      let sealed = b.gcm.seal nonce (b.encoding.bytes plaintext) in
      let opened = aead.unseal-seal nonce (b.encoding.bytes plaintext) h in
      let long : ltb (length (nonce ++ sealed)) (length nonce) ≡ false =
        ground (arith, length-append nonce sealed) in
      rw (← h, long, take-append nonce sealed, drop-append nonce sealed, opened)
        (ap ok (encoding.text-bytes plaintext))

  -- What `Encrypt` returns, `Decrypt` takes back to the plaintext, if the cipher and base64 can be
  -- undone and the random source returns as many bytes as it is asked for.
  pub decrypt-encrypt :
      (view : W → View) (random : LawfulRandom view b.random) (plaintext : String) (w : W)
      (c : String)
      → (encrypt b plaintext w).0 ≡ ok c
      → decrypt b c ≡ ok plaintext
  unfolding encrypt decrypt
  decrypt-encrypt view random plaintext w c h =
      let read = b.random.read b.gcm.nonce_size in
      let wrap = wrapped "generate nonce" in
      let (nonce, drawn, sealed, _) =
        bind-eq-ok (on_error wrap read) (λ nonce. pure (envelope b plaintext nonce)) w c h in
      let drawn' = on_error-eq-ok wrap read w nonce drawn in
      let full = random.read_ok b.gcm.nonce_size w nonce drawn' in
      let bytes = nonce ++ b.gcm.seal nonce (b.encoding.bytes plaintext) in
      ground (arith, encoding.std_decode-encode bytes, open_sealed-seal nonce plaintext full)
