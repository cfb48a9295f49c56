-- ===== src/Platform.antt =====
-- What the program takes from Go's standard library beside gorm, as parameters: random bytes,
-- base64, AES-GCM, decimal numerals and URLs, each with its documented laws.
use vpn_backend.Base.{ℕ, List, String, length, ◌≡◌}
use vpn_backend.Base.Int.{ℤ}
use vpn_backend.Action.{Result, ok, Action}
use vpn_backend.Database.View.{View}

abbrev pub Bytes : Type 0
Bytes = List ℕ

-- `crypto/rand`
pub record Random (W : Type 0) : Type 0 where
  pub read : ℕ → Action W Bytes

pub record LawfulRandom {W : Type 0} (view : W → View) (r : Random W) : Type 0 where
  pub read_ok : (n : ℕ) (w : W) (b : Bytes) → (r.read n w).0 ≡ ok b → length b ≡ n
  pub read_view : (n : ℕ) (w : W) → view (r.read n w).1 ≡ view w

-- `[]byte(s)` and `string(b)`, `encoding/base64`, `%d` of `fmt`, and `net/url`
pub record Encoding : Type 0 where
  pub bytes : String → Bytes
  pub text : Bytes → String
  pub std_encode : Bytes → String
  pub std_decode : String → Result Bytes
  pub raw_url_encode : Bytes → String
  pub decimal : ℤ → String
  -- `(&url.URL{Scheme: s, User: url.User(u), Host: h, Fragment: f}).String()`
  pub url_string : (s u h f : String) → String

pub record LawfulEncoding (e : Encoding) : Type 0 where
  pub text-bytes : (s : String) → e.text (e.bytes s) ≡ s
  pub std_decode-encode : (b : Bytes) → e.std_decode (e.std_encode b) ≡ ok b

-- `cipher.AEAD` with no additional data; `seal` is what `Seal` appends to its first argument
pub record Aead : Type 0 where
  pub nonce_size : ℕ
  pub seal : (nonce plaintext : Bytes) → Bytes
  pub unseal : (nonce ciphertext : Bytes) → Result Bytes

pub record LawfulAead (a : Aead) : Type 0 where
  pub unseal-seal :
      (nonce plaintext : Bytes)
      → length nonce ≡ a.nonce_size
      → a.unseal nonce (a.seal nonce plaintext) ≡ ok plaintext
