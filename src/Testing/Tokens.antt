-- ===== src/Testing/Tokens.antt =====
-- Google tokens that one key signs, and the limiters of two clients.
use vpn_backend.Base.{
  ℕ, ◌+◌, ◌-◌, true, false, List, [], ◌∷◌, String, str_eq, ◌==◌, ◌≡◌, refl, sym, if◌then◌else◌,
  if_eq_rule,
}
use vpn_backend.Base.Int.{pos, ◌*64◌}
use vpn_backend.Errors.{message}
use vpn_backend.Action.{Result, ok, err, ◌>>=◌, on_error}
use vpn_backend.Models.{Time}
use vpn_backend.Auth.Google.{
  GoogleIdentity, PublicKey, MapClaims, GoogleVerifier, jwk_to_rsa, big_endian, add_key,
  collect_keys, parse_max_age, cache_duration, refresh_keys, cached_key, key_func, identity_of,
  verify,
}
use vpn_backend.Auth.Google.Keys.{LawfulCache}
use vpn_backend.Auth.Google.Soundness.{LawfulParse, IsVerified, verify_ok}
use vpn_backend.Middleware.{RateLimiter}
use vpn_backend.Middleware.Limits.{LawfulLimiter, answers_among, answers_alone, answers-among}

pub record Cache : Type 0 where
  pub keys : List (String × PublicKey)
  pub expires_at : Time
  pub clock : Time

abbrev dora : MapClaims
dora = record {
  text = λ name.
      if str_eq name "iss"
      then "https://accounts.google.com"
      else (if str_eq name "aud" then "client" else "sub-4");
  flag = λ name. str_eq name "email_verified";
}

-- The key's modulus is 77, and the token's claims are dora's.
abbrev Signed : PublicKey → String → MapClaims → Type 0
Signed key token claims = ((key.modulus == 77) ≡ true) × (claims ≡ dora)

abbrev checked : Result PublicKey → Result MapClaims
checked (ok key) = if key.modulus == 77 then ok dora else err (message "signature is invalid")
checked (err e) = err e

abbrev verifier : GoogleVerifier Cache
verifier = record {
  client_id = "client";
  keys = λ c. c.keys;
  expires_at = λ c. c.expires_at;
  store = λ keys t c. record c { keys = keys; expires_at = t };
  now = λ c. c.clock;
  fetch = λ c. (ok (record { body = ok "{}"; cache_control = "max-age=60" }), c);
  parse_set = λ text. ok (record { kid = "k1"; kty = "RSA"; n = "TQ"; e = "AQAB" } ∷ []);
  raw_url_decode = λ text. ok (if str_eq text "TQ" then 77 ∷ [] else 1 ∷ 0 ∷ 1 ∷ []);
  scan_max_age = λ text. ok (pos 60);
  parse = λ f token c. (checked (f "k1" c).0, (f "k1" c).1);
}

verifier-LawfulCache : LawfulCache verifier
verifier-LawfulCache = record { keys_store = λ keys t c. refl }

parse_ok :
    (r : Result PublicKey) (claims : MapClaims)
    → checked r ≡ ok claims
    → (key : PublicKey) × (r ≡ ok key) × ((key.modulus == 77) ≡ true) × (claims ≡ dora)
parse_ok (ok key) claims =
    if_eq_rule
      (λ (x : Result MapClaims).
        x ≡ ok claims
        → (k : PublicKey) × (ok key ≡ ok k) × ((k.modulus == 77) ≡ true) × (claims ≡ dora))
      (key.modulus == 77) (λ valid h. (key, refl, valid, sym (cc h))) (λ _ h. absurd (cc h))
parse_ok (err e) claims = λ h. absurd (cc h)

verifier-LawfulParse : LawfulParse Signed verifier
verifier-LawfulParse = record {
  parse_ok = λ f token c claims h.
      let (key, answered, valid, same) = parse_ok (f "k1" c).0 claims h in
      ("k1", key, answered, (valid, same), refl);
}

abbrev started : Cache
started = record { keys = []; expires_at = 0; clock = 100 }

abbrev identity : GoogleIdentity
identity = record { sub = "sub-4"; email = "sub-4"; name = "sub-4"; picture = "sub-4" }

verified : (verify verifier "token" started).0 ≡ ok identity
unfolding verify identity_of key_func cached_key refresh_keys cache_duration parse_max_age
    collect_keys add_key jwk_to_rsa big_endian on_error ◌>>=◌ ◌*64◌
verified = refl

verify_ok_example :
    IsVerified Signed verifier "token" identity started (verify verifier "token" started).1
verify_ok_example =
    verify_ok Signed verifier verifier-LawfulCache verifier-LawfulParse "token" identity started
      verified

pub record Clients : Type 0 where
  pub limiters : List (String × ℕ)
  pub clock : Time

-- Two requests of each client.
abbrev limiter : RateLimiter Clients ℕ
limiter = record {
  limiters = λ w. w.limiters;
  set_limiters = λ ls w. record w { limiters = ls };
  new_limiter = 2;
  allow = λ now left. if left == 0 then (false, 0) else (true, left - 1);
  now = λ w. w.clock;
}

abbrev wait : ℕ → Clients → Clients
wait n w = record w { clock = w.clock + n }

limiter-LawfulLimiter : LawfulLimiter limiter wait
limiter-LawfulLimiter = record {
  stored = λ ls w. refl;
  clock = λ ls w. refl;
  kept = λ n w. refl;
  passed = λ n w. refl;
}

abbrev quiet : Clients
quiet = record { limiters = []; clock = 0 }

answers-among_example :
    answers_among limiter wait "a" ((1, "b") ∷ (1, "a") ∷ (0, "b") ∷ (2, "a") ∷ (1, "a") ∷ []) quiet
    ≡ answers_alone limiter wait "a"
        ((1, "b") ∷ (1, "a") ∷ (0, "b") ∷ (2, "a") ∷ (1, "a") ∷ [])
        quiet
answers-among_example =
    answers-among limiter wait "a" limiter-LawfulLimiter
      ((1, "b") ∷ (1, "a") ∷ (0, "b") ∷ (2, "a") ∷ (1, "a") ∷ []) quiet
