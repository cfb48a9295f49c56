-- ===== src/Auth/Google/Keys.antt =====
-- The keys that `keyFunc` answers with.
use mathlib.Core.List.{Memᴰ}
use vpn_backend.Base.{
  ◌≤◌, ltb, arith, Option, none, some, List, [], ◌∷◌, String, str_eq, eq_iff, ◌≡◌, refl, sym, ap,
  ◌∙◌, ◌⊎◌, inl, inr, Bool-cases, if_rule, if_eq_rule, if◌then◌else◌,
}
use vpn_backend.Errors.{wrapped}
use vpn_backend.Action.{Result, ok, err, ◌>>=◌, bind-eq-ok, on_error-eq-ok}
use vpn_backend.Models.{Time}
use vpn_backend.Text.{lookup}
use vpn_backend.Auth.Google.{
  Jwk, PublicKey, Certs, GoogleVerifier, jwk_to_rsa, add_key, collect_keys, refresh_keys,
  cached_key, key_or_unknown, key_func,
}

-- What is stored is read back.
pub record LawfulCache {W : Type 0} (v : GoogleVerifier W) : Type 0 where
  pub keys_store :
      (keys : List (String × PublicKey)) (t : Time) (w : W) → v.keys (v.store keys t w) ≡ keys

module _ {W : Type 0} (v : GoogleVerifier W) where
  -- The key is that of an RSA entry of the set, with this `kid`.
  pub record IsFrom (set : List Jwk) (kid : String) (key : PublicKey) : Type 0 where
    pub entry : Jwk
    pub listed : Memᴰ entry set
    pub named : entry.kid ≡ kid
    pub rsa : entry.kty ≡ "RSA"
    pub converted : jwk_to_rsa v entry ≡ ok key

  add_key_rule :
      (Q : List (String × PublicKey) → Type 0) (k : Jwk) (keys : List (String × PublicKey))
      → Q keys
      → ((key : PublicKey) → k.kty ≡ "RSA" → jwk_to_rsa v k ≡ ok key → Q ((k.kid, key) ∷ keys))
      → Q (add_key v k keys)
  unfolding add_key
  add_key_rule Q k keys old new =
      if_eq_rule Q (str_eq k.kty "RSA")
        (λ rsa. go ((eq_iff k.kty "RSA").0 rsa) (jwk_to_rsa v k) refl) (λ _. old)
    where
      go :
          k.kty ≡ "RSA"
          → (r : Result PublicKey) → jwk_to_rsa v k ≡ r
          → Q (elim r as (λ _. List (String × PublicKey)) [
            | ok key ↦ (k.kid, key) ∷ keys
            | err e ↦ keys
          ])
      go rsa (ok key) h = new key rsa h
      go rsa (err e) h = old

  -- Each key is from the set, or was there before.
  collected :
      (set all : List Jwk) (keys : List (String × PublicKey)) (kid : String) (key : PublicKey)
      → ((k : Jwk) → Memᴰ k set → Memᴰ k all)
      → ((key : PublicKey) → lookup kid keys ≡ some key → IsFrom all kid key)
      → lookup kid (collect_keys v set keys) ≡ some key
      → IsFrom all kid key
  unfolding collect_keys
  collected [] all keys kid key sub before h = before key h
  collected (k ∷ ks) all keys kid key sub before h =
      collected ks all (add_key v k keys) kid key (λ x m. sub x (Memᴰ.tail m))
        (add_key_rule
          (λ keys'. (key : PublicKey) → lookup kid keys' ≡ some key → IsFrom all kid key) k keys
          before (λ new rsa made. added new rsa made))
        h
    where
      added :
          (new : PublicKey)
          → k.kty ≡ "RSA"
          → jwk_to_rsa v k ≡ ok new
          → (key : PublicKey) → (if str_eq k.kid kid then some new else lookup kid keys) ≡ some key
          → IsFrom all kid key
      added new rsa made key found = elim (Bool-cases (str_eq k.kid kid)) [
        | inl same ↦ record {
          entry = k;
          listed = sub k (Memᴰ.head refl);
          named = (eq_iff k.kid kid).0 same;
          rsa = rsa;
          converted = made ∙ cc (rw same at found);
        }
        | inr other ↦ before key (rw other at found)
      ]

  -- The key comes from a set that was fetched now.
  pub record IsFetched (w : W) (kid : String) (key : PublicKey) : Type 0 where
    pub certs : Certs
    pub fetched : (v.fetch w).0 ≡ ok certs
    pub set : List Jwk
    pub body : String
    pub read : certs.body ≡ ok body
    pub parsed : v.parse_set body ≡ ok set
    pub from : IsFrom set kid key

  cached :
      (kid : String) (key : PublicKey) (w : W)
      → cached_key v kid w ≡ some key
      → lookup kid (v.keys w) ≡ some key
  unfolding cached_key
  cached kid key w h = elim (Bool-cases (ltb (v.expires_at w) (v.now w))) [
    | inl late ↦ absurd (cc (rw late at h))
    | inr early ↦ rw early at h
  ]

  refreshed :
      (lawful : LawfulCache v) (kid : String) (key : PublicKey) (w : W)
      → (refresh_keys v w).0 ≡ ok tt
      → cached_key v kid (refresh_keys v w).1 ≡ some key
      → IsFetched w kid key
  unfolding refresh_keys
  refreshed lawful kid key w h found =
      let (certs, got, h₁, e₁) = bind-eq-ok _ _ w tt h in
      let (body, read, h₂, e₂) = bind-eq-ok _ _ _ tt h₁ in
      let (set, parsed, h₃, e₃) = bind-eq-ok _ _ _ tt h₂ in
      let kept = cached kid key _ found in
      record {
        certs = certs;
        fetched = on_error-eq-ok (wrapped "fetch google certs") _ w certs got;
        set = set;
        body = body;
        read = on_error-eq-ok (wrapped "read google certs") _ _ body read;
        parsed = on_error-eq-ok (wrapped "parse google certs") _ _ set parsed;
        from =
            collected set set [] kid key (λ k m. m) (λ key none_is. absurd (cc none_is))
              (ap (lookup kid) (sym (ap v.keys (e₁ ∙ e₂ ∙ e₃) ∙ lawful.keys_store _ _ _)) ∙ kept);
      }

  in_time :
      (kid : String) (key : PublicKey) (w : W)
      → cached_key v kid w ≡ some key
      → v.now w ≤ v.expires_at w
  unfolding cached_key
  in_time kid key w h = ground arith

  known :
      (kid : String) (o : Option PublicKey) (key : PublicKey)
      → key_or_unknown v kid o ≡ ok key
      → o ≡ some key
  known kid none key h = absurd (cc h)
  known kid (some k) key h = cc h

  module _ (kid : String) (key : PublicKey) (w : W) where
    -- The key is cached and has not expired, in which case nothing has been fetched when the world is
    -- `w'`, or it is one that was fetched now.
    abbrev pub IsTrusted : W → Type 0
    IsTrusted w' =
        ((v.now w ≤ v.expires_at w) × (lookup kid (v.keys w) ≡ some key) × (w' ≡ w))
        ⊎ IsFetched w kid key

    pub key_func_ok : LawfulCache v → (key_func v kid w).0 ≡ ok key → IsTrusted (key_func v kid w).1
    unfolding key_func
    key_func_ok lawful =
        if_rule (λ (r : Result PublicKey × W). r.0 ≡ ok key → IsTrusted r.1) (str_eq kid "")
          (λ h. absurd (cc h)) (go (cached_key v kid w) refl)
      where
        go :
            (o : Option PublicKey)
            → cached_key v kid w ≡ o
            → let r : Result PublicKey × W = elim o [
              | some key ↦ (ok key, w)
              | none ↦
                  (refresh_keys v >>= λ _ w'. (key_or_unknown v kid (cached_key v kid w'), w')) w
            ] in
              r.0 ≡ ok key → IsTrusted r.1
        go (some k) found h =
            let e : k ≡ key = cc h in
            let found' = found ∙ ap some e in
            inl (in_time kid key w found', cached kid key w found', refl)
        go none missing h =
            let (_, done, answer, _) = bind-eq-ok (refresh_keys v) _ w key h in
            inr (refreshed lawful kid key w (done ∙ refl) (known kid _ key answer))
