-- ===== src/Services/AccessKeys/Rotation.antt =====
-- `Rotate`: a new credential for the same row.
use vpn_backend.Base.{
  false, Option, some, none, String, str_eq, eq_iff, ◌≡◌, refl, sym, ap, ◌∙◌, subst, ◌⊎◌, inl, inr,
  ==_iff, Bool-cases,
}
use vpn_backend.Errors.{wrapped, message}
use vpn_backend.Action.{
  Result, ok, err, Action, pure, fail, ◌>>=◌, ◌>>◌, on_error, on_error_world, bind_rule,
  on_error-eq-ok, on_error-eq-err, IfOk,
}
use vpn_backend.Models.{Uuid, AccessKey, AccessKeyStatus, VpnServer}
use vpn_backend.Database.View.{View, put, drop_live}
use vpn_backend.Database.Laws.{set_access_keys}
use vpn_backend.Database.Backing.{IsBacked, drop-IsBacked, write-IsBacked}
use vpn_backend.Provider.{ProvisionedKey}
use vpn_backend.Crypto.{encrypt, decrypt}
use vpn_backend.Crypto.RoundTrip.{decrypt-encrypt}
use vpn_backend.Repositories.AccessKeys as Keys
use vpn_backend.Repositories.AccessKeys.{LoadedKey}
use vpn_backend.Services.Retire.{dropped, drop_live_self}
use vpn_backend.Services.AccessKeys.{
  AccessKeyService, renewed_key, key_spec, rotate, rotate_loaded, get, add_paths,
}
use vpn_backend.Services.AccessKeys.Lookup.{Lawful, get-IsRead, get-stored}
use vpn_backend.Services.AccessKeys.Creation.{served}
use vpn_backend.Services.AccessKeys.Paths.{
  SameButPaths, encrypt-IsRead, add_paths-IsRead, add_paths-same,
}

-- The data plane serves `r` in place of the credential of `k`.
abbrev pub replaced : AccessKey → String → View → View
replaced k r v = served r (dropped k.secret_reference v)

-- What a `Rotate` that returned has done.
pub record Rotated (id : Uuid) (decrypted : String → Result String) (v : View) (loaded : LoadedKey)
    (v' : View) : Type 0 where
  pub old : AccessKey
  pub stored : v.access_keys id ≡ some old
  pub provisioned : ProvisionedKey
  pub unserved : drop_live old.secret_reference v.live provisioned.provider_key_id ≡ false
  pub encrypted_secret : String
  pub readable : decrypted encrypted_secret ≡ ok provisioned.password
  pub key : SameButPaths (renewed_key old provisioned encrypted_secret) loaded.key
  pub result :
      v'
      ≡ set_access_keys
          (put id loaded.key v.access_keys)
          (replaced old provisioned.provider_key_id v)

abbrev pub Rotation : Uuid → (String → Result String) → View → Result LoadedKey → View → Type 0
Rotation id decrypted v (ok loaded) v' = Rotated id decrypted v loaded v'
Rotation id decrypted v (err e) v' =
    (v' ≡ v)
    ⊎ ((k : AccessKey) × (v.access_keys id ≡ some k)
        × ((v' ≡ dropped k.secret_reference v) ⊎ ((r : String) × (v' ≡ replaced k r v))))

serve-IsBacked :
    (v : View) (i : Uuid) (k : AccessKey)
    → v.access_keys i ≡ some k
    → k.status ≡ AccessKeyStatus.active
    → IsBacked v
    → IsBacked (served k.secret_reference v)
serve-IsBacked v i k stored active h r live = elim (Bool-cases (str_eq k.secret_reference r)) [
  | inl same ↦ record {
    id = i;
    key = k;
    stored = stored;
    active = active;
    refers = (eq_iff k.secret_reference r).0 same;
  }
  | inr other ↦ h r (rw other at live)
]

module _ {W : Type 0} (view : W → View) (s : AccessKeyService W) (lawful : Lawful view s) where
  abbrev Outcome : Uuid → View → Result LoadedKey × W → Type 0
  Outcome id v r = Rotation id (decrypt s.secret_box) v r.0 (view r.1)

  module _ (id : Uuid) (v : View) (loaded : LoadedKey) (stored : v.access_keys id ≡ some loaded.key)
      (at : loaded.key.id ≡ id) (p : ProvisionedKey)
      (free : drop_live loaded.key.secret_reference v.live p.provider_key_id ≡ false) where
    -- The write of the row.
    persist :
        (secret : String) (key : AccessKey) (w : W)
        → decrypt s.secret_box secret ≡ ok p.password
        → SameButPaths (renewed_key loaded.key p secret) key
        → view w ≡ replaced loaded.key p.provider_key_id v
        → Outcome id v ((Keys.update s.db key >> pure (record loaded { key = key })) w)
    unfolding Keys.update
    persist secret key w readable paths same =
        bind_rule (Outcome id v) (s.db.access_keys.save key) _ w
          (λ _ saved.
            let at' : key.id ≡ id = ap (λ (k : AccessKey). k.id) paths ∙ at in
            record {
              old = loaded.key;
              stored = stored;
              provisioned = p;
              unserved = free;
              encrypted_secret = secret;
              readable = readable;
              key = paths;
              result =
                  lawful.db.access_keys.save_ok key w saved
                  ∙ ap (λ (x : View). set_access_keys (put key.id key x.access_keys) x) same
                  ∙ ap
                      (λ i.
                        set_access_keys (put i key v.access_keys)
                          (replaced loaded.key p.provider_key_id v))
                      at';
            })
          (λ e failed. inr (
            loaded.key,
            stored,
            inr (p.provider_key_id, lawful.db.access_keys.save_err key w e failed ∙ same),
          ))

    -- The steps that follow the call of the data plane.
    finish :
        (w : W)
        → view w ≡ replaced loaded.key p.provider_key_id v
        → Outcome id v (
            (encrypt s.secret_box p.password >>= (λ secret.
                add_paths s (renewed_key loaded.key p secret)
                >>= (λ key. Keys.update s.db key >> pure (record loaded { key = key }))))
              w)
    finish w same =
        bind_rule (Outcome id v) _ _ w
          (λ secret sealed.
            let same₁ = encrypt-IsRead view s lawful p.password w ∙ same in
            let readable =
              decrypt-encrypt s.secret_box lawful.aead lawful.box_encoding view lawful.box_random
                p.password w secret sealed in
            let renewed = renewed_key loaded.key p secret in
            let same₂ = add_paths-IsRead view s lawful renewed _ ∙ same₁ in
            bind_rule (Outcome id v) _ _ _
              (λ key made.
                persist secret key _ readable
                  (subst (λ r. IfOk r (SameButPaths renewed)) made
                    (add_paths-same view s lawful renewed _))
                  same₂)
              (λ e _. inr (loaded.key, stored, inr (p.provider_key_id, same₂))))
          (λ e _. inr (
            loaded.key,
            stored,
            inr (p.provider_key_id, encrypt-IsRead view s lawful p.password w ∙ same),
          ))

  module _ (id : Uuid) (v : View) (loaded : LoadedKey) (stored : v.access_keys id ≡ some loaded.key)
      (at : loaded.key.id ≡ id) where
    with_server :
        (server : VpnServer) (w : W) → view w ≡ v → Outcome id v (rotate_loaded s loaded server w)
    unfolding rotate_loaded
    with_server server w same =
        let key = loaded.key in
        let spec = key_spec key.name key.traffic_limit_bytes server.tls_port in
        let call = s.provider.rotate_access_key key.secret_reference spec in
        let wrap = wrapped "rotate on data plane" in
        let called = on_error_world wrap call w in
        bind_rule (Outcome id v) (on_error wrap call) _ w
          (λ p made.
            let (free, e) =
              lawful.provider.rotate_ok key.secret_reference spec w p
                (on_error-eq-ok wrap call w p made) in
            finish id v loaded stored at p
              (sym (ap (λ (x : View). drop_live key.secret_reference x.live p.provider_key_id) same)
                ∙ free)
              _ (ap view called ∙ e ∙ ap (replaced key p.provider_key_id) same))
          (λ e failed.
            let (e', failed') = on_error-eq-err wrap call w e failed in
            elim (lawful.provider.rotate_err key.secret_reference spec w e' failed') [
              | inl kept ↦ inl (ap view called ∙ kept ∙ same)
              | inr (inl gone) ↦ inr (
                key,
                stored,
                inl (ap view called ∙ gone ∙ ap (dropped key.secret_reference) same),
              )
              | inr (inr (r, swapped)) ↦
                  inr (key, stored, inr (r, ap view called ∙ swapped ∙ ap (replaced key r) same))
            ])

    by_server :
        (server : Option VpnServer) (w : W)
        → view w ≡ v
        → Outcome id v (
            (elim server as (λ _. Action W LoadedKey) [
              | none ↦ fail (message "nil pointer dereference")
              | some server ↦ rotate_loaded s loaded server
            ])
              w)
    by_server none w same = inl same
    by_server (some server) w same = with_server server w same

  -- `Rotate`, on every branch. If it returns, the data plane serves a new key in place of that of
  -- the row, and the row refers to it, is ACTIVE, has a secret that decrypts to the password of the
  -- new key, and keeps all columns but the reference, the secret, the port, the cipher, the status
  -- and the paths; nothing else has changed. If it fails, no table has changed, and the data plane
  -- serves what it did, or has dropped the key, or has replaced it.
  pub rotate_outcome :
      (id : Uuid) (w : W)
      → Rotation id (decrypt s.secret_box) (view w) (rotate s id w).0 (view (rotate s id w).1)
  unfolding rotate
  rotate_outcome id w =
      bind_rule (Outcome id (view w)) (get s id) _ w
        (λ loaded found.
          let stored = get-stored view s lawful id w loaded found in
          by_server id (view w) loaded stored (lawful.db.access_keys.keyed w id loaded.key stored)
            loaded.server _ (get-IsRead view s lawful id w))
        (λ e _. inl (get-IsRead view s lawful id w))

  Rotated-IsBacked :
      (id : Uuid) (v : View) (loaded : LoadedKey) (v' : View)
      → Rotated id (decrypt s.secret_box) v loaded v'
      → IsBacked v
      → IsBacked v'
  Rotated-IsBacked id v loaded v' c backed =
      let k = loaded.key in
      let gone = dropped c.old.secret_reference v in
      let written =
        write-IsBacked gone id c.old k c.stored (drop_live_self c.old.secret_reference v.live)
          (drop-IsBacked v c.old.secret_reference backed) in
      let row : put id k v.access_keys id ≡ some k = rw ((==_iff id id).1 refl) refl in
      let active = ap (λ (x : AccessKey). x.status) c.key in
      let reference = ap (λ (x : AccessKey). x.secret_reference) c.key in
      subst IsBacked
        (ap (λ r. served r (set_access_keys (put id k v.access_keys) gone)) reference
          ∙ sym c.result)
        (serve-IsBacked (set_access_keys (put id k v.access_keys) gone) id k row active written)

  -- If each credential that is served is backed by an ACTIVE row, so it is after a `Rotate` that
  -- returns.
  pub rotate-IsBacked :
      (id : Uuid) (w : W) (loaded : LoadedKey)
      → (rotate s id w).0 ≡ ok loaded
      → IsBacked (view w)
      → IsBacked (view (rotate s id w).1)
  rotate-IsBacked id w loaded h = Rotated-IsBacked id (view w) loaded _ (
      subst (λ r. Rotation id (decrypt s.secret_box) (view w) r (view (rotate s id w).1)) h
        (rotate_outcome id w))
