-- ===== src/Services/AccessKeys/Creation.antt =====
-- `Create`: what it leaves on the data plane and in the table, by how far it comes.
use vpn_backend.Base.{
  Bool, false, some, none, String, str_eq, eq_iff, ◌≡◌, refl, sym, ap, ◌∙◌, subst, ◌⊎◌, inl, inr,
  fun_ext, ◌==◌, ==_iff, Bool-cases, if◌then◌else◌,
}
use vpn_backend.Errors.{Error, wrapped}
use vpn_backend.Action.{
  Result, ok, err, pure, ◌>>=◌, on_error, on_error_run, on_error_world, bind_rule,
  on_error_run_rule, on_error-eq-ok, on_error-eq-err, IfOk,
}
use vpn_backend.Models.{Uuid, nil_uuid, AccessKey, VpnServer}
use vpn_backend.Models.Hooks.{access_key_before_create}
use vpn_backend.Database.{Gorm}
use vpn_backend.Database.View.{View, put, add_live}
use vpn_backend.Database.Laws.{LawfulGorm, set_access_keys}
use vpn_backend.Database.Backing.{IsBacked, add-IsBacked}
use vpn_backend.Database.Reads.{on_error-IsRead}
use vpn_backend.Provider.{ProvisionedKey}
use vpn_backend.Provider.Laws.{set_live}
use vpn_backend.Crypto.{encrypt, decrypt}
use vpn_backend.Crypto.RoundTrip.{decrypt-encrypt}
use vpn_backend.Repositories.AccessKeys as Keys
use vpn_backend.Repositories.AccessKeys.{LoadedKey}
use vpn_backend.Repositories.Servers as Servers
use vpn_backend.Services.{or_not_found}
use vpn_backend.Services.Retire.{dropped}
use vpn_backend.Services.AccessKeys.{
  AccessKeyService, CreateAccessKeyInput, new_key, key_spec, create, add_paths,
}
use vpn_backend.Services.AccessKeys.Lookup.{Lawful}
use vpn_backend.Services.AccessKeys.Paths.{
  SameButPaths, encrypt-IsRead, add_paths-IsRead, add_paths-same,
}

-- The view with one more key served.
abbrev pub served : String → View → View
served r v = set_live (add_live r v.live) v

dropped-served : (r : String) (v : View) → v.live r ≡ false → dropped r (served r v) ≡ v
dropped-served r v free =
    ap (λ (live : String → Bool). set_live live v)
      (fun_ext (λ x. elim (Bool-cases (str_eq r x)) [
        | inl same ↦ rw same (sym (ap v.live (sym ((eq_iff r x).0 same)) ∙ free))
        | inr other ↦ rw other refl
      ]))

-- What the insert of `key` answers: the row has an identifier that was free, or nothing happened.
abbrev pub Insertion : AccessKey → View → Result AccessKey → View → Type 0
Insertion key v (ok k) v' =
    (k ≡ record key { id = k.id })
    × (v.access_keys k.id ≡ none)
    × (v' ≡ set_access_keys (put k.id k v.access_keys) v)
Insertion key v (err e) v' = v' ≡ v

-- A key that the data plane serves and that no row was written for.
abbrev pub Orphan : View → View → Type 0
Orphan v v' = (r : String) × (v.live r ≡ false) × (v' ≡ served r v)

-- What a `Create` that returned has done.
pub record Created (server_id : Uuid) (input : CreateAccessKeyInput)
    (decrypted : String → Result String) (v : View) (loaded : LoadedKey) (v' : View) : Type 0 where
  pub server : VpnServer
  pub found : v.servers server_id ≡ some server
  pub attached : loaded.server ≡ some server
  pub provisioned : ProvisionedKey
  pub unserved : v.live provisioned.provider_key_id ≡ false
  pub encrypted_secret : String
  pub readable : decrypted encrypted_secret ≡ ok provisioned.password
  pub key : loaded.key ≡ record (new_key input provisioned encrypted_secret) {
    id = loaded.key.id;
    websocket_path = loaded.key.websocket_path;
    websocket_udp_path = loaded.key.websocket_udp_path;
  }
  pub unused : v.access_keys loaded.key.id ≡ none
  pub result :
      v'
      ≡ set_access_keys
          (put loaded.key.id loaded.key v.access_keys)
          (served provisioned.provider_key_id v)

abbrev pub Creation :
    CreateAccessKeyInput → (String → Result String) → View → Result LoadedKey → View → Type 0
Creation input decrypted v (ok loaded) v' = Created input.vpn_server_id input decrypted v loaded v'
Creation input decrypted v (err e) v' = (v' ≡ v) ⊎ Orphan v v'

module _ {W : Type 0} (view : W → View) (db : Gorm W) (lawful : LawfulGorm view db) where
  hook :
      (key : AccessKey) (w : W)
      → IfOk (access_key_before_create db.new_uuid key w).0 (λ k. k ≡ record key { id = k.id })
        × (view (access_key_before_create db.new_uuid key w).1 ≡ view w)
  unfolding access_key_before_create
  hook key w =
      bind_rule (λ r. IfOk r.0 (λ k. k ≡ record key { id = k.id }) × (view r.1 ≡ view w)) _ _ w
        (λ _ _. (refl, assigned)) (λ _ _. (tt, assigned))
    where
      assigned : view ((if key.id == nil_uuid then db.new_uuid else pure key.id) w).1 ≡ view w
      assigned = elim (Bool-cases (key.id == nil_uuid)) [
        | inl absent ↦ rw absent (lawful.new_uuid_view w)
        | inr given ↦ rw given refl
      ]

  insertion :
      (key : AccessKey) (w : W)
      → Insertion key (view w) (Keys.create db key w).0 (view (Keys.create db key w).1)
  unfolding Keys.create
  insertion key w =
      bind_rule (λ r. Insertion key (view w) r.0 (view r.1)) _ _ w
        (λ k made.
          let (same, kept) = hook key w in
          let same' = subst (λ r. IfOk r (λ k. k ≡ record key { id = k.id })) made same in
          bind_rule (λ r. Insertion key (view w) r.0 (view r.1)) (db.access_keys.create k) _ _
            (λ _ stored.
              let (free, e) = lawful.access_keys.create_ok k _ stored in
              (
                same',
                sym (ap (λ (v : View). v.access_keys k.id) kept) ∙ free,
                e ∙ ap (λ (v : View). set_access_keys (put k.id k v.access_keys) v) kept,
              ))
            (λ e failed. lawful.access_keys.create_err k _ e failed ∙ kept))
        (λ _ _. (hook key w).1)

abbrev loaded_key : VpnServer → AccessKey → LoadedKey
loaded_key server k = record { key = k; user = none; server = some server }

abbrev answer : VpnServer → Result AccessKey → Result LoadedKey
answer server (ok k) = ok (loaded_key server k)
answer server (err e) = err e

module _ {W : Type 0} (view : W → View) (s : AccessKeyService W) (lawful : Lawful view s) where
  abbrev Outcome : CreateAccessKeyInput → View → Result LoadedKey × W → Type 0
  Outcome input v r = Creation input (decrypt s.secret_box) v r.0 (view r.1)

  -- The cleanup of an insert that failed.
  cleaned :
      (input : CreateAccessKeyInput) (v : View) (r : String) (e : Error) (w : W)
      → v.live r ≡ false
      → view w ≡ served r v
      → Outcome input v (err e, (s.provider.revoke_access_key r w).1)
  cleaned input v r e w free same = go _ refl
    where
      go :
          (x : Result (Unit {0}))
          → (s.provider.revoke_access_key r w).0 ≡ x
          → Outcome input v (err e, (s.provider.revoke_access_key r w).1)
      go (ok _) h =
          inl (lawful.provider.revoke_ok r w h ∙ ap (dropped r) same ∙ dropped-served r v free)
      go (err _) h = elim (lawful.provider.revoke_err r w _ h) [
        | inl kept ↦ inr (r, free, kept ∙ same)
        | inr gone ↦ inl (gone ∙ ap (dropped r) same ∙ dropped-served r v free)
      ]

  module _ (input : CreateAccessKeyInput) (v : View) (server : VpnServer)
      (found : v.servers input.vpn_server_id ≡ some server) (p : ProvisionedKey)
      (free : v.live p.provider_key_id ≡ false) where
    module _ (secret : String) (readable : decrypt s.secret_box secret ≡ ok p.password)
        (key : AccessKey) (paths : SameButPaths (new_key input p secret) key) where
      created :
          (v₁ v' : View) (k : AccessKey)
          → v₁ ≡ served p.provider_key_id v
          → Insertion key v₁ (ok k) v'
          → Created input.vpn_server_id input (decrypt s.secret_box) v (loaded_key server k) v'
      created v₁ v' k same (assigned, unused, result) = record {
        server = server;
        found = found;
        attached = refl;
        provisioned = p;
        unserved = free;
        encrypted_secret = secret;
        readable = readable;
        key = cc (assigned, paths);
        unused = sym (ap (λ (x : View). x.access_keys k.id) same) ∙ unused;
        result = result ∙ ap (λ (x : View). set_access_keys (put k.id k x.access_keys) x) same;
      }

      persisted :
          (w : W)
          → view w ≡ served p.provider_key_id v
          → let m =
              on_error_run
                (s.provider.revoke_access_key p.provider_key_id)
                (Keys.create s.db key) in
            Creation input (decrypt s.secret_box) v (answer server (m w).0) (view (m w).1)
      persisted w same =
          let row = insertion view s.db lawful.db key w in
          on_error_run_rule
            (λ r. Creation input (decrypt s.secret_box) v (answer server r.0) (view r.1)) _ _ w
            (λ k stored.
              created (view w) _ k same (
                subst (λ r. Insertion key (view w) r (view (Keys.create s.db key w).1)) stored row))
            (λ e failed.
              let kept =
                subst (λ r. Insertion key (view w) r (view (Keys.create s.db key w).1)) failed
                  row in
              cleaned input v p.provider_key_id e _ free (kept ∙ same))

      -- The last step of `Create`.
      persist :
          (w : W)
          → view w ≡ served p.provider_key_id v
          → Outcome input v (
              (on_error_run (s.provider.revoke_access_key p.provider_key_id) (Keys.create s.db key)
                  >>= (λ k. pure (loaded_key server k)))
                w)
      persist w same =
          let m =
            on_error_run (s.provider.revoke_access_key p.provider_key_id) (Keys.create s.db key) in
          let P = λ (r : Result AccessKey).
            Creation input (decrypt s.secret_box) v (answer server r) (view (m w).1) in
          bind_rule (Outcome input v) m _ w (λ k h. subst P h (persisted w same))
            (λ e h. subst P h (persisted w same))

    -- The steps that follow the call of the data plane.
    finish :
        (w : W)
        → view w ≡ served p.provider_key_id v
        → Outcome input v (
            (encrypt s.secret_box p.password >>= (λ secret.
                add_paths s (new_key input p secret) >>= (λ key.
                  on_error_run
                    (s.provider.revoke_access_key p.provider_key_id)
                    (Keys.create s.db key)
                  >>= (λ k. pure (loaded_key server k)))))
              w)
    finish w same =
        bind_rule (Outcome input v) _ _ w
          (λ secret sealed.
            let same₁ = encrypt-IsRead view s lawful p.password w ∙ same in
            let readable =
              decrypt-encrypt s.secret_box lawful.aead lawful.box_encoding view lawful.box_random
                p.password w secret sealed in
            bind_rule (Outcome input v) _ _ _
              (λ key made.
                let same₂ = add_paths-IsRead view s lawful (new_key input p secret) _ ∙ same₁ in
                let paths =
                  subst (λ r. IfOk r (SameButPaths (new_key input p secret))) made
                    (add_paths-same view s lawful (new_key input p secret) _) in
                persist secret readable key paths _ same₂)
              (λ e _. inr (
                p.provider_key_id,
                free,
                add_paths-IsRead view s lawful (new_key input p secret) _ ∙ same₁,
              )))
          (λ e _. inr (p.provider_key_id, free, encrypt-IsRead view s lawful p.password w ∙ same))

  -- `Create`, on every branch. If it returns, the server is known, the data plane serves a key that
  -- it did not serve before, and one row has been written, at an identifier that was free: the row
  -- is ACTIVE, refers to that key, has the columns of the input, and its secret decrypts to the
  -- key's password. If it fails, nothing has changed, or the data plane serves one more key and no
  -- table has changed.
  pub create_outcome :
      (input : CreateAccessKeyInput) (w : W)
      → Creation input
          (decrypt s.secret_box)
          (view w)
          (create s input w).0
          (view (create s input w).1)
  unfolding create Servers.find_by_id
  create_outcome input w =
      bind_rule (Outcome input (view w)) _ _ w
        (λ server found.
          let same = find_server input.vpn_server_id w in
          let (stored, at) =
            lawful.db.servers.first_ok _ w server (on_error-eq-ok _ _ w server found) in
          let stored' =
            sym (ap (view w).servers ((==_iff server.id input.vpn_server_id).0 at)) ∙ stored in
          let spec = key_spec input.name input.traffic_limit_bytes server.tls_port in
          let call = s.provider.create_access_key spec in
          let wrap = wrapped "provision access key" in
          bind_rule (Outcome input (view w)) (on_error wrap call) _ _
            (λ p made.
              let (free, e) =
                lawful.provider.create_ok spec _ p (on_error-eq-ok wrap call _ p made) in
              finish input (view w) server stored' p
                (sym (ap (λ (v : View). v.live p.provider_key_id) same) ∙ free) _
                (ap view (on_error_world wrap call _) ∙ e ∙ ap (served p.provider_key_id) same))
            (λ e failed.
              let (e', failed') = on_error-eq-err wrap call _ e failed in
              let called = ap view (on_error_world wrap call _) in
              elim (lawful.provider.create_err spec _ e' failed') [
                | inl kept ↦ inl (called ∙ kept ∙ same)
                | inr (r, free, more) ↦ inr (
                  r,
                  sym (ap (λ (v : View). v.live r) same) ∙ free,
                  called ∙ more ∙ ap (served r) same,
                )
              ]))
        (λ e _. inl (find_server input.vpn_server_id w))
    where
      find_server :
          (id : Uuid) (w : W)
          → view (on_error (or_not_found "server") (Servers.find_by_id s.db id) w).1 ≡ view w
      find_server id =
          on_error-IsRead view (or_not_found "server") _ (lawful.db.servers.first_view _)

  -- If each credential that is served is backed by an ACTIVE row, so it is after a `Create` that
  -- returns.
  pub create-IsBacked :
      (input : CreateAccessKeyInput) (w : W) (loaded : LoadedKey)
      → (create s input w).0 ≡ ok loaded
      → IsBacked (view w)
      → IsBacked (view (create s input w).1)
  create-IsBacked input w loaded h backed =
      let c =
        subst (λ r. Creation input (decrypt s.secret_box) (view w) r (view (create s input w).1)) h
          (create_outcome input w) in
      backed_by _ c
    where
      backed_by :
          (v' : View)
          → Created input.vpn_server_id input (decrypt s.secret_box) (view w) loaded v'
          → IsBacked v'
      backed_by v' c =
          let k = loaded.key in
          let reference = ap (λ (x : AccessKey). x.secret_reference) c.key in
          let written =
            add-IsBacked (view w) k.id k c.unused (ap (λ (x : AccessKey). x.status) c.key) backed in
          subst IsBacked
            (ap (λ r. set_access_keys (put k.id k (view w).access_keys) (served r (view w)))
                reference
              ∙ sym c.result)
            written
