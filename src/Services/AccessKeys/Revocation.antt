-- ===== src/Services/AccessKeys/Revocation.antt =====
-- `Revoke` and `Delete` of services/access_key_service.go: what each leaves, by its answer.
use vpn_backend.Base.{
  true, false, some, String, ◌≡◌, refl, sym, ap, ◌∙◌, subst, ◌⊎◌, inl, inr, Bool-cases,
  if◌then◌else◌,
}
use vpn_backend.Errors.{wrapped}
use vpn_backend.Action.{Result, ok, err, on_error, bind_rule}
use vpn_backend.Models.{Uuid, AccessKey, AccessKeyStatus, is_active_key}
use vpn_backend.Database.View.{View}
use vpn_backend.Database.View.{remove}
use vpn_backend.Database.Laws.{set_access_keys}
use vpn_backend.Database.Backing.{IsBacked, remove-IsBacked, remove_idle-IsBacked}
use vpn_backend.Repositories.AccessKeys as Keys
use vpn_backend.Repositories.AccessKeys.{LoadedKey}
use vpn_backend.Services.Retire.{
  Drops, revoke-Drops, on_error-Drops, retire_rule, dropped-IsBacked, retired-IsBacked, retired,
  dropped, drop_live_self,
}
use vpn_backend.Services.AccessKeys.{AccessKeyService, get, revoke, delete}
use vpn_backend.Services.AccessKeys.Lookup.{Lawful, get-IsRead, get-stored}

abbrev pub as_revoked : AccessKey → AccessKey
as_revoked k = record k { status = AccessKeyStatus.revoked }

-- What a `Revoke` of `id` may answer, beside the views before and after.
abbrev pub Revocation : Uuid → View → Result LoadedKey → View → Type 0
Revocation id v (ok loaded) v' =
    (k : AccessKey) × (v.access_keys id ≡ some k)
    × (loaded.key ≡ as_revoked k)
    × (v' ≡ retired k.secret_reference (as_revoked k) v)
Revocation id v (err e) v' =
    (v' ≡ v) ⊎ ((k : AccessKey) × (v.access_keys id ≡ some k) × (v' ≡ dropped k.secret_reference v))

Revocation-IsBacked :
    (id : Uuid) (v : View) (r : Result LoadedKey) (v' : View)
    → ((k : AccessKey) → v.access_keys id ≡ some k → k.id ≡ id)
    → Revocation id v r v'
    → IsBacked v
    → IsBacked v'
Revocation-IsBacked id v (ok loaded) v' keyed (k, stored, _, e) h =
    subst IsBacked (sym e)
      (retired-IsBacked k (as_revoked k) v (ap v.access_keys (keyed k stored) ∙ stored) h)
Revocation-IsBacked id v (err _) v' keyed (inl e) h = subst IsBacked (sym e) h
Revocation-IsBacked id v (err _) v' keyed (inr (k, _, e)) h =
    subst IsBacked (sym e) (dropped-IsBacked k.secret_reference v h)

-- What a `Delete` of `id` may answer: the data plane is called for an ACTIVE key only.
abbrev pub Deletion : Uuid → View → Result (Unit {0}) → View → Type 0
Deletion id v (ok _) v' =
    (k : AccessKey) × (v.access_keys id ≡ some k)
    × (v'
        ≡ set_access_keys (remove id v.access_keys)
            (if is_active_key k.status then dropped k.secret_reference v else v))
Deletion id v (err e) v' =
    (v' ≡ v)
    ⊎ ((k : AccessKey) × (v.access_keys id ≡ some k)
        × (is_active_key k.status ≡ true)
        × (v' ≡ dropped k.secret_reference v))

Deletion-IsBacked :
    (id : Uuid) (v : View) (r : Result (Unit {0})) (v' : View)
    → Deletion id v r v'
    → IsBacked v
    → IsBacked v'
Deletion-IsBacked id v (ok _) v' (k, stored, e) h =
    subst IsBacked (sym e) (elim (Bool-cases (is_active_key k.status)) [
      | inl active ↦ rw active (
          remove-IsBacked (dropped k.secret_reference v) id k stored
            (drop_live_self k.secret_reference v.live) (dropped-IsBacked k.secret_reference v h))
      | inr idle ↦ rw idle (remove_idle-IsBacked v id k stored idle h)
    ])
Deletion-IsBacked id v (err _) v' (inl e) h = subst IsBacked (sym e) h
Deletion-IsBacked id v (err _) v' (inr (k, _, _, e)) h =
    subst IsBacked (sym e) (dropped-IsBacked k.secret_reference v h)

module _ {W : Type 0} (view : W → View) (s : AccessKeyService W) (lawful : Lawful view s) where
  pub revoke_key-Drops :
      (r : String)
      → Drops view r (on_error (wrapped "revoke on data plane") (s.provider.revoke_access_key r))
  revoke_key-Drops r =
      on_error-Drops view (wrapped "revoke on data plane") r _
        (revoke-Drops view s.provider lawful.provider r)

  -- `Revoke`, on every branch. If it returns, the row of the key is REVOKED, the data plane has
  -- dropped its credential, and nothing else has changed. If it fails, nothing has changed, or the
  -- data plane has dropped the credential and the row is as it was.
  pub revoke_outcome :
      (id : Uuid) (w : W) → Revocation id (view w) (revoke s id w).0 (view (revoke s id w).1)
  unfolding revoke
  revoke_outcome id w =
      bind_rule (λ r. Revocation id (view w) r.0 (view r.1)) (get s id) _ w
        (λ loaded found.
          let same = get-IsRead view s lawful id w in
          let stored = get-stored view s lawful id w loaded found in
          let k = loaded.key in
          retire_rule view s.db lawful.db (λ r. Revocation id (view w) r.0 (view r.1)) _
            k.secret_reference (as_revoked k) _ (get s id w).1 (revoke_key-Drops k.secret_reference)
            (λ w' e. (k, stored, refl, e ∙ ap (retired k.secret_reference (as_revoked k)) same))
            (λ _ w' e. inl (e ∙ same))
            (λ _ w' e. inr (k, stored, e ∙ ap (dropped k.secret_reference) same)))
        (λ e _. inl (get-IsRead view s lawful id w))

  -- If each credential that is served is backed by an ACTIVE row, so it is after a `Revoke`, whatever
  -- it answers.
  pub revoke-IsBacked : (id : Uuid) (w : W) → IsBacked (view w) → IsBacked (view (revoke s id w).1)
  revoke-IsBacked id w h =
      Revocation-IsBacked id (view w) _ _ (lawful.db.access_keys.keyed w id) (revoke_outcome id w) h

  module _ (id : Uuid) (v : View) (k : AccessKey) (stored : v.access_keys id ≡ some k) where
    remove_active :
        (w : W)
        → is_active_key k.status ≡ true
        → view w ≡ dropped k.secret_reference v
        → Deletion id v (Keys.delete s.db id w).0 (view (Keys.delete s.db id w).1)
    unfolding Keys.delete
    remove_active w active e = go _ refl
      where
        go :
            (r : Result (Unit {0}))
            → (s.db.access_keys.delete id w).0 ≡ r
            → Deletion id v r (view (s.db.access_keys.delete id w).1)
        go (ok _) h = (
          k,
          stored,
          rw active (
              lawful.db.access_keys.delete_ok id w h
              ∙ ap (λ x. set_access_keys (remove id x.access_keys) x) e),
        )
        go (err x) h = inr (k, stored, active, lawful.db.access_keys.delete_err id w x h ∙ e)

    remove_idle :
        (w : W)
        → is_active_key k.status ≡ false
        → view w ≡ v
        → Deletion id v (Keys.delete s.db id w).0 (view (Keys.delete s.db id w).1)
    unfolding Keys.delete
    remove_idle w idle e = go _ refl
      where
        go :
            (r : Result (Unit {0}))
            → (s.db.access_keys.delete id w).0 ≡ r
            → Deletion id v r (view (s.db.access_keys.delete id w).1)
        go (ok _) h = (
          k,
          stored,
          rw idle (
              lawful.db.access_keys.delete_ok id w h
              ∙ ap (λ x. set_access_keys (remove id x.access_keys) x) e),
        )
        go (err x) h = inl (lawful.db.access_keys.delete_err id w x h ∙ e)

  -- `Delete`, on every branch. If it returns, the row is gone, and if the key was ACTIVE, the data
  -- plane has dropped its credential; nothing else has changed. If it fails, nothing has changed, or
  -- the key was ACTIVE and only the data plane's part is done.
  pub delete_outcome :
      (id : Uuid) (w : W) → Deletion id (view w) (delete s id w).0 (view (delete s id w).1)
  unfolding delete
  delete_outcome id w =
      bind_rule (λ r. Deletion id (view w) r.0 (view r.1)) (get s id) _ w
        (λ loaded found.
          let same = get-IsRead view s lawful id w in
          let stored = get-stored view s lawful id w loaded found in
          let k = loaded.key in
          elim (Bool-cases (is_active_key loaded.key.status)) [
            | inl active ↦ rw active (
                bind_rule (λ r. Deletion id (view w) r.0 (view r.1)) _ _ (get s id w).1
                  (λ _ sent. remove_active id (view w) k stored _ active (
                    (revoke_key-Drops k.secret_reference).drop_ok _ sent
                    ∙ ap (dropped k.secret_reference) same))
                  (λ e failed. elim ((revoke_key-Drops k.secret_reference).drop_err _ e failed) [
                    | inl kept ↦ inl (kept ∙ same)
                    | inr gone ↦
                        inr (k, stored, active, gone ∙ ap (dropped k.secret_reference) same)
                  ]))
            | inr idle ↦ rw idle (
                bind_rule (λ r. Deletion id (view w) r.0 (view r.1)) _ _ (get s id w).1
                  (λ _ _. remove_idle id (view w) k stored _ idle same) (λ e failed. inl same))
          ])
        (λ e _. inl (get-IsRead view s lawful id w))

  -- If each credential that is served is backed by an ACTIVE row, so it is after a `Delete`, whatever
  -- it answers.
  pub delete-IsBacked : (id : Uuid) (w : W) → IsBacked (view w) → IsBacked (view (delete s id w).1)
  delete-IsBacked id w h = Deletion-IsBacked id (view w) _ _ (delete_outcome id w) h
