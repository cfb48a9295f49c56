-- ===== src/Services/Users/Disable.antt =====
-- `Disable` and `Delete` of services/user_service.go: a user is taken out of service.
use vpn_backend.Base.{true, false, some, none, String, ◌≡◌, ◌≢◌, refl, sym, ap, ◌∙◌, subst, ==_iff}
use vpn_backend.Errors.{Error}
use vpn_backend.Action.{Result, ok, err, pure, ◌>>◌, bind_rule, IfOk}
use vpn_backend.Models.{Uuid, AccessKey, VpnUser, VpnUserStatus, is_active_key}
use vpn_backend.Database.View.{View, Rows, put, remove, change}
use vpn_backend.Database.Laws.{set_users}
use vpn_backend.Database.Backing.{IsBacked}
use vpn_backend.Repositories.Users as Users
use vpn_backend.Repositories.Users.{LoadedUser}
use vpn_backend.Services.Selected.{
  marks, retire_selected, retire_selected-cut, retire_selected-spared,
}
use vpn_backend.Services.Users.{UserService, get, disable, delete, revoke_all_access}
use vpn_backend.Services.Users.KeyLoop.{Lawful, as_revoked, as_revoked-IsMark}
use vpn_backend.Services.Users.Cascade.{
  Revoked, Cascade-at, Revoked-Cascade, revoke_all_access-Cascade, of_user,
}
use vpn_backend.Services.Users.Lookup.{get-IsRead, get-stored, get-keyed}

abbrev pub as_disabled : VpnUser → VpnUser
as_disabled u = record u { status = VpnUserStatus.disabled }

-- The user has no access: each of its ACTIVE keys is REVOKED, with no other column changed, and the
-- data plane serves none of them; the rows of other users, and the keys that no ACTIVE row of the
-- user refers to, are as they were.
pub record LosesAccess (u : Uuid) (v v' : View) : Type 0 where
  pub rows : (i : Uuid) → v'.access_keys i ≡ change (marks (of_user u)) as_revoked (v.access_keys i)
  pub cut :
      (i : Uuid) (k : AccessKey)
      → v.access_keys i ≡ some k
      → of_user u k ≡ true
      → is_active_key k.status ≡ true
      → v'.live k.secret_reference ≡ false
  pub spared :
      (r : String)
      → ((i : Uuid) (k : AccessKey)
          → v.access_keys i ≡ some k
          → marks (of_user u) k ≡ true
          → k.secret_reference ≢ r)
      → v'.live r ≡ v.live r

Revoked-LosesAccess :
    (u : Uuid) (v v' : View)
    → ((i : Uuid) (k : AccessKey) → v.access_keys i ≡ some k → k.id ≡ i)
    → Revoked u v v'
    → LosesAccess u v v'
Revoked-LosesAccess u v v' keyed done =
    let chosen = done.keys_selected in
    record {
      rows = λ i.
          ap (λ x. x.access_keys i) done.result
          ∙ retire_selected as_revoked as_revoked-IsMark (of_user u) v done.keys chosen keyed i;
      cut = λ i k stored mine on.
          ap (λ x. x.live k.secret_reference) done.result
          ∙ retire_selected-cut as_revoked as_revoked-IsMark (of_user u) v done.keys chosen keyed i
              k stored mine on;
      spared = λ r other.
          ap (λ x. x.live r) done.result
          ∙ retire_selected-spared as_revoked as_revoked-IsMark (of_user u) v done.keys chosen keyed
              r other;
    }

-- The user is DISABLED, and has no access.
abbrev pub Disabled : Uuid → View → LoadedUser → View → Type 0
Disabled id v loaded v' =
    (u : VpnUser) × (v.users id ≡ some u)
    × (loaded.user ≡ as_disabled u)
    × (v'.users id ≡ some (as_disabled u))
    × LosesAccess id v v'

-- The user is gone, and has no access.
abbrev pub Deleted : Uuid → View → View → Type 0
Deleted id v v' = (v'.users id ≡ none) × LosesAccess id v v'

-- What `Disable` may answer, beside the views before and after.
pub record Disabling (id : Uuid) (v : View) (r : Result LoadedUser) (v' : View) : Type 0 where
  pub on_ok : IfOk r (λ loaded.
      (u : VpnUser) × (v.users id ≡ some u)
      × (loaded.user ≡ as_disabled u)
      × (v'.users id ≡ some (as_disabled u))
      × LosesAccess id v v')
  pub backed : IsBacked v → IsBacked v'

-- What `Delete` may answer, beside the views before and after.
pub record Deleting (id : Uuid) (v : View) (r : Result (Unit {0})) (v' : View) : Type 0 where
  pub on_ok : IfOk r (λ _. Deleted id v v')
  pub backed : IsBacked v → IsBacked v'

module _ {W : Type 0} (view : W → View) (s : UserService W) (lawful : Lawful view s) where
  -- The last step of `Delete`, from a view where the user has lost its access.
  removal :
      (id : Uuid) (v : View) (w : W)
      → (IsBacked v → IsBacked (view w))
      → LosesAccess id v (view w)
      → Deleting id v (s.db.users.delete id w).0 (view (s.db.users.delete id w).1)
  removal id v w backed lost = go _ refl
    where
      go :
          (r : Result (Unit {0}))
          → (s.db.users.delete id w).0 ≡ r
          → Deleting id v r (view (s.db.users.delete id w).1)
      go (ok _) h =
          let gone = lawful.db.users.delete_ok id w h in
          let row : remove id (view w).users id ≡ none = rw ((==_iff id id).1 refl) refl in
          record {
            on_ok = (
              ap (λ x. x.users id) gone ∙ row,
              record {
                rows = λ i. ap (λ x. x.access_keys i) gone ∙ lost.rows i;
                cut = λ i k stored mine on.
                    ap (λ x. x.live k.secret_reference) gone ∙ lost.cut i k stored mine on;
                spared = λ r other. ap (λ x. x.live r) gone ∙ lost.spared r other;
              },
            );
            backed = λ h. subst IsBacked (sym gone) (backed h);
          }
      go (err e) h = record {
        on_ok = tt;
        backed = λ b. subst IsBacked (sym (lawful.db.users.delete_err id w e h)) (backed b);
      }

  -- The cascade from a view that differs from `v` in the row of the user, which is now disabled.
  after_write :
      (id : Uuid) (u : VpnUser) (loaded : LoadedUser) (v : View) (w : W)
      → v.users id ≡ some u
      → u.id ≡ id
      → loaded.user ≡ as_disabled u
      → view w ≡ set_users (put u.id (as_disabled u) v.users) v
      → ((i : Uuid) (k : AccessKey) → v.access_keys i ≡ some k → k.id ≡ i)
      → let m = revoke_all_access s id >> pure loaded in Disabling id v (m w).0 (view (m w).1)
  after_write id u loaded v w stored at answer written keyed =
      let cascade = Cascade-at written (revoke_all_access-Cascade view s lawful id w) in
      bind_rule (λ r. Disabling id v r.0 (view r.1)) _ _ w
        (λ _ done.
          let lost = Revoked-LosesAccess id _ _ keyed (Revoked-Cascade done cascade) in
          let row : put u.id (as_disabled u) v.users id ≡ some (as_disabled u) =
            rw ((==_iff u.id id).1 at) refl in
          record {
            on_ok = (
              u,
              stored,
              answer,
              ap (λ (rows : Rows VpnUser). rows id) cascade.same_users ∙ row,
              record { rows = lost.rows; cut = lost.cut; spared = lost.spared },
            );
            backed = cascade.backed;
          })
        (λ e _. record { on_ok = tt; backed = cascade.backed })

  unchanged : (id : Uuid) (v v' : View) (e : Error) → v' ≡ v → Disabling id v (err e) v'
  unchanged id v v' e same = record { on_ok = tt; backed = subst IsBacked (sym same) }

  disabling :
      (id : Uuid) (w : W) → Disabling id (view w) (disable s id w).0 (view (disable s id w).1)
  unfolding disable Users.update
  disabling id w =
      bind_rule (λ r. Disabling id (view w) r.0 (view r.1)) _ _ w
        (λ loaded found.
          let same = get-IsRead view s lawful id w in
          let stored = get-stored view s lawful id w loaded found in
          let u = loaded.user in
          bind_rule (λ r. Disabling id (view w) r.0 (view r.1)) _ _ (get s id w).1
            (λ _ saved.
              after_write id u _ (view w) _ stored (get-keyed view s lawful id w loaded found) refl
                (lawful.db.users.save_ok (as_disabled u) _ saved
                  ∙ ap (λ v. set_users (put u.id (as_disabled u) v.users) v) same)
                (lawful.db.access_keys.keyed w))
            (λ e failed.
              unchanged id (view w) _ e
                (lawful.db.users.save_err (as_disabled u) _ e failed ∙ same)))
        (λ e _. unchanged id (view w) _ e (get-IsRead view s lawful id w))

  deleting : (id : Uuid) (w : W) → Deleting id (view w) (delete s id w).0 (view (delete s id w).1)
  unfolding delete Users.delete
  deleting id w =
      bind_rule (λ r. Deleting id (view w) r.0 (view r.1)) _ _ w
        (λ loaded found.
          let same = get-IsRead view s lawful id w in
          let cascade =
            Cascade-at same (revoke_all_access-Cascade view s lawful id (get s id w).1) in
          bind_rule (λ r. Deleting id (view w) r.0 (view r.1)) _ _ (get s id w).1
            (λ _ done.
              let lost =
                Revoked-LosesAccess id _ _ (lawful.db.access_keys.keyed w)
                  (Revoked-Cascade done cascade) in
              removal id (view w) _ cascade.backed lost)
            (λ e _. record { on_ok = tt; backed = cascade.backed }))
        (λ e _. record {
          on_ok = tt;
          backed = subst IsBacked (sym (get-IsRead view s lawful id w));
        })

  -- A `Disable` that returns has written the user as DISABLED and answers with that row. Each key of
  -- the user that was ACTIVE is REVOKED, with no other column changed, and the data plane does not
  -- serve its credential; all other rows of keys are as they were, and so is every credential that
  -- no ACTIVE key of the user refers to.
  pub disable_outcome :
      (id : Uuid) (w : W) (loaded : LoadedUser)
      → (disable s id w).0 ≡ ok loaded
      → Disabled id (view w) loaded (view (disable s id w).1)
  disable_outcome id w loaded h =
      subst (λ r. IfOk r (λ x. Disabled id (view w) x (view (disable s id w).1))) h
        (disabling id w).on_ok

  -- If each credential that is served is backed by an ACTIVE row, so it is after a `Disable`,
  -- whatever it answers.
  pub disable-IsBacked :
      (id : Uuid) (w : W) → IsBacked (view w) → IsBacked (view (disable s id w).1)
  disable-IsBacked id w h = (disabling id w).backed h

  -- A `Delete` that returns has removed the user. Each key of the user that was ACTIVE is REVOKED,
  -- with no other column changed, and the data plane does not serve its credential; all other rows of
  -- keys are as they were, and so is every credential that no ACTIVE key of the user refers to.
  pub delete_user_outcome :
      (id : Uuid) (w : W) → (delete s id w).0 ≡ ok tt → Deleted id (view w) (view (delete s id w).1)
  delete_user_outcome id w h =
      subst (λ r. IfOk r (λ _. Deleted id (view w) (view (delete s id w).1))) h
        (deleting id w).on_ok

  -- If each credential that is served is backed by an ACTIVE row, so it is after a `Delete`, whatever
  -- it answers.
  pub delete_user-IsBacked :
      (id : Uuid) (w : W) → IsBacked (view w) → IsBacked (view (delete s id w).1)
  delete_user-IsBacked id w h = (deleting id w).backed h
