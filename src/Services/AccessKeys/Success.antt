-- ===== src/Services/AccessKeys/Success.antt =====
-- `Revoke`, `Delete` and `SweepExpired` where no call of the database fails and the data plane revokes
-- what it serves: they return, and have done what they are for.
use vpn_backend.Base.{
  true, List, [], ◌∷◌, some, String, eq_iff, ◌≡◌, ◌≢◌, refl, sym, ap, ◌∙◌, subst, if_eq_rule, All,
  arith, if◌then◌else◌,
}
use vpn_backend.Base.Int.{ℤ}
use vpn_backend.Errors.{wrapped}
use vpn_backend.Action.{ok, Action, Returns, bind-Returns, on_error-Returns}
use vpn_backend.Models.{Uuid, Time, AccessKey, is_active_key}
use vpn_backend.Database.View.{View, Rows, put, remove, drop_live}
use vpn_backend.Database.Laws.{Distinct, set_access_keys}
use vpn_backend.Database.Reliable.{ReliableGorm, first-Returns}
use vpn_backend.Provider.Laws.{RevokesServed}
use vpn_backend.Repositories.AccessKeys as Keys
use vpn_backend.Repositories.AccessKeys.{LoadedKey}
use vpn_backend.Services.{or_not_found}
use vpn_backend.Services.Retire.{retired, dropped}
use vpn_backend.Services.AccessKeys.{
  AccessKeyService, get, revoke, delete, expire_all, sweep_expired,
}
use vpn_backend.Services.AccessKeys.Lookup.{Lawful, get-IsRead, get-stored}
use vpn_backend.Services.AccessKeys.Revocation.{
  as_revoked, Revocation, Deletion, revoke_outcome, delete_outcome,
}
use vpn_backend.Services.AccessKeys.Sweep.{as_expired, is_due, Swept, sweep_outcome}

module _ {W : Type 0} (view : W → View) (s : AccessKeyService W) (lawful : Lawful view s)
    (reliable : ReliableGorm s.db) (revokes : RevokesServed view s.provider) where
  get-Returns :
      (id : Uuid) (w : W) (k : AccessKey) → (view w).access_keys id ≡ some k → Returns (get s id) w
  unfolding get Keys.find_by_id
  get-Returns id w k stored = on_error-Returns (or_not_found "access key") _ w (
      bind-Returns _ _ w
        (first-Returns view s.db.access_keys (λ r. r.id) _ _ _ _ lawful.db.access_keys
          reliable.access_keys id w k stored)
        λ _ _.
          bind-Returns _ _ _ (reliable.users.find_returns _ _)
            λ _ _. bind-Returns _ _ _ (reliable.servers.find_returns _ _) λ _ _. (_, refl))

  -- The key that is found is the stored one, in a world of the same view.
  found_live :
      (id : Uuid) (w : W) (k : AccessKey) (loaded : LoadedKey)
      → (view w).access_keys id ≡ some k
      → (view w).live k.secret_reference ≡ true
      → (get s id w).0 ≡ ok loaded
      → (view (get s id w).1).live loaded.key.secret_reference ≡ true
  found_live id w k loaded stored served found =
      let at = get-stored view s lawful id w loaded found in
      let key : k ≡ loaded.key = cc (stored, at) in
      ap (λ (v : View). v.live loaded.key.secret_reference) (get-IsRead view s lawful id w)
      ∙ subst (λ (x : AccessKey). (view w).live x.secret_reference ≡ true) key served

  -- With a database whose calls do not fail and a data plane that revokes each credential it
  -- serves, `Revoke` of a stored key whose credential is served returns the key as REVOKED: its row is
  -- that, the credential is not served any more, and nothing else has changed.
  pub revoke_done :
      (id : Uuid) (w : W) (k : AccessKey)
      → (view w).access_keys id ≡ some k
      → (view w).live k.secret_reference ≡ true
      → (loaded : LoadedKey) × ((revoke s id w).0 ≡ ok loaded)
        × (loaded.key ≡ as_revoked k)
        × (view (revoke s id w).1 ≡ retired k.secret_reference (as_revoked k) (view w))
  unfolding revoke Keys.update
  revoke_done id w k stored served =
      let (loaded, h) = returns in
      let (k', stored', key, same) =
        subst (λ r. Revocation id (view w) r (view (revoke s id w).1)) h
          (revoke_outcome view s lawful id w) in
      let e : k' ≡ k = cc (stored, stored') in
      (
        loaded,
        h,
        key ∙ ap as_revoked e,
        same ∙ ap (λ (x : AccessKey). retired x.secret_reference (as_revoked x) (view w)) e,
      )
    where
      returns : Returns (revoke s id) w
      returns = bind-Returns _ _ w (get-Returns id w k stored) λ loaded found.
          bind-Returns _ _ _
            (on_error-Returns (wrapped "revoke on data plane") _ _
              (revokes _ _ (found_live id w k loaded stored served found)))
            λ _ _. bind-Returns _ _ _ (reliable.access_keys.save_returns _ _) λ _ _. (_, refl)

  -- With a database whose calls do not fail and a data plane that revokes each credential it
  -- serves, `Delete` of a stored key whose credential is served if the key is ACTIVE returns: the row is
  -- gone, the credential of an ACTIVE key is not served any more, and nothing else has changed.
  pub delete_done :
      (id : Uuid) (w : W) (k : AccessKey)
      → (view w).access_keys id ≡ some k
      → (is_active_key k.status ≡ true → (view w).live k.secret_reference ≡ true)
      → ((delete s id w).0 ≡ ok tt)
        × (view (delete s id w).1
            ≡ set_access_keys
                (remove id (view w).access_keys)
                (if is_active_key k.status then dropped k.secret_reference (view w) else view w))
  unfolding delete Keys.delete
  delete_done id w k stored served =
      let (tt, h) = returns in
      let (k', stored', same) =
        subst (λ r. Deletion id (view w) r (view (delete s id w).1)) h
          (delete_outcome view s lawful id w) in
      let e : k' ≡ k = cc (stored, stored') in
      (
        h,
        same
            ∙ ap
                (λ (x : AccessKey).
                  set_access_keys (remove id (view w).access_keys) (
                    if is_active_key x.status then dropped x.secret_reference (view w) else view w))
                e,
      )
    where
      returns : Returns (delete s id) w
      returns = bind-Returns _ _ w (get-Returns id w k stored) λ loaded found.
          let at = get-stored view s lawful id w loaded found in
          let key : k ≡ loaded.key = cc (stored, at) in
          bind-Returns _ _ _
            (if_eq_rule (λ (m : Action W (Unit {0})). Returns m (get s id w).1)
              (is_active_key loaded.key.status)
              (λ active. on_error-Returns (wrapped "revoke on data plane") _ _ (
                revokes _ _ (
                  found_live id w k loaded stored
                    (served (ap (λ (x : AccessKey). is_active_key x.status) key ∙ active)) found)))
              (λ _. (tt, refl)))
            λ _ _. reliable.access_keys.delete_returns id _

  -- Keys whose credentials are served, no two of which are one.
  abbrev Servable : View → List AccessKey → Type 0
  Servable v [] = Unit
  Servable v (k ∷ ks) =
      (v.live k.secret_reference ≡ true)
      × All (λ (x : AccessKey). k.secret_reference ≢ x.secret_reference) ks
      × Servable v ks

  kept :
      (r : String) (v v' : View) (ks : List AccessKey)
      → v'.live ≡ drop_live r v.live
      → All (λ (x : AccessKey). r ≢ x.secret_reference) ks
      → Servable v ks
      → Servable v' ks
  kept r v v' [] e apart h = tt
  kept r v v' (k ∷ ks) e (other, apart) (served, distinct, rest) = (
    ap (λ f. f k.secret_reference) e ∙ ground (arith, served, other, eq_iff r k.secret_reference),
    distinct,
    kept r v v' ks e apart rest,
  )

  after_saved :
      (r : String) (rows : Rows AccessKey) (v v₁ v₂ : View)
      → v₁ ≡ dropped r v
      → v₂ ≡ set_access_keys rows v₁
      → v₂.live ≡ drop_live r v.live
  after_saved r rows v v₁ v₂ e f = ap (λ (x : View). x.live) f ∙ ap (λ (x : View). x.live) e

  expire_all-Returns :
      (ks : List AccessKey) (w : W) → Servable (view w) ks → Returns (expire_all s ks) w
  unfolding expire_all Keys.update
  expire_all-Returns [] w h = (tt, refl)
  expire_all-Returns (k ∷ ks) w (served, distinct, h) =
      let w₁ = (s.provider.revoke_access_key k.secret_reference w).1 in
      let w₂ = (s.db.access_keys.save (as_expired k) w₁).1 in
      let rows = put k.id (as_expired k) (view w₁).access_keys in
      bind-Returns _ _ w (revokes _ w served) λ _ sent.
        bind-Returns _ _ w₁ (reliable.access_keys.save_returns _ w₁) λ _ saved.
          expire_all-Returns ks w₂ (
            kept k.secret_reference (view w) (view w₂) ks
              (after_saved k.secret_reference rows (view w) (view w₁) (view w₂)
                (lawful.provider.revoke_ok k.secret_reference w sent)
                (lawful.db.access_keys.save_ok (as_expired k) w₁ saved))
              distinct h)

  module _ (now : Time) (v : View)
      (served : (i : Uuid) (k : AccessKey)
        → v.access_keys i ≡ some k
        → is_due now k ≡ true
        → v.live k.secret_reference ≡ true)
      (apart : (i j : Uuid) (k l : AccessKey)
        → v.access_keys i ≡ some k
        → v.access_keys j ≡ some l
        → is_due now k ≡ true
        → is_due now l ≡ true
        → i ≢ j
        → k.secret_reference ≢ l.secret_reference) where
    abbrev IsDueRow : AccessKey → Type 0
    IsDueRow k = (v.access_keys k.id ≡ some k) × (is_due now k ≡ true)

    all_apart :
        (k : AccessKey) (ks : List AccessKey)
        → IsDueRow k
        → All IsDueRow ks
        → All (λ (x : AccessKey). k.id ≢ x.id) ks
        → All (λ (x : AccessKey). k.secret_reference ≢ x.secret_reference) ks
    all_apart k [] at rows other = tt
    all_apart k (x ∷ ks) at (at', rows) (other, others) =
        (apart k.id x.id k x at.0 at'.0 at.1 at'.1 other, all_apart k ks at rows others)

    due-Servable :
        (ks : List AccessKey)
        → All IsDueRow ks
        → Distinct (λ (x : AccessKey). x.id) ks
        → Servable v ks
    due-Servable [] rows distinct = tt
    due-Servable (k ∷ ks) (at, rows) (other, distinct) =
        (served k.id k at.0 at.1, all_apart k ks at rows other, due-Servable ks rows distinct)

  -- With a database whose calls do not fail and a data plane that revokes each credential it
  -- serves, `SweepExpired` returns a number `n` if the credential of each due key is served and no
  -- two due keys refer to one credential. It has found `n` due keys, the row of each is EXPIRED
  -- and its credential is not served any more, and all else is as it was.
  pub sweep_done :
      (w : W)
      → ((i : Uuid) (k : AccessKey)
          → (view w).access_keys i ≡ some k
          → is_due (s.db.now w) k ≡ true
          → (view w).live k.secret_reference ≡ true)
      → ((i j : Uuid) (k l : AccessKey)
          → (view w).access_keys i ≡ some k
          → (view w).access_keys j ≡ some l
          → is_due (s.db.now w) k ≡ true
          → is_due (s.db.now w) l ≡ true
          → i ≢ j
          → k.secret_reference ≢ l.secret_reference)
      → (n : ℤ) × ((sweep_expired s w).0 ≡ ok n)
        × Swept (s.db.now w) (view w) n (view (sweep_expired s w).1)
  unfolding sweep_expired Keys.find_expired
  sweep_done w served apart = let (n, h) = returns in (n, h, sweep_outcome view s lawful w n h)
    where
      returns : Returns (sweep_expired s) w
      returns =
          let now = s.db.now w in
          bind-Returns _ _ w (reliable.access_keys.find_returns (is_due now) w) λ ks found.
            let selected = lawful.db.access_keys.find_ok (is_due now) w ks found in
            let ready =
              due-Servable now (view w) served apart ks selected.sound selected.distinct in
            bind-Returns _ _ _
              (expire_all-Returns ks _ (
                subst (λ (v : View). Servable v ks)
                  (sym (lawful.db.access_keys.find_view (is_due now) w)) ready))
              λ _ _. (_, refl)
