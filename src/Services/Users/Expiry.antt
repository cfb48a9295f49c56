-- ===== src/Services/Users/Expiry.antt =====
-- `SweepExpired` of services/user_service.go, and a sweep that breaks off.
use vpn_backend.Base.{
  true, some, List, [], ◌∷◌, ◌≡◌, ◌≢◌, refl, sym, ap, ◌∙◌, subst, ==_iff, All, All-map, arith, ◌&&◌,
}
use vpn_backend.Errors.{Error}
use vpn_backend.Action.{Result, ok, err, ◌>>◌, bind_rule, bind-ok, bind-err}
use vpn_backend.Models.{VpnUser, VpnUserStatus, is_active_user, before}
use vpn_backend.Database.View.{View, Rows, put}
use vpn_backend.Database.Backing.{IsBacked}
use vpn_backend.Repositories.Users as Users
use vpn_backend.Services.Users.{UserService, expire_all, sweep_expired, revoke_all_access}
use vpn_backend.Services.Users.KeyLoop.{Lawful}
use vpn_backend.Services.Users.Cascade.{revoke_all_access-Cascade}

abbrev pub as_expired : VpnUser → VpnUser
as_expired u = record u { status = VpnUserStatus.expired }

module _ {W : Type 0} (view : W → View) (s : UserService W) (lawful : Lawful view s) where
  user_update-IsBacked :
      (u : VpnUser) (w : W) → IsBacked (view w) → IsBacked (view (Users.update s.db u w).1)
  unfolding Users.update
  user_update-IsBacked u w h = go _ refl
    where
      go :
          (r : Result (Unit {0}))
          → (s.db.users.save u w).0 ≡ r
          → IsBacked (view (s.db.users.save u w).1)
      go (ok _) e = subst IsBacked (sym (lawful.db.users.save_ok u w e)) h
      go (err x) e = subst IsBacked (sym (lawful.db.users.save_err u w x e)) h

  expire_all-IsBacked :
      (us : List VpnUser) (w : W) → IsBacked (view w) → IsBacked (view (expire_all s us w).1)
  unfolding expire_all
  expire_all-IsBacked [] w h = h
  expire_all-IsBacked (u ∷ us) w h =
      let written = user_update-IsBacked (as_expired u) w h in
      let rest = expire_all-IsBacked us in
      bind_rule (λ r. IsBacked (view r.1)) _ _ w
        (λ _ _.
          let cut =
            (revoke_all_access-Cascade view s lawful u.id
                (Users.update s.db (as_expired u) w).1).backed
              written in
          bind_rule (λ r. IsBacked (view r.1)) _ _ _ (λ _ _. rest _ cut) (λ _ _. cut))
        (λ _ _. written)

  -- If each credential that is served is backed by an ACTIVE row, so it is after a `SweepExpired`,
  -- whatever it answers.
  pub user_sweep-IsBacked : (w : W) → IsBacked (view w) → IsBacked (view (sweep_expired s w).1)
  unfolding sweep_expired Users.find_expired
  user_sweep-IsBacked w h =
      let same =
        lawful.db.users.find_view (λ u. is_active_user u.status && before u.expires_at (s.db.now w))
          w in
      let kept = subst IsBacked (sym same) h in
      bind_rule (λ r. IsBacked (view r.1)) (Users.find_expired s.db) _ w
        (λ us _.
          let done = expire_all-IsBacked us _ kept in
          bind_rule (λ r. IsBacked (view r.1)) _ _ _ (λ _ _. done) (λ _ _. done))
        (λ _ _. kept)

  -- No user that `FindExpired` returns is EXPIRED.
  find_expired-skips :
      (w : W) (us : List VpnUser) (u : VpnUser)
      → (view w).users u.id ≡ some (as_expired u)
      → (Users.find_expired s.db w).0 ≡ ok us
      → All (λ x. x.id ≢ u.id) us
  unfolding Users.find_expired
  find_expired-skips w us u stored h =
      All-map us
        (λ x q e.
          let same : some x ≡ some (as_expired u) = sym q.0 ∙ ap (view w).users e ∙ stored in
          let row : x ≡ as_expired u = cc same in
          let active : is_active_user x.status ≡ true = ground (arith, q.1) in cc (active, row))
        (lawful.db.users.find_ok (λ u. is_active_user u.status && before u.expires_at (s.db.now w))
          w us h).sound

  -- A sweep that breaks off while it revokes the access of a user has already written the user as
  -- EXPIRED. It fails, and no later sweep takes the user up again: in each later world where that
  -- row is as it was left, the users that `FindExpired` returns do not include it.
  pub sweep_forgets :
      (u : VpnUser) (us : List VpnUser) (w : W) (e : Error)
      → (Users.update s.db (as_expired u) w).0 ≡ ok tt
      → (revoke_all_access s u.id (Users.update s.db (as_expired u) w).1).0 ≡ err e
      → (w' : W) (found : List VpnUser)
      → (view w').users u.id ≡ (view (expire_all s (u ∷ us) w).1).users u.id
      → (Users.find_expired s.db w').0 ≡ ok found
      → ((expire_all s (u ∷ us) w).0 ≡ err e) × All (λ x. x.id ≢ u.id) found
  unfolding expire_all Users.update
  sweep_forgets u us w e saved failed w' found later h =
      let first =
        bind-ok (s.db.users.save (as_expired u)) (λ _. revoke_all_access s u.id >> expire_all s us)
          w tt saved in
      let second = bind-err (revoke_all_access s u.id) (λ _. expire_all s us) _ e failed in
      let whole = first ∙ second in
      let kept =
        (revoke_all_access-Cascade view s lawful u.id
          (s.db.users.save (as_expired u) w).1).same_users in
      let written = lawful.db.users.save_ok (as_expired u) w saved in
      let row : put u.id (as_expired u) (view w).users u.id ≡ some (as_expired u) =
        rw ((==_iff u.id u.id).1 refl) refl in
      let stored =
        ap (λ (r : Result (Unit {0}) × W). (view r.1).users u.id) whole
        ∙ ap (λ (rows : Rows VpnUser). rows u.id) kept
        ∙ ap (λ (v : View). v.users u.id) written
        ∙ row in
      (
        ap (λ (r : Result (Unit {0}) × W). r.0) whole,
        find_expired-skips w' found u (later ∙ stored) h,
      )
