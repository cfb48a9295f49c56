-- ===== src/Services/Users/KeyLoop.antt =====
-- The first loop of `revokeAllAccess`: over the access keys of the user.
use vpn_backend.Base.{
  true, false, List, [], ◌∷◌, String, ◌≡◌, refl, sym, ap, subst, inl, inr, All, Bool-cases,
  if◌then◌else◌,
}
use vpn_backend.Errors.{Error, wrapped}
use vpn_backend.Action.{Result, ok, err, on_error, IfOk}
use vpn_backend.Models.{AccessKey, AccessKeyStatus, is_active_key}
use vpn_backend.Database.View.{View}
use vpn_backend.Database.Laws.{LawfulGorm}
use vpn_backend.Database.Backing.{IsBacked}
use vpn_backend.Provider.Laws.{LawfulProvider}
use vpn_backend.Services.Retire.{Drops, revoke-Drops, on_error-Drops, retire_rule, dropped-IsBacked}
use vpn_backend.Services.RetireAll.{
  IsMark, IsCurrent, retire_one, retire_all, retire_one-IsBacked, retire_one-All,
}
use vpn_backend.Services.Users.{UserService, revoke_keys}

abbrev pub as_revoked : AccessKey → AccessKey
as_revoked k = record k { status = AccessKeyStatus.revoked }

pub as_revoked-IsMark : IsMark as_revoked
as_revoked-IsMark = record { keeps_id = λ k. refl; keeps_reference = λ k. refl }

-- What a service relies on.
pub record Lawful {W : Type 0} (view : W → View) (s : UserService W) : Type 0 where
  pub db : LawfulGorm view s.db
  pub provider : LawfulProvider view s.provider

-- The loop's effect from a view `v` to `v'`, by its answer.
pub record KeyLoop (ks : List AccessKey) (v : View) (r : Result (Unit {0})) (v' : View)
    : Type 0 where
  pub on_ok : IfOk r (λ _. v' ≡ retire_all as_revoked ks v)
  pub same_users : v'.users ≡ v.users
  pub same_devices : v'.devices ≡ v.devices
  pub backed : All (IsCurrent v) ks → IsBacked v → IsBacked v'

pub KeyLoop-at :
    {ks : List AccessKey} {v₁ v₂ v' : View} {r : Result (Unit {0})}
    → v₁ ≡ v₂
    → KeyLoop ks v₁ r v'
    → KeyLoop ks v₂ r v'
KeyLoop-at {ks} {v' = v'} {r = r} e = subst (λ x. KeyLoop ks x r v') e

-- A loop that returned has retired every ACTIVE key of the list.
pub retired_by :
    {ks : List AccessKey} {v v' : View} {r : Result (Unit {0})}
    → r ≡ ok tt
    → KeyLoop ks v r v'
    → v' ≡ retire_all as_revoked ks v
retired_by {ks} {v} {v'} done loop =
    subst (λ r. IfOk r (λ _. v' ≡ retire_all as_revoked ks v)) done loop.on_ok

module _ {W : Type 0} (view : W → View) (s : UserService W) (lawful : Lawful view s) where
  revoke_key-Drops :
      (r : String)
      → Drops view r (on_error (wrapped "revoke access key") (s.provider.revoke_access_key r))
  revoke_key-Drops r =
      on_error-Drops view (wrapped "revoke access key") r _
        (revoke-Drops view s.provider lawful.provider r)

  -- The loop goes on from a view where the first key has been taken out of service, or is skipped.
  after_retired :
      (k : AccessKey) (ks : List AccessKey) (v v₁ v' : View) (r : Result (Unit {0}))
      → is_active_key k.status ≡ true
      → v₁ ≡ retire_one as_revoked k v
      → KeyLoop ks v₁ r v'
      → KeyLoop (k ∷ ks) v r v'
  after_retired k ks v v₁ v' r on e loop =
      let loop' = subst (λ x. KeyLoop ks x r v') e loop in
      let once : retire_one as_revoked k v
          ≡ (if is_active_key k.status then retire_one as_revoked k v else v) =
        rw on refl in
      record {
        on_ok = subst (λ x. IfOk r (λ _. v' ≡ retire_all as_revoked ks x)) once loop'.on_ok;
        same_users = loop'.same_users;
        same_devices = loop'.same_devices;
        backed = λ current h.
            loop'.backed (retire_one-All as_revoked as_revoked-IsMark k ks v current.0 current.1)
              (retire_one-IsBacked as_revoked as_revoked-IsMark k v current.0 h);
      }

  after_skipped :
      (k : AccessKey) (ks : List AccessKey) (v v' : View) (r : Result (Unit {0}))
      → is_active_key k.status ≡ false
      → KeyLoop ks v r v'
      → KeyLoop (k ∷ ks) v r v'
  after_skipped k ks v v' r off loop =
      let none_done : v ≡ (if is_active_key k.status then retire_one as_revoked k v else v) =
        rw off refl in
      record {
        on_ok = subst (λ x. IfOk r (λ _. v' ≡ retire_all as_revoked ks x)) none_done loop.on_ok;
        same_users = loop.same_users;
        same_devices = loop.same_devices;
        backed = λ current h. loop.backed current.1 h;
      }

  -- The loop broke off with the data plane's part of this key done, or nothing.
  broken_off :
      (ks : List AccessKey) (v v' : View) (e : Error)
      → v'.users ≡ v.users
      → v'.devices ≡ v.devices
      → (IsBacked v → IsBacked v')
      → KeyLoop ks v (err e) v'
  broken_off ks v v' e users devices keep = record {
    on_ok = tt;
    same_users = users;
    same_devices = devices;
    backed = λ _ h. keep h;
  }

  pub revoke_keys_loop :
      (ks : List AccessKey) (w : W)
      → KeyLoop ks (view w) (revoke_keys s ks w).0 (view (revoke_keys s ks w).1)
  unfolding revoke_keys
  revoke_keys_loop [] w = record {
    on_ok = refl;
    same_users = refl;
    same_devices = refl;
    backed = λ _ h. h;
  }
  revoke_keys_loop (k ∷ ks) w =
      let rest = revoke_keys_loop ks in
      elim (Bool-cases (is_active_key k.status)) [
        | inl on ↦ rw on (
            retire_rule view s.db lawful.db (λ r. KeyLoop (k ∷ ks) (view w) r.0 (view r.1)) _
              k.secret_reference (as_revoked k) (revoke_keys s ks) w
              (revoke_key-Drops k.secret_reference)
              (λ w' e. after_retired k ks (view w) (view w') _ _ on e (rest w'))
              (λ e w' same.
                broken_off (k ∷ ks) (view w) (view w') e (ap (λ v. v.users) same)
                  (ap (λ v. v.devices) same) (subst IsBacked (sym same)))
              (λ e w' half.
                broken_off (k ∷ ks) (view w) (view w') e (ap (λ v. v.users) half)
                  (ap (λ v. v.devices) half)
                  (λ h.
                    subst IsBacked (sym half) (dropped-IsBacked k.secret_reference (view w) h))))
        | inr off ↦ rw off (after_skipped k ks (view w) _ _ off (rest w))
      ]
