-- ===== src/Services/AccessKeys/Sweep.antt =====
-- `SweepExpired` of services/access_key_service.go: the ACTIVE keys whose expiry has passed.
use vpn_backend.Base.{
  Bool, true, false, some, List, [], ◌∷◌, String, length, ◌≡◌, ◌≢◌, refl, sym, ap, ◌∙◌, subst,
  arith, All, All-map, ◌&&◌, if◌then◌else◌,
}
use vpn_backend.Base.Int.{ℤ, pos}
use vpn_backend.Errors.{Error}
use vpn_backend.Action.{ok, Result, err, pure, ◌>>◌, bind_rule, IfOk}
use vpn_backend.Models.{Uuid, Time, AccessKey, AccessKeyStatus, is_active_key, before}
use vpn_backend.Database.View.{View, change}
use vpn_backend.Database.Laws.{Selects}
use vpn_backend.Database.Backing.{IsBacked}
use vpn_backend.Repositories.AccessKeys as Keys
use vpn_backend.Services.Retire.{revoke-Drops, retire_rule, dropped-IsBacked}
use vpn_backend.Services.RetireAll.{
  IsMark, IsCurrent, retire_one, retire_all, retire_one-IsBacked, retire_one-All,
}
use vpn_backend.Services.Selected.{
  marks, selected-IsCurrent, retire_selected, retire_selected-cut, retire_selected-spared,
}
use vpn_backend.Services.AccessKeys.{AccessKeyService, expire_all, sweep_expired}
use vpn_backend.Services.AccessKeys.Lookup.{Lawful}

abbrev pub as_expired : AccessKey → AccessKey
as_expired k = record k { status = AccessKeyStatus.expired }

as_expired-IsMark : IsMark as_expired
as_expired-IsMark = record { keeps_id = λ k. refl; keeps_reference = λ k. refl }

-- The condition of `FindExpired`.
abbrev pub is_due : Time → AccessKey → Bool
is_due now k = is_active_key k.status && before k.expires_at now

-- What a sweep that returned `n` has done.
pub record Swept (now : Time) (v : View) (n : ℤ) (v' : View) : Type 0 where
  pub due : List AccessKey
  pub due_selected : Selects (λ k. k.id) (is_due now) v.access_keys due
  pub counted : n ≡ pos (length due)
  pub rows :
      (i : Uuid) → v'.access_keys i ≡ change (marks (is_due now)) as_expired (v.access_keys i)
  pub cut :
      (i : Uuid) (k : AccessKey)
      → v.access_keys i ≡ some k
      → is_due now k ≡ true
      → v'.live k.secret_reference ≡ false
  pub spared :
      (r : String)
      → ((i : Uuid) (k : AccessKey)
          → v.access_keys i ≡ some k
          → marks (is_due now) k ≡ true
          → k.secret_reference ≢ r)
      → v'.live r ≡ v.live r

pub record Sweeping (now : Time) (v : View) (r : Result ℤ) (v' : View) : Type 0 where
  pub on_ok : IfOk r (λ n. Swept now v n v')
  pub backed : IsBacked v → IsBacked v'

record ExpireLoop (ks : List AccessKey) (v : View) (r : Result (Unit {0})) (v' : View)
    : Type 0 where
  on_ok :
      All (λ k. is_active_key k.status ≡ true) ks → IfOk r (λ _. v' ≡ retire_all as_expired ks v)
  backed : All (IsCurrent v) ks → IsBacked v → IsBacked v'

broken_off :
    (ks : List AccessKey) (v v' : View) (e : Error)
    → (IsBacked v → IsBacked v')
    → ExpireLoop ks v (err e) v'
broken_off ks v v' e keep = record { on_ok = λ _. tt; backed = λ _ h. keep h }

after_expired :
    (k : AccessKey) (ks : List AccessKey) (v v₁ v' : View) (r : Result (Unit {0}))
    → v₁ ≡ retire_one as_expired k v
    → ExpireLoop ks v₁ r v'
    → ExpireLoop (k ∷ ks) v r v'
after_expired k ks v v₁ v' r e loop =
    let loop' = subst (λ x. ExpireLoop ks x r v') e loop in
    record {
      on_ok = λ (on, all_on).
          let once : retire_one as_expired k v
              ≡ (if is_active_key k.status then retire_one as_expired k v else v) =
            rw on refl in
          subst (λ x. IfOk r (λ _. v' ≡ retire_all as_expired ks x)) once (loop'.on_ok all_on);
      backed = λ current h.
          loop'.backed (retire_one-All as_expired as_expired-IsMark k ks v current.0 current.1)
            (retire_one-IsBacked as_expired as_expired-IsMark k v current.0 h);
    }

module _ {W : Type 0} (view : W → View) (s : AccessKeyService W) (lawful : Lawful view s) where
  expire_loop :
      (ks : List AccessKey) (w : W)
      → ExpireLoop ks (view w) (expire_all s ks w).0 (view (expire_all s ks w).1)
  unfolding expire_all
  expire_loop [] w = record { on_ok = λ _. refl; backed = λ _ h. h }
  expire_loop (k ∷ ks) w =
      let rest = expire_loop ks in
      retire_rule view s.db lawful.db (λ r. ExpireLoop (k ∷ ks) (view w) r.0 (view r.1)) _
        k.secret_reference (as_expired k) (expire_all s ks) w
        (revoke-Drops view s.provider lawful.provider k.secret_reference)
        (λ w' e. after_expired k ks (view w) (view w') _ _ e (rest w'))
        (λ e w' same. broken_off (k ∷ ks) (view w) (view w') e (subst IsBacked (sym same)))
        (λ e w' half.
          broken_off (k ∷ ks) (view w) (view w') e
            (λ h. subst IsBacked (sym half) (dropped-IsBacked k.secret_reference (view w) h)))

  module _ (now : Time) (v : View) (ks : List AccessKey)
      (due : Selects (λ k. k.id) (is_due now) v.access_keys ks)
      (keyed : (i : Uuid) (k : AccessKey) → v.access_keys i ≡ some k → k.id ≡ i) where
    swept : (v' : View) → v' ≡ retire_all as_expired ks v → Swept now v (pos (length ks)) v'
    swept v' e = record {
      due = ks;
      due_selected = due;
      counted = refl;
      rows = λ i.
          ap (λ x. x.access_keys i) e
          ∙ retire_selected as_expired as_expired-IsMark (is_due now) v ks due keyed i;
      cut = λ i k stored passes.
          ap (λ x. x.live k.secret_reference) e
          ∙ retire_selected-cut as_expired as_expired-IsMark (is_due now) v ks due keyed i k stored
              passes (ground arith);
      spared = λ r other.
          ap (λ x. x.live r) e
          ∙ retire_selected-spared as_expired as_expired-IsMark (is_due now) v ks due keyed r other;
    }

    sweep_loop :
        (w : W)
        → view w ≡ v
        → let m = expire_all s ks >> pure (pos (length ks)) in Sweeping now v (m w).0 (view (m w).1)
    sweep_loop w same =
        let loop =
          subst (λ x. ExpireLoop ks x (expire_all s ks w).0 (view (expire_all s ks w).1)) same
            (expire_loop ks w) in
        let active : All (λ k. is_active_key k.status ≡ true) ks =
          All-map ks (λ k h. ground (arith, h.1)) due.sound in
        let current = selected-IsCurrent as_expired as_expired-IsMark (is_due now) v ks due keyed in
        bind_rule (λ r. Sweeping now v r.0 (view r.1)) _ _ w
          (λ _ done. record {
            on_ok = swept _ (
                subst (λ r. IfOk r (λ _. view (expire_all s ks w).1 ≡ retire_all as_expired ks v))
                  done (loop.on_ok active));
            backed = loop.backed current;
          })
          (λ e _. record { on_ok = tt; backed = loop.backed current })

  sweeping :
      (w : W) → Sweeping (s.db.now w) (view w) (sweep_expired s w).0 (view (sweep_expired s w).1)
  unfolding sweep_expired Keys.find_expired
  sweeping w =
      let now = s.db.now w in
      let same = lawful.db.access_keys.find_view (is_due now) w in
      bind_rule (λ r. Sweeping now (view w) r.0 (view r.1)) (Keys.find_expired s.db) _ w
        (λ ks found.
          sweep_loop now (view w) ks (lawful.db.access_keys.find_ok (is_due now) w ks found)
            (lawful.db.access_keys.keyed w) _ same)
        (λ e _. record { on_ok = tt; backed = subst IsBacked (sym same) })

  -- A `SweepExpired` that returns `n` at the time `now` has found `n` due keys, which are the ACTIVE
  -- ones whose expiry is before `now`. The row of each is EXPIRED, with no other column changed, and
  -- the data plane does not serve its credential; all other rows are as they were, and so is every
  -- credential that no due key refers to.
  pub sweep_outcome :
      (w : W) (n : ℤ)
      → (sweep_expired s w).0 ≡ ok n
      → Swept (s.db.now w) (view w) n (view (sweep_expired s w).1)
  sweep_outcome w n h =
      subst (λ r. IfOk r (λ x. Swept (s.db.now w) (view w) x (view (sweep_expired s w).1))) h
        (sweeping w).on_ok

  -- If each credential that is served is backed by an ACTIVE row, so it is after a `SweepExpired`,
  -- whatever it answers.
  pub sweep-IsBacked : (w : W) → IsBacked (view w) → IsBacked (view (sweep_expired s w).1)
  sweep-IsBacked w h = (sweeping w).backed h
