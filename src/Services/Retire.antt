-- ===== src/Services/Retire.antt =====
-- The two writes by which the services take a key out of service, in their order: the data plane
-- drops it, then its row is written.
use vpn_backend.Base.{
  Bool, false, some, String, eq_iff, ◌≡◌, sym, ap, ◌∙◌, subst, ◌⊎◌, inl, inr, arith,
}
use vpn_backend.Errors.{Error}
use vpn_backend.Action.{
  Result, ok, err, Action, ◌>>◌, on_error, bind_rule, on_error_world, on_error-eq-ok,
  on_error-eq-err,
}
use vpn_backend.Models.{AccessKey}
use vpn_backend.Database.{Gorm}
use vpn_backend.Database.View.{View, put, drop_live}
use vpn_backend.Database.Laws.{LawfulGorm, set_access_keys}
use vpn_backend.Database.Backing.{IsBacked, drop-IsBacked, write-IsBacked}
use vpn_backend.Provider.{VpnProvider}
use vpn_backend.Provider.Laws.{LawfulProvider, set_live}
use vpn_backend.Repositories.AccessKeys as Keys

-- The view after the data plane has dropped `r`, and after the row of `k'` has been written too.
abbrev pub dropped : String → View → View
dropped r v = set_live (drop_live r v.live) v

abbrev pub retired : String → AccessKey → View → View
retired r k' v = set_access_keys (put k'.id k' v.access_keys) (dropped r v)

pub drop_live_self : (r : String) (live : String → Bool) → drop_live r live r ≡ false
drop_live_self r live = ground (arith, eq_iff r r)

module _ {W : Type 0} (view : W → View) where
  -- An action that drops the key `r`, or fails with no effect or with that one.
  pub record Drops (r : String) (m : Action W (Unit {0})) : Type 0 where
    pub drop_ok : (w : W) → (m w).0 ≡ ok tt → view (m w).1 ≡ dropped r (view w)
    pub drop_err :
        (w : W) (e : Error)
        → (m w).0 ≡ err e
        → (view (m w).1 ≡ view w) ⊎ (view (m w).1 ≡ dropped r (view w))

  pub revoke-Drops :
      (p : VpnProvider W) → LawfulProvider view p → (r : String) → Drops r (p.revoke_access_key r)
  revoke-Drops p lawful r = record { drop_ok = lawful.revoke_ok r; drop_err = lawful.revoke_err r }

  pub on_error-Drops :
      (g : Error → Error) (r : String) (m : Action W (Unit {0}))
      → Drops r m
      → Drops r (on_error g m)
  on_error-Drops g r m d = record {
    drop_ok = λ w h. on_error_ok_view w h;
    drop_err = λ w e h. on_error_err_view w e h;
  }
    where
      on_error_ok_view :
          (w : W) → (on_error g m w).0 ≡ ok tt → view (on_error g m w).1 ≡ dropped r (view w)
      on_error_ok_view w h =
          ap view (on_error_world g m w) ∙ d.drop_ok w (on_error-eq-ok g m w tt h)

      on_error_err_view :
          (w : W) (e : Error)
          → (on_error g m w).0 ≡ err e
          → (view (on_error g m w).1 ≡ view w) ⊎ (view (on_error g m w).1 ≡ dropped r (view w))
      on_error_err_view w e h =
          let (e', failed) = on_error-eq-err g m w e h in
          subst (λ x. (view x ≡ view w) ⊎ (view x ≡ dropped r (view w)))
            (sym (on_error_world g m w)) (d.drop_err w e' failed)

  module _ (db : Gorm W) (lawful : LawfulGorm view db) where
    -- Drop, write, go on: what holds of the rest holds of the whole, if it holds where the chain
    -- breaks off, with nothing done or with the data plane's part done.
    pub retire_rule :
        {B : Type 0} (Q : Result B × W → Type 0) (m : Action W (Unit {0})) (r : String)
        (k' : AccessKey) (rest : Action W B) (w : W)
        → Drops r m
        → ((w' : W) → view w' ≡ retired r k' (view w) → Q (rest w'))
        → ((e : Error) (w' : W) → view w' ≡ view w → Q (err e, w'))
        → ((e : Error) (w' : W) → view w' ≡ dropped r (view w) → Q (err e, w'))
        → Q ((m >> (Keys.update db k' >> rest)) w)
    unfolding Keys.update
    retire_rule Q m r k' rest w d done unchanged half =
        bind_rule Q m _ w
          (λ _ sent.
            let gone = d.drop_ok w sent in
            bind_rule Q (db.access_keys.save k') _ (m w).1
              (λ _ saved. done _ (
                lawful.access_keys.save_ok k' _ saved
                ∙ ap (λ v. set_access_keys (put k'.id k' v.access_keys) v) gone))
              (λ e failed. half e _ (lawful.access_keys.save_err k' _ e failed ∙ gone)))
          (λ e failed. elim (d.drop_err w e failed) [
            | inl same ↦ unchanged e _ same
            | inr gone ↦ half e _ gone
          ])

-- Taking out of service keeps every served key backed, between the two writes too.
pub dropped-IsBacked : (r : String) (v : View) → IsBacked v → IsBacked (dropped r v)
dropped-IsBacked r v h = drop-IsBacked v r h

pub retired-IsBacked :
    (k k' : AccessKey) (v : View)
    → v.access_keys k'.id ≡ some k
    → IsBacked v
    → IsBacked (retired k.secret_reference k' v)
retired-IsBacked k k' v stored h =
    write-IsBacked (dropped k.secret_reference v) k'.id k k' stored
      (drop_live_self k.secret_reference v.live) (drop-IsBacked v k.secret_reference h)
