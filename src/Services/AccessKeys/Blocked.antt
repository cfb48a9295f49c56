-- ===== src/Services/AccessKeys/Blocked.antt =====
-- Keys whose credential an Outline server does not know, as after a `Revoke` that has dropped it and
-- could not write the row.
use mathlib.Core.List.{Memᴰ}
use vpn_backend.Base.{
  true, false, some, String, eq_iff, List, [], ◌∷◌, ◌≡◌, ◌≢◌, All, refl, sym, ap, ◌∙◌, subst, inl,
  inr, fun_ext, arith,
}
use vpn_backend.Errors.{Error, wrapped}
use vpn_backend.Action.{Result, err, bind_rule, on_error-eq-ok}
use vpn_backend.Models.{Uuid, AccessKey}
use vpn_backend.Database.View.{View, drop_live}
use vpn_backend.Database.Laws.{Distinct}
use vpn_backend.Provider.Laws.{Refuses}
use vpn_backend.Vpn.Outline.{OutlineApi, outline_provider}
use vpn_backend.Vpn.Outline.Contract.{LawfulApi, outline_provider-Refuses}
use vpn_backend.Repositories.AccessKeys as Keys
use vpn_backend.Repositories.AccessKeys.{LoadedKey}
use vpn_backend.Services.Retire.{dropped, retire_rule, revoke-Drops, retired}
use vpn_backend.Services.AccessKeys.{AccessKeyService, get, revoke, expire_all, sweep_expired}
use vpn_backend.Services.AccessKeys.Lookup.{Lawful, get-IsRead, get-stored}
use vpn_backend.Services.AccessKeys.Revocation.{revoke_key-Drops}
use vpn_backend.Services.AccessKeys.Sweep.{as_expired, is_due}

-- Dropping what is not served changes nothing.
dropped_missing : (r : String) (v : View) → v.live r ≡ false → dropped r v ≡ v
dropped_missing r v h =
    ap (λ f. record v { live = f }) (fun_ext (λ s. ground (arith, eq_iff r s, h)))

-- The row of the key is stored, and the data plane does not serve its credential.
abbrev pub IsStuck : Uuid → AccessKey → View → Type 0
IsStuck i k v = (v.access_keys i ≡ some k) × (v.live k.secret_reference ≡ false)

module _ {W : Type 0} (view : W → View) (api : OutlineApi W) (documented : LawfulApi view api)
    (s : AccessKeyService W) (lawful : Lawful view s)
    (outline : s.provider ≡ outline_provider api) where
  refuses : Refuses view s.provider
  refuses = subst (Refuses view) (sym outline) (outline_provider-Refuses view api documented)

  -- With the Outline provider, `Revoke` of a key that is stored, but whose credential is not served, fails and
  -- changes nothing: if the key is ACTIVE, it stays so, however often it is revoked.
  pub revoke_blocked :
      (id : Uuid) (w : W) (k : AccessKey)
      → (view w).access_keys id ≡ some k
      → (view w).live k.secret_reference ≡ false
      → (e : Error) × ((revoke s id w).0 ≡ err e) × (view (revoke s id w).1 ≡ view w)
  unfolding revoke
  revoke_blocked id w k stored missing =
      bind_rule Fails (get s id) _ w
        (λ loaded found.
          let same = get-IsRead view s lawful id w in
          let at = get-stored view s lawful id w loaded found in
          let key : k ≡ loaded.key = cc (stored, at) in
          let gone : (view w).live loaded.key.secret_reference ≡ false =
            subst (λ (x : AccessKey). (view w).live x.secret_reference ≡ false) key missing in
          let gone' = ap (λ (v : View). v.live loaded.key.secret_reference) same ∙ gone in
          bind_rule Fails _ _ _
            (λ _ sent.
              let (e, failed) = refuses loaded.key.secret_reference _ gone' in
              absurd (cc (on_error-eq-ok (wrapped "revoke on data plane") _ _ tt sent, failed)))
            (λ e failed.
              elim ((revoke_key-Drops view s lawful loaded.key.secret_reference).drop_err _ e
                failed) [
                  | inl kept ↦ (e, refl, kept ∙ same)
                  | inr cut ↦ (e, refl, cut ∙ dropped_missing _ _ gone' ∙ same)
                ]))
        (λ e _. (e, refl, get-IsRead view s lawful id w))
    where
      Fails : Result LoadedKey × W → Type 0
      Fails r = (e : Error) × (r.0 ≡ err e) × (view r.1 ≡ view w)

  abbrev Stops : Uuid → AccessKey → {A : Type 0} → Result A × W → Type 0
  Stops i k r = (e : Error) × (r.0 ≡ err e) × IsStuck i k (view r.1)

  still : (r q : String) (v : View) → v.live q ≡ false → drop_live r v.live q ≡ false
  still r q v h = ground (arith, h)

  unmoved : (i : Uuid) (k : AccessKey) (v v' : View) → v' ≡ v → IsStuck i k v → IsStuck i k v'
  unmoved i k v v' e stuck = subst (IsStuck i k) (sym e) stuck

  cut_off :
      (r : String) (i : Uuid) (k : AccessKey) (v v' : View)
      → v' ≡ dropped r v
      → IsStuck i k v
      → IsStuck i k v'
  cut_off r i k v v' e (stored, missing) =
      subst (IsStuck i k) (sym e) (stored, still r k.secret_reference v missing)

  passed :
      (x : AccessKey) (i : Uuid) (k : AccessKey) (v v' : View)
      → x.id ≢ i
      → v' ≡ retired x.secret_reference (as_expired x) v
      → IsStuck i k v
      → IsStuck i k v'
  passed x i k v v' other e (stored, missing) =
      subst (IsStuck i k) (sym e)
        (ground (arith, stored, other), still x.secret_reference k.secret_reference v missing)

  -- The loop of the sweep does not get past such a key.
  expire_blocked :
      (ks : List AccessKey) (w : W) (i : Uuid) (k : AccessKey)
      → Memᴰ k ks
      → Distinct (λ x. x.id) ks
      → k.id ≡ i
      → IsStuck i k (view w)
      → Stops i k (expire_all s ks w)
  unfolding expire_all
  expire_blocked [] w i k m distinct at stuck = elim m [ ]
  expire_blocked (x ∷ ks) w i k (Memᴰ.head same) distinct at stuck =
      bind_rule (Stops i k) _ _ w
        (λ _ sent.
          let gone =
            subst (λ (y : AccessKey). (view w).live y.secret_reference ≡ false) same (stuck.1) in
          let (e, failed) = refuses x.secret_reference w gone in absurd (cc (sent, failed)))
        (λ e failed. elim (lawful.provider.revoke_err x.secret_reference w e failed) [
          | inl kept ↦ (e, refl, unmoved i k (view w) _ kept stuck)
          | inr cut ↦ (e, refl, cut_off x.secret_reference i k (view w) _ cut stuck)
        ])
  expire_blocked (x ∷ ks) w i k (Memᴰ.tail m) (apart, distinct) at stuck =
      let rest = λ (w' : W). expire_blocked ks w' i k m distinct at in
      let other : x.id ≢ i = λ e. other_id ks apart m (e ∙ sym at) in
      retire_rule view s.db lawful.db (Stops i k) _ x.secret_reference (as_expired x)
        (expire_all s ks) w (revoke-Drops view s.provider lawful.provider x.secret_reference)
        (λ w' e. rest w' (passed x i k (view w) (view w') other e stuck))
        (λ e w' kept. (e, refl, unmoved i k (view w) (view w') kept stuck))
        (λ e w' cut. (e, refl, cut_off x.secret_reference i k (view w) (view w') cut stuck))
    where
      other_id : (ys : List AccessKey) → All (λ y. x.id ≢ y.id) ys → Memᴰ k ys → x.id ≢ k.id
      other_id [] _ m = elim m [ ]
      other_id (y ∷ ys) (h, hs) (Memᴰ.head e) = λ same. h (same ∙ ap (λ (z : AccessKey). z.id) e)
      other_id (y ∷ ys) (h, hs) (Memᴰ.tail n) = other_id ys hs n

  -- With the Outline provider, if there is a stored key that is due, but whose credential is not
  -- served, a `SweepExpired` of the keys fails and leaves the row of this key as it was and its credential not
  -- served, so that a later sweep meets it again.
  pub sweep_blocked :
      (w : W) (i : Uuid) (k : AccessKey)
      → (view w).access_keys i ≡ some k
      → is_due (s.db.now w) k ≡ true
      → (view w).live k.secret_reference ≡ false
      → (e : Error) × ((sweep_expired s w).0 ≡ err e) × IsStuck i k (view (sweep_expired s w).1)
  unfolding sweep_expired Keys.find_expired
  sweep_blocked w i k stored due missing =
      let same = lawful.db.access_keys.find_view (is_due (s.db.now w)) w in
      let at = lawful.db.access_keys.keyed w i k stored in
      let stuck = unmoved i k (view w) _ same (stored, missing) in
      bind_rule (Stops i k) (Keys.find_expired s.db) _ w
        (λ ks found.
          let selected = lawful.db.access_keys.find_ok (is_due (s.db.now w)) w ks found in
          let (e, failed, after) =
            expire_blocked ks _ i k (selected.complete i k stored due) selected.distinct at stuck in
          bind_rule (Stops i k) _ _ _ (λ _ done. absurd (cc (done, failed)))
            (λ e _. (e, refl, after)))
        (λ e _. (e, refl, stuck))
