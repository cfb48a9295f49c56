-- ===== src/Vpn/Outline/Contract.antt =====
-- The provider for Outline against the contract of the data plane.
use vpn_backend.Base.{
  true, false, Option, String, str_eq, ◌≡◌, refl, ◌∙◌, subst, ◌⊎◌, inl, inr, if_rule, if◌then◌else◌,
  Bool-cases,
}
use vpn_backend.Base.Int.{ℤ, pos, ltb_ℤ}
use vpn_backend.Errors.{Error, wrapped}
use vpn_backend.Action.{Result, ok, err, pure, ◌>>◌, on_error, bind_rule, on_error_rule, bind-eq-ok}
use vpn_backend.Database.View.{View, add_live, drop_live}
use vpn_backend.Database.Reads.{IsRead, bind-IsRead, on_error-IsRead}
use vpn_backend.Provider.{AccessKeySpec, ProvisionedKey}
use vpn_backend.Provider.Laws.{LawfulProvider, Refuses, set_live}
use vpn_backend.Vpn.{◌<>◌}
use vpn_backend.Vpn.Outline.{
  OutlineApi, OutlineAccessKey, Reply, Body, is_success, no_out, key_path, port_body,
  provisioned_key, do_json, rename_access_key, set_data_limit, create_access_key, revoke_access_key,
  rotate_access_key, get_server_status, outline_provider,
}

abbrev served : String → View → View
served r v = set_live (add_live r v.live) v

abbrev dropped : String → View → View
dropped r v = set_live (drop_live r v.live) v

-- The documented behaviour of the management API. A request that fails may have had its effect.
pub record LawfulApi {W : Type 0} (view : W → View) (api : OutlineApi W) : Type 0 where
  pub post_effect :
      (body : Option Body) (w : W)
      → let v' = view (api.exchange "POST" "/access-keys" body w).1 in
        (v' ≡ view w) ⊎ ((r : String) × ((view w).live r ≡ false) × (v' ≡ served r (view w)))
  -- The key of a good answer is new, and served.
  pub post_ok :
      (body : Option Body) (w : W) (reply : Reply) (k : OutlineAccessKey)
      → (api.exchange "POST" "/access-keys" body w).0 ≡ ok reply
      → is_success reply.status ≡ true
      → api.decode_key reply.body ≡ ok k
      → ((view w).live k.id ≡ false)
        × (view (api.exchange "POST" "/access-keys" body w).1 ≡ served k.id (view w))
  pub delete_effect :
      (id : String) (w : W)
      → let v' = view (api.exchange "DELETE" (key_path id) Option.none w).1 in
        (v' ≡ view w) ⊎ (v' ≡ dropped id (view w))
  pub delete_ok :
      (id : String) (w : W) (reply : Reply)
      → (api.exchange "DELETE" (key_path id) Option.none w).0 ≡ ok reply
      → is_success reply.status ≡ true
      → view (api.exchange "DELETE" (key_path id) Option.none w).1 ≡ dropped id (view w)
  -- A key that is not served is not found.
  pub delete_missing :
      (id : String) (w : W) (reply : Reply)
      → (view w).live id ≡ false
      → (api.exchange "DELETE" (key_path id) Option.none w).0 ≡ ok reply
      → is_success reply.status ≡ false
  -- The name and the data limit of a key say nothing of which keys are served.
  pub put_name_view :
      (id : String) (body : Option Body)
      → IsRead view (api.exchange "PUT" (key_path id <> "/name") body)
  pub put_limit_view :
      (id : String) (body : Option Body)
      → IsRead view (api.exchange "PUT" (key_path id <> "/data-limit") body)
  pub get_server_view : IsRead view (api.exchange "GET" "/server" Option.none)

abbrev Creating : View → Result ProvisionedKey → View → Type 0
Creating v (ok p) v' = (v.live p.provider_key_id ≡ false) × (v' ≡ served p.provider_key_id v)
Creating v (err e) v' = (v' ≡ v) ⊎ ((r : String) × (v.live r ≡ false) × (v' ≡ served r v))

abbrev Posting : View → Result OutlineAccessKey → View → Type 0
Posting v (ok k) v' = (v.live k.id ≡ false) × (v' ≡ served k.id v)
Posting v (err e) v' = (v' ≡ v) ⊎ ((r : String) × (v.live r ≡ false) × (v' ≡ served r v))

abbrev Revoking : String → View → Result (Unit {0}) → View → Type 0
Revoking r v (ok _) v' = v' ≡ dropped r v
Revoking r v (err e) v' = (v' ≡ v) ⊎ (v' ≡ dropped r v)

abbrev Rotating : String → View → Result ProvisionedKey → View → Type 0
Rotating r v (ok p) v' =
    (drop_live r v.live p.provider_key_id ≡ false) × (v' ≡ served p.provider_key_id (dropped r v))
Rotating r v (err e) v' =
    (v' ≡ v) ⊎ ((v' ≡ dropped r v) ⊎ ((r' : String) × (v' ≡ served r' (dropped r v))))

module _ {W : Type 0} (view : W → View) (api : OutlineApi W) (lawful : LawfulApi view api) where
  do_json-IsRead :
      {A : Type 0} (decode : String → Result A) (method path : String) (body : Option Body)
      → IsRead view (api.exchange method path body)
      → IsRead view (do_json api decode method path body)
  unfolding do_json
  do_json-IsRead decode method path body reads =
      bind-IsRead view _ _ reads
        λ reply. if_rule (IsRead view) (is_success reply.status) (λ w. refl) (λ w. refl)

  -- What the outcome of the request leads to, by the status.
  by_status :
      {A : Type 0} (P : Result A → View → Type 0) (decode : String → Result A)
      (method path : String) (body : Option Body) (w : W)
      → ((reply : Reply) (r : Result A)
          → (api.exchange method path body w).0 ≡ ok reply
          → is_success reply.status ≡ true
          → decode reply.body ≡ r
          → P r (view (api.exchange method path body w).1))
      → ((e : Error) → P (err e) (view (api.exchange method path body w).1))
      → P (do_json api decode method path body w).0 (view (do_json api decode method path body w).1)
  unfolding do_json
  by_status P decode method path body w good bad =
      bind_rule (λ r. P r.0 (view r.1)) _ _ w
        (λ reply sent. elim (Bool-cases (is_success reply.status)) [
          | inl success ↦ rw success (good reply _ sent success refl)
          | inr failure ↦ rw failure (bad _)
        ])
        (λ e _. bad e)

  posted :
      (body : Option Body) (w : W)
      → let m = do_json api api.decode_key "POST" "/access-keys" body in
        Posting (view w) (m w).0 (view (m w).1)
  posted body w =
      by_status (Posting (view w)) api.decode_key "POST" "/access-keys" body w decoded
        (λ e. lawful.post_effect body w)
    where
      decoded :
          (reply : Reply) (r : Result OutlineAccessKey)
          → (api.exchange "POST" "/access-keys" body w).0 ≡ ok reply
          → is_success reply.status ≡ true
          → api.decode_key reply.body ≡ r
          → Posting (view w) r (view (api.exchange "POST" "/access-keys" body w).1)
      decoded reply (ok k) sent good e = lawful.post_ok body w reply k sent good e
      decoded reply (err x) sent good e = lawful.post_effect body w

  deleted :
      (id : String) (w : W)
      → let m = do_json api no_out "DELETE" (key_path id) Option.none in
        Revoking id (view w) (m w).0 (view (m w).1)
  deleted id w =
      by_status (Revoking id (view w)) no_out "DELETE" (key_path id) Option.none w decoded
        (λ e. lawful.delete_effect id w)
    where
      decoded :
          (reply : Reply) (r : Result (Unit {0}))
          → (api.exchange "DELETE" (key_path id) Option.none w).0 ≡ ok reply
          → is_success reply.status ≡ true
          → no_out reply.body ≡ r
          → Revoking id (view w) r (view (api.exchange "DELETE" (key_path id) Option.none w).1)
      decoded reply (ok _) sent good e = lawful.delete_ok id w reply sent good
      decoded reply (err x) sent good e = lawful.delete_effect id w

  -- The calls that follow the creation change nothing that is served.
  rename_if-IsRead :
      (id name : String)
      → IsRead view (if str_eq name "" then pure tt else rename_access_key api id name)
  unfolding rename_access_key
  rename_if-IsRead id name =
      if_rule (IsRead view) (str_eq name "") (λ w. refl)
        (on_error-IsRead view _ _ (do_json-IsRead no_out "PUT" _ _ (lawful.put_name_view _ _)))

  limit_if-IsRead :
      (id : String) (limit : ℤ)
      → IsRead view (if ltb_ℤ (pos 0) limit then set_data_limit api id limit else pure tt)
  unfolding set_data_limit
  limit_if-IsRead id limit =
      if_rule (IsRead view) (ltb_ℤ (pos 0) limit)
        (on_error-IsRead view _ _ (do_json-IsRead no_out "PUT" _ _ (lawful.put_limit_view _ _)))
        (λ w. refl)

  created :
      (spec : AccessKeySpec) (v : View) (k : OutlineAccessKey) (w : W)
      → v.live k.id ≡ false
      → view w ≡ served k.id v
      → let m =
          (if str_eq spec.name "" then pure tt else rename_access_key api k.id spec.name)
          >> ((if ltb_ℤ (pos 0) spec.traffic_limit_bytes
                then set_data_limit api k.id spec.traffic_limit_bytes
                else pure tt)
              >> pure (provisioned_key k)) in
        Creating v (m w).0 (view (m w).1)
  created spec v k w free same =
      let named = rename_if-IsRead k.id spec.name w ∙ same in
      let limited = limit_if-IsRead k.id spec.traffic_limit_bytes _ ∙ named in
      bind_rule (λ r. Creating v r.0 (view r.1)) _ _ w
        (λ _ _.
          bind_rule (λ r. Creating v r.0 (view r.1)) _ _ _ (λ _ _. (free, limited))
            (λ e _. inr (k.id, free, limited)))
        (λ e _. inr (k.id, free, named))

  -- The same as `posted`, whatever the error is wrapped in.
  posted_wrapped :
      (g : Error → Error) (body : Option Body) (w : W)
      → let m = on_error g (do_json api api.decode_key "POST" "/access-keys" body) in
        Posting (view w) (m w).0 (view (m w).1)
  posted_wrapped g body w =
      let call = do_json api api.decode_key "POST" "/access-keys" body in
      let P = λ (r : Result OutlineAccessKey). Posting (view w) r (view (call w).1) in
      on_error_rule (λ r. Posting (view w) r.0 (view r.1)) g call w
        (λ k h. subst P h (posted body w)) (λ e h. subst P h (posted body w))

  creating :
      (spec : AccessKeySpec) (w : W)
      → Creating (view w) (create_access_key api spec w).0 (view (create_access_key api spec w).1)
  unfolding create_access_key
  creating spec w =
      let wrap = wrapped "outline: create access key" in
      let body = port_body spec.port in
      let m = on_error wrap (do_json api api.decode_key "POST" "/access-keys" body) in
      let P = λ (r : Result OutlineAccessKey). Posting (view w) r (view (m w).1) in
      bind_rule (λ r. Creating (view w) r.0 (view r.1)) m _ w
        (λ k made.
          let (free, e) = subst P made (posted_wrapped wrap body w) in
          created spec (view w) k _ free e)
        (λ e failed. subst P failed (posted_wrapped wrap body w))

  revoking :
      (id : String) (w : W)
      → Revoking id (view w) (revoke_access_key api id w).0 (view (revoke_access_key api id w).1)
  unfolding revoke_access_key
  revoking id w =
      let call = do_json api no_out "DELETE" (key_path id) Option.none in
      let P = λ (r : Result (Unit {0})). Revoking id (view w) r (view (call w).1) in
      on_error_rule (λ r. Revoking id (view w) r.0 (view r.1)) _ call w
        (λ _ h. subst P h (deleted id w)) (λ e h. subst P h (deleted id w))

  recreated :
      (id : String) (v v₁ v' : View) (r : Result ProvisionedKey)
      → v₁ ≡ dropped id v
      → Creating v₁ r v'
      → Rotating id v r v'
  recreated id v v₁ v' r same h = go r (subst (λ x. Creating x r v') same h)
    where
      go : (r : Result ProvisionedKey) → Creating (dropped id v) r v' → Rotating id v r v'
      go (ok p) h = h
      go (err e) (inl kept) = inr (inl kept)
      go (err e) (inr (x, _, more)) = inr (inr (x, more))

  rotating :
      (id : String) (spec : AccessKeySpec) (w : W)
      → Rotating id
          (view w)
          (rotate_access_key api id spec w).0
          (view (rotate_access_key api id spec w).1)
  unfolding rotate_access_key
  rotating id spec w =
      let m = revoke_access_key api id in
      let P = λ (r : Result (Unit {0})). Revoking id (view w) r (view (m w).1) in
      bind_rule (λ r. Rotating id (view w) r.0 (view r.1)) m _ w
        (λ _ done.
          recreated id (view w) _ _ _ (subst P done (revoking id w)) (creating spec (m w).1))
        (λ e failed. elim (subst P failed (revoking id w)) [
          | inl kept ↦ inl kept
          | inr gone ↦ inr (inl gone)
        ])

  status-IsRead : IsRead view (get_server_status api)
  unfolding get_server_status
  status-IsRead =
      bind-IsRead view _ _
        (on_error-IsRead view _ _
          (do_json-IsRead api.decode_info "GET" "/server" Option.none lawful.get_server_view))
        λ _ w. refl

  -- If the management API behaves as documented, the provider for Outline keeps the contract that
  -- the services rely on: a creation, a revocation or a rotation that returns has its effect on the
  -- keys that are served and no other, one that fails has at most a part of it, and reading the
  -- status has none.
  pub outline_provider-LawfulProvider : LawfulProvider view (outline_provider api)
  outline_provider-LawfulProvider = record {
    create_ok = λ spec w k h.
        subst (λ r. Creating (view w) r (view (create_access_key api spec w).1)) h
          (creating spec w);
    create_err = λ spec w e h.
        subst (λ r. Creating (view w) r (view (create_access_key api spec w).1)) h
          (creating spec w);
    revoke_ok = λ id w h.
        subst (λ r. Revoking id (view w) r (view (revoke_access_key api id w).1)) h (revoking id w);
    revoke_err = λ id w e h.
        subst (λ r. Revoking id (view w) r (view (revoke_access_key api id w).1)) h (revoking id w);
    rotate_ok = λ id spec w k h.
        subst (λ r. Rotating id (view w) r (view (rotate_access_key api id spec w).1)) h
          (rotating id spec w);
    rotate_err = λ id spec w e h.
        subst (λ r. Rotating id (view w) r (view (rotate_access_key api id spec w).1)) h
          (rotating id spec w);
    status_view = status-IsRead;
  }

  -- A revocation of a credential that is not served fails.
  pub outline_provider-Refuses : Refuses view (outline_provider api)
  unfolding revoke_access_key do_json
  outline_provider-Refuses id w missing =
      on_error_rule (λ (r : Result (Unit {0}) × W). (e : Error) × (r.0 ≡ err e)) _ _ w
        (λ _ sent. absurd (refused sent)) (λ e _. (_, refl))
    where
      refused : (do_json api no_out "DELETE" (key_path id) Option.none w).0 ≡ ok tt → ⊥
      refused sent =
          let (reply, answered, rest, _) = bind-eq-ok _ _ w tt sent in
          let bad = lawful.delete_missing id w reply missing answered in
          absurd (cc (rw bad at rest))
