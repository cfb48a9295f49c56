-- ===== src/Testing/Revocations.antt =====
-- The keys' operations with the Outline provider: a key that is served, and one that is not any more.
use vpn_backend.Base.{
  true, false, none, some, ◌≡◌, ◌∙◌, refl, sym, ap, subst, if◌then◌else◌, ◌==◌, ==_iff, str_eq,
  Bool-cases, inl, inr,
}
use vpn_backend.Base.Int.{ℤ, pos}
use vpn_backend.Errors.{Error, message}
use vpn_backend.Action.{
  Result, ok, err, on_error, ◌>>=◌, Returns, lift, fail, on_error-Returns, bind-Returns,
}
use vpn_backend.Models.{Uuid, AccessKey}
use vpn_backend.Text.{after_prefix}
use vpn_backend.Database.View.{remove}
use vpn_backend.Database.Laws.{set_access_keys}
use vpn_backend.Provider.Laws.{RevokesServed}
use vpn_backend.Repositories.AccessKeys.{LoadedKey}
use vpn_backend.Vpn.{◌<>◌}
use vpn_backend.Vpn.Outline.{
  Reply, is_success, key_path, no_out, outline_provider, revoke_access_key, rotate_access_key,
  create_access_key, rename_access_key, set_data_limit, do_json,
}
use vpn_backend.Vpn.Outline.Contract.{outline_provider-LawfulProvider}
use vpn_backend.Services.Retire.{retired, dropped}
use vpn_backend.Services.AccessKeys.{AccessKeyService, key_spec, revoke, delete, sweep_expired}
use vpn_backend.Services.AccessKeys.Lookup as Keys
use vpn_backend.Services.AccessKeys.Revocation.{as_revoked}
use vpn_backend.Services.AccessKeys.Sweep.{Swept, is_due}
use vpn_backend.Services.AccessKeys.Success.{revoke_done, delete_done, sweep_done}
use vpn_backend.Services.AccessKeys.Blocked.{IsStuck, revoke_blocked, sweep_blocked}
use vpn_backend.Testing.World.{
  World, view, db-LawfulGorm, db-ReliableGorm, access_keys, provisioned, aead-LawfulAead,
  encoding-LawfulEncoding, random-LawfulRandom,
}
use vpn_backend.Testing.Management.{api, api-LawfulApi, deletes}
use vpn_backend.Testing.Examples.{laptop_key, phone_key, world}

abbrev outline_keys : AccessKeyService World
outline_keys = record access_keys { provider = outline_provider api }

outline_keys-Lawful : Keys.Lawful view outline_keys
outline_keys-Lawful = record {
  db = db-LawfulGorm;
  provider = outline_provider-LawfulProvider view api api-LawfulApi;
  random = random-LawfulRandom;
  box_random = random-LawfulRandom;
  box_encoding = encoding-LawfulEncoding;
  aead = aead-LawfulAead;
}

outline-RevokesServed : RevokesServed view outline_keys.provider
unfolding revoke_access_key do_json
outline-RevokesServed r w served = on_error-Returns _ _ w (
    bind-Returns _ _ w (no_content, sent)
      λ reply answered.
        let same : no_content ≡ reply = cc (sent, answered) in
        subst
          (λ (x : Reply).
            Returns
              (if is_success x.status
                then lift (no_out x.body)
                else fail (message ("unexpected status: " <> x.body)))
              (api.exchange "DELETE" (key_path r) none w).1)
          same (tt, refl))
  where
    no_content : Reply
    no_content = record { status = pos 204; body = "" }

    sent : (api.exchange "DELETE" (key_path r) none w).0 ≡ ok no_content
    sent = ap (λ (x : Result Reply × World). x.0) (deletes r w) ∙ rw served refl

revoke_done_example :
    (loaded : LoadedKey) × ((revoke outline_keys 7 world).0 ≡ ok loaded)
    × (loaded.key ≡ as_revoked laptop_key)
    × (view (revoke outline_keys 7 world).1 ≡ retired "k1" (as_revoked laptop_key) (view world))
revoke_done_example =
    revoke_done view outline_keys outline_keys-Lawful db-ReliableGorm outline-RevokesServed 7 world
      laptop_key refl refl

delete_done_example :
    ((delete outline_keys 7 world).0 ≡ ok tt)
    × (view (delete outline_keys 7 world).1
        ≡ set_access_keys (remove 7 (view world).access_keys) (dropped "k1" (view world)))
delete_done_example =
    delete_done view outline_keys outline_keys-Lawful db-ReliableGorm outline-RevokesServed 7 world
      laptop_key refl (λ _. refl)

only_laptop :
    (i : Uuid) (k : AccessKey)
    → (view world).access_keys i ≡ some k
    → is_due 100 k ≡ true
    → (i ≡ 7) × (k ≡ laptop_key)
only_laptop i k stored due = elim (Bool-cases (7 == i)) [
  | inl first ↦ (sym ((==_iff 7 i).0 first), cc (rw first at stored))
  | inr other ↦ elim (Bool-cases (8 == i)) [
    | inl second ↦
        let phone : phone_key ≡ k = cc (rw (other, second) at stored) in
        absurd (cc (subst (λ (x : AccessKey). is_due 100 x ≡ true) (sym phone) due))
    | inr third ↦ absurd (cc (rw (other, third) at stored))
  ]
]

sweep_done_example :
    (n : ℤ) × ((sweep_expired outline_keys world).0 ≡ ok n)
    × Swept 100 (view world) n (view (sweep_expired outline_keys world).1)
sweep_done_example =
    sweep_done view outline_keys outline_keys-Lawful db-ReliableGorm outline-RevokesServed world
      (λ i k stored due.
        ap (λ (x : AccessKey). str_eq "k1" x.secret_reference) (only_laptop i k stored due).1)
      (λ i j k l at at' due due' other.
        absurd (other ((only_laptop i k at due).0 ∙ sym (only_laptop j l at' due').0)))

-- The data plane has lost the credential of the laptop.
abbrev lost : World
lost = record world { live = λ r. false }

revoke_blocked_example :
    (e : Error) × ((revoke outline_keys 7 lost).0 ≡ err e)
    × (view (revoke outline_keys 7 lost).1 ≡ view lost)
revoke_blocked_example =
    revoke_blocked view api api-LawfulApi outline_keys outline_keys-Lawful refl 7 lost laptop_key
      refl refl

sweep_blocked_example :
    (e : Error) × ((sweep_expired outline_keys lost).0 ≡ err e)
    × IsStuck 7 laptop_key (view (sweep_expired outline_keys lost).1)
sweep_blocked_example =
    sweep_blocked view api api-LawfulApi outline_keys outline_keys-Lawful refl lost 7 laptop_key
      refl refl refl

-- The provider's calls with this API.
outline_revokes : (revoke_access_key api "k1" world).0 ≡ ok tt
unfolding revoke_access_key do_json on_error ◌>>=◌ after_prefix
outline_revokes = refl

outline_refuses : (revoke_access_key api "k0" world).1 ≡ world
unfolding revoke_access_key do_json on_error ◌>>=◌ after_prefix
outline_refuses = refl

outline_rotates :
    (rotate_access_key api "k1" (key_spec "laptop" (pos 0) (pos 17508)) world).0
    ≡ ok (provisioned "k2")
unfolding rotate_access_key revoke_access_key create_access_key rename_access_key set_data_limit
    do_json on_error ◌>>=◌ after_prefix
outline_rotates = refl
