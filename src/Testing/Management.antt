-- ===== src/Testing/Management.antt =====
-- A management API that creates keys, and deletes those that it serves.
use Prim.Native.String.{[] as []ˢ, ◌∷◌ as ◌∷ˢ◌, ◌++◌ as ◌++ˢ◌}
use Prim.Native.String.append
use Prim.Native.Char.{code}
use vpn_backend.Base.{
  subst, ==_iff, some, Option, ◌==◌, ℕ, Bool, true, false, none, ◌⊎◌, String, str_eq, ◌≡◌, refl,
  sym, ap, ◌∙◌, inl, inr, Bool-cases, if◌then◌else◌,
}
use vpn_backend.Base.Int.{pos}
use vpn_backend.Errors.{message}
use vpn_backend.Action.{Result, ok, err}
use vpn_backend.Database.View.{add_live, drop_live}
use vpn_backend.Provider.Laws.{set_live}
use vpn_backend.Vpn.Outline.{OutlineApi, OutlineAccessKey, Reply, is_success}
use vpn_backend.Vpn.Outline.Contract.{LawfulApi}
use vpn_backend.Testing.World.{World, view}
use vpn_backend.Text.{after_prefix}
use vpn_backend.Vpn.Outline.{key_path}

abbrev reply : ℕ → String → Result Reply
reply status text = ok (record { status = pos status; body = text })

abbrev post : World → Result Reply × World
post w =
    if w.live w.next_key
    then (reply 409 "", w)
    else (reply 201 w.next_key, record w { live = add_live w.next_key w.live })

abbrev delete_key : String → World → Result Reply × World
delete_key id w =
    if w.live id then (reply 204 "", record w { live = drop_live id w.live }) else (reply 404 "", w)

abbrev delete_path : Option String → World → Result Reply × World
delete_path none w = (reply 404 "", w)
delete_path (some id) w = delete_key id w

abbrev pub api : OutlineApi World
api = record {
  exchange = λ method path body w.
      if str_eq method "POST"
      then post w
      else (if str_eq method "DELETE"
          then delete_path (after_prefix "/access-keys/" path) w
          else (reply 204 "", w));
  decode_key = λ text. ok (record {
    id = text;
    password = "secret";
    port = pos 17508;
    method = "chacha20-ietf-poly1305";
  });
  decode_info = λ text. err (message "EOF");
  decode_transfer = λ text. err (message "EOF");
}

after_prefix-append : (p s : String) → after_prefix p (p ++ˢ s) ≡ some s
unfolding after_prefix
after_prefix-append []ˢ s = ap (after_prefix []ˢ) (λ i. append.nil s i)
after_prefix-append (c ∷ˢ p) s =
    let same : (code c == code c) ≡ true = (==_iff (code c) (code c)).1 refl in
    ap (after_prefix (c ∷ˢ p)) (λ i. append.cons c p s i) ∙ rw same (after_prefix-append p s)

pub deletes :
    (id : String) (w : World) → api.exchange "DELETE" (key_path id) none w ≡ delete_key id w
deletes id w = ap (λ o. delete_path o w) (after_prefix-append "/access-keys/" id)

post_effect :
    (w : World)
    → (view (post w).1 ≡ view w)
      ⊎ ((r : String) × (w.live r ≡ false)
          × (view (post w).1 ≡ set_live (add_live r w.live) (view w)))
post_effect w = elim (Bool-cases (w.live w.next_key)) [
  | inl taken ↦ inl (rw taken refl)
  | inr free ↦ inr (w.next_key, free, rw free refl)
]

post_ok :
    (w : World) (r : Reply) (k : OutlineAccessKey)
    → (post w).0 ≡ ok r
    → is_success r.status ≡ true
    → api.decode_key r.body ≡ ok k
    → (w.live k.id ≡ false) × (view (post w).1 ≡ set_live (add_live k.id w.live) (view w))
post_ok w r k sent good decoded = elim (Bool-cases (w.live w.next_key)) [
  | inl taken ↦
      let same : (record { status = pos 409; body = "" }) ≡ r = cc (rw taken at sent) in
      let failed : is_success r.status ≡ false =
        ap (λ (x : Reply). is_success x.status) (sym same) in
      absurd (cc (good, failed))
  | inr free ↦
      let body : w.next_key ≡ r.body = ap (λ (x : Result Reply). body_of x) (rw free at sent) in
      let id : r.body ≡ k.id = ap (λ (x : Result OutlineAccessKey). id_of x) decoded in
      rw (← id, ← body, free) (refl, refl)
]
  where
    body_of : Result Reply → String
    body_of (ok x) = x.body
    body_of (err e) = ""

    id_of : Result OutlineAccessKey → String
    id_of (ok x) = x.id
    id_of (err e) = ""

delete_effect :
    (id : String) (w : World)
    → (view (delete_key id w).1 ≡ view w)
      ⊎ (view (delete_key id w).1 ≡ set_live (drop_live id w.live) (view w))
delete_effect id w = elim (Bool-cases (w.live id)) [
  | inl there ↦ inr (rw there refl)
  | inr missing ↦ inl (rw missing refl)
]

is_good : Result Reply → Bool
is_good (ok x) = is_success x.status
is_good (err e) = false

delete_ok :
    (id : String) (w : World)
    → is_good (delete_key id w).0 ≡ true
    → view (delete_key id w).1 ≡ set_live (drop_live id w.live) (view w)
unfolding is_good
delete_ok id w good = elim (Bool-cases (w.live id)) [
  | inl there ↦ rw there refl
  | inr missing ↦ absurd (cc (rw missing at good))
]

delete_missing : (id : String) (w : World) → w.live id ≡ false → is_good (delete_key id w).0 ≡ false
unfolding is_good
delete_missing id w missing = rw missing refl

sent_good : (r : Result Reply) (x : Reply) → r ≡ ok x → is_good r ≡ is_success x.status
unfolding is_good
sent_good r x e = ap is_good e

pub api-LawfulApi : LawfulApi view api
api-LawfulApi = record {
  post_effect = λ body w. post_effect w;
  post_ok = λ body w r k sent good decoded. post_ok w r k sent good decoded;
  delete_effect = λ id w.
      subst
        (λ (x : Result Reply × World).
          (view x.1 ≡ view w) ⊎ (view x.1 ≡ set_live (drop_live id w.live) (view w)))
        (sym (deletes id w)) (delete_effect id w);
  delete_ok = λ id w r sent good.
      ap (λ (x : Result Reply × World). view x.1) (deletes id w)
      ∙ delete_ok id w (answer id w r sent ∙ good);
  delete_missing = λ id w r missing sent. sym (answer id w r sent) ∙ delete_missing id w missing;
  put_name_view = λ id body w. refl;
  put_limit_view = λ id body w. refl;
  get_server_view = λ w. refl;
}
  where
    answer :
        (id : String) (w : World) (r : Reply)
        → (api.exchange "DELETE" (key_path id) none w).0 ≡ ok r
        → is_good (delete_key id w).0 ≡ is_success r.status
    answer id w r sent =
        sent_good (delete_key id w).0 r
          (ap (λ (x : Result Reply × World). x.0) (sym (deletes id w)) ∙ sent)
