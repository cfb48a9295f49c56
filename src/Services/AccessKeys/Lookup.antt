-- ===== src/Services/AccessKeys/Lookup.antt =====
-- What the service relies on, and the lookup that each of its operations starts with.
use vpn_backend.Base.{some, ◌≡◌, refl, ap, ==_iff, arith}
use vpn_backend.Action.{ok, bind-eq-ok, on_error-eq-ok}
use vpn_backend.Models.{Uuid}
use vpn_backend.Database.{Gorm}
use vpn_backend.Database.View.{View}
use vpn_backend.Database.Laws.{LawfulGorm}
use vpn_backend.Database.Reads.{IsRead, bind-IsRead, on_error-IsRead}
use vpn_backend.Provider.Laws.{LawfulProvider}
use vpn_backend.Platform.{LawfulRandom, LawfulEncoding, LawfulAead}
use vpn_backend.Repositories.AccessKeys as Keys
use vpn_backend.Repositories.AccessKeys.{LoadedKey, attach}
use vpn_backend.Services.{or_not_found}
use vpn_backend.Services.AccessKeys.{AccessKeyService, get}

-- The database, the data plane, the random source and the cipher behave as documented.
pub record Lawful {W : Type 0} (view : W → View) (s : AccessKeyService W) : Type 0 where
  pub db : LawfulGorm view s.db
  pub provider : LawfulProvider view s.provider
  pub random : LawfulRandom view s.random
  pub box_random : LawfulRandom view s.secret_box.random
  pub box_encoding : LawfulEncoding s.secret_box.encoding
  pub aead : LawfulAead s.secret_box.gcm

module _ {W : Type 0} (view : W → View) (db : Gorm W) (lawful : LawfulGorm view db) where
  pub find_by_id-IsRead : (id : Uuid) → IsRead view (Keys.find_by_id db id)
  unfolding Keys.find_by_id
  find_by_id-IsRead id = bind-IsRead view _ _ (lawful.access_keys.first_view _) λ key.
      bind-IsRead view _ _ (lawful.users.find_view _)
        λ users. bind-IsRead view _ _ (lawful.servers.find_view _) λ servers w. refl

  pub find_by_id-stored :
      (id : Uuid) (w : W) (loaded : LoadedKey)
      → (Keys.find_by_id db id w).0 ≡ ok loaded
      → (view w).access_keys id ≡ some loaded.key
  unfolding Keys.find_by_id
  find_by_id-stored id w loaded h =
      let (key, found, h₁, _) = bind-eq-ok _ _ w loaded h in
      let (users, _, h₂, _) = bind-eq-ok _ _ _ loaded h₁ in
      let (servers, _, h₃, _) = bind-eq-ok _ _ _ loaded h₂ in
      let (stored, same) = lawful.access_keys.first_ok _ w key found in
      let at : key.id ≡ id = (==_iff key.id id).0 same in
      ground (arith, stored, ap (view w).access_keys at, h₃)

module _ {W : Type 0} (view : W → View) (s : AccessKeyService W) (lawful : Lawful view s) where
  pub get-IsRead : (id : Uuid) → IsRead view (get s id)
  unfolding get
  get-IsRead id =
      on_error-IsRead view (or_not_found "access key") _ (find_by_id-IsRead view s.db lawful.db id)

  -- A key that is found is the row of its identifier.
  pub get-stored :
      (id : Uuid) (w : W) (loaded : LoadedKey)
      → (get s id w).0 ≡ ok loaded
      → (view w).access_keys id ≡ some loaded.key
  unfolding get
  get-stored id w loaded h =
      find_by_id-stored view s.db lawful.db id w loaded
        (on_error-eq-ok (or_not_found "access key") _ w loaded h)
