-- ===== src/Services/Users/Lookup.antt =====
-- The lookup that the operations on users start with, and the write of a user's row.
use vpn_backend.Base.{some, ◌≡◌, refl, ap, ==_iff, arith}
use vpn_backend.Action.{ok, bind-eq-ok, on_error-eq-ok}
use vpn_backend.Models.{Uuid}
use vpn_backend.Database.{Gorm}
use vpn_backend.Database.View.{View}
use vpn_backend.Database.Laws.{LawfulGorm}
use vpn_backend.Database.Reads.{IsRead, bind-IsRead, on_error-IsRead}
use vpn_backend.Repositories.Users as Users
use vpn_backend.Repositories.Users.{LoadedUser}
use vpn_backend.Services.{or_not_found}
use vpn_backend.Services.Users.{UserService, get}
use vpn_backend.Services.Users.KeyLoop.{Lawful}

module _ {W : Type 0} (view : W → View) (db : Gorm W) (lawful : LawfulGorm view db) where
  pub find_by_id-IsRead : (id : Uuid) → IsRead view (Users.find_by_id db id)
  unfolding Users.find_by_id
  find_by_id-IsRead id = bind-IsRead view _ _ (lawful.users.first_view _) λ user.
      bind-IsRead view _ _ (lawful.access_keys.find_view _) λ keys.
        bind-IsRead view _ _ (lawful.servers.find_view _)
          λ _. bind-IsRead view _ _ (lawful.devices.find_view _) λ _ w. refl

  find_by_id-stored :
      (id : Uuid) (w : W) (loaded : LoadedUser)
      → (Users.find_by_id db id w).0 ≡ ok loaded
      → (view w).users id ≡ some loaded.user
  unfolding Users.find_by_id
  find_by_id-stored id w loaded h =
      let (user, found, h₁, _) = bind-eq-ok _ _ w loaded h in
      let (_, _, h₂, _) = bind-eq-ok _ _ _ loaded h₁ in
      let (_, _, h₃, _) = bind-eq-ok _ _ _ loaded h₂ in
      let (_, _, h₄, _) = bind-eq-ok _ _ _ loaded h₃ in
      let (stored, same) = lawful.users.first_ok _ w user found in
      let at : user.id ≡ id = (==_iff user.id id).0 same in
      ground (arith, stored, ap (view w).users at, h₄)

module _ {W : Type 0} (view : W → View) (s : UserService W) (lawful : Lawful view s) where
  pub get-IsRead : (id : Uuid) → IsRead view (get s id)
  unfolding get
  get-IsRead id =
      on_error-IsRead view (or_not_found "user") _ (find_by_id-IsRead view s.db lawful.db id)

  -- A user that is found is the row of its identifier.
  pub get-stored :
      (id : Uuid) (w : W) (loaded : LoadedUser)
      → (get s id w).0 ≡ ok loaded
      → (view w).users id ≡ some loaded.user
  unfolding get
  get-stored id w loaded h =
      find_by_id-stored view s.db lawful.db id w loaded
        (on_error-eq-ok (or_not_found "user") _ w loaded h)

  pub get-keyed :
      (id : Uuid) (w : W) (loaded : LoadedUser) → (get s id w).0 ≡ ok loaded → loaded.user.id ≡ id
  get-keyed id w loaded h = lawful.db.users.keyed w id loaded.user (get-stored id w loaded h)
