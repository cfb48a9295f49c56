-- ===== src/Server/Runs.antt =====
-- The server as it runs: its operations on keys and users, one after the other in any order.
use vpn_backend.Base.{◌≡◌, sym, ap, ◌∙◌}
use vpn_backend.Action.{ok}
use vpn_backend.Models.{Uuid}
use vpn_backend.Database.View.{View}
use vpn_backend.Database.Backing.{IsBacked}
use vpn_backend.Repositories.AccessKeys.{LoadedKey}
use vpn_backend.Services.AccessKeys as Keys
use vpn_backend.Services.AccessKeys.{AccessKeyService, CreateAccessKeyInput}
use vpn_backend.Services.AccessKeys.Lookup as KeyLaws
use vpn_backend.Services.AccessKeys.Creation.{create-IsBacked}
use vpn_backend.Services.AccessKeys.Rotation.{rotate-IsBacked}
use vpn_backend.Services.AccessKeys.Revocation.{revoke-IsBacked, delete-IsBacked}
use vpn_backend.Services.AccessKeys.Sweep.{sweep-IsBacked}
use vpn_backend.Services.Users as Users
use vpn_backend.Services.Users.{UserService}
use vpn_backend.Services.Users.KeyLoop as UserLaws
use vpn_backend.Services.Users.Disable.{disable-IsBacked, delete_user-IsBacked}
use vpn_backend.Services.Users.Expiry.{user_sweep-IsBacked}
use vpn_backend.Server.{sweep_tick}

module _ {W : Type 0} (view : W → View) (users : UserService W) (keys : AccessKeyService W) where
  -- One operation: a creation or a rotation that returns, each other one with any answer, and whatever
  -- leaves the rows of the keys and the data plane as they are.
  pub data Step : W → W → Type 0 where
    created :
        {w : W} (input : CreateAccessKeyInput) (loaded : LoadedKey)
        → (Keys.create keys input w).0 ≡ ok loaded
        → Step w (Keys.create keys input w).1
    rotated :
        {w : W} (id : Uuid) (loaded : LoadedKey)
        → (Keys.rotate keys id w).0 ≡ ok loaded
        → Step w (Keys.rotate keys id w).1
    revoked : {w : W} (id : Uuid) → Step w (Keys.revoke keys id w).1
    deleted : {w : W} (id : Uuid) → Step w (Keys.delete keys id w).1
    user_disabled : {w : W} (id : Uuid) → Step w (Users.disable users id w).1
    user_deleted : {w : W} (id : Uuid) → Step w (Users.delete users id w).1
    ticked : {w : W} → Step w (sweep_tick users keys w)
    other :
        {w w' : W}
        → (view w').access_keys ≡ (view w).access_keys
        → (view w').live ≡ (view w).live
        → Step w w'

  -- What is reached by a sequence of operations.
  pub data Reaches : W → W → Type 0 where
    started : {w : W} → Reaches w w
    then_step : {w w' w'' : W} → Reaches w w' → Step w' w'' → Reaches w w''

  module _ (user_laws : UserLaws.Lawful view users) (key_laws : KeyLaws.Lawful view keys) where
    other-IsBacked :
        (v v' : View) → v'.access_keys ≡ v.access_keys → v'.live ≡ v.live → IsBacked v → IsBacked v'
    other-IsBacked v v' same live h r on =
        let on' = ap (λ (l : _). l r) (sym live) ∙ on in
        let b = h r on' in
        record {
          id = b.id;
          key = b.key;
          stored = ap (λ (rows : _). rows b.id) same ∙ b.stored;
          active = b.active;
          refers = b.refers;
        }

    Step-IsBacked : {w w' : W} → Step w w' → IsBacked (view w) → IsBacked (view w')
    unfolding sweep_tick
    Step-IsBacked (created input loaded h) = create-IsBacked view keys key_laws input _ loaded h
    Step-IsBacked (rotated id loaded h) = rotate-IsBacked view keys key_laws id _ loaded h
    Step-IsBacked (revoked id) = revoke-IsBacked view keys key_laws id _
    Step-IsBacked (deleted id) = delete-IsBacked view keys key_laws id _
    Step-IsBacked (user_disabled id) = disable-IsBacked view users user_laws id _
    Step-IsBacked (user_deleted id) = delete_user-IsBacked view users user_laws id _
    Step-IsBacked {w = w} ticked = λ h.
        sweep-IsBacked view keys key_laws (Users.sweep_expired users w).1
          (user_sweep-IsBacked view users user_laws w h)
    Step-IsBacked {w = w} {w' = w'} (other same live) = other-IsBacked (view w) (view w') same live

    -- In every world that is reached from one where each served credential is backed by an ACTIVE row,
    -- by operations in any order of which each creation and rotation has returned, each is so backed.
    pub Reaches-IsBacked : (w w' : W) → Reaches w w' → IsBacked (view w) → IsBacked (view w')
    Reaches-IsBacked w w' started h = h
    Reaches-IsBacked w w' (then_step before step) h =
        Step-IsBacked step (Reaches-IsBacked w _ before h)
