-- ===== src/Database/Reads.antt =====
-- Actions that only read: the view of the world is what it was, whatever they answer.
use vpn_backend.Base.{◌≡◌, ◌∙◌}
use vpn_backend.Errors.{Error}
use vpn_backend.Action.{Action, ◌>>=◌, on_error, bind_rule, on_error_world}
use vpn_backend.Database.View.{View}

module _ {W : Type 0} (view : W → View) where
  abbrev pub IsRead : {A : Type 0} → Action W A → Type 0
  IsRead m = (w : W) → view (m w).1 ≡ view w

  pub bind-IsRead :
      {A B : Type 0} (m : Action W A) (f : A → Action W B)
      → IsRead m
      → ((a : A) → IsRead (f a))
      → IsRead (m >>= f)
  bind-IsRead m f hm hf w =
      bind_rule (λ r. view r.1 ≡ view w) m f w (λ a _. hf a (m w).1 ∙ hm w) (λ _ _. hm w)

  pub on_error-IsRead :
      {A : Type 0} (g : Error → Error) (m : Action W A) → IsRead m → IsRead (on_error g m)
  on_error-IsRead g m h w = rw (on_error_world g m w) (h w)
