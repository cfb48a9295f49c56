-- ===== src/Handlers/Login.antt =====
-- internal/handlers/auth_handler.go
use vpn_backend.Base.{none, some, String}
use vpn_backend.Action.{Result}
use vpn_backend.Services.Auth as Service
use vpn_backend.Services.Auth.{AuthService}
use vpn_backend.Handlers.{
  Parsers, Handler, success, failure, no_content, login_data, admin_data, on_success, with_body,
  client_ip,
}

-- `bind_login` gives the `IDToken` of a `googleLoginRequest`.
pub record AuthHandler (W : Type 0) : Type 0 where
  pub auth : AuthService W
  pub parsers : Parsers
  pub bind_login : String → Result String

module _ {W : Type 0} (h : AuthHandler W) where
  unfoldable pub login : Handler W
  login req = with_body h.parsers h.bind_login "id_token is required." req λ id_token.
      on_success (Service.login_with_google h.auth id_token (client_ip h.parsers req))
        λ result w. (success 200 (login_data result), w)

  unfoldable pub me : Handler W
  me req w = elim req.admin [
    | none ↦ (failure 401 "UNAUTHORIZED" "Authentication required.", w)
    | some admin ↦ (success 200 (admin_data admin), w)
  ]

  unfoldable pub logout : Handler W
  logout req w = (no_content, w)
