-- ===== src/Handlers/Users.antt =====
-- internal/handlers/user_handler.go
use vpn_backend.Base.{Bool, Option, none, some, [], ◌∷◌, String, if◌then◌else◌}
use vpn_backend.Base.Int.{ℤ}
use vpn_backend.Action.{Result}
use vpn_backend.Models.{Time, user_created, user_updated, user_disabled}
use vpn_backend.Repositories.Users.{UserFilter}
use vpn_backend.Services.Users as Service
use vpn_backend.Services.Users.{UserService, CreateUserInput, UpdateUserInput}
use vpn_backend.Services.Audit.{AuditService, text, yes_flag}
use vpn_backend.Handlers.{
  Parsers, Handler, success, success_with_meta, no_content, user_data, users_data, new_user_data,
  on_success, with_id, with_body, audited, pagination_from_query, meta_from_pagination,
}

-- The fields of `createUserRequest` are those of the service's input, of the same names.
abbrev pub CreateUserRequest : Type 0
CreateUserRequest = CreateUserInput

pub record UpdateUserRequest : Type 0 where
  pub name : Option String
  pub email : Option String
  pub expires_at : Option Time
  pub clear_expires_at : Bool
  pub traffic_limit_bytes : Option ℤ

-- The pointer to a pointer that `Update` passes on.
abbrev pub new_expiry : UpdateUserRequest → Option (Option Time)
new_expiry body =
    if body.clear_expires_at
    then some none
    else elim body.expires_at [ none ↦ none | some t ↦ some (some t) ]

abbrev pub update_input : UpdateUserRequest → UpdateUserInput
update_input body = record {
  name = body.name;
  email = body.email;
  expires_at = new_expiry body;
  traffic_limit_bytes = body.traffic_limit_bytes;
}

pub record UserHandler (W : Type 0) : Type 0 where
  pub users : UserService W
  pub audit : AuditService W
  pub parsers : Parsers
  pub bind_create : String → Result CreateUserRequest
  pub bind_update : String → Result UpdateUserRequest

module _ {W : Type 0} (h : UserHandler W) where
  unfoldable pub list : Handler W
  list req =
      let p = pagination_from_query h.parsers req in
      let f : UserFilter = record { status = req.query "status"; search = req.query "search" } in
      on_success (Service.list h.users f p)
        λ page w. (success_with_meta 200 (users_data (page.0)) (meta_from_pagination p (page.1)), w)

  unfoldable pub get : Handler W
  get req =
      with_id h.parsers req
        λ id. on_success (Service.get h.users id) λ user w. (success 200 (user_data user), w)

  unfoldable pub create : Handler W
  create req = with_body h.parsers h.bind_create "Name and a valid email are required." req λ input.
      on_success (Service.create h.users input) λ user.
        audited h.parsers h.audit req user_created "vpn_user" user.id
          (some (("email", text user.email) ∷ [])) (success 201 (new_user_data user))

  unfoldable pub update : Handler W
  update req = with_id h.parsers req λ id.
      with_body h.parsers h.bind_update "Invalid request body." req λ body.
        on_success (Service.update h.users id (update_input body)) λ loaded.
          audited h.parsers h.audit req user_updated "vpn_user" loaded.user.id none
            (success 200 (user_data loaded))

  unfoldable pub disable : Handler W
  disable req = with_id h.parsers req λ id. on_success (Service.disable h.users id) λ loaded.
      audited h.parsers h.audit req user_disabled "vpn_user" loaded.user.id none
        (success 200 (user_data loaded))

  unfoldable pub delete : Handler W
  delete req = with_id h.parsers req λ id. on_success (Service.delete h.users id) λ _.
      audited h.parsers h.audit req user_disabled "vpn_user" id (some (("deleted", yes_flag) ∷ []))
        no_content
