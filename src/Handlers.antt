-- ===== src/Handlers.antt =====
-- internal/handlers: helpers.go and errors.go, and a child for each handler; pkg/response; and
-- middleware/recovery.go. A handler answers one response and leaves a world.
pub mod Errors
pub mod Rules
pub mod Pages
pub mod AccessKeys
pub mod Users
pub mod Devices
pub mod Servers
pub mod Admins
pub mod AuditLogs
pub mod Login
pub mod Usage
pub mod Summary
use vpn_backend.Base.{ℕ, Bool, true, false, Option, none, some, List, String, str_eq, if◌then◌else◌}
use vpn_backend.Base.Int.{ℤ, pos, pos_part, ltb_ℤ, ◌+64◌, ◌-64◌, quot}
use vpn_backend.Errors.{
  Error, Sentinel, is_error, not_found, conflict, validation, unauthorized,
  not_authorized_google_account,
}
use vpn_backend.Action.{Result, ok, err, Action}
use vpn_backend.Models.{Uuid, nil_uuid, Time, AuditAction, Admin, VpnUser, VpnServer, ServerMetric}
use vpn_backend.Platform.{Bytes}
use vpn_backend.Repositories.{Pagination}
use vpn_backend.Repositories.AccessKeys.{LoadedKey}
use vpn_backend.Repositories.Users.{LoadedUser}
use vpn_backend.Repositories.Devices.{LoadedDevice}
use vpn_backend.Repositories.AuditLogs.{LoadedLog}
use vpn_backend.Services.AccessKeys.{AccessKeyConfig}
use vpn_backend.Services.Auth.{LoginResult}
use vpn_backend.Services.Servers.{HealthReport}
use vpn_backend.Services.Usage.{UsageSummary, UserUsage, ServerUsage}
use vpn_backend.Services.Audit.{AuditService, Metadata, record_entry}

-- `Meta`
pub record Meta : Type 0 where
  pub page : ℤ
  pub page_size : ℤ
  pub total_items : ℤ
  pub total_pages : ℤ

-- `dashboardSummary`
pub record DashboardSummary : Type 0 where
  pub total_users : ℤ
  pub active_users : ℤ
  pub active_devices : ℤ
  pub active_access_keys : ℤ

-- What a response holds, before it is encoded: one constructor for each type that a handler answers.
pub data Data : Type 0 where
  key_data : LoadedKey → Data
  keys_data : List LoadedKey → Data
  config_data : AccessKeyConfig → Data
  png_data : Bytes → Data
  new_user_data : VpnUser → Data
  user_data : LoadedUser → Data
  users_data : List LoadedUser → Data
  device_data : LoadedDevice → Data
  devices_data : List LoadedDevice → Data
  server_data : VpnServer → Data
  servers_data : List VpnServer → Data
  health_data : HealthReport → Data
  samples_data : List ServerMetric → Data
  admin_data : Admin → Data
  admins_data : List Admin → Data
  logs_data : List LoadedLog → Data
  login_data : LoginResult → Data
  usage_data : UsageSummary → Data
  user_usage_data : List UserUsage → Data
  server_usage_data : List ServerUsage → Data
  dashboard_data : DashboardSummary → Data
  alive_data : Data

-- `envelope`; `no_body` is a response with a status only.
pub data Payload : Type 0 where
  no_body : Payload
  data_body : Data → Option Meta → Payload
  error_body : (code message : String) → Payload

pub record Response : Type 0 where
  pub status : ℕ
  pub body : Payload

-- `response.OK`, `response.OKWithMeta` and `response.Error`
abbrev pub success : ℕ → Data → Response
success status d = record { status = status; body = data_body d none }

abbrev pub success_with_meta : ℕ → Data → Meta → Response
success_with_meta status d meta = record { status = status; body = data_body d (some meta) }

abbrev pub failure : ℕ → (code message : String) → Response
failure status code message = record { status = status; body = error_body code message }

-- `c.Status(204)`
abbrev pub no_content : Response
no_content = record { status = 204; body = no_body }

-- A `*gin.Context`: a parameter or a query value that is absent is the empty text. `admin` is what
-- `RequireAuth` has put in the context, and `remote_ip` what gin's `ClientIP` answers.
pub record Request : Type 0 where
  pub param : String → String
  pub query : String → String
  pub header : String → String
  pub body : String
  pub remote_ip : String
  pub remote_addr : String
  pub admin : Option Admin

-- Parsers of the libraries: `atoi` is the number that `strconv.Atoi` returns, whatever its error.
pub record Parsers : Type 0 where
  pub atoi : String → ℤ
  pub parse_uuid : String → Result Uuid
  pub parse_time : String → Result Time
  pub parse_duration : String → Result ℤ
  pub split_host : String → Result String

abbrev pub Handler : Type 0 → Type 0
Handler W = Request → W → Response × W

-- `Recovery`: what becomes of a panic.
abbrev pub recovered : Response
recovered = failure 500 "INTERNAL_ERROR" "An unexpected error occurred."

-- `handleServiceError`
unfoldable pub service_error : Error → Response
service_error e =
    if is_error e not_found
    then failure 404 "NOT_FOUND" "The requested resource was not found."
    else if is_error e conflict
    then failure 409 "CONFLICT" "This resource already exists or conflicts with an existing one."
    else if is_error e validation
    then failure 422 "VALIDATION_ERROR" "Validation failed."
    else if is_error e unauthorized
    then failure 401 "UNAUTHORIZED" "Authentication failed."
    else if is_error e not_authorized_google_account
    then failure 403 "FORBIDDEN" "Your Google account is not authorized to access this system."
    else failure 500 "INTERNAL_ERROR" "An unexpected error occurred."

-- `metaFromPagination`
unfoldable pub meta_from_pagination : Pagination → ℤ → Meta
meta_from_pagination p total =
    let page = if ltb_ℤ p.page (pos 1) then pos 1 else p.page in
    let page_size = if ltb_ℤ p.page_size (pos 1) then pos 20 else p.page_size in
    record {
      page = page;
      page_size = page_size;
      total_items = total;
      total_pages = quot (total +64 page_size -64 pos 1) (pos_part page_size);
    }

module _ {W : Type 0} where
  -- `if err != nil { handleServiceError(c, err); return }`
  unfoldable pub on_success : {A : Type 0} → Action W A → (A → W → Response × W) → W → Response × W
  on_success m k w = let (r, w') = m w in elim r [ ok a ↦ k a w' | err e ↦ (service_error e, w') ]

  -- `CurrentAdmin`, and the panic where a handler reads the identifier of a nil administrator
  abbrev pub with_actor : Request → (Admin → W → Response × W) → W → Response × W
  with_actor req k w = elim req.admin [ none ↦ (recovered, w) | some actor ↦ k actor w ]

module _ (parsers : Parsers) where
  unfoldable pub pagination_from_query : Request → Pagination
  pagination_from_query req = record {
    page = parsers.atoi (req.query "page");
    page_size = parsers.atoi (req.query "page_size");
  }

  unfoldable pub client_ip : Request → String
  client_ip req =
      if str_eq req.remote_ip ""
      then elim (parsers.split_host req.remote_addr) [ ok host ↦ host | err e ↦ req.remote_addr ]
      else req.remote_ip

  -- `if id, err := uuid.Parse(text); text != "" && err == nil { f = &id }`
  unfoldable pub optional_uuid : String → Option Uuid
  optional_uuid text =
      if str_eq text ""
      then none
      else elim (parsers.parse_uuid text) [ ok id ↦ some id | err e ↦ none ]

  module _ {W : Type 0} where
    -- `id, ok := parseUUIDParam(c, "id"); if !ok { return }`
    unfoldable pub with_id : Request → (Uuid → W → Response × W) → W → Response × W
    with_id req k w = elim (parsers.parse_uuid (req.param "id")) [
      | ok id ↦ k id w
      | err e ↦ (failure 400 "INVALID_ID" "Invalid identifier.", w)
    ]

    -- `if err := c.ShouldBindJSON(&req); err != nil { ...; return }`
    unfoldable pub with_body :
        {B : Type 0}
        → (String → Result B)
        → String
        → Request
        → (B → W → Response × W)
        → W
        → Response × W
    with_body bind message req k w = elim (bind req.body) [
      | ok b ↦ k b w
      | err e ↦ (failure 422 "VALIDATION_ERROR" message, w)
    ]

    -- `actor := middleware.CurrentAdmin(c); _ = h.audit.Record(&actor.ID, ...)`, then the response
    unfoldable pub audited :
        AuditService W
        → Request
        → AuditAction
        → String
        → Uuid
        → Option Metadata
        → Response
        → W
        → Response × W
    audited audit req action resource_type id metadata response = with_actor req λ actor w. (
      response,
      (record_entry audit (some actor.id) action resource_type (some id) (client_ip req) metadata
          w).1,
    )
