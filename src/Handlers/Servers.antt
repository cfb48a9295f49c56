-- ===== src/Handlers/Servers.antt =====
-- internal/handlers/server_handler.go
use vpn_backend.Base.{ℕ, none, some, [], ◌∷◌, String, str_eq, ◌*◌, if◌then◌else◌}
use vpn_backend.Base.Int.{ℤ, pos}
use vpn_backend.Action.{Result, ok, err}
use vpn_backend.Models.{server_created, server_updated, server_deleted}
use vpn_backend.Services.Servers as Service
use vpn_backend.Services.Servers.{ServerService, CreateServerInput, UpdateServerInput}
use vpn_backend.Services.Audit.{AuditService, text}
use vpn_backend.Handlers.{
  Parsers, Handler, success, success_with_meta, no_content, server_data, servers_data, health_data,
  samples_data, on_success, with_id, with_body, audited, pagination_from_query,
  meta_from_pagination,
}

-- The fields of the two requests are those of the service's inputs, of the same names.
abbrev pub CreateServerRequest : Type 0
CreateServerRequest = CreateServerInput

abbrev pub UpdateServerRequest : Type 0
UpdateServerRequest = UpdateServerInput

-- `hour` is `time.Hour` on the clock of the world.
pub record ServerHandler (W : Type 0) : Type 0 where
  pub servers : ServerService W
  pub audit : AuditService W
  pub parsers : Parsers
  pub bind_create : String → Result CreateServerRequest
  pub bind_update : String → Result UpdateServerRequest
  pub hour : ℕ

module _ {W : Type 0} (h : ServerHandler W) where
  unfoldable pub list : Handler W
  list req =
      let p = pagination_from_query h.parsers req in
      on_success (Service.list h.servers p) λ page w.
        (success_with_meta 200 (servers_data (page.0)) (meta_from_pagination p (page.1)), w)

  unfoldable pub get : Handler W
  get req =
      with_id h.parsers req λ id.
        on_success (Service.get h.servers id) λ server w. (success 200 (server_data server), w)

  unfoldable pub create : Handler W
  create req = with_body h.parsers h.bind_create "name and hostname are required." req λ input.
      on_success (Service.create h.servers input) λ server.
        audited h.parsers h.audit req server_created "vpn_server" server.id
          (some (("name", text server.name) ∷ [])) (success 201 (server_data server))

  unfoldable pub update : Handler W
  update req = with_id h.parsers req λ id.
      with_body h.parsers h.bind_update "Invalid request body." req λ input.
        on_success (Service.update h.servers id input) λ server.
          audited h.parsers h.audit req server_updated "vpn_server" server.id none
            (success 200 (server_data server))

  unfoldable pub delete : Handler W
  delete req = with_id h.parsers req λ id.
      on_success (Service.delete h.servers id)
        λ _. audited h.parsers h.audit req server_deleted "vpn_server" id none no_content

  unfoldable pub health : Handler W
  health req = with_id h.parsers req λ id.
      on_success (Service.health h.servers id) λ report w. (success 200 (health_data report), w)

  -- `window := 24 * time.Hour`, unless the query has a duration that parses
  unfoldable pub window : String → ℤ
  window raw =
      let day = pos (24 * h.hour) in
      if str_eq raw "" then day else elim (h.parsers.parse_duration raw) [ ok d ↦ d | err e ↦ day ]

  unfoldable pub metrics_history : Handler W
  metrics_history req = with_id h.parsers req λ id.
      on_success (Service.metrics_history h.servers id (window (req.query "window")))
        λ history w. (success 200 (samples_data history), w)
