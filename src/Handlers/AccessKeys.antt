-- ===== src/Handlers/AccessKeys.antt =====
-- internal/handlers/access_key_handler.go
use vpn_backend.Base.{none, some, [], ◌∷◌, String}
use vpn_backend.Base.Int.{ℤ}
use vpn_backend.Action.{Result}
use vpn_backend.Models.{access_key_created, access_key_revoked, access_key_rotated}
use vpn_backend.Platform.{Bytes}
use vpn_backend.Repositories.AccessKeys.{AccessKeyFilter}
use vpn_backend.Services.AccessKeys as Service
use vpn_backend.Services.AccessKeys.{AccessKeyService, CreateAccessKeyInput}
use vpn_backend.Services.Audit.{AuditService, text, yes_flag}
use vpn_backend.Handlers.{
  Parsers, Handler, success, success_with_meta, no_content, key_data, keys_data, config_data,
  png_data, on_success, with_id, with_body, audited, optional_uuid, pagination_from_query,
  meta_from_pagination,
}

-- The fields of `createAccessKeyRequest` are those of the service's input, of the same names.
abbrev pub CreateAccessKeyRequest : Type 0
CreateAccessKeyRequest = CreateAccessKeyInput

-- `bind_create` is gin's binding of a body, `encode_qr` is `qrcode.Encode`, and `count` increments
-- the counter `ConfigOperationsTotal` of an operation.
pub record AccessKeyHandler (W : Type 0) : Type 0 where
  pub keys : AccessKeyService W
  pub audit : AuditService W
  pub parsers : Parsers
  pub bind_create : String → Result CreateAccessKeyRequest
  pub encode_qr : String → ℤ → Result Bytes
  pub count : String → W → W

module _ {W : Type 0} (h : AccessKeyHandler W) where
  unfoldable pub list : Handler W
  list req =
      let p = pagination_from_query h.parsers req in
      let f : AccessKeyFilter = record {
        status = req.query "status";
        user_id = optional_uuid h.parsers (req.query "user_id");
        server_id = optional_uuid h.parsers (req.query "server_id");
      } in
      on_success (Service.list h.keys f p)
        λ page w. (success_with_meta 200 (keys_data (page.0)) (meta_from_pagination p (page.1)), w)

  unfoldable pub get : Handler W
  get req =
      with_id h.parsers req
        λ id. on_success (Service.get h.keys id) λ key w. (success 200 (key_data key), w)

  unfoldable pub create : Handler W
  create req =
      with_body h.parsers h.bind_create "vpn_user_id, vpn_server_id and name are required." req
        λ input. on_success (Service.create h.keys input) λ loaded w.
          audited h.parsers h.audit req access_key_created "access_key" loaded.key.id
            (some (("name", text loaded.key.name) ∷ [])) (success 201 (key_data loaded))
            (h.count "create" w)

  unfoldable pub revoke : Handler W
  revoke req = with_id h.parsers req λ id. on_success (Service.revoke h.keys id) λ loaded w.
      audited h.parsers h.audit req access_key_revoked "access_key" loaded.key.id none
        (success 200 (key_data loaded)) (h.count "revoke" w)

  unfoldable pub rotate : Handler W
  rotate req = with_id h.parsers req λ id. on_success (Service.rotate h.keys id) λ loaded w.
      audited h.parsers h.audit req access_key_rotated "access_key" loaded.key.id none
        (success 200 (key_data loaded)) (h.count "rotate" w)

  unfoldable pub get_config : Handler W
  get_config req =
      with_id h.parsers req
        λ id. on_success (Service.get_config h.keys id) λ cfg w. (success 200 (config_data cfg), w)

  unfoldable pub get_qr : Handler W
  get_qr req = with_id h.parsers req λ id.
      on_success (Service.get_qr_png h.keys h.encode_qr id) λ png w. (success 200 (png_data png), w)

  unfoldable pub delete : Handler W
  delete req = with_id h.parsers req λ id. on_success (Service.delete h.keys id) λ _.
      audited h.parsers h.audit req access_key_revoked "access_key" id
        (some (("deleted", yes_flag) ∷ [])) no_content
