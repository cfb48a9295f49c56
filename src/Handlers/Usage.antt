-- ===== src/Handlers/Usage.antt =====
-- internal/handlers/usage_handler.go
use vpn_backend.Services.Usage as Service
use vpn_backend.Services.Usage.{UsageService}
use vpn_backend.Handlers.{
  Parsers, Handler, success, success_with_meta, usage_data, user_usage_data, server_usage_data,
  on_success, pagination_from_query, meta_from_pagination,
}

pub record UsageHandler (W : Type 0) : Type 0 where
  pub usage : UsageService W
  pub parsers : Parsers

module _ {W : Type 0} (h : UsageHandler W) where
  unfoldable pub summary : Handler W
  summary req = on_success (Service.summary h.usage) λ s w. (success 200 (usage_data s), w)

  unfoldable pub by_user : Handler W
  by_user req =
      let p = pagination_from_query h.parsers req in
      on_success (Service.by_user h.usage p) λ page w.
        (success_with_meta 200 (user_usage_data (page.0)) (meta_from_pagination p (page.1)), w)

  unfoldable pub by_server : Handler W
  by_server req =
      on_success (Service.by_server h.usage) λ us w. (success 200 (server_usage_data us), w)
