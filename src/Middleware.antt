-- ===== src/Middleware.antt =====
-- internal/middleware: auth.go and ratelimit.go. The model's world has what they keep.
pub mod Admission
pub mod Limits
use vpn_backend.Base.{
  ℕ, Bool, true, false, Option, none, some, List, [], ◌∷◌, String, str_eq, if◌then◌else◌,
}
use vpn_backend.Action.{Result, ok, err}
use vpn_backend.Models.{Time, Admin, AdminRole, is_active_admin}
use vpn_backend.Database.{Gorm}
use vpn_backend.Repositories.Admins as Admins
use vpn_backend.Auth.Sessions as Sessions
use vpn_backend.Auth.Sessions.{SessionManager}
use vpn_backend.Text.{trim_space, after_prefix, lookup}
use vpn_backend.Handlers.{Request, Response, Handler, failure}

-- `extractBearerToken`
unfoldable pub extract_bearer_token : Request → String
extract_bearer_token req = elim (after_prefix "Bearer " (req.header "Authorization")) [
  | none ↦ ""
  | some rest ↦ trim_space rest
]

abbrev pub missing_token : Response
missing_token = failure 401 "UNAUTHORIZED" "Missing or malformed Authorization header."

abbrev pub invalid_session : Response
invalid_session = failure 401 "UNAUTHORIZED" "Session expired or invalid."

abbrev pub inactive_admin : Response
inactive_admin =
    failure 403 "FORBIDDEN" "Your Google account is not authorized to access this system."

module _ {W : Type 0} where
  -- The end of `RequireAuth`: `c.Set(contextAdminKey, admin)`, and the next handler.
  unfoldable pub admit : Request → Admin → Handler W → W → Response × W
  admit req admin next w =
      if is_active_admin admin.status
      then next (record req { admin = some admin }) w
      else (inactive_admin, w)

  -- `RequireAuth`
  unfoldable pub require_auth : SessionManager W → Gorm W → Handler W → Handler W
  require_auth sessions db next req w =
      let token = extract_bearer_token req in
      if str_eq token ""
      then (missing_token, w)
      else let (verified, w₁) = Sessions.verify sessions token w in
        elim verified [
          | err e ↦ (invalid_session, w₁)
          | ok admin_id ↦
              let (found, w₂) = Admins.find_by_id db admin_id w₁ in
              elim found [ err e ↦ (invalid_session, w₂) | ok admin ↦ admit req admin next w₂ ]
        ]

abbrev pub same_role : AdminRole → AdminRole → Bool
same_role AdminRole.admin AdminRole.admin = true
same_role AdminRole.operator AdminRole.operator = true
same_role AdminRole.viewer AdminRole.viewer = true
same_role _ _ = false

-- `allowedSet[role]`
abbrev pub is_allowed : List AdminRole → AdminRole → Bool
is_allowed [] role = false
is_allowed (r ∷ rs) role = if same_role r role then true else is_allowed rs role

module _ {W : Type 0} where
  -- `RequireRole`
  unfoldable pub require_role : List AdminRole → Handler W → Handler W
  require_role allowed next req w = elim req.admin [
    | none ↦ (failure 401 "UNAUTHORIZED" "Authentication required.", w)
    | some admin ↦
        if is_allowed allowed admin.role
        then next req w
        else (failure 403 "FORBIDDEN" "Permission denied.", w)
  ]

-- `RateLimiter`, over `golang.org/x/time/rate`: a limiter of type `L`, a new one, and `Allow` at an
-- instant. `limiters` is the map by client, which the world holds.
pub record RateLimiter (W L : Type 0) : Type 0 where
  pub limiters : W → List (String × L)
  pub set_limiters : List (String × L) → W → W
  pub new_limiter : L
  pub allow : Time → L → Bool × L
  pub now : W → Time

module _ {W L : Type 0} (rl : RateLimiter W L) where
  -- `limiterFor`: the limiter of a client, a new one if it has none
  unfoldable pub limiter_for : String → W → L
  limiter_for key w = elim (lookup key (rl.limiters w)) [ none ↦ rl.new_limiter | some l ↦ l ]

  -- `limiterFor(key).Allow()`: the limiter is in the map, and has counted the call
  unfoldable pub take_token : String → W → Bool × W
  unfolding limiter_for
  take_token key w =
      let (allowed, l) = rl.allow (rl.now w) (limiter_for key w) in
      (allowed, rl.set_limiters ((key, l) ∷ rl.limiters w) w)

  -- `Middleware`
  unfoldable pub limited : Handler W → Handler W
  limited next req w =
      let (allowed, w') = take_token req.remote_ip w in
      if allowed
      then next req w'
      else (failure 429 "TOO_MANY_REQUESTS" "Too many requests. Please slow down.", w')

  -- A tick of `StartCleanup`
  unfoldable pub cleanup : W → W
  cleanup w = rl.set_limiters [] w
