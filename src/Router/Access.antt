-- ===== src/Router/Access.antt =====
-- What a request has to bring to change anything.
use vpn_backend.Base.{
  Bool, true, false, Option, none, some, ◌≡◌, ◌≢◌, refl, sym, ap, ◌∙◌, ◌⊎◌, inl, inr, Bool-cases,
  if_rule, if_eq_rule, subst, if◌then◌else◌,
}
use vpn_backend.Models.{Admin, AdminRole}
use vpn_backend.Database.View.{View}
use vpn_backend.Middleware.{require_role, is_allowed, limited, take_token}
use vpn_backend.Handlers.{Request, Response, failure}
use vpn_backend.Router.{Api, Endpoint, Guard, guard, guarded, dispatch, serve, write_roles}
use vpn_backend.Router.Views.{LawfulRouter, lets_viewers_in, dispatch-Keeps}
use vpn_backend.Router.Keeps.{SameButMetrics, read-SameButMetrics, SameButMetrics-after}
use vpn_backend.Middleware.Admission.{IsSession, IsRefusal, require_auth_rule}

abbrev pub Passes : Guard → Admin → Type 0
Passes Guard.open_to_all a = Unit
Passes Guard.signed_in a = Unit
Passes (Guard.roles allowed) a = is_allowed allowed a.role ≡ true

-- Whoever passes a guard that keeps viewers out may write.
writer :
    (g : Guard) (role : AdminRole) (a : Admin)
    → a.role ≡ role
    → Passes g a
    → lets_viewers_in g ≡ false
    → g ≢ Guard.open_to_all
    → is_allowed write_roles role ≡ true
unfolding lets_viewers_in
writer Guard.open_to_all role a h passes shut closed = absurd (closed refl)
writer Guard.signed_in role a h passes shut closed = absurd (cc shut)
writer (Guard.roles allowed) AdminRole.admin a h passes shut closed = refl
writer (Guard.roles allowed) AdminRole.operator a h passes shut closed = refl
writer (Guard.roles allowed) AdminRole.viewer a h passes shut closed =
    absurd (cc (rw h at passes, shut))

module _ {W L : Type 0} (api : Api W L) where
  -- The world after the limiter has counted the request.
  abbrev pub counted : Request → W → W
  counted req w = (take_token api.limiter req.remote_ip w).1

module _ {W L : Type 0} (view : W → View) (api : Api W L) (lawful : LawfulRouter view api) where
  -- How the server answers a request to an endpoint that is guarded: by a preflight's or a limiter's
  -- answer, by a refusal, or by the endpoint's handler with an administrator that passes the guard.
  since :
      {req : Request} {a : Admin} {w₁ w : W}
      → view w₁ ≡ view w
      → IsSession view api.sessions req w₁ w₁ a
      → IsSession view api.sessions req w₁ w a
  since {a = a} same s = record {
    verified = s.verified;
    stored = ap (λ (v : View). v.admins a.id) (sym same) ∙ s.stored;
    active = s.active;
  }

  module _ (Q : Response × W → Type 0) (e : Endpoint) (req : Request) (w : W)
      (preflight : (r : Response) → api.cors (record req { admin = none }) ≡ some r → Q (r, w))
      (refused : (r : Response) (w' : W) → view w' ≡ view w → IsRefusal r → Q (r, w'))
      (admitted : (a : Admin) (w' : W)
        → view w' ≡ view w
        → IsSession view api.sessions (record req { admin = none }) (counted api req w) w a
        → Passes (guard e) a
        → Q (dispatch api e (record req { admin = some a }) w')) where
    abbrev anonymous : Request
    anonymous = record req { admin = none }

    guarded_rule :
        (g : Guard) (w₁ : W)
        → w₁ ≡ counted api req w
        → guard e ≡ g
        → g ≢ Guard.open_to_all
        → view w₁ ≡ view w
        → Q (guarded api g (dispatch api e) anonymous w₁)
    unfolding guarded require_role
    guarded_rule Guard.open_to_all w₁ at h closed same = absurd (closed refl)
    guarded_rule Guard.signed_in w₁ at h closed same =
        require_auth_rule view api.sessions api.admin_rows lawful.admin_rows Q _ anonymous w₁
          (λ r w' kept. refused r w' (kept ∙ same))
          (λ a w' kept s.
            admitted a w' (kept ∙ same)
              (subst (λ w'. IsSession view api.sessions anonymous w' w a) at (since same s))
              (subst (λ g. Passes g a) (sym h) tt))
    guarded_rule (Guard.roles allowed) w₁ at h closed same =
        require_auth_rule view api.sessions api.admin_rows lawful.admin_rows Q _ anonymous w₁
          (λ r w' kept. refused r w' (kept ∙ same))
          (λ a w' kept s.
            if_eq_rule Q (is_allowed allowed a.role)
              (λ yes.
                admitted a w' (kept ∙ same)
                  (subst (λ w'. IsSession view api.sessions anonymous w' w a) at (since same s))
                  (subst (λ g. Passes g a) (sym h) yes))
              (λ _. refused _ w' (kept ∙ same) (inr (inl refl))))

    serve_rule : guard e ≢ Guard.open_to_all → Q (serve api e req w)
    unfolding serve limited take_token
    serve_rule closed = preflight_rule (api.cors anonymous) refl
      where
        limit_rule :
            (t : Bool × W)
            → t.1 ≡ counted api req w
            → view t.1 ≡ view w
            → Q (
                if t.0
                then guarded api (guard e) (dispatch api e) anonymous t.1
                else (failure 429 "TOO_MANY_REQUESTS" "Too many requests. Please slow down.", t.1))
        limit_rule t at same =
            if_rule Q t.0 (guarded_rule (guard e) t.1 at refl closed same)
              (refused _ t.1 same (inr (inr refl)))

        preflight_rule :
            (o : Option Response)
            → api.cors anonymous ≡ o
            → Q (elim o as (λ _. Response × W) [
              | some answer ↦ (answer, w)
              | none ↦ limited api.limiter (guarded api (guard e) (dispatch api e)) anonymous w
            ])
        preflight_rule (some r) h = preflight r h
        preflight_rule none h =
            limit_rule (take_token api.limiter anonymous.remote_ip w) refl (lawful.limiter_view _ w)

  -- A request to an endpoint that is guarded, which comes with no administrator in its context: CORS
  -- answers it, or it is refused with 401, 403 or 429, and the view of the world stays as it is; or there
  -- is an administrator whose session the request brings, as it is verified after the limiter has counted
  -- it, whose row is stored and ACTIVE, and whose role passes the guard, and the answer is the handler's,
  -- for that administrator, in a world of the same view.
  pub serve_access :
      (e : Endpoint) (req : Request) (w : W)
      → guard e ≢ Guard.open_to_all
      → (api.cors (record req { admin = none }) ≡ some (serve api e req w).0)
          × (view (serve api e req w).1 ≡ view w)
        ⊎ (IsRefusal (serve api e req w).0 × (view (serve api e req w).1 ≡ view w)
            ⊎ ((a : Admin) × IsSession view api.sessions
                  (record req { admin = none })
                  (counted api req w)
                  w
                  a
                × Passes (guard e) a
                × ((w' : W) × (view w' ≡ view w)
                    × (serve api e req w ≡ dispatch api e (record req { admin = some a }) w'))))
  serve_access e req w closed =
      serve_rule
        (λ r.
          (api.cors (record req { admin = none }) ≡ some r.0) × (view r.1 ≡ view w)
          ⊎ (IsRefusal r.0 × (view r.1 ≡ view w)
              ⊎ ((a : Admin) × IsSession view api.sessions (record req { admin = none })
                    (counted api req w) w a
                  × Passes (guard e) a
                  × ((w' : W) × (view w' ≡ view w)
                      × (r ≡ dispatch api e (record req { admin = some a }) w')))))
        e req w (λ r answered. inl (answered, refl))
        (λ r w' same refusal. inr (inl (refusal, same)))
        (λ a w' same s passes. inr (inr (a, s, passes, (w', same, refl)))) closed

  -- A request to an endpoint that is guarded leaves the view of the world as it is but for the samples of
  -- the servers' health, or it brings a session of an administrator whose row is stored and ACTIVE and
  -- whose role is one that may write.
  pub serve_writes :
      (e : Endpoint) (req : Request) (w : W)
      → guard e ≢ Guard.open_to_all
      → SameButMetrics (view w) (view (serve api e req w).1)
        ⊎ ((a : Admin) × IsSession view api.sessions
              (record req { admin = none })
              (counted api req w)
              w
              a
            × (is_allowed write_roles a.role ≡ true))
  serve_writes e req w closed = elim (serve_access e req w closed) [
    | inl (_, same) ↦ inl (read-SameButMetrics same)
    | inr (inl (_, same)) ↦ inl (read-SameButMetrics same)
    | inr (inr (a, s, passes, (w', same, answer))) ↦ elim (Bool-cases (lets_viewers_in (guard e))) [
      | inl opened ↦ inl (
          subst (λ r. SameButMetrics (view w) (view r.1)) (sym answer)
            (SameButMetrics-after same (dispatch-Keeps view api lawful e _ opened w')))
      | inr shut ↦ inr (a, s, writer (guard e) a.role a refl passes shut closed)
    ]
  ]
