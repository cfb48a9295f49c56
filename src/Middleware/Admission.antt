-- ===== src/Middleware/Admission.antt =====
-- `RequireAuth`: whom it lets through.
use vpn_backend.Base.{
  true, some, String, str_eq, ◌≡◌, refl, sym, ap, ◌∙◌, ◌⊎◌, inl, inr, ◌==◌, ==_iff, if_rule,
  if_eq_rule,
}
use vpn_backend.Action.{Result, ok, err, bind_rule, on_error_world}
use vpn_backend.Models.{Uuid, Admin, is_active_admin}
use vpn_backend.Database.{Gorm}
use vpn_backend.Database.View.{View}
use vpn_backend.Database.Laws.{LawfulGorm}
use vpn_backend.Repositories.Admins as Admins
use vpn_backend.Auth.Sessions as Sessions
use vpn_backend.Auth.Sessions.{SessionManager}
use vpn_backend.Middleware.{
  extract_bearer_token, missing_token, invalid_session, inactive_admin, admit, require_auth,
}
use vpn_backend.Handlers.{Request, Response, Handler}

-- At `at`, the bearer token of the request is a session of the administrator, whose row is stored in
-- `w` and is ACTIVE.
pub record IsSession {W : Type 0} (view : W → View) (sessions : SessionManager W) (req : Request)
    (at w : W) (a : Admin) : Type 0 where
  pub verified : (Sessions.verify sessions (extract_bearer_token req) at).0 ≡ ok a.id
  pub stored : (view w).admins a.id ≡ some a
  pub active : is_active_admin a.status ≡ true

-- A refusal, by its status: no session, no permission, or too many requests.
abbrev pub IsRefusal : Response → Type 0
IsRefusal r = (r.status ≡ 401) ⊎ ((r.status ≡ 403) ⊎ (r.status ≡ 429))

module _ {W : Type 0} (s : SessionManager W) where
  verify_world : (token : String) (w : W) → (Sessions.verify s token w).1 ≡ w
  unfolding Sessions.verify
  verify_world token w =
      bind_rule (λ r. r.1 ≡ w) _ _ w (λ claims _. on_error_world _ _ _ ∙ on_error_world _ _ w)
        (λ _ _. on_error_world _ _ w)

module _ {W : Type 0} (view : W → View) (s : SessionManager W) (db : Gorm W)
    (lawful : LawfulGorm view db) where
  -- What `RequireAuth` does: it refuses the request, or calls the next handler with a session's
  -- administrator, and it changes nothing itself.
  module _ (Q : Response × W → Type 0) (next : Handler W) (req : Request) (w : W)
      (refused : (r : Response) (w' : W) → view w' ≡ view w → IsRefusal r → Q (r, w'))
      (admitted : (a : Admin) (w' : W)
        → view w' ≡ view w
        → IsSession view s req w w a
        → Q (next (record req { admin = some a }) w')) where
    admit_rule :
        (a : Admin) (w' : W)
        → view w' ≡ view w
        → (is_active_admin a.status ≡ true → IsSession view s req w w a)
        → Q (admit req a next w')
    unfolding admit
    admit_rule a w' same session =
        if_eq_rule Q (is_active_admin a.status) (λ active. admitted a w' same (session active))
          (λ _. refused inactive_admin w' same (inr (inl refl)))

    session :
        (id : Uuid) (w₁ : W) (a : Admin)
        → view w₁ ≡ view w
        → (Sessions.verify s (extract_bearer_token req) w).0 ≡ ok id
        → (db.admins.first (λ a. a.id == id) w₁).0 ≡ ok a
        → is_active_admin a.status ≡ true
        → IsSession view s req w w a
    session id w₁ a same verified found active =
        let (stored, named) = lawful.admins.first_ok (λ a. a.id == id) w₁ a found in
        record {
          verified = verified ∙ ap ok (sym ((==_iff a.id id).0 named));
          stored = ap (λ (v : View). v.admins a.id) (sym same) ∙ stored;
          active = active;
        }

    find_rule :
        (id : Uuid) (w₁ : W)
        → view w₁ ≡ view w
        → (Sessions.verify s (extract_bearer_token req) w).0 ≡ ok id
        → (r : Result Admin) → (db.admins.first (λ a. a.id == id) w₁).0 ≡ r
        → Q (elim r as (λ _. Response × W) [
          | err e ↦ (invalid_session, (db.admins.first (λ a. a.id == id) w₁).1)
          | ok a ↦ admit req a next (db.admins.first (λ a. a.id == id) w₁).1
        ])
    find_rule id w₁ same verified (ok a) found =
        admit_rule a _ (lawful.admins.first_view _ w₁ ∙ same) (session id w₁ a same verified found)
    find_rule id w₁ same verified (err e) found =
        refused invalid_session _ (lawful.admins.first_view _ w₁ ∙ same) (inl refl)

    pub require_auth_rule : Q (require_auth s db next req w)
    unfolding require_auth Admins.find_by_id
    require_auth_rule =
        if_rule Q (str_eq (extract_bearer_token req) "") (refused missing_token w refl (inl refl))
          (verified_rule (Sessions.verify s token w).0 refl)
      where
        token : String
        token = extract_bearer_token req

        verified_rule :
            (r : Result Uuid)
            → (Sessions.verify s (extract_bearer_token req) w).0 ≡ r
            → Q (elim r as (λ _. Response × W) [
              | err e ↦ (invalid_session, (Sessions.verify s (extract_bearer_token req) w).1)
              | ok id ↦
                  elim (db.admins.first
                      (λ a. a.id == id)
                      (Sessions.verify s (extract_bearer_token req) w).1).0
                    as (λ _. Response × W) [
                      | err e ↦ (
                        invalid_session,
                        (db.admins.first
                            (λ a. a.id == id)
                            (Sessions.verify s (extract_bearer_token req) w).1).1,
                      )
                      | ok a ↦
                          admit req a next
                            (db.admins.first
                              (λ a. a.id == id)
                              (Sessions.verify s (extract_bearer_token req) w).1).1
                    ]
            ])
        verified_rule (ok id) h =
            find_rule id (Sessions.verify s (extract_bearer_token req) w).1
              (ap view (verify_world s (extract_bearer_token req) w)) h _ refl
        verified_rule (err e) h =
            refused invalid_session _ (ap view (verify_world s (extract_bearer_token req) w))
              (inl refl)
