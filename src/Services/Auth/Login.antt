-- ===== src/Services/Auth/Login.antt =====
-- `LoginWithGoogle`: who is let in.
use vpn_backend.Base.{true, some, String, eq_iff, ◌≡◌, sym, ap, ◌∙◌, inl, inr, Bool-cases}
use vpn_backend.Errors.{Error, sentinel, wrapped, unauthorized}
use vpn_backend.Action.{ok, bind-eq-ok, on_error-eq-ok, on_error_world}
use vpn_backend.Models.{Admin, is_active_admin}
use vpn_backend.Database.View.{View}
use vpn_backend.Database.Laws.{LawfulGorm}
use vpn_backend.Database.Reads.{IsRead}
use vpn_backend.Repositories.Admins as Admins
use vpn_backend.Auth.Google.{GoogleIdentity}
use vpn_backend.Services.Auth.{
  AuthService, LoginResult, or_not_authorized, refreshed, login_with_google, complete_login,
}

-- What a login that returned rests on.
pub record LoggedIn {W : Type 0} (view : W → View) (s : AuthService W) (id_token : String) (w : W)
    (result : LoginResult) : Type 0 where
  pub identity : GoogleIdentity
  pub verified : (s.verify id_token w).0 ≡ ok identity
  pub known : Admin
  pub stored : (view w).admins known.id ≡ some known
  pub same_subject : known.google_sub ≡ identity.sub
  pub active : is_active_admin known.status ≡ true
  pub answer : result.admin ≡ refreshed identity known
  pub issued : (w' : W) × ((s.issue known.id w').0 ≡ ok (result.token, result.expires_at))

module _ {W : Type 0} (view : W → View) (s : AuthService W) (lawful : LawfulGorm view s.db)
    (verify_reads : (id_token : String) → IsRead view (s.verify id_token)) where
  completed :
      (identity : GoogleIdentity) (ip_address : String) (known : Admin) (w : W)
      (result : LoginResult)
      → (complete_login s identity ip_address known w).0 ≡ ok result
      → (result.admin ≡ refreshed identity known)
        × ((w' : W) × ((s.issue known.id w').0 ≡ ok (result.token, result.expires_at)))
  unfolding complete_login
  completed identity ip_address known w result h =
      let (_, _, h₁, _) = bind-eq-ok _ _ w result h in
      let (_, _, h₂, _) = bind-eq-ok _ _ _ result h₁ in
      let (issued, made, h₃, _) = bind-eq-ok _ _ _ result h₂ in
      let (_, _, h₄, _) = bind-eq-ok _ _ _ result h₃ in
      let answer : LoginResult = record {
        token = issued.0;
        expires_at = issued.1;
        admin = refreshed identity known;
      } in
      let same : answer ≡ result = cc h₄ in
      (
        ap (λ (r : LoginResult). r.admin) (sym same),
        (_, made ∙ ap (λ (r : LoginResult). ok (r.token, r.expires_at)) same),
      )

  -- Only an administrator that is stored and ACTIVE logs in, and only by a token that Google's keys
  -- verify for its subject: the answer is that row, with the name, the picture and the address of
  -- the verified identity, and a session issued for its identifier.
  pub login_outcome :
      (id_token ip_address : String) (w : W) (result : LoginResult)
      → (login_with_google s id_token ip_address w).0 ≡ ok result
      → LoggedIn view s id_token w result
  unfolding login_with_google Admins.find_by_google_sub
  login_outcome id_token ip_address w result h =
      let refuse = λ (e : Error). wrapped "" (sentinel unauthorized) in
      let (identity, verified, h₁, _) = bind-eq-ok _ _ w result h in
      let (known, found, h₂, _) = bind-eq-ok _ _ _ result h₁ in
      let called =
        ap view (on_error_world refuse (s.verify id_token) w) ∙ verify_reads id_token w in
      let (stored, subject) =
        lawful.admins.first_ok _ _ known (on_error-eq-ok or_not_authorized _ _ known found) in
      let at = ap (λ (v : View). v.admins known.id) (sym called) ∙ stored in
      elim (Bool-cases (is_active_admin known.status)) [
        | inl on ↦
            let (answer, issued) = completed identity ip_address known _ result (rw on at h₂) in
            record {
              identity = identity;
              verified = on_error-eq-ok refuse (s.verify id_token) w identity verified;
              known = known;
              stored = at;
              same_subject = (eq_iff known.google_sub identity.sub).0 subject;
              active = on;
              answer = answer;
              issued = issued;
            }
        | inr off ↦ absurd (cc (rw off at h₂))
      ]
