-- ===== src/Auth/Sessions/RoundTrip.antt =====
-- `Issue` and `Verify`, one after the other.
use vpn_backend.Base.{
  ◌%◌, ◌≤◌, ◌<◌, ltb, String, ◌≡◌, sym, ap, ◌∙◌, ◌⊎◌, inl, inr, Bool-cases, subst, arith,
}
use vpn_backend.Errors.{Error, wrapped}
use vpn_backend.Action.{
  Result, ok, err, lift, on_error, bind-eq-ok, on_error-eq-ok, bind-ok, bind-err, on_error-ok,
  on_error-err,
}
use vpn_backend.Models.{Uuid, Time}
use vpn_backend.Auth.Sessions.{
  Claims, Jwt, SessionManager, session_claims, second, numeric_date, add_duration, issue, verify,
}

-- The times of the claims are whole seconds, which is how a token writes them.
pub record IsWhole (c : Claims) : Type 0 where
  pub issued : c.issued_at % second ≡ 0
  pub expires : c.expires_at % second ≡ 0

-- A token is read back with the secret that signed it until it expires, and is refused from then on,
-- and a uuid is read back from its text.
pub record LawfulJwt (j : Jwt) : Type 0 where
  pub parse-sign :
      (secret : String) (c : Claims) (token : String) (now : Time)
      → IsWhole c
      → j.sign secret c ≡ ok token
      → now < c.expires_at
      → j.parse secret now token ≡ ok c
  pub parse_expired :
      (secret : String) (c : Claims) (token : String) (now : Time)
      → IsWhole c
      → j.sign secret c ≡ ok token
      → c.expires_at ≤ now
      → (e : Error) × (j.parse secret now token ≡ err e)
  pub parse_uuid-text : (i : Uuid) → j.parse_uuid (j.uuid_text i) ≡ ok i

numeric_date_whole : (t : Time) → numeric_date t % second ≡ 0
unfolding numeric_date
numeric_date_whole t = omega arith

module _ {W : Type 0} (s : SessionManager W) (lawful : LawfulJwt s.jwt) where
  issued :
      (id : Uuid) (w : W) (token : String) (expires_at : Time)
      → (issue s id w).0 ≡ ok (token, expires_at)
      → (s.jwt.sign s.secret (session_claims s id (s.now w)) ≡ ok token)
        × (expires_at ≡ add_duration (s.now w) s.expiry)
  unfolding issue
  issued id w token expires_at h =
      let (signed, made, e, _) = bind-eq-ok _ _ w (token, expires_at) h in
      let signed' = on_error-eq-ok (wrapped "sign session token") _ w signed made in
      let answer : (signed, add_duration (s.now w) s.expiry) ≡ (token, expires_at) = cc e in
      (
        signed' ∙ ap (λ (x : String × Time). ok x.0) answer,
        sym (ap (λ (x : String × Time). x.1) answer),
      )

  module _ (id : Uuid) (w w' : W) (token : String) where
    claims : Claims
    claims = session_claims s id (s.now w)

    whole : IsWhole claims
    unfolding claims
    whole = record {
      issued = numeric_date_whole (s.now w);
      expires = numeric_date_whole (add_duration (s.now w) s.expiry);
    }

    accepted :
        s.jwt.sign s.secret claims ≡ ok token
        → s.now w' < claims.expires_at
        → verify s token w' ≡ (ok id, w')
    unfolding verify claims
    accepted signed early =
        let read = λ (c : Claims).
          on_error {W = W} (wrapped "invalid subject claim") (lift (s.jwt.parse_uuid c.subject)) in
        let m =
          on_error {W = W} (wrapped "invalid session token")
            (lift (s.jwt.parse s.secret (s.now w') token)) in
        let parsed = lawful.parse-sign s.secret claims token (s.now w') whole signed early in
        let first =
          on_error-ok (wrapped "invalid session token")
            (lift (s.jwt.parse s.secret (s.now w') token)) w' claims parsed in
        bind-ok m read w' claims (ap (λ (r : Result Claims × W). r.0) first)
        ∙ ap (λ (r : Result Claims × W). read claims r.1) first
        ∙ on_error-ok (wrapped "invalid subject claim") _ w' id (lawful.parse_uuid-text id)

    refused :
        s.jwt.sign s.secret claims ≡ ok token
        → claims.expires_at ≤ s.now w'
        → (e : Error) × (verify s token w' ≡ (err e, w'))
    unfolding verify claims
    refused signed late =
        let (e, failed) = lawful.parse_expired s.secret claims token (s.now w') whole signed late in
        let read = λ (c : Claims).
          on_error {W = W} (wrapped "invalid subject claim") (lift (s.jwt.parse_uuid c.subject)) in
        let m =
          on_error {W = W} (wrapped "invalid session token")
            (lift (s.jwt.parse s.secret (s.now w') token)) in
        let first =
          on_error-err (wrapped "invalid session token")
            (lift (s.jwt.parse s.secret (s.now w') token)) w' e failed in
        (
          wrapped "invalid session token" e,
          bind-err m read w' (wrapped "invalid session token" e)
                (ap (λ (r : Result Claims × W). r.0) first)
              ∙ ap (λ (r : Result Claims × W). (err (wrapped "invalid session token" e), r.1))
                  first,
        )

  -- A session that was issued to an administrator is verified as that administrator's, in every
  -- world, until the second in which it expires by the instant that `Issue` answered begins, and it is
  -- refused from then on. That instant is the time of issue and the manager's expiry.
  pub verify-issue :
      (id : Uuid) (w w' : W) (token : String) (expires_at : Time)
      → (issue s id w).0 ≡ ok (token, expires_at)
      → (expires_at ≡ add_duration (s.now w) s.expiry)
        × (((s.now w' < numeric_date expires_at) × (verify s token w' ≡ (ok id, w')))
            ⊎ ((numeric_date expires_at ≤ s.now w')
                × ((e : Error) × (verify s token w' ≡ (err e, w')))))
  unfolding claims
  verify-issue id w w' token expires_at h =
      let (signed, at) = issued id w token expires_at h in
      let ends = ap numeric_date at in
      (
        at,
        elim (Bool-cases (ltb (s.now w') (numeric_date expires_at))) [
          | inl early ↦
              let before : s.now w' < numeric_date expires_at = ground arith in
              inl (before, accepted id w w' token signed (subst (λ t. s.now w' < t) ends before))
          | inr late ↦
              let after : numeric_date expires_at ≤ s.now w' = ground arith in
              inr (after, refused id w w' token signed (subst (λ t. t ≤ s.now w') ends after))
        ],
      )
