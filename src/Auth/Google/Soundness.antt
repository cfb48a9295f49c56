-- ===== src/Auth/Google/Soundness.antt =====
-- `Verify`: whose identity it answers with.
use vpn_backend.Base.{
  Bool, true, false, arith, not, String, str_eq, eq_iff, ◌≡◌, ◌≢◌, sym, ◌∙◌, if_eq_rule, subst,
}
use vpn_backend.Errors.{wrapped}
use vpn_backend.Action.{Result, ok, Action, bind-eq-ok, on_error-eq-ok, on_error_world}
use vpn_backend.Text.{str_eq-false}
use vpn_backend.Auth.Google.{
  GoogleIdentity, PublicKey, MapClaims, GoogleVerifier, valid_issuer, identity_of, verify,
}
use vpn_backend.Auth.Google.Keys.{LawfulCache, IsTrusted, key_func_ok}

-- `Signed key token claims`: the token has these claims and a valid RS256 signature by the key.
-- A token is accepted with a key that the key function answers for some `kid`, called once, and then
-- only if it is signed by it.
pub record LawfulParse {W : Type 0} (Signed : PublicKey → String → MapClaims → Type 0)
    (v : GoogleVerifier W) : Type 0 where
  pub parse_ok :
      (f : String → Action W PublicKey) (token : String) (w : W) (claims : MapClaims)
      → (v.parse f token w).0 ≡ ok claims
      → (kid : String) × (key : PublicKey) × ((f kid w).0 ≡ ok key)
        × Signed key token claims
        × ((v.parse f token w).1 ≡ (f kid w).1)

module _ {W : Type 0} (Signed : PublicKey → String → MapClaims → Type 0)
    (v : GoogleVerifier W) where
  -- What the claims say that an identity is taken from.
  pub record Grants (claims : MapClaims) (identity : GoogleIdentity) : Type 0 where
    pub issuer : valid_issuer (claims.text "iss") ≡ true
    pub audience : claims.text "aud" ≡ v.client_id
    pub subject : claims.text "sub" ≢ ""
    pub email_verified : claims.flag "email_verified" ≡ true
    pub same : identity ≡ record {
      sub = claims.text "sub";
      email = claims.text "email";
      name = claims.text "name";
      picture = claims.text "picture";
    }

  not-true : (b : Bool) → not b ≡ false → b ≡ true
  not-true b h = ground arith

  GrantsIfOk : MapClaims → GoogleIdentity → Result GoogleIdentity → Type 0
  GrantsIfOk claims identity r = r ≡ ok identity → Grants claims identity

  granted :
      (claims : MapClaims) (identity : GoogleIdentity)
      → GrantsIfOk claims identity (identity_of v claims)
  unfolding identity_of GrantsIfOk
  granted claims identity =
      if_eq_rule (GrantsIfOk claims identity) (not (valid_issuer (claims.text "iss")))
        (λ _ h. absurd (cc h))
        λ issuer.
          if_eq_rule (GrantsIfOk claims identity) (not (str_eq (claims.text "aud") v.client_id))
            (λ _ h. absurd (cc h))
            λ audience.
              if_eq_rule (GrantsIfOk claims identity) (str_eq (claims.text "sub") "")
                (λ _ h. absurd (cc h))
                λ subject.
                  if_eq_rule (GrantsIfOk claims identity) (not (claims.flag "email_verified"))
                    (λ _ h. absurd (cc h))
                    λ email h. record {
                      issuer = not-true _ issuer;
                      audience = (eq_iff (claims.text "aud") v.client_id).0 (not-true _ audience);
                      subject = str_eq-false _ "" subject;
                      email_verified = not-true _ email;
                      same = cc h;
                    }

  -- A token's identity, at a world, with the world after.
  pub record IsVerified (token : String) (identity : GoogleIdentity) (w w' : W) : Type 0 where
    pub configured : v.client_id ≢ ""
    pub claims : MapClaims
    pub key : PublicKey
    pub signed : Signed key token claims
    pub kid : String
    pub trusted : IsTrusted v kid key w w'
    pub grants : Grants claims identity

  module _ (cache : LawfulCache v) (parser : LawfulParse Signed v) where
    -- If `Verify` returns an identity, a client is configured, and the token is signed by a key that was
    -- cached and current or that was fetched now, with claims that name a Google issuer, this client as
    -- audience, a subject and a verified email, and from which the identity is taken.
    pub verify_ok :
        (token : String) (identity : GoogleIdentity) (w : W)
        → (verify v token w).0 ≡ ok identity
        → IsVerified token identity w (verify v token w).1
    unfolding verify GrantsIfOk
    verify_ok token identity w =
        if_eq_rule
          (λ (m : Action W GoogleIdentity).
            (m w).0 ≡ ok identity → IsVerified token identity w (m w).1)
          (str_eq v.client_id "") (λ _ h. absurd (cc h))
          λ configured h.
            let (claims, parsed, read, world) = bind-eq-ok _ _ w identity h in
            let accepted = on_error-eq-ok (wrapped "invalid google id token") _ w claims parsed in
            let (kid, key, answered, signed, after) = parser.parse_ok _ token w claims accepted in
            record {
              configured = str_eq-false _ "" configured;
              claims = claims;
              key = key;
              signed = signed;
              kid = kid;
              trusted =
                  subst (IsTrusted v kid key w) (sym (world ∙ on_error_world _ _ w ∙ after))
                    (key_func_ok v kid key w cache answered);
              grants = granted claims identity read;
            }
