-- ===== src/Testing/Sessions.antt =====
-- Session tokens of one administrator, and Google tokens that one key signs.
use Prim.Native.String.{[] as []ˢ, ◌∷◌ as ◌∷ˢ◌}
use vpn_backend.Base.{
  ℕ, zero, suc, ◌<◌, ◌≤◌, ◌⊎◌, true, false, String, str_eq, eq_iff, ◌==◌, ==_iff, ◌≡◌, refl, sym,
  ap, ltb, arith, if◌then◌else◌, if_eq_rule,
}
use vpn_backend.Errors.{Error, message}
use vpn_backend.Base.Int.{pos}
use vpn_backend.Action.{Result, ok, err, ◌>>=◌, on_error}
use vpn_backend.Models.{Time}
use vpn_backend.Auth.Sessions.{
  Claims, Jwt, SessionManager, issue, issue_at, numeric_date, add_duration, verify,
}
use vpn_backend.Auth.Sessions.RoundTrip.{LawfulJwt, verify-issue}
use vpn_backend.Testing.World.{World}
use vpn_backend.Testing.Examples.{world}

-- One stroke for each unit.
abbrev strokes : ℕ → String
strokes zero = []ˢ
strokes (suc n) = "1" ∷ˢ strokes n

abbrev tally : String → ℕ
tally []ˢ = 0
tally (c ∷ˢ s) = suc (tally s)

tally-strokes : (n : ℕ) → tally (strokes n) ≡ n
tally-strokes zero = refl
tally-strokes (suc n) = ap suc (tally-strokes n)

-- The claims of a session of administrator 2, of an hour.
abbrev carol_claims : Claims
carol_claims = record { subject = "11"; issued_at = 0; expires_at = 3600000000000 }

abbrev sign_claims : Claims → Result String
sign_claims c =
    if str_eq c.subject "11"
    then (if c.issued_at == 0
        then (if c.expires_at == 3600000000000 then ok "session" else err (message "key"))
        else err (message "key"))
    else err (message "key")

abbrev parse_claims : Time → String → Result Claims
parse_claims now token =
    if ltb now 3600000000000
    then (if str_eq token "session" then ok carol_claims else err (message "malformed"))
    else err (message "expired")

abbrev jwt : Jwt
jwt = record {
  sign = λ secret c. sign_claims c;
  parse = λ secret now token. parse_claims now token;
  uuid_text = strokes;
  parse_uuid = λ text. ok (tally text);
}

parse-sign :
    (c : Claims) (token : String) (now : Time)
    → sign_claims c ≡ ok token
    → now < c.expires_at
    → parse_claims now token ≡ ok c
parse-sign c token now =
    if_eq_rule (λ r. r ≡ ok token → now < c.expires_at → parse_claims now token ≡ ok c)
      (str_eq c.subject "11")
      (λ subject.
        if_eq_rule (λ r. r ≡ ok token → now < c.expires_at → parse_claims now token ≡ ok c)
          (c.issued_at == 0)
          (λ issued.
            if_eq_rule (λ r. r ≡ ok token → now < c.expires_at → parse_claims now token ≡ ok c)
              (c.expires_at == 3600000000000)
              (λ expires h early.
                let text : "session" ≡ token = cc h in
                let e₁ = (eq_iff c.subject "11").0 subject in
                let e₂ = (==_iff c.issued_at 0).0 issued in
                let e₃ = (==_iff c.expires_at 3600000000000).0 expires in
                let soon : ltb now 3600000000000 ≡ true = ground (arith, e₃, early) in
                let named = (eq_iff token "session").1 (sym text) in
                rw (soon, named) (cc (e₁, e₂, e₃)))
              (λ _ h. absurd (cc h)))
          (λ _ h. absurd (cc h)))
      (λ _ h. absurd (cc h))

parse_expired :
    (c : Claims) (token : String) (now : Time)
    → sign_claims c ≡ ok token
    → c.expires_at ≤ now
    → (e : Error) × (parse_claims now token ≡ err e)
parse_expired c token now =
    if_eq_rule
      (λ r. r ≡ ok token → c.expires_at ≤ now → (e : Error) × (parse_claims now token ≡ err e))
      (str_eq c.subject "11")
      (λ _.
        if_eq_rule
          (λ r. r ≡ ok token → c.expires_at ≤ now → (e : Error) × (parse_claims now token ≡ err e))
          (c.issued_at == 0)
          (λ _.
            if_eq_rule
              (λ r.
                r ≡ ok token → c.expires_at ≤ now → (e : Error) × (parse_claims now token ≡ err e))
              (c.expires_at == 3600000000000)
              (λ expires h late.
                let same = (==_iff c.expires_at 3600000000000).0 expires in
                let past : ltb now 3600000000000 ≡ false = ground (arith, same, late) in
                (message "expired", rw past refl))
              (λ _ h. absurd (cc h)))
          (λ _ h. absurd (cc h)))
      (λ _ h. absurd (cc h))

pub jwt-LawfulJwt : LawfulJwt jwt
jwt-LawfulJwt = record {
  parse-sign = λ secret c token now _ h early. parse-sign c token now h early;
  parse_expired = λ secret c token now _ h late. parse_expired c token now h late;
  parse_uuid-text = λ i. ap ok (tally-strokes i);
}

abbrev pub sessions : SessionManager World
sessions = record { secret = "secret"; expiry = pos 3600000000000; jwt = jwt; now = λ w. w.clock }

issued_to_carol : (issue sessions 2 world).0 ≡ ok ("session", 3600000000100)
unfolding issue issue_at numeric_date add_duration on_error ◌>>=◌
issued_to_carol = refl

-- In the last second before the instant that was answered.
abbrev later : World
later = record world { clock = 3600000000050 }

verify-issue_example :
    (3600000000100 ≡ add_duration 100 (pos 3600000000000))
    × (((3600000000050 < numeric_date 3600000000100)
          × (verify sessions "session" later ≡ (ok 2, later)))
        ⊎ ((numeric_date 3600000000100 ≤ 3600000000050)
            × ((e : Error) × (verify sessions "session" later ≡ (err e, later)))))
verify-issue_example =
    verify-issue sessions jwt-LawfulJwt 2 world later "session" 3600000000100 issued_to_carol
