-- ===== src/Auth/Sessions.antt =====
-- internal/auth/session.go
pub mod RoundTrip
use vpn_backend.Base.{ℕ, suc, ◌+◌, ◌-◌, ◌%◌, String}
use vpn_backend.Base.Int.{ℤ, pos, negsuc}
use vpn_backend.Errors.{wrapped}
use vpn_backend.Action.{Result, ok, Action, pure, lift, ◌>>=◌, on_error}
use vpn_backend.Models.{Uuid, Time}

-- Instants are nanoseconds from the zero `time.Time`, and a `time.Duration` is a number of nanoseconds.
-- A duration is shorter than the time from there to any clock's, so that the sum is not negative.
unfoldable pub add_duration : Time → ℤ → Time
add_duration t (pos d) = t + d
add_duration t (negsuc d) = t - suc d

abbrev pub second : ℕ
second = 1000000000

-- `jwt.NewNumericDate` truncates to a second.
unfoldable pub numeric_date : Time → Time
numeric_date t = t - t % second

-- The claims of `jwt.RegisteredClaims` that the program sets.
pub record Claims : Type 0 where
  pub subject : String
  pub issued_at : Time
  pub expires_at : Time

-- `github.com/golang-jwt/jwt`, for tokens that are signed with HS256: `sign` is `SignedString`, and
-- `parse` is `ParseWithClaims` at an instant, which accepts no other method. `uuid_text` and
-- `parse_uuid` are those of `github.com/google/uuid`.
pub record Jwt : Type 0 where
  pub sign : (secret : String) → Claims → Result String
  pub parse : (secret : String) → (now : Time) → (token : String) → Result Claims
  pub uuid_text : Uuid → String
  pub parse_uuid : String → Result Uuid

-- `SessionManager`; `now` is `time.Now`, whose two readings in `Issue` are one.
pub record SessionManager (W : Type 0) : Type 0 where
  pub secret : String
  pub expiry : ℤ
  pub jwt : Jwt
  pub now : W → Time

module _ {W : Type 0} (s : SessionManager W) where
  abbrev pub session_claims : Uuid → Time → Claims
  session_claims admin_id now = record {
    subject = s.jwt.uuid_text admin_id;
    issued_at = numeric_date now;
    expires_at = numeric_date (add_duration now s.expiry);
  }

  unfoldable pub issue_at : Time → Uuid → Action W (String × Time)
  issue_at now admin_id = do
    signed ←
        on_error (wrapped "sign session token")
          (lift (s.jwt.sign s.secret (session_claims admin_id now)))
    pure (signed, add_duration now s.expiry)

  unfoldable pub issue : Uuid → Action W (String × Time)
  unfolding issue_at
  issue admin_id w = issue_at (s.now w) admin_id w

  unfoldable pub verify_at : Time → String → Action W Uuid
  verify_at now token = do
    claims ← on_error (wrapped "invalid session token") (lift (s.jwt.parse s.secret now token))
    on_error (wrapped "invalid subject claim") (lift (s.jwt.parse_uuid claims.subject))

  unfoldable pub verify : String → Action W Uuid
  unfolding verify_at
  verify token w = verify_at (s.now w) token w
