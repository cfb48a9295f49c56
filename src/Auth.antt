-- ===== src/Auth.antt =====
-- internal/auth: the backend's own sessions (session.go) and Google's tokens (google.go).
pub mod Sessions
pub mod Google
