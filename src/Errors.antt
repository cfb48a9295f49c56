-- ===== src/Errors.antt =====
-- Go error values: internal/services/errors.go, the sentinels of gorm and of the auth service, and
-- the wrapping of `fmt.Errorf("...: %w", err)` that `errors.Is` looks through.
use vpn_backend.Base.{Bool, true, false, String}

-- The error values that the program compares by identity.
pub data Sentinel : Type 0 where
  record_not_found : Sentinel
  not_found conflict validation unauthorized : Sentinel
  not_authorized_google_account : Sentinel

-- `message` is an error of its own (`fmt.Errorf` with no `%w`, or a library's); `wrapped` is
-- `fmt.Errorf` with one `%w`.
pub data Error : Type 0 where
  sentinel : Sentinel → Error
  message : String → Error
  wrapped : String → Error → Error

abbrev pub same_sentinel : Sentinel → Sentinel → Bool
same_sentinel record_not_found record_not_found = true
same_sentinel not_found not_found = true
same_sentinel conflict conflict = true
same_sentinel validation validation = true
same_sentinel unauthorized unauthorized = true
same_sentinel not_authorized_google_account not_authorized_google_account = true
same_sentinel _ _ = false

-- `errors.Is(err, target)`.
abbrev pub is_error : Error → Sentinel → Bool
is_error (sentinel s) target = same_sentinel s target
is_error (message m) target = false
is_error (wrapped m e) target = is_error e target
