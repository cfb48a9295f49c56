-- ===== src/Services.antt =====
-- internal/services: the operations that the handlers and the expiration sweep call. A record of
-- pointers to repositories, such as `UserService`, is the `Gorm` that they share beside what else
-- the service holds.
pub mod Retire
pub mod RetireAll
pub mod Selected
pub mod AccessKeys
pub mod Users
pub mod Devices
pub mod Servers
pub mod Admins
pub mod Audit
pub mod Auth
pub mod Usage
use vpn_backend.Base.{String, if◌then◌else◌}
use vpn_backend.Errors.{Error, Sentinel, sentinel, wrapped, record_not_found, not_found, is_error}

-- `if errors.Is(err, gorm.ErrRecordNotFound) { return fmt.Errorf("<what> %w", ErrNotFound) }`, as
-- it stands in the `Get` of each service.
abbrev pub or_not_found : String → Error → Error
or_not_found what e = if is_error e record_not_found then wrapped what (sentinel not_found) else e
