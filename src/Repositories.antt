-- ===== src/Repositories.antt =====
-- internal/repositories: thin wrappers of gorm, one module for each. This file has the pagination
-- that the lists share; an `int` is a 64-bit integer, whose arithmetic wraps.
pub mod Pages
pub mod AccessKeys
pub mod Users
pub mod Devices
pub mod Servers
pub mod Admins
pub mod AuditLogs
use vpn_backend.Base.{if◌then◌else◌}
use vpn_backend.Base.Int.{ℤ, pos, ltb_ℤ, ◌-64◌, ◌*64◌}

pub record Pagination : Type 0 where
  pub page : ℤ
  pub page_size : ℤ

-- What `normalize` returns.
pub record Normal : Type 0 where
  pub page : ℤ
  pub page_size : ℤ
  pub offset : ℤ

unfoldable pub normalize : Pagination → Normal
normalize p =
    let page = if ltb_ℤ p.page (pos 1) then pos 1 else p.page in
    let page_size = if ltb_ℤ p.page_size (pos 1) then pos 20 else p.page_size in
    let page_size = if ltb_ℤ (pos 200) page_size then pos 200 else page_size in
    record { page = page; page_size = page_size; offset = (page -64 pos 1) *64 page_size }
