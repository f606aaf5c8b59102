-- ===== src/Common.antt =====
-- common/types.go
pub mod Hash
use rufs.Base.{ℕ, Str}

-- `Size` is a file's size, which no caller makes negative. Times are only compared for equality,
-- and are numbers here.
pub record FileInfo : Type 0 where
  pub size : ℕ
  pub hash : Str
  pub mtime : ℕ
