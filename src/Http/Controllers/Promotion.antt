-- ===== src/Http/Controllers/Promotion.antt =====
-- What a user may make of its own account.
use arcana_cloud_nodejs.Base.{ℕ, ◌≡◌, some}
use arcana_cloud_nodejs.Base.Exec.{Exec, ok, ◌>>◌}
use arcana_cloud_nodejs.Accounts.Models.{User, UserRole}
use arcana_cloud_nodejs.Accounts.Prisma.{Prisma, UserChange}
use arcana_cloud_nodejs.Accounts.UserDao
use arcana_cloud_nodejs.Accounts.UserRepository
use arcana_cloud_nodejs.Accounts.Platform.{Platform}
use arcana_cloud_nodejs.Http.Controllers

-- Documented: a row that `update` answers has the role that it was given.
pub record SetsRole {W : Type 0} (prisma : Prisma W) : Type 0 where
  pub updated :
      (i : ℕ) (c : UserChange) (role : UserRole) (w : W) {u : User} {v : W}
      → c.role ≡ some role
      → prisma.user_update i c w ≡ ok u v
      → u.role ≡ role
