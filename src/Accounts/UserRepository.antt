-- ===== src/Accounts/UserRepository.antt =====
-- src/repository/impl/user.repository.impl.ts: the repository of users over the DAO.
use arcana_cloud_nodejs.Base.{ℕ, String, Bool, true, false, Option, none, some, List}
use arcana_cloud_nodejs.Base.Exec.{Exec, pure, ◌>>=◌}
use arcana_cloud_nodejs.Accounts.Models.{User, UserStatus}
use arcana_cloud_nodejs.Accounts.Prisma.{Prisma, UserChange, no_change, UserFilter}
use arcana_cloud_nodejs.Accounts.UserDao
use arcana_cloud_nodejs.Accounts.UserDao.{HashedUserData, UserFilterParams, PaginatedResult}

module _ {W : Type 0} (prisma : Prisma W) where
  unfoldable pub save : HashedUserData → Exec W User
  save = UserDao.create prisma

  unfoldable pub update : ℕ → UserChange → Exec W User
  update = UserDao.update prisma

  unfoldable pub find_by_id : ℕ → Exec W (Option User)
  find_by_id = UserDao.get_by_id prisma

  unfoldable pub find_all : Exec W (List User)
  find_all = do
    result ←
        UserDao.get_all prisma (record { page = 1; per_page = 10000; role = none; status = none })
    pure result.items

  unfoldable pub count : UserFilter → Exec W ℕ
  count = UserDao.get_count prisma

  unfoldable pub delete_by_id : ℕ → Exec W Bool
  delete_by_id = UserDao.delete prisma

  unfoldable pub exists_by_id : ℕ → Exec W Bool
  exists_by_id id = do
    user ← UserDao.get_by_id prisma id
    pure (elim user [ some _ ↦ true | none ↦ false ])

  unfoldable pub find_by_username : String → Exec W (Option User)
  find_by_username = UserDao.get_by_username prisma

  unfoldable pub find_by_email : String → Exec W (Option User)
  find_by_email = UserDao.get_by_email prisma

  unfoldable pub find_all_paginated : UserFilterParams → Exec W (PaginatedResult User)
  find_all_paginated = UserDao.get_all prisma

  unfoldable pub update_last_login : ℕ → Exec W (Unit {0})
  update_last_login = UserDao.update_last_login prisma

  unfoldable pub update_status : ℕ → UserStatus → Exec W User
  update_status id status = UserDao.update prisma id (record no_change { status = some status })
