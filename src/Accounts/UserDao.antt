-- ===== src/Accounts/UserDao.antt =====
-- src/repositories/impl/user.repository.impl.ts: the access to the user table, with its pages.
pub mod Pages
use arcana_cloud_nodejs.Base.{
  ℕ, zero, suc, ◌+◌, ◌-◌, ◌*◌, ◌/◌, ◌%◌, String, Bool, true, Option, none, some, List, ltb,
  if◌then◌else◌,
}
use arcana_cloud_nodejs.Base.Int.{ℤ, pos, negsuc}
use arcana_cloud_nodejs.Base.Exec.{Exec, ok, pure, ◌>>=◌, ◌>>◌}
use arcana_cloud_nodejs.Accounts.Models.{User, UserRole, user, UserStatus, CreateUserData}
use arcana_cloud_nodejs.Accounts.Prisma.{
  Prisma, UserKey, user_id, username, email, UserChange, no_change, UserFilter,
}

pub record UserFilterParams : Type 0 where
  pub page : ℕ
  pub per_page : ℕ
  pub role : Option UserRole
  pub status : Option UserStatus

-- `total_pages` is `none` where the source's quotient is no finite number.
pub record Pagination : Type 0 where
  pub page : ℕ
  pub per_page : ℕ
  pub total : ℕ
  pub total_pages : Option ℕ

pub record PaginatedResult (T : Type 0) : Type 0 where
  pub items : List T
  pub pagination : Pagination

-- the data of a new user, with the hash of the password
pub record HashedUserData : Type 0 where
  pub fields : CreateUserData
  pub password_hash : String

-- `role || UserRole.USER`
abbrev pub role_or_user : Option UserRole → UserRole
role_or_user none = user
role_or_user (some r) = r

abbrev negated : ℕ → ℤ
negated zero = pos 0
negated (suc n) = negsuc n

-- `(page - 1) * perPage`
unfoldable pub skip_of : ℕ → ℕ → ℤ
skip_of zero per_page = negated per_page
skip_of (suc n) per_page = pos (n * per_page)

-- `Math.ceil(total / perPage)`
unfoldable pub total_pages_of : ℕ → ℕ → Option ℕ
total_pages_of total zero = none
total_pages_of total (suc n) =
    some (if ltb 0 (total % suc n) then total / suc n + 1 else total / suc n)

module _ {W : Type 0} (prisma : Prisma W) where
  unfoldable pub create : HashedUserData → Exec W User
  create data' = prisma.user_create (record {
    username = data'.fields.username;
    email = data'.fields.email;
    password_hash = data'.password_hash;
    first_name = data'.fields.first_name;
    last_name = data'.fields.last_name;
    phone = data'.fields.phone;
    role = role_or_user data'.fields.role;
  })

  unfoldable pub get_by_id : ℕ → Exec W (Option User)
  get_by_id id = prisma.user_find_unique (user_id id)

  unfoldable pub get_by_username : String → Exec W (Option User)
  get_by_username name = prisma.user_find_unique (username name)

  unfoldable pub get_by_email : String → Exec W (Option User)
  get_by_email address = prisma.user_find_unique (email address)

  unfoldable pub update : ℕ → UserChange → Exec W User
  update id change = prisma.user_update id change

  unfoldable pub delete : ℕ → Exec W Bool
  delete id = prisma.user_delete id >> pure true

  unfoldable pub get_all : UserFilterParams → Exec W (PaginatedResult User)
  unfolding skip_of total_pages_of
  get_all params =
      let where' : UserFilter = record { role = params.role; status = params.status } in
      do
        items ← prisma.user_find_many where' (skip_of params.page params.per_page) params.per_page
        total ← prisma.user_count where'
        pure (record {
          items = items;
          pagination = record {
            page = params.page;
            per_page = params.per_page;
            total = total;
            total_pages = total_pages_of total params.per_page;
          };
        })

  unfoldable pub get_count : UserFilter → Exec W ℕ
  get_count where' = prisma.user_count where'

  unfoldable pub update_last_login : ℕ → Exec W (Unit {0})
  update_last_login id w =
      (prisma.user_update id (record no_change { last_login_at = some (prisma.now w) }) >>= λ _.
      pure tt)
        w
