-- ===== src/Communication/Grpc/Server/Repository.antt =====
-- The service of src/grpc/grpc-server.ts over the user table: `startRepositoryGRPCServer`.
use arcana_cloud_nodejs.Base.{
  ℕ, String, Bool, true, false, Option, none, some, str_eq, if◌then◌else◌,
}
use arcana_cloud_nodejs.Base.Exec.{Exec, ok, err, pure, ◌>>=◌}
use arcana_cloud_nodejs.Errors.{Throwable, message_of}
use arcana_cloud_nodejs.Accounts.Models.{User}
use arcana_cloud_nodejs.Accounts.Prisma.{Prisma, UserChange, UserFilter}
use arcana_cloud_nodejs.Accounts.UserDao.{UserFilterParams, PaginatedResult, HashedUserData}
use arcana_cloud_nodejs.Accounts.UserDao
use arcana_cloud_nodejs.Communication.Grpc.Server.{
  Answer, answered, failed, internal, unimplemented,
}

-- what `JSON.parse` answers or throws
pub data Parsed (A : Type 0) : Type 0 where
  parsed : A → Parsed A
  malformed : Throwable → Parsed A

-- `JSON.parse` and `JSON.stringify`, at the types that the table takes and gives
pub record Json : Type 0 where
  pub params_of : String → Parsed UserFilterParams
  pub filter_of : String → Parsed UserFilter
  pub new_user_of : String → Parsed HashedUserData
  pub change_of : String → Parsed UserChange
  pub page_text : PaginatedResult User → String
  pub user_text : User → String

pub record RowMessage : Type 0 where
  pub data_text : String
  pub is_found : Bool

-- the body of a handler in its `try`
abbrev pub caught : {W A : Type 0} → Exec W (Answer A) → W → Answer A × W
caught m w = elim (m w) [
  | ok answer w' ↦ (answer, w')
  | err e w' ↦ (failed internal (message_of e), w')
]

abbrev pub after_parse : {W A B : Type 0} → Parsed A → (A → Exec W B) → Exec W B
after_parse (parsed a) f w = f a w
after_parse (malformed e) f w = err e w

-- `text || '{}'`
abbrev object_or : String → String
object_or s = if str_eq s "" then "{}" else s

module _ {W : Type 0} (prisma : Prisma W) (json : Json) where
  abbrev unsupported : {A : Type 0} → Exec W (Answer A)
  unsupported = pure (failed unimplemented "Entity not supported")

  abbrev row_answer : Option User → Answer RowMessage
  row_answer none = answered (record { data_text = ""; is_found = false })
  row_answer (some user) = answered (record { data_text = json.user_text user; is_found = true })

  unfoldable pub query : String → String → W → Answer String × W
  query entity params = caught (
      after_parse (json.params_of (object_or params)) λ p.
        if str_eq entity "user"
        then (do result ← UserDao.get_all prisma p; pure (answered (json.page_text result)))
        else pure (answered "[]"))

  unfoldable pub get_by_id : String → ℕ → W → Answer RowMessage × W
  get_by_id entity id = caught (
      if str_eq entity "user"
      then (do result ← UserDao.get_by_id prisma id; pure (row_answer result))
      else pure (answered (record { data_text = ""; is_found = false })))

  unfoldable pub create : String → String → W → Answer String × W
  create entity data' = caught (
      after_parse (json.new_user_of (object_or data')) λ d.
        if str_eq entity "user"
        then (do result ← UserDao.create prisma d; pure (answered (json.user_text result)))
        else unsupported)

  unfoldable pub update : String → ℕ → String → W → Answer String × W
  update entity id data' = caught (
      after_parse (json.change_of (object_or data')) λ d.
        if str_eq entity "user"
        then (do result ← UserDao.update prisma id d; pure (answered (json.user_text result)))
        else unsupported)

  unfoldable pub delete : String → ℕ → W → Answer Bool × W
  delete entity id = caught (
      if str_eq entity "user"
      then (do success ← UserDao.delete prisma id; pure (answered success))
      else unsupported)

  unfoldable pub count : String → String → W → Answer ℕ × W
  count entity params = caught (
      after_parse (json.filter_of (object_or params)) λ p.
        if str_eq entity "user"
        then (do n ← UserDao.get_count prisma p; pure (answered n))
        else pure (answered 0))
