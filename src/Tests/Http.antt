-- ===== src/Tests/Http.antt =====
-- The guards of the routes, over the accounts of Tests/Accounts.antt.
use arcana_cloud_nodejs.Base.{ℕ, ◌≡◌, refl, true, none, some, [], ◌∷◌}
use arcana_cloud_nodejs.Base.Int.{pos, negsuc}
use arcana_cloud_nodejs.Base.Exec.{ok}
use arcana_cloud_nodejs.Errors.{Throwable}
use arcana_cloud_nodejs.Accounts.Models.{admin, user, UserPublic, exclude_password}
use arcana_cloud_nodejs.Accounts.Prisma.{matches}
use arcana_cloud_nodejs.Accounts.Prisma.Memory.{Db, memory_db, memory_db-IsPrisma}
use arcana_cloud_nodejs.Accounts.TokenDao
use arcana_cloud_nodejs.Accounts.UserDao
use arcana_cloud_nodejs.Accounts.UserDao.{skip_of}
use arcana_cloud_nodejs.Accounts.TokenRepository
use arcana_cloud_nodejs.Accounts.UserRepository
use arcana_cloud_nodejs.Accounts.Auth.{validate_token}
use arcana_cloud_nodejs.Http.Guards.{
  Request, RequestUser, request_user, bearer_token, includes, role_required, token_required,
  guarded,
}
use arcana_cloud_nodejs.Http.Guards.Admission.{guarded_lem, guarded-logout}
use arcana_cloud_nodejs.Http.Paging.{Query, validate_pagination}
use arcana_cloud_nodejs.Tests.Accounts.{platform, platform-IsQuiet, open_db, closed_db, logout_runs}

abbrev ann_request : Request
ann_request = record { authorization = some "Bearer access"; user = none }

abbrev ann_user : RequestUser
ann_user = record { id = 1; username = "ann"; email = "ann@x.org"; role = user }

bears : bearer_token (some "Bearer access") ≡ some "access"
unfolding bearer_token
bears = refl

guarded_runs :
    guarded memory_db platform (admin ∷ user ∷ []) ann_request open_db
    ≡ ok (record ann_request { user = some ann_user }, none) open_db
unfolding guarded token_required bearer_token role_required validate_token matches
    TokenRepository.find_by_access_token TokenDao.get_by_access_token UserRepository.find_by_id
    UserDao.get_by_id exclude_password
guarded_runs = refl

guarded_lem_example :
    (x : UserPublic) × (validate_token memory_db platform "access" open_db ≡ ok x open_db)
    × (includes (admin ∷ user ∷ []) x.role ≡ true)
    × (some ann_user ≡ some (request_user x))
guarded_lem_example =
    guarded_lem memory_db platform (admin ∷ user ∷ []) ann_request
      (record ann_request { user = some ann_user }) "access" open_db bears guarded_runs

guarded-logout_example :
    (e : Throwable) × (u : Db) × (guarded memory_db platform
        (admin ∷ user ∷ [])
        ann_request
        closed_db
      ≡ ok (ann_request, some e) u)
guarded-logout_example =
    guarded-logout memory_db platform memory_db-IsPrisma platform-IsQuiet (admin ∷ user ∷ [])
      ann_request "access" 1 open_db bears refl ((λ h. refl), tt) logout_runs

-- a query that keeps what is assigned to it
abbrev kept_query : Query (ℕ × ℕ)
kept_query = record {
  page = λ w. some (negsuc 4);
  per_page = λ w. some (pos 500);
  set_page = λ n w. (n, w.1);
  set_per_page = λ n w. (w.0, n);
}

validate_pagination_test : validate_pagination kept_query none (0, 0) ≡ (1, 100)
unfolding validate_pagination
validate_pagination_test = refl
