-- ===== src/Accounts/TokenDao.antt =====
-- src/repositories/impl/oauth-token.repository.impl.ts: the access to the token table.
use arcana_cloud_nodejs.Base.{ℕ, String, Bool, true, false, Option, some, List}
use arcana_cloud_nodejs.Base.Exec.{Exec, pure, ◌>>◌}
use arcana_cloud_nodejs.Accounts.Models.{OAuthToken, CreateTokenData}
use arcana_cloud_nodejs.Accounts.Prisma.{Prisma, any_token, by_id}

module _ {W : Type 0} (prisma : Prisma W) where
  unfoldable pub create : CreateTokenData → Exec W OAuthToken
  create data' = prisma.token_create data'

  unfoldable pub get_by_id : ℕ → Exec W (Option OAuthToken)
  get_by_id id = prisma.token_find_first (by_id id)

  unfoldable pub get_by_access_token : String → Exec W (Option OAuthToken)
  get_by_access_token token =
      prisma.token_find_first (record any_token { access_token = some token })

  unfoldable pub get_by_refresh_token : String → Exec W (Option OAuthToken)
  get_by_refresh_token token =
      prisma.token_find_first (record any_token { refresh_token = some token })

  unfoldable pub get_active_for_user : ℕ → Exec W (List OAuthToken)
  get_active_for_user user_id w =
      prisma.token_find_many
        (record any_token {
          user_id = some user_id;
          is_revoked = some false;
          expires_after = some (prisma.now w);
        })
        w

  unfoldable pub revoke : ℕ → Exec W Bool
  revoke id = prisma.token_revoke id >> pure true

  unfoldable pub revoke_all_for_user : ℕ → Exec W ℕ
  revoke_all_for_user user_id =
      prisma.token_revoke_many
        (record any_token { user_id = some user_id; is_revoked = some false })

  unfoldable pub delete_expired : Exec W ℕ
  delete_expired w =
      prisma.token_delete_many (record any_token { expires_before = some (prisma.now w) }) w
