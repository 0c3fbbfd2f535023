-- ===== src/Accounts/TokenRepository.antt =====
-- src/repository/impl/oauth-token.repository.impl.ts: the repository of tokens over the DAO.
use arcana_cloud_nodejs.Base.{
  ℕ, String, Bool, true, false, Option, none, some, List, ◌==◌, if◌then◌else◌,
}
use arcana_cloud_nodejs.Base.Exec.{Exec, pure, throw, ◌>>=◌}
use arcana_cloud_nodejs.Errors.{plain}
use arcana_cloud_nodejs.Accounts.Models.{OAuthToken, CreateTokenData}
use arcana_cloud_nodejs.Accounts.Prisma.{Prisma}
use arcana_cloud_nodejs.Accounts.TokenDao

-- The keys of a partial update, as far as the repository looks at them: how many there are, and the
-- value of `isRevoked`.
pub record TokenUpdate : Type 0 where
  pub keys : ℕ
  pub is_revoked : Option Bool

abbrev only_revokes : TokenUpdate → Bool
only_revokes u = elim (u.is_revoked) [ some true ↦ u.keys == 1 | _ ↦ false ]

module _ {W : Type 0} (prisma : Prisma W) where
  unfoldable pub save : CreateTokenData → Exec W OAuthToken
  save = TokenDao.create prisma

  -- `token as OAuthToken` may be `null`.
  unfoldable pub update : ℕ → TokenUpdate → Exec W (Option OAuthToken)
  update id data' =
      if only_revokes data'
      then (do _ ← TokenDao.revoke prisma id; TokenDao.get_by_id prisma id)
      else throw
          (plain "OAuthTokenDao does not support generic updates. Use domain-specific methods.")

  unfoldable pub find_by_id : ℕ → Exec W (Option OAuthToken)
  find_by_id = TokenDao.get_by_id prisma

  unfoldable pub find_all : Exec W (List OAuthToken)
  find_all =
      throw (plain "findAll() is not supported for OAuthToken. Use findActiveByUserId() instead.")

  unfoldable pub count : Exec W ℕ
  count = throw (plain "count() is not supported for OAuthToken directly.")

  unfoldable pub delete_by_id : ℕ → Exec W Bool
  delete_by_id = TokenDao.revoke prisma

  unfoldable pub exists_by_id : ℕ → Exec W Bool
  exists_by_id id = do
    token ← TokenDao.get_by_id prisma id
    pure (elim token [ some _ ↦ true | none ↦ false ])

  unfoldable pub find_by_access_token : String → Exec W (Option OAuthToken)
  find_by_access_token = TokenDao.get_by_access_token prisma

  unfoldable pub find_by_refresh_token : String → Exec W (Option OAuthToken)
  find_by_refresh_token = TokenDao.get_by_refresh_token prisma

  unfoldable pub find_active_by_user_id : ℕ → Exec W (List OAuthToken)
  find_active_by_user_id = TokenDao.get_active_for_user prisma

  unfoldable pub revoke : ℕ → Exec W Bool
  revoke = TokenDao.revoke prisma

  unfoldable pub revoke_all_by_user_id : ℕ → Exec W ℕ
  revoke_all_by_user_id = TokenDao.revoke_all_for_user prisma

  unfoldable pub delete_expired : Exec W ℕ
  delete_expired = TokenDao.delete_expired prisma
