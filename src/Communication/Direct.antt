-- ===== src/Communication/Direct.antt =====
-- src/communication/impl/direct.impl.ts: the services of the same process.
use arcana_cloud_nodejs.Base.{ℕ, List}
use arcana_cloud_nodejs.Base.Exec.{throw}
use arcana_cloud_nodejs.Errors.{Throwable, plain}
use arcana_cloud_nodejs.Accounts.Models.{UserPublic, AuthResult, TokenPair, OAuthToken}
use arcana_cloud_nodejs.Accounts.Prisma.{Prisma}
use arcana_cloud_nodejs.Accounts.UserDao.{PaginatedResult}
use arcana_cloud_nodejs.Accounts.Platform.{Platform}
use arcana_cloud_nodejs.Accounts.Auth
use arcana_cloud_nodejs.Accounts.Users
use arcana_cloud_nodejs.Communication.Interfaces.{
  Answers, ServiceCommunication, RepositoryCommunication,
}

abbrev pub direct_answers : Answers
direct_answers = record {
  user_type = UserPublic;
  page_type = PaginatedResult UserPublic;
  auth_type = AuthResult;
  pair_type = TokenPair;
  count_type = ℕ;
  tokens_type = List OAuthToken;
}

module _ {W : Type 0} (prisma : Prisma W) (platform : Platform W) where
  abbrev pub direct_service : ServiceCommunication W direct_answers
  direct_service = record {
    get_users = λ params. Users.get_users prisma platform params;
    get_user_by_id = λ user_id. Users.get_user_by_id prisma platform user_id;
    create_user = λ data'. Users.create_user prisma platform data';
    update_user = λ user_id data'. Users.update_user prisma platform user_id data';
    delete_user = λ user_id. Users.delete_user prisma platform user_id;
    change_password = λ user_id data'.
        Users.change_password prisma platform user_id data'.old_password data'.new_password;
    verify_user = λ user_id. Users.verify_user prisma platform user_id;
    update_user_status = λ user_id status. Users.update_user_status prisma platform user_id status;
    login = λ data'. Auth.login prisma platform data';
    logout = λ token. Auth.logout prisma platform token;
    refresh_token = λ token. Auth.refresh_token prisma platform token;
    validate_token = λ token. Auth.validate_token prisma platform token;
    register = λ data'. Auth.register prisma platform data';
    revoke_all_tokens = λ user_id. Auth.revoke_all_tokens prisma platform user_id;
    get_user_tokens = λ user_id. Auth.get_user_tokens prisma platform user_id;
  }

abbrev pub not_implemented : Throwable
not_implemented = plain "Direct repository communication not fully implemented"

module _ {W J Rows Row Count : Type 0} where
  abbrev pub direct_repository : RepositoryCommunication W J Rows Row Count
  direct_repository = record {
    query = λ entity params. throw not_implemented;
    get_by_id = λ entity id. throw not_implemented;
    create = λ entity data'. throw not_implemented;
    update = λ entity id data'. throw not_implemented;
    delete = λ entity id. throw not_implemented;
    count = λ entity params. throw not_implemented;
  }
