-- ===== src/Communication/Interfaces.antt =====
-- src/communication/interfaces.ts. A client asserts the types of what arrives from another process
-- (`as UserPublic`); what really arrives is its `Answers`.
use arcana_cloud_nodejs.Base.{ℕ, String, Bool, Option}
use arcana_cloud_nodejs.Base.Exec.{Exec}
use arcana_cloud_nodejs.Accounts.Models.{CreateUserData, UpdateUserData, UserStatus, LoginData}
use arcana_cloud_nodejs.Accounts.UserDao.{UserFilterParams}

pub data DeploymentMode : Type 0 where
  monolithic layered microservices : DeploymentMode

pub data CommunicationProtocol : Type 0 where
  direct http grpc : CommunicationProtocol

pub data DeploymentLayer : Type 0 where
  monolithic_layer controller service repository : DeploymentLayer

pub record ChangePasswordData : Type 0 where
  pub old_password : String
  pub new_password : String

pub record Answers : Type 1 where
  pub user_type : Type 0
  pub page_type : Type 0
  pub auth_type : Type 0
  pub pair_type : Type 0
  pub count_type : Type 0
  pub tokens_type : Type 0

pub record ServiceCommunication (W : Type 0) (answers : Answers) : Type 0 where
  pub get_users : UserFilterParams → Exec W answers.page_type
  pub get_user_by_id : ℕ → Exec W answers.user_type
  pub create_user : CreateUserData → Exec W answers.user_type
  pub update_user : ℕ → UpdateUserData → Exec W answers.user_type
  pub delete_user : ℕ → Exec W Bool
  pub change_password : ℕ → ChangePasswordData → Exec W Bool
  pub verify_user : ℕ → Exec W answers.user_type
  pub update_user_status : ℕ → UserStatus → Exec W answers.user_type
  pub login : LoginData → Exec W answers.auth_type
  pub logout : String → Exec W Bool
  pub refresh_token : String → Exec W answers.pair_type
  pub validate_token : String → Exec W answers.user_type
  pub register : CreateUserData → Exec W answers.auth_type
  pub revoke_all_tokens : ℕ → Exec W answers.count_type
  pub get_user_tokens : ℕ → Exec W answers.tokens_type

-- `J` is the type of JavaScript values: the entity is a name, and its rows have no type here.
pub record RepositoryCommunication (W J Rows Row Count : Type 0) : Type 0 where
  pub query : String → J → Exec W Rows
  pub get_by_id : String → ℕ → Exec W Row
  pub create : String → J → Exec W Row
  pub update : String → ℕ → J → Exec W Row
  pub delete : String → ℕ → Exec W Bool
  pub count : String → Option J → Exec W Count
