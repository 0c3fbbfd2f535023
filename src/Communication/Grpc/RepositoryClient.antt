-- ===== src/Communication/Grpc/RepositoryClient.antt =====
-- src/communication/impl/grpc.impl.ts: `GRPCRepositoryCommunicationImpl`. `J` is the type of JavaScript
-- values.
use arcana_cloud_nodejs.Base.{ℕ, String, Bool, Option, none, some, List, str_eq, if◌then◌else◌}
use arcana_cloud_nodejs.Base.Exec.{Exec, pure, ◌>>=◌}
use arcana_cloud_nodejs.Errors.{Throwable}
use arcana_cloud_nodejs.Communication.Interfaces.{RepositoryCommunication}
use arcana_cloud_nodejs.Communication.Pool.{Session, attempt_call}
use arcana_cloud_nodejs.Communication.Grpc.Server.Repository.{RowMessage}

-- the texts in the fields `entity` and `params` or `data`
pub record EntityText : Type 0 where
  pub entity : String
  pub text : String

-- a client of the gRPC library, with a method for each rpc
pub record RepositoryStubs (W C : Type 0) : Type 0 where
  pub query : EntityText → C → Exec W String
  pub get_by_id : String → ℕ → C → Exec W RowMessage
  pub create : EntityText → C → Exec W String
  pub update : ℕ → EntityText → C → Exec W String
  pub delete : String → ℕ → C → Exec W Bool
  pub count : EntityText → C → Exec W ℕ

-- `JSON.stringify`, `JSON.parse`, null and the object without properties
pub record Codec (W J : Type 0) : Type 0 where
  pub stringify : J → String
  pub parse : String → Exec (Session W) J
  pub null_value : J
  pub no_params : J

module _ {W C J : Type 0} (codec : Codec W J) (stubs : RepositoryStubs W C)
    (undefined_client : Throwable) (clients : List C) where
  abbrev entity_text : String → J → EntityText
  entity_text entity value = record { entity = entity; text = codec.stringify value }

  -- a call of the next client, and what `resolve` gets of the response
  abbrev resolved : {R A : Type 0} → (C → Exec W R) → (R → Exec (Session W) A) → Exec (Session W) A
  resolved method read = attempt_call undefined_client clients method >>= read

  abbrev params_or_none : Option J → J
  params_or_none none = codec.no_params
  params_or_none (some params) = params

  abbrev row_value : RowMessage → Exec (Session W) J
  row_value response =
      if str_eq response.data_text "" then pure codec.null_value else codec.parse response.data_text

  abbrev pub grpc_repository : RepositoryCommunication (Session W) J J J ℕ
  grpc_repository = record {
    query = λ entity params. resolved (stubs.query (entity_text entity params)) codec.parse;
    get_by_id = λ entity id. resolved (stubs.get_by_id entity id) row_value;
    create = λ entity data'. resolved (stubs.create (entity_text entity data')) codec.parse;
    update = λ entity id data'. resolved (stubs.update id (entity_text entity data')) codec.parse;
    delete = λ entity id. resolved (stubs.delete entity id) pure;
    count =
        λ entity params. resolved (stubs.count (entity_text entity (params_or_none params))) pure;
  }
