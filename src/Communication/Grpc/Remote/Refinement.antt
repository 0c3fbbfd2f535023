-- ===== src/Communication/Grpc/Remote/Refinement.antt =====
-- Which operations of the gRPC client do what the services do, and what the others do.
use arcana_cloud_nodejs.Base.{
  ℕ, ◌<◌, String, ◌≡◌, Option, none, some, refl, List, [], ◌∷◌, map, ap, fun_ext, ◌∙◌,
}
use arcana_cloud_nodejs.Base.Exec.{Outcome, Exec, pure, ◌>>=◌}
use arcana_cloud_nodejs.Errors.{Throwable}
use arcana_cloud_nodejs.Accounts.Models.{UserPublic, AuthResult, LoginData}
use arcana_cloud_nodejs.Accounts.Prisma.{Prisma}
use arcana_cloud_nodejs.Accounts.Platform.{Platform}
use arcana_cloud_nodejs.Communication.Interfaces.{ServiceCommunication, ChangePasswordData}
use arcana_cloud_nodejs.Communication.Direct.{direct_answers, direct_service}
use arcana_cloud_nodejs.Communication.Pool.{Session, client_at}
use arcana_cloud_nodejs.Communication.Pool.Retry.{seen}
use arcana_cloud_nodejs.Communication.Grpc.Client.{
  RemoteUser, Stubs, grpc_answers, grpc_service, resolved, read_auth, login_object,
}
use arcana_cloud_nodejs.Communication.Grpc.Client
use arcana_cloud_nodejs.Communication.Grpc.Messages.{UserMessage, AuthMessage, Object, number, text}
use arcana_cloud_nodejs.Communication.Grpc.Server.{
  StatusCode, internal, not_found, unauthenticated, Untyped, settle,
}
use arcana_cloud_nodejs.Communication.Grpc.Server
use arcana_cloud_nodejs.Communication.Grpc.Channel.{
  Channel, IsChannel, IsConnected, user_lands, auth_lands, token_lands, login_request, delivered,
}
use arcana_cloud_nodejs.Communication.Grpc.Remote.{
  remote, user_seen, auth_seen, pair_seen, user_lands-transform_user, seen-resolved,
}

module _ {W C : Type 0} (channel : Channel) (lawful : IsChannel channel) (prisma : Prisma W)
    (platform : Platform W) (untyped : Untyped W) (stubs : Stubs W C)
    (connected : IsConnected channel prisma platform untyped stubs) (undefined_client : Throwable)
    (clients : List C) where
  -- what the caller sees of a call of the client's method whose turn it is
  abbrev by_user : (C → Exec W UserMessage) → Option ℕ → W → Outcome W RemoteUser
  by_user method i w = seen (
      resolved channel.parse stubs undefined_client clients method
        (Client.transform_user channel.parse) (record { current_index = i; world = w }))

  pub seen-user_answer :
      (code : StatusCode) (m : Exec W UserPublic) (method : C → Exec W UserMessage) (i : Option ℕ)
      (c : C) (w : W)
      → client_at clients i ≡ some c
      → method c w
        ≡ delivered channel
            (user_lands channel)
            (Server.user_answer channel.iso prisma platform untyped code m w)
      → by_user method i w ≡ remote channel code (user_seen channel) (m w)
  seen-user_answer code m method i c w turn answer =
      seen-resolved channel stubs undefined_client clients code m
        (Server.transform_user channel.iso) (user_lands channel) method
        (Client.transform_user channel.parse) i c w turn answer
      ∙ ap (λ read. remote channel code read (m w))
          (fun_ext (user_lands-transform_user channel lawful))

  pub seen-auth_answer :
      (m : Exec W AuthResult) (method : C → Exec W AuthMessage) (i : Option ℕ) (c : C) (w : W)
      → client_at clients i ≡ some c
      → method c w
        ≡ delivered channel (auth_lands channel) (
            settle internal
              (do result ← m; pure (Server.auth_message channel.iso prisma platform untyped result))
              w)
      → seen (
          resolved channel.parse stubs undefined_client clients method
            (read_auth channel.parse stubs undefined_client clients)
            (record { current_index = i; world = w }))
        ≡ remote channel internal (auth_seen channel) (m w)
  seen-auth_answer m method i c w turn answer =
      seen-resolved channel stubs undefined_client clients internal m
        (Server.auth_message channel.iso prisma platform untyped) (auth_lands channel) method
        (read_auth channel.parse stubs undefined_client clients) i c w turn answer
      ∙ ap (λ read. remote channel internal read (m w))
          (fun_ext λ result.
            ap (λ u. record { user = u; tokens = pair_seen channel result.tokens })
              (user_lands-transform_user channel lawful result.user))

  login_lands :
      (name password : String) (ip agent : Option String)
      → login_request channel (login_object name password ip agent) ≡ record {
        username_or_email = name;
        password = password;
        ip_address = ip;
        user_agent = agent;
      }
  login_lands name password none none = refl
  login_lands name password none (some a) = refl
  login_lands name password (some i) none = refl
  login_lands name password (some i) (some a) = refl

  abbrev id_object : ℕ → Object
  id_object id = ("user_id", number id) ∷ []

  abbrev password_object : ℕ → ChangePasswordData → Object
  password_object id data' =
      ("user_id", number id)
      ∷ ("old_password", text data'.old_password)
      ∷ ("new_password", text data'.new_password)
      ∷ []

  abbrev client : ServiceCommunication (Session W) grpc_answers
  client = grpc_service channel.parse stubs undefined_client clients

  abbrev service : ServiceCommunication W direct_answers
  service = direct_service prisma platform

  abbrev at : Option ℕ → W → Session W
  at i w = record { current_index = i; world = w }

  -- The operations of the gRPC client that take all their arguments to the service: for each, whatever
  -- the state of the service is, the caller sees what the direct operation answers, a user being as the
  -- channel brings it, a token as the message of it and a number as the type int32 brings it, and the
  -- service is left in the same state; if the direct operation throws, the caller gets its message under the status NOT_FOUND for
  -- `getUserById`, UNAUTHENTICATED for `validateToken`, and INTERNAL for the others. It needs a client
  -- whose turn it is, stubs that are connected to the service, and an identifier of less than 2 ^ 31.
  pub grpc_service-direct_service :
      (i : Option ℕ) (c : C) (w : W) (id : ℕ) (token : String) (passwords : ChangePasswordData)
      (credentials : LoginData)
      → client_at clients i ≡ some c
      → id < 2147483648
      → (seen (client.get_user_by_id id (at i w))
          ≡ remote channel not_found (user_seen channel) (service.get_user_by_id id w))
        × (seen (client.verify_user id (at i w))
            ≡ remote channel internal (user_seen channel) (service.verify_user id w))
        × (seen (client.delete_user id (at i w))
            ≡ remote channel internal (λ b. b) (service.delete_user id w))
        × (seen (client.change_password id passwords (at i w))
            ≡ remote channel internal (λ b. b) (service.change_password id passwords w))
        × (seen (client.login credentials (at i w))
            ≡ remote channel internal (auth_seen channel) (service.login credentials w))
        × (seen (client.logout token (at i w))
            ≡ remote channel internal (λ b. b) (service.logout token w))
        × (seen (client.refresh_token token (at i w))
            ≡ remote channel internal (pair_seen channel) (service.refresh_token token w))
        × (seen (client.validate_token token (at i w))
            ≡ remote channel unauthenticated (user_seen channel) (service.validate_token token w))
        × (seen (client.revoke_all_tokens id (at i w))
            ≡ remote channel internal channel.int32 (service.revoke_all_tokens id w))
        × (seen (client.get_user_tokens id (at i w))
            ≡ remote channel internal
                (λ tokens.
                  map (token_lands channel) (map (Server.transform_token channel.iso) tokens))
                (service.get_user_tokens id w))
  unfolding Server.get_user_by_id Server.verify_user Server.delete_user Server.change_password
      Server.login Server.logout Server.refresh_token Server.validate_token Server.revoke_all_tokens
      Server.get_user_tokens
  grpc_service-direct_service i c w id token passwords credentials turn few =
      let same = lawful.int32-small id few in
      (
        seen-user_answer not_found (service.get_user_by_id id) (stubs.get_user_by_id (id_object id))
            i c w turn
            (connected.get_user_by_id (id_object id) c w
              ∙ ap
                  (λ n.
                    delivered channel (user_lands channel)
                      (Server.get_user_by_id channel.iso prisma platform untyped n w))
                  same),
        seen-user_answer internal (service.verify_user id) (stubs.verify_user (id_object id)) i c w
            turn
            (connected.verify_user (id_object id) c w
              ∙ ap
                  (λ n.
                    delivered channel (user_lands channel)
                      (Server.verify_user channel.iso prisma platform untyped n w))
                  same),
        seen-resolved channel stubs undefined_client clients internal (service.delete_user id) _ _
            (stubs.delete_user (id_object id)) _ i c w turn
            (connected.delete_user (id_object id) c w
              ∙ ap
                  (λ n.
                    delivered channel (λ m. m)
                      (Server.delete_user channel.iso prisma platform untyped n w))
                  same),
        seen-resolved channel stubs undefined_client clients internal
            (service.change_password id passwords) _ _
            (stubs.change_password (password_object id passwords)) _ i c w turn
            (connected.change_password (password_object id passwords) c w
              ∙ ap
                  (λ n.
                    delivered channel (λ m. m)
                      (Server.change_password channel.iso prisma platform untyped
                        (record {
                          user_id = n;
                          old_password = passwords.old_password;
                          new_password = passwords.new_password;
                        })
                        w))
                  same),
        seen-auth_answer (service.login credentials)
            (stubs.login (
              login_object credentials.username_or_email credentials.password credentials.ip_address
                credentials.user_agent))
            i c w turn
            (connected.login _ c w
              ∙ ap
                  (λ r.
                    delivered channel (auth_lands channel)
                      (Server.login channel.iso prisma platform untyped r w))
                  (login_lands credentials.username_or_email credentials.password
                    credentials.ip_address credentials.user_agent)),
        seen-resolved channel stubs undefined_client clients internal (service.logout token) _ _
            (stubs.logout (("token", text token) ∷ [])) _ i c w turn (connected.logout _ c w),
        seen-resolved channel stubs undefined_client clients internal (service.refresh_token token)
            _ _ (stubs.refresh_token (("refresh_token", text token) ∷ [])) _ i c w turn
            (connected.refresh_token _ c w),
        seen-user_answer unauthenticated (service.validate_token token)
            (stubs.validate_token (("token", text token) ∷ [])) i c w turn
            (connected.validate_token _ c w),
        seen-resolved channel stubs undefined_client clients internal (service.revoke_all_tokens id)
            _ _ (stubs.revoke_all_tokens (id_object id)) _ i c w turn
            (connected.revoke_all_tokens (id_object id) c w
              ∙ ap
                  (λ n.
                    delivered channel channel.int32
                      (Server.revoke_all_tokens channel.iso prisma platform untyped n w))
                  same),
        seen-resolved channel stubs undefined_client clients internal (service.get_user_tokens id) _
            _ (stubs.get_user_tokens (id_object id)) _ i c w turn
            (connected.get_user_tokens (id_object id) c w
              ∙ ap
                  (λ n.
                    delivered channel (map (token_lands channel))
                      (Server.get_user_tokens channel.iso prisma platform untyped n w))
                  same),
      )
