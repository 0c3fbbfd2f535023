-- ===== src/Communication/Grpc/Remote/Losses.antt =====
-- The operations of the gRPC client whose arguments do not all arrive: the objects that the client passes to
-- the stubs have other names for their properties than the messages have for their fields, and no
-- member of the enumerations of the program is one of the protocol.
use mathlib.Core.Option
use arcana_cloud_nodejs.Base.{
  ℕ, ◌<◌, String, ◌≡◌, refl, ◌∙◌, ap, fun_ext, Option, none, some, List, [], ◌∷◌, map,
}
use arcana_cloud_nodejs.Errors.{Throwable}
use arcana_cloud_nodejs.Accounts.Models.{UserPublic, role_name, status_name}
use arcana_cloud_nodejs.Accounts.Prisma.{Prisma}
use arcana_cloud_nodejs.Accounts.UserDao.{UserFilterParams, PaginatedResult}
use arcana_cloud_nodejs.Accounts.Platform.{Platform}
use arcana_cloud_nodejs.Communication.Interfaces.{ServiceCommunication}
use arcana_cloud_nodejs.Communication.Direct.{direct_answers, direct_service}
use arcana_cloud_nodejs.Communication.Pool.{Session, client_at}
use arcana_cloud_nodejs.Communication.Pool.Retry.{seen}
use arcana_cloud_nodejs.Communication.Grpc.Client.{
  RemoteUser, Stubs, grpc_answers, grpc_service, users_object,
}
use arcana_cloud_nodejs.Communication.Grpc.Client
use arcana_cloud_nodejs.Communication.Grpc.Server.{StatusCode, internal, Untyped, number_or}
use arcana_cloud_nodejs.Communication.Grpc.Server
use arcana_cloud_nodejs.Communication.Grpc.Channel.{
  Channel, IsChannel, IsConnected, user_lands, users_land, delivered, users_request,
}
use arcana_cloud_nodejs.Communication.Grpc.Remote.{
  remote, user_seen, user_lands-transform_user, seen-resolved,
}
use arcana_cloud_nodejs.Communication.Grpc.Remote.Fields.{
  sent_role-none, sent_status-none, first_of-none, text_of-givens, number_of-givens,
}

-- a page as the caller of the other process sees it
abbrev pub remote_page : Channel → PaginatedResult UserPublic → PaginatedResult RemoteUser
remote_page channel result = record {
  items = map (user_seen channel) result.items;
  pagination = record {
    page = channel.int32 result.pagination.page;
    per_page = channel.int32 result.pagination.per_page;
    total = channel.int32 result.pagination.total;
    total_pages = Option.map channel.int32 result.pagination.total_pages;
  };
}

-- a page of all users, twenty of them
abbrev pub first_twenty : ℕ → UserFilterParams
first_twenty page = record { page = number_or page 1; per_page = 20; role = none; status = none }

module _ {W C : Type 0} (channel : Channel) (lawful : IsChannel channel) (prisma : Prisma W)
    (platform : Platform W) (untyped : Untyped W) (stubs : Stubs W C)
    (connected : IsConnected channel prisma platform untyped stubs) (undefined_client : Throwable)
    (clients : List C) where
  abbrev client : ServiceCommunication (Session W) grpc_answers
  client = grpc_service channel.parse stubs undefined_client clients

  abbrev service : ServiceCommunication W direct_answers
  service = direct_service prisma platform

  abbrev at : Option ℕ → W → Session W
  at i w = record { current_index = i; world = w }

  items_arrive :
      (us : List UserPublic)
      → map
          (Client.transform_user channel.parse)
          (map (user_lands channel) (map (Server.transform_user channel.iso) us))
        ≡ map (user_seen channel) us
  items_arrive [] = refl
  items_arrive (u ∷ us) = rw (user_lands-transform_user channel lawful u, items_arrive us) refl

  page_arrives :
      (result : PaginatedResult UserPublic)
      → Client.transform_paginated_response channel.parse
          (users_land channel (Server.users_message channel.iso prisma platform untyped result))
        ≡ remote_page channel result
  unfolding Client.transform_paginated_response
  page_arrives result =
      ap (λ us. record { items = us; pagination = (remote_page channel result).pagination })
        (items_arrive result.items)

  users_lands :
      (params : UserFilterParams)
      → users_request channel (users_object params)
        ≡ record { page = channel.int32 params.page; per_page = 0; role = none; status = none }
  users_lands params =
      let asked : List (String × Option String) =
        ("role", Option.map role_name params.role)
        ∷ ("status", Option.map status_name params.status)
        ∷ [] in
      rw
        (
          number_of-givens channel "per_page" asked,
          text_of-givens channel "role" asked,
          text_of-givens channel "status" asked,
          first_of-none (Option.map role_name params.role),
          first_of-none (Option.map status_name params.status),
          sent_role-none params.role,
          sent_status-none params.status,
        )
        refl

  -- Through the gRPC client, `getUsers` lists the users of every role and status twenty to a page,
  -- whatever size of the page, role and status it is called with; of its parameters the page alone
  -- arrives. It needs a client whose turn it is, stubs that are connected to the service, and a page
  -- below 2 ^ 31; numbers are answered as the type int32 brings them.
  pub get_users-grpc :
      (i : Option ℕ) (c : C) (w : W) (params : UserFilterParams)
      → client_at clients i ≡ some c
      → params.page < 2147483648
      → seen (client.get_users params (at i w))
        ≡ remote channel internal
            (remote_page channel)
            (service.get_users (first_twenty params.page) w)
  unfolding Server.get_users
  get_users-grpc i c w params turn few =
      seen-resolved channel stubs undefined_client clients internal
        (service.get_users (first_twenty params.page))
        (Server.users_message channel.iso prisma platform untyped) (users_land channel)
        (stubs.get_users (users_object params)) (Client.transform_paginated_response channel.parse)
        i c w turn
        (connected.get_users (users_object params) c w
          ∙ ap
              (λ r.
                delivered channel (users_land channel)
                  (Server.get_users channel.iso prisma platform untyped r w))
              (users_lands params
                ∙ ap (λ n. record { page = n; per_page = 0; role = none; status = none })
                    (lawful.int32-small params.page few)))
      ∙ ap (λ read. remote channel internal read (service.get_users (first_twenty params.page) w))
          (fun_ext page_arrives)
