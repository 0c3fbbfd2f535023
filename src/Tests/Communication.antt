-- ===== src/Tests/Communication.antt =====
-- The communication layer, over services in memory and a channel whose dates are written in unary.
use Prim.Native.Char.{nul}
use arcana_cloud_nodejs.Base.{
  map, ℕ, zero, suc, ◌+◌, String, ◌≡◌, refl, ap, true, false, Option, none, some, List, [], ◌∷◌,
  if◌then◌else◌, if-false, arith,
}
use arcana_cloud_nodejs.Base.Exec.{Outcome, ok, err}
use arcana_cloud_nodejs.Errors.{plain}
use arcana_cloud_nodejs.Accounts.Prisma.Memory.{Db, memory_db}
use arcana_cloud_nodejs.Accounts.Models.{
  admin, exclude_password, CreateUserData, UpdateUserData, update_data,
}
use arcana_cloud_nodejs.Communication.Binding.{Environment, to_http, bind_service}
use arcana_cloud_nodejs.Communication.Pool.{Session, execute_with_retry}
use arcana_cloud_nodejs.Communication.Pool.Turns.{turns, turns_lem}
use arcana_cloud_nodejs.Communication.Pool.Retry.{seen, relay, execute_with_retry_lem}
use arcana_cloud_nodejs.Communication.Grpc.Messages.{is_member}
use arcana_cloud_nodejs.Communication.Grpc.Client.{Stubs, grpc_service}
use arcana_cloud_nodejs.Communication.Grpc.Client
use arcana_cloud_nodejs.Communication.Grpc.Server.{
  Untyped, internal, not_found, failed, unimplemented,
}
use arcana_cloud_nodejs.Communication.Grpc.Server
use arcana_cloud_nodejs.Communication.Grpc.Channel.{
  Channel, IsChannel, IsConnected, delivered, user_arrives, user_lands, users_land, auth_lands,
  pair_lands, token_lands, number_field, text_field, users_request, new_user_request,
  change_request, password_request, status_request, login_request, register_request,
}
use arcana_cloud_nodejs.Communication.Grpc.Remote.{
  remote_user, user_seen, remote, transform_user-transform_user,
}
use arcana_cloud_nodejs.Communication.Grpc.Remote.Refinement.{grpc_service-direct_service}
use arcana_cloud_nodejs.Communication.Grpc.Remote.Losses.{first_twenty, remote_page, get_users-grpc}
use arcana_cloud_nodejs.Accounts.Prisma.{no_change}
use arcana_cloud_nodejs.Communication.Direct.{direct_service}
use arcana_cloud_nodejs.Communication.Http.{get_users_request, validate_token_request}
use arcana_cloud_nodejs.Communication.Http.Routes.{serves, user_routes, auth_routes}
use arcana_cloud_nodejs.Communication.Grpc.Server.Repository
use arcana_cloud_nodejs.Communication.Grpc.Server.Repository.{Json, parsed, malformed}
use arcana_cloud_nodejs.Tests.Accounts.{platform, ann, open_db}

abbrev environment : Environment
environment = record {
  deployment_mode = some "layered";
  communication_protocol = some "http";
  deployment_layer = some "controller";
  service_urls = some "http://a:1,http://b:1";
  repository_urls = none;
}

bind_service_test : bind_service environment ≡ to_http ("http://a:1" ∷ "http://b:1" ∷ [])
unfolding bind_service
bind_service_test = refl

turns_lem_example :
    turns {W = ℕ} {C = String}
      ("a" ∷ "b" ∷ "c" ∷ [])
      3
      (record { current_index = some 1; world = 0 })
    ≡ ok (some "b" ∷ some "c" ∷ some "a" ∷ []) (record { current_index = some 1; world = 0 })
turns_lem_example = turns_lem ("a" ∷ "b" ∷ "c" ∷ []) 0 1 (omega arith)

-- the client of one address fails, and that of the other answers the time
abbrev ask : ℕ → ℕ → Outcome ℕ ℕ
ask zero w = err (plain "refused") w
ask (suc n) w = ok (w + n) w

abbrev later : ℕ → ℕ → ℕ
later ms w = w + ms

execute_with_retry_lem_example :
    seen (
      execute_with_retry later
        (plain "undefined")
        (0 ∷ 7 ∷ [])
        ask
        (record { current_index = some 0; world = 5 }))
    ≡ relay later (plain "undefined") ask (some 0 ∷ some 7 ∷ some 0 ∷ []) 0 none 5
execute_with_retry_lem_example =
    execute_with_retry_lem later (plain "undefined") (0 ∷ 7 ∷ []) ask (some 0) 5

relay_test :
    relay later (plain "undefined") ask (some 0 ∷ some 7 ∷ some 0 ∷ []) 0 none 5 ≡ ok 1011 1005
unfolding relay
relay_test = refl

abbrev ticks : ℕ → String
ticks zero = ""
ticks (suc n) = String.◌∷◌ nul (ticks n)

abbrev ticks_of : String → ℕ
ticks_of String.[] = 0
ticks_of (String.◌∷◌ c s) = suc (ticks_of s)

ticks_of-ticks : (n : ℕ) → ticks_of (ticks n) ≡ n
ticks_of-ticks zero = refl
ticks_of-ticks (suc n) = ap suc (ticks_of-ticks n)

abbrev after_first : String → Option ℕ
after_first String.[] = none
after_first (String.◌∷◌ c s) = some (ticks_of s)

abbrev member_or_first : List String → String → String
member_or_first [] s = s
member_or_first (first ∷ members) s = if is_member (first ∷ members) s then s else first

abbrev channel : Channel
channel = record {
  int32 = λ n. n;
  member = member_or_first;
  status_error = λ code message. plain message;
  iso = λ n. String.◌∷◌ nul (ticks n);
  parse = after_first;
}

blank : {n : ℕ} → some n ≡ none → ⊥
blank h = cc h

channel-IsChannel : IsChannel channel
channel-IsChannel = record {
  member-unknown = λ first members s h. if-false s first h;
  parse-iso = λ n. ap some (ticks_of-ticks n);
  int32-small = λ n h. refl;
  iso-blank = λ n h. blank (ap after_first h);
}

abbrev untyped : Untyped Db
untyped = record {
  get_users = λ request w. err (plain "invalid value") w;
  create_user = λ request w. err (plain "invalid value") w;
  update_user_status = λ request w. err (plain "invalid value") w;
}

-- the clients are names
abbrev stubs : Stubs Db String
stubs = record {
  get_users = λ o c w.
      delivered channel (users_land channel)
        (Server.get_users channel.iso memory_db platform untyped (users_request channel o) w);
  get_user_by_id = λ o c w. delivered channel (user_lands channel) (
      Server.get_user_by_id channel.iso memory_db platform untyped
        (number_field channel "user_id" o) w);
  create_user = λ o c w.
      delivered channel (user_lands channel)
        (Server.create_user channel.iso memory_db platform untyped (new_user_request channel o) w);
  update_user = λ o c w.
      delivered channel (user_lands channel)
        (Server.update_user channel.iso memory_db platform untyped (change_request channel o) w);
  delete_user = λ o c w.
      delivered channel (λ m. m)
        (Server.delete_user channel.iso memory_db platform untyped
          (number_field channel "user_id" o) w);
  change_password = λ o c w.
      delivered channel (λ m. m)
        (Server.change_password channel.iso memory_db platform untyped (password_request channel o)
          w);
  verify_user = λ o c w. delivered channel (user_lands channel) (
      Server.verify_user channel.iso memory_db platform untyped (number_field channel "user_id" o)
        w);
  update_user_status = λ o c w. delivered channel (user_lands channel) (
      Server.update_user_status channel.iso memory_db platform untyped (status_request channel o)
        w);
  login = λ o c w.
      delivered channel (auth_lands channel)
        (Server.login channel.iso memory_db platform untyped (login_request channel o) w);
  logout = λ o c w.
      delivered channel (λ b. b)
        (Server.logout channel.iso memory_db platform untyped (text_field channel "token" o) w);
  refresh_token = λ o c w. delivered channel (pair_lands channel) (
      Server.refresh_token channel.iso memory_db platform untyped
        (text_field channel "refresh_token" o) w);
  validate_token = λ o c w. delivered channel (user_lands channel) (
      Server.validate_token channel.iso memory_db platform untyped (text_field channel "token" o)
        w);
  register = λ o c w.
      delivered channel (auth_lands channel)
        (Server.register channel.iso memory_db platform untyped (register_request channel o) w);
  revoke_all_tokens = λ o c w. delivered channel channel.int32 (
      Server.revoke_all_tokens channel.iso memory_db platform untyped
        (number_field channel "user_id" o) w);
  get_user_tokens = λ o c w. delivered channel (map (token_lands channel)) (
      Server.get_user_tokens channel.iso memory_db platform untyped
        (number_field channel "user_id" o) w);
}

stubs-IsConnected : IsConnected channel memory_db platform untyped stubs
stubs-IsConnected = record {
  get_users = λ o c w. refl;
  get_user_by_id = λ o c w. refl;
  create_user = λ o c w. refl;
  update_user = λ o c w. refl;
  delete_user = λ o c w. refl;
  change_password = λ o c w. refl;
  verify_user = λ o c w. refl;
  update_user_status = λ o c w. refl;
  login = λ o c w. refl;
  logout = λ o c w. refl;
  refresh_token = λ o c w. refl;
  validate_token = λ o c w. refl;
  register = λ o c w. refl;
  revoke_all_tokens = λ o c w. refl;
  get_user_tokens = λ o c w. refl;
}

transform_user-transform_user_example :
    Client.transform_user channel.parse
      (user_arrives channel (Server.transform_user channel.iso (exclude_password ann)))
    ≡ remote_user (exclude_password ann)
transform_user-transform_user_example =
    transform_user-transform_user channel channel-IsChannel (exclude_password ann)

abbrev names : List String
names = "localhost:50051" ∷ []

abbrev session : Session Db
session = record { current_index = some 0; world = open_db }

grpc_service-direct_service_example :
    seen ((grpc_service channel.parse stubs (plain "undefined") names).get_user_by_id 9 session)
    ≡ remote channel not_found
        (user_seen channel)
        ((direct_service memory_db platform).get_user_by_id 9 open_db)
grpc_service-direct_service_example =
    (grpc_service-direct_service channel channel-IsChannel memory_db platform untyped stubs
      stubs-IsConnected (plain "undefined") names (some 0) "localhost:50051" open_db 9 "access"
      (record { old_password = "secret"; new_password = "s" })
      (record {
        username_or_email = "ann";
        password = "secret";
        ip_address = none;
        user_agent = none;
      })
      refl (omega arith)).0

get_users-grpc_example :
    seen (
      (grpc_service channel.parse stubs (plain "undefined") names).get_users
        (record { page = 2; per_page = 50; role = some admin; status = none })
        session)
    ≡ remote channel internal (remote_page channel) (
        (direct_service memory_db platform).get_users
          (record { page = 2; per_page = 20; role = none; status = none })
          open_db)
get_users-grpc_example =
    get_users-grpc channel channel-IsChannel memory_db platform untyped stubs stubs-IsConnected
      (plain "undefined") names (some 0) "localhost:50051" open_db
      (record { page = 2; per_page = 50; role = some admin; status = none }) refl (omega arith)

abbrev change : UpdateUserData
change = record (update_data none (some "Ann") none (some "1") none) { role = some admin }

abbrev new : CreateUserData
new = record {
  username = "bob";
  email = "bob@x.org";
  password = "secret";
  first_name = some "Bob";
  last_name = none;
  phone = none;
  role = some admin;
}

abbrev codec : Json
codec = record {
  params_of = λ text. parsed (record { page = 1; per_page = 10; role = none; status = none });
  filter_of = λ text. parsed (record { role = none; status = none });
  new_user_of = λ text. malformed (plain "Unexpected end of JSON input");
  change_of = λ text. parsed no_change;
  page_text = λ page. "{}";
  user_text = λ user'. "{}";
}

other_entity_test :
    Repository.delete memory_db codec "token" 1 open_db
    ≡ (failed unimplemented "Entity not supported", open_db)
unfolding Repository.delete
other_entity_test = refl

serves_test : serves user_routes (get_users_request ℕ (first_twenty 3)) ≡ true
unfolding user_routes get_users_request
serves_test = refl

missing_route_test : serves auth_routes (validate_token_request ℕ "access") ≡ false
unfolding auth_routes validate_token_request
missing_route_test = refl
