-- ===== src/Communication/Http/Routes.antt =====
-- The routes of src/controllers/auth.controller.ts and src/controllers/user.controller.ts, where
-- src/app.ts mounts them, and the requests of the clients that they serve. A path that no route
-- matches is answered with 404 by `notFoundHandler`.
use arcana_cloud_nodejs.Base.{
  String, Bool, true, false, ◌&&◌, ◌||◌, Option, none, some, List, [], ◌∷◌, str_eq,
}
use arcana_cloud_nodejs.Communication.Http.{
  Method, get, post, put, delete, Segment, name, HttpRequest,
}

-- `none` is a part like `:userId`, which matches any text
pub record Route : Type 0 where
  pub method : Method
  pub pattern : List (Option String)

abbrev at_users : Method → List (Option String) → Route
at_users method rest = record {
  method = method;
  pattern = some "api" ∷ some "v1" ∷ some "users" ∷ rest;
}

abbrev at_auth : Method → List (Option String) → Route
at_auth method rest = record {
  method = method;
  pattern = some "api" ∷ some "v1" ∷ some "auth" ∷ rest;
}

unfoldable pub user_routes : List Route
user_routes =
    at_users get []
    ∷ at_users get (none ∷ [])
    ∷ at_users post []
    ∷ at_users put (none ∷ [])
    ∷ at_users delete (none ∷ [])
    ∷ at_users put (none ∷ some "password" ∷ [])
    ∷ at_users post (none ∷ some "verify" ∷ [])
    ∷ at_users put (none ∷ some "status" ∷ [])
    ∷ []

unfoldable pub auth_routes : List Route
auth_routes =
    at_auth post (some "register" ∷ [])
    ∷ at_auth post (some "login" ∷ [])
    ∷ at_auth post (some "logout" ∷ [])
    ∷ at_auth post (some "refresh" ∷ [])
    ∷ at_auth get (some "me" ∷ [])
    ∷ at_auth get (some "tokens" ∷ [])
    ∷ at_auth post (some "tokens" ∷ some "revoke-all" ∷ [])
    ∷ []

abbrev same_method : Method → Method → Bool
same_method get get = true
same_method post post = true
same_method put put = true
same_method delete delete = true
same_method _ _ = false

-- a number is no word of a route
abbrev fits : List (Option String) → List Segment → Bool
fits [] [] = true
fits (none ∷ ps) (s ∷ ss) = fits ps ss
fits (some p ∷ ps) (name s ∷ ss) = str_eq p s && fits ps ss
fits _ _ = false

abbrev pub serves : List Route → {J : Type 0} → HttpRequest J → Bool
serves [] r = false
serves (route ∷ routes) r =
    same_method route.method r.method && fits route.pattern r.path || serves routes r
