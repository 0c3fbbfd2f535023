-- ===== src/Accounts/Prisma/Memory.antt =====
-- A database in memory, which never fails.
use arcana_cloud_nodejs.Base.{
  ℕ, ◌+◌, ◌≡◌, refl, sym, ◌∙◌, ap, Bool, true, false, not, ◌&&◌, Option, none, some, List, [], ◌∷◌,
  ◌++◌, inl, inr, Bool-cases, ◌==◌, length, keep, take, drop, str_eq, if◌then◌else◌,
}
use arcana_cloud_nodejs.Base.Int.{pos, negsuc}
use arcana_cloud_nodejs.Base.Exec.{Exec, ok, err, ok_injective}
use arcana_cloud_nodejs.Errors.{plain}
use arcana_cloud_nodejs.Accounts.Models.{
  User, UserRole, UserStatus, OAuthToken, CreateTokenData, active, role_name, status_name,
}
use arcana_cloud_nodejs.Accounts.Prisma.{
  Prisma, IsPrisma, NewUser, UserKey, user_id, username, email, UserChange, UserFilter, TokenFilter,
  matches, revoke_matching, by_id, Found, missing, present,
}

pub record Db : Type 0 where
  pub users : List User
  pub rows : List OAuthToken
  pub clock : ℕ

abbrev first_row : TokenFilter → List OAuthToken → Option OAuthToken
first_row q [] = none
first_row q (t ∷ ts) = if matches q t then some t else first_row q ts

abbrev has_key : UserKey → User → Bool
has_key (user_id i) u = u.id == i
has_key (username s) u = str_eq u.username s
has_key (email s) u = str_eq u.email s

abbrev pub first_user : UserKey → List User → Option User
first_user k [] = none
first_user k (u ∷ us) = if has_key k u then some u else first_user k us

abbrev has_role : Option UserRole → User → Bool
has_role none u = true
has_role (some r) u = str_eq (role_name u.role) (role_name r)

abbrev has_status : Option UserStatus → User → Bool
has_status none u = true
has_status (some s) u = str_eq (status_name u.status) (status_name s)

abbrev filtered : UserFilter → List User → List User
filtered f = keep (λ u. has_role f.role u && has_status f.status u)

abbrev or_same : {A : Type 0} → Option A → A → A
or_same none a = a
or_same (some b) a = b

abbrev keeping : {A : Type 0} → Option A → Option A → Option A
keeping none o = o
keeping (some a) o = some a

abbrev change_user : UserChange → User → User
change_user c u = record u {
  username = or_same c.username u.username;
  email = or_same c.email u.email;
  password_hash = keeping c.password_hash u.password_hash;
  first_name = keeping c.first_name u.first_name;
  last_name = keeping c.last_name u.last_name;
  phone = keeping c.phone u.phone;
  avatar_url = keeping c.avatar_url u.avatar_url;
  status = or_same c.status u.status;
  role = or_same c.role u.role;
  is_verified = or_same c.is_verified u.is_verified;
  is_active = or_same c.is_active u.is_active;
  last_login_at = keeping c.last_login_at u.last_login_at;
}

abbrev new_row : CreateTokenData → Db → OAuthToken
new_row d w = record {
  id = length w.rows + 1;
  user_id = d.user_id;
  access_token = d.access_token;
  refresh_token = d.refresh_token;
  token_type = "Bearer";
  expires_at = d.expires_at;
  client_name = d.client_name;
  ip_address = d.ip_address;
  user_agent = d.user_agent;
  is_revoked = false;
  created_at = w.clock;
  updated_at = w.clock;
}

abbrev new_user : NewUser → Db → User
new_user d w = record {
  id = length w.users + 1;
  username = d.username;
  email = d.email;
  password_hash = some d.password_hash;
  first_name = d.first_name;
  last_name = d.last_name;
  phone = d.phone;
  avatar_url = none;
  role = d.role;
  status = active;
  is_verified = false;
  is_active = true;
  created_at = w.clock;
  updated_at = w.clock;
  last_login_at = none;
}

abbrev change_first : ℕ → UserChange → List User → List User
change_first i c [] = []
change_first i c (u ∷ us) =
    let rest = change_first i c us in if u.id == i then change_user c u ∷ us else u ∷ rest

abbrev pub update_found : ℕ → UserChange → Option User → Exec Db User
update_found i c none w = err (plain "Record to update not found.") w
update_found i c (some u) w = ok (change_user c u) (record w { users = change_first i c w.users })

abbrev pub memory_db : Prisma Db
memory_db = record {
  tokens = λ w. w.rows;
  now = λ w. w.clock;
  token_create = λ d w. ok (new_row d w) (record w { rows = w.rows ++ new_row d w ∷ [] });
  token_find_first = λ q w. ok (first_row q w.rows) w;
  token_find_many = λ q w. ok (keep (matches q) w.rows) w;
  token_revoke = λ i w. ok tt (record w { rows = revoke_matching (by_id i) w.clock w.rows });
  token_revoke_many = λ q w.
      ok (length (keep (matches q) w.rows)) (record w { rows = revoke_matching q w.clock w.rows });
  token_delete_many = λ q w.
      ok (length (keep (matches q) w.rows))
        (record w { rows = keep (λ t. not (matches q t)) w.rows });
  user_create = λ d w. ok (new_user d w) (record w { users = w.users ++ new_user d w ∷ [] });
  user_find_unique = λ k w. ok (first_user k w.users) w;
  user_update = λ i c w. update_found i c (first_user (user_id i) w.users) w;
  user_delete = λ i w. ok tt (record w { users = keep (λ u. not (u.id == i)) w.users });
  user_find_many = λ f skip n w. elim skip [
    | pos k ↦ ok (take n (drop k (filtered f w.users))) w
    | negsuc k ↦ err (plain "skip must not be negative") w
  ];
  user_count = λ f w. ok (length (filtered f w.users)) w;
}

first_row-Found : (q : TokenFilter) (ts : List OAuthToken) → Found q ts (first_row q ts)
first_row-Found q [] = missing tt
first_row-Found q (t ∷ ts) = elim (Bool-cases (matches q t)) [
  | inl fits ↦ rw fits (present [] ts t refl fits)
  | inr differs ↦ rw differs (later (first_row q ts) differs (first_row-Found q ts))
]
  where
    later : (o : Option OAuthToken) → matches q t ≡ false → Found q ts o → Found q (t ∷ ts) o
    later none differs (missing all) = missing (differs, all)
    later (some u) differs (present before after u' e fits) =
        present (t ∷ before) after u (ap (λ xs. t ∷ xs) e) fits

updated :
    (i : ℕ) (c : UserChange) (o : Option User) (w : Db) {u : User} {v : Db}
    → update_found i c o w ≡ ok u v
    → v.rows ≡ w.rows
updated i c none w h = cc
updated i c (some u) w h = cc

pub update_found-role :
    (i : ℕ) (c : UserChange) (o : Option User) (role : UserRole) (w : Db) {u : User} {v : Db}
    → c.role ≡ some role
    → update_found i c o w ≡ ok u v
    → u.role ≡ role
update_found-role i c none role w asks h = cc
update_found-role i c (some u) role w asks h =
    ap (λ (u : User). u.role) (sym (ok_injective h).0) ∙ rw asks refl

pub memory_db-IsPrisma : IsPrisma memory_db
memory_db-IsPrisma = record {
  found = λ q w {o} {v} h.
      let (answer, same) = ok_injective h in rw (← answer, ← same) (first_row-Found q w.rows, refl);
  created = λ d w {t} {v} h.
      let (row, same) = ok_injective h in rw (← row, ← same) (refl, refl, refl, refl, refl);
  revoked = λ i w {v} h. let (done, same) = ok_injective h in (w.clock, rw (← same) refl);
  revoked_many = λ q w {k} {v} h.
      let (count, same) = ok_injective h in (w.clock, rw (← same) refl, rw (← count) refl);
  users_found = λ k w {o} {v} h. let (answer, same) = ok_injective h in rw (← same) refl;
  users_updated = λ i c w {u} {v} h. updated i c (first_user (user_id i) w.users) w h;
  users_created = λ d w {u} {v} h. let (row, same) = ok_injective h in rw (← same) refl;
}
