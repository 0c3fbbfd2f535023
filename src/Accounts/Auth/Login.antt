-- ===== src/Accounts/Auth/Login.antt =====
-- Who logs in, and what a login leaves.
use arcana_cloud_nodejs.Base.{
  ℕ, String, ◌≡◌, sym, ◌∙◌, ap, true, false, not, Option, none, some, [], ◌∷◌, ◌++◌,
}
use arcana_cloud_nodejs.Base.Exec.{ok, after, ◌>>=◌, >>=-eq-ok, ok_injective}
use arcana_cloud_nodejs.Errors.{authentication_error}
use arcana_cloud_nodejs.Accounts.Models.{
  OAuthToken, User, TokenPair, LoginData, AuthResult, is_active_status, exclude_password,
}
use arcana_cloud_nodejs.Accounts.Prisma.{Prisma, IsPrisma, no_change}
use arcana_cloud_nodejs.Accounts.UserDao
use arcana_cloud_nodejs.Accounts.UserRepository
use arcana_cloud_nodejs.Accounts.Platform.{Platform, IsQuiet, emit}
use arcana_cloud_nodejs.Accounts.Auth.{
  generate_token_pair, save_tokens, login_event, or_by_email, finish_login, issue_tokens,
  login_if_valid, login_user, login_found, find_login, login,
}
use arcana_cloud_nodejs.Accounts.Auth.Steps.{throw_if-then, required-then, emit-quiet}
use arcana_cloud_nodejs.Accounts.Auth.Rotation.{save_tokens-ok, generate-ok}
use arcana_cloud_nodejs.Accounts.Auth.Refreshed.{not-false}

module _ {W : Type 0} (prisma : Prisma W) (platform : Platform W) (lawful : IsPrisma prisma)
    (quiet : IsQuiet prisma platform) where
  update_last_login-ok :
      (i : ℕ) (w : W) {v : W}
      → UserRepository.update_last_login prisma i w ≡ ok tt v
      → prisma.tokens v ≡ prisma.tokens w
  unfolding UserRepository.update_last_login UserDao.update_last_login
  update_last_login-ok i w h =
      let (u, s, done, last) =
        >>=-eq-ok (prisma.user_update i (record no_change { last_login_at = some (prisma.now w) }))
          (λ _ s. ok tt s) w h in
      ap prisma.tokens (sym (ok_injective last).1) ∙ lawful.users_updated i _ w done

  finish_login-ok :
      (d : LoginData) (user : User) (tokens : TokenPair) (w : W) {r : AuthResult} {v : W}
      → finish_login prisma platform d user tokens w ≡ ok r v
      → (r ≡ record { user = exclude_password user; tokens = tokens })
        × (prisma.tokens v ≡ prisma.tokens w)
  finish_login-ok d user tokens w h =
      let e = login_event prisma platform d user in
      let (a, stamped, stamps, h1) =
        >>=-eq-ok (UserRepository.update_last_login prisma user.id)
          (λ _.
            ◌>>=◌ (emit prisma platform e)
              (λ _ s. ok (record { user = exclude_password user; tokens = tokens }) s))
          w h in
      let (b, sent, sends, h2) =
        >>=-eq-ok (emit prisma platform e)
          (λ _ s. ok (record { user = exclude_password user; tokens = tokens }) s) stamped h1 in
      (
        sym (ok_injective h2).0,
        ap prisma.tokens (sym (ok_injective h2).1 ∙ ap after (sym sends))
            ∙ emit-quiet prisma platform quiet e stamped
            ∙ update_last_login-ok user.id w stamps,
      )

  or_by_email-ok :
      (name : String) (by_name o : Option User) (w : W) {v : W}
      → or_by_email prisma platform name by_name w ≡ ok o v
      → prisma.tokens v ≡ prisma.tokens w
  unfolding UserRepository.find_by_email UserDao.get_by_email
  or_by_email-ok name none o w h = lawful.users_found _ w h
  or_by_email-ok name (some u) o w h = ap prisma.tokens (sym (ok_injective h).1)

  find_login-ok :
      (name : String) (o : Option User) (w : W) {v : W}
      → find_login prisma platform name w ≡ ok o v
      → prisma.tokens v ≡ prisma.tokens w
  unfolding find_login UserRepository.find_by_username UserDao.get_by_username
  find_login-ok name o w h =
      let (by_name, s, finds, h1) =
        >>=-eq-ok (UserRepository.find_by_username prisma name) (or_by_email prisma platform name) w
          h in
      or_by_email-ok name by_name o s h1 ∙ lawful.users_found _ w finds

  -- what the steps of a login after the look-up have done
  issue_tokens-ok :
      (d : LoginData) (user : User) (w : W) {r : AuthResult} {v : W}
      → issue_tokens prisma platform d user w ≡ ok r v
      → (row : OAuthToken) × (r.user ≡ exclude_password user)
        × (prisma.tokens v ≡ prisma.tokens w ++ row ∷ [])
        × (row.access_token ≡ r.tokens.access_token)
        × (row.refresh_token ≡ r.tokens.refresh_token)
        × (row.user_id ≡ user.id)
        × (row.is_revoked ≡ false)
  issue_tokens-ok d user w {r} {v} h =
      let (tokens, signed, signs, h1) =
        >>=-eq-ok (generate_token_pair prisma platform user)
          (λ tokens.
            ◌>>=◌ (save_tokens prisma platform user.id tokens d.ip_address d.user_agent)
              (λ _. finish_login prisma platform d user tokens))
          w h in
      let (row, saved, saves, h2) =
        >>=-eq-ok (save_tokens prisma platform user.id tokens d.ip_address d.user_agent)
          (λ _. finish_login prisma platform d user tokens) signed h1 in
      let (answer, last) = finish_login-ok d user tokens saved h2 in
      let (more, a, b, c, e) =
        save_tokens-ok prisma platform lawful quiet user.id tokens d.ip_address d.user_agent signed
          saves in
      (
        row,
        ap (λ (x : AuthResult). x.user) answer,
        last
            ∙ more
            ∙ ap (λ ts. ts ++ row ∷ []) (generate-ok prisma platform lawful quiet user w signs),
        a ∙ ap (λ (x : AuthResult). x.tokens.access_token) (sym answer),
        b ∙ ap (λ (x : AuthResult). x.tokens.refresh_token) (sym answer),
        c,
        e,
      )

  -- On a database that meets `IsPrisma`, with a platform that leaves the token table alone: if a
  -- login returns, then a user was found by the name or, failing that, by the address; its status
  -- is active; bcrypt accepted the password for its hash; what is returned is the user without its
  -- hash and a pair of tokens; and the token table has one row more, which holds that pair for that
  -- user and is not revoked.
  pub login_lem :
      (d : LoginData) (w : W) {r : AuthResult} {v : W}
      → login prisma platform d w ≡ ok r v
      → (user : User) × (found : W) × (compared : W) × (row : OAuthToken) × (find_login prisma
            platform d.username_or_email w
          ≡ ok (some user) found)
        × (is_active_status user.status ≡ true)
        × (platform.compare d.password user.password_hash found ≡ ok true compared)
        × (r.user ≡ exclude_password user)
        × (prisma.tokens v ≡ prisma.tokens w ++ row ∷ [])
        × (row.access_token ≡ r.tokens.access_token)
        × (row.refresh_token ≡ r.tokens.refresh_token)
        × (row.user_id ≡ user.id)
        × (row.is_revoked ≡ false)
  unfolding login
  login_lem d w {r} {v} h =
      let (o, found, finds, h1) =
        >>=-eq-ok (find_login prisma platform d.username_or_email) (login_found prisma platform d) w
          h in
      let (user, known, h2) =
        required-then o (authentication_error "Invalid credentials") (login_user prisma platform d)
          found h1 in
      let (active, h3) = throw_if-then (not (is_active_status user.status)) _ _ found h2 in
      let (valid, compared, compares, h4) =
        >>=-eq-ok (platform.compare d.password user.password_hash)
          (login_if_valid prisma platform d user) found h3 in
      let (accepted, h5) =
        throw_if-then (not valid) _ (issue_tokens prisma platform d user) compared h4 in
      let (row, public, more, a, b, c, e) = issue_tokens-ok d user compared h5 in
      let before : prisma.tokens compared ≡ prisma.tokens w =
        ap prisma.tokens (ap after (sym compares))
        ∙ quiet.compare_quiet d.password user.password_hash found
        ∙ find_login-ok d.username_or_email o w finds in
      (
        user,
        found,
        compared,
        row,
        finds ∙ ap (λ u. ok u found) known,
        not-false (is_active_status user.status) active,
        compares ∙ ap (λ q. ok q compared) (not-false valid accepted),
        public,
        more ∙ ap (λ ts. ts ++ row ∷ []) before,
        a,
        b,
        c,
        e,
      )
