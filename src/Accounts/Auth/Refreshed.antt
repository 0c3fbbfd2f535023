-- ===== src/Accounts/Auth/Refreshed.antt =====
-- What a call of `refreshToken` that returned has done, step by step.
use arcana_cloud_nodejs.Base.{String, ◌≡◌, sym, ◌∙◌, ap, Bool, true, false, not, some, arith}
use arcana_cloud_nodejs.Base.Exec.{ok, Exec, ◌>>=◌, >>=-eq-ok, ok_injective}
use arcana_cloud_nodejs.Errors.{authentication_error}
use arcana_cloud_nodejs.Accounts.Models.{OAuthToken, User, TokenPair, is_active_status}
use arcana_cloud_nodejs.Accounts.Prisma.{Prisma}
use arcana_cloud_nodejs.Accounts.TokenRepository
use arcana_cloud_nodejs.Accounts.UserRepository
use arcana_cloud_nodejs.Accounts.Platform.{Platform, JwtPayload}
use arcana_cloud_nodejs.Accounts.Auth.{
  refresh_verified, refresh_stored, refresh_if_fresh, refresh_for, refresh_if_active, rotate,
  is_access, refresh_token, generate_token_pair, save_tokens,
}
use arcana_cloud_nodejs.Accounts.Auth.Steps.{throw_if-then, required-then}

pub not-false : (b : Bool) → not b ≡ false → b ≡ true
not-false b h = ground arith

module _ {W : Type 0} (prisma : Prisma W) (platform : Platform W) where
  -- What a call that returned has done.
  pub record Refreshed (token : String) (w : W) (pair : TokenPair) (v : W) : Type 0 where
    pub payload : JwtPayload
    pub stored : OAuthToken
    pub user : User
    pub row : OAuthToken
    pub searched : W
    pub loaded : W
    pub marked : W
    pub signed : W
    pub is_verified : platform.verify token w ≡ some payload
    pub is_refresh : is_access payload.token_type ≡ false
    pub finds : TokenRepository.find_by_refresh_token prisma token w ≡ ok (some stored) searched
    pub is_fresh : stored.is_revoked ≡ false
    pub loads : UserRepository.find_by_id prisma payload.user_id searched ≡ ok (some user) loaded
    pub done : Bool
    pub is_active : is_active_status user.status ≡ true
    pub marks : TokenRepository.revoke prisma stored.id loaded ≡ ok done marked
    pub signs : generate_token_pair prisma platform user marked ≡ ok pair signed
    pub saves :
        save_tokens prisma platform user.id pair stored.ip_address stored.user_agent signed
        ≡ ok row v

  rotate-ok :
      (stored : OAuthToken) (user : User) (w : W) {pair : TokenPair} {v : W}
      → rotate prisma platform stored user w ≡ ok pair v
      → (done : Bool) × (marked : W) × (signed : W) × (row : OAuthToken) × (TokenRepository.revoke
            prisma stored.id w
          ≡ ok done marked)
        × (generate_token_pair prisma platform user marked ≡ ok pair signed)
        × (save_tokens prisma platform user.id pair stored.ip_address stored.user_agent signed
            ≡ ok row v)
  rotate-ok stored user w {pair} {v} h =
      let save : TokenPair → Exec W OAuthToken =
        λ tokens. save_tokens prisma platform user.id tokens stored.ip_address stored.user_agent in
      let finish : TokenPair → Exec W TokenPair =
        λ tokens. ◌>>=◌ (save tokens) (λ _ s. ok tokens s) in
      let (done, marked, marks, h1) =
        >>=-eq-ok (TokenRepository.revoke prisma stored.id)
          (λ _. ◌>>=◌ (generate_token_pair prisma platform user) finish) w h in
      let (tokens, signed, signs, h2) =
        >>=-eq-ok (generate_token_pair prisma platform user) finish marked h1 in
      let (row, saved, saves, h3) = >>=-eq-ok (save tokens) (λ _ s. ok tokens s) signed h2 in
      let (same, last) = ok_injective h3 in
      (
        done,
        marked,
        signed,
        row,
        marks,
        signs ∙ ap (λ p. ok p signed) same,
        ap (λ p. save p signed) (sym same) ∙ saves ∙ ap (ok row) last,
      )

  pub refresh_token-Refreshed :
      (token : String) (w : W) {pair : TokenPair} {v : W}
      → refresh_token prisma platform token w ≡ ok pair v
      → Refreshed token w pair v
  unfolding refresh_token
  refresh_token-Refreshed token w {pair} {v} h =
      let (payload, valid, h1) =
        required-then (platform.verify token w) (authentication_error "Invalid refresh token")
          (refresh_verified prisma platform token) w h in
      let (refresh, h2) = throw_if-then (is_access payload.token_type) _ _ w h1 in
      let (o, searched, finds, h3) =
        >>=-eq-ok (TokenRepository.find_by_refresh_token prisma token)
          (refresh_stored prisma platform payload.user_id) w h2 in
      let (stored, there, h4) =
        required-then o (authentication_error "Token has been revoked")
          (refresh_if_fresh prisma platform payload.user_id) searched h3 in
      let (fresh, h5) = throw_if-then stored.is_revoked _ _ searched h4 in
      let (u, loaded, loads, h6) =
        >>=-eq-ok (UserRepository.find_by_id prisma payload.user_id)
          (refresh_for prisma platform stored) searched h5 in
      let (user, known, h7) =
        required-then u (authentication_error "User not found or inactive")
          (refresh_if_active prisma platform stored) loaded h6 in
      let (active, h8) =
        throw_if-then (not (is_active_status user.status)) _ (rotate prisma platform stored user)
          loaded h7 in
      let (done, marked, signed, row, marks, signs, saves) = rotate-ok stored user loaded h8 in
      record {
        payload = payload;
        stored = stored;
        user = user;
        row = row;
        searched = searched;
        loaded = loaded;
        marked = marked;
        signed = signed;
        is_verified = valid;
        is_refresh = refresh;
        finds = finds ∙ ap (λ o. ok o searched) there;
        is_fresh = fresh;
        loads = loads ∙ ap (λ o. ok o loaded) known;
        done = done;
        is_active = not-false (is_active_status user.status) active;
        marks = marks;
        signs = signs;
        saves = saves;
      }
