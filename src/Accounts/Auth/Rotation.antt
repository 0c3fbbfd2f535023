-- ===== src/Accounts/Auth/Rotation.antt =====
-- `refreshToken` spends the refresh token that it is given.
use arcana_cloud_nodejs.Base.{
  ℕ, String, ◌≡◌, ◌≢◌, refl, sym, ◌∙◌, ap, subst, Bool, true, false, Option, some, [], ◌∷◌, ◌++◌,
  All, All-append, str_eq, eq_iff, ◌==◌, arith,
}
use arcana_cloud_nodejs.Base.Exec.{Outcome, ok, err, >>=-eq-ok, ok_injective}
use arcana_cloud_nodejs.Errors.{Throwable}
use arcana_cloud_nodejs.Accounts.Models.{OAuthToken, User, TokenPair}
use arcana_cloud_nodejs.Accounts.Prisma.{
  Prisma, IsPrisma, Found, any_token, by_id, matches, revoke_matching,
}
use arcana_cloud_nodejs.Accounts.TokenDao
use arcana_cloud_nodejs.Accounts.TokenRepository
use arcana_cloud_nodejs.Accounts.UserDao
use arcana_cloud_nodejs.Accounts.UserRepository
use arcana_cloud_nodejs.Accounts.Platform.{Platform, IsQuiet}
use arcana_cloud_nodejs.Accounts.Auth.{refresh_token, generate_token_pair, save_tokens}
use arcana_cloud_nodejs.Accounts.Auth.Steps.{All-Found, Found-matches, revoke_matching-All}
use arcana_cloud_nodejs.Accounts.Auth.Refreshed.{Refreshed, refresh_token-Refreshed}

-- The rows with the refresh token are revoked.
abbrev pub Spent : String → OAuthToken → Type 0
Spent token t = str_eq t.refresh_token token ≡ true → t.is_revoked ≡ true

-- The rows with the refresh token are the row `i`.
abbrev pub OnlyAt : String → ℕ → OAuthToken → Type 0
OnlyAt token i t = str_eq t.refresh_token token ≡ true → t.id ≡ i

matches-refresh :
    (token : String) (t : OAuthToken)
    → matches (record any_token { refresh_token = some token }) t ≡ str_eq t.refresh_token token
unfolding matches
matches-refresh token t = ground arith

pub matches-by_id : (i : ℕ) (t : OAuthToken) → matches (by_id i) t ≡ (t.id == i)
unfolding matches
matches-by_id i t = ground arith

pub by_id-miss :
    (i j : ℕ) (t : OAuthToken)
    → t.id ≡ i
    → j ≡ i
    → matches (by_id j) t ≡ false
    → t.is_revoked ≡ true
by_id-miss i j t at here h = ground (arith, matches-by_id j t)

new_row :
    (token fresh : String) (t : OAuthToken)
    → fresh ≢ token
    → t.refresh_token ≡ fresh
    → str_eq t.refresh_token token ≡ true
    → t.is_revoked ≡ true
new_row token fresh t differs same q =
    elim (differs (sym same ∙ (eq_iff t.refresh_token token).0 q)) [ ]

module _ {W : Type 0} (prisma : Prisma W) (platform : Platform W) (lawful : IsPrisma prisma)
    (quiet : IsQuiet prisma platform) where
  find_by_refresh_token-ok :
      (token : String) (w : W) {o : Option OAuthToken} {v : W}
      → TokenRepository.find_by_refresh_token prisma token w ≡ ok o v
      → Found (record any_token { refresh_token = some token }) (prisma.tokens v) o
        × (prisma.tokens v ≡ prisma.tokens w)
  unfolding TokenRepository.find_by_refresh_token TokenDao.get_by_refresh_token
  find_by_refresh_token-ok token w h = lawful.found _ w h

  pub find_by_id-ok :
      (id : ℕ) (w : W) {o : Option User} {v : W}
      → UserRepository.find_by_id prisma id w ≡ ok o v
      → prisma.tokens v ≡ prisma.tokens w
  unfolding UserRepository.find_by_id UserDao.get_by_id
  find_by_id-ok id w h = lawful.users_found _ w h

  pub revoke-ok :
      (id : ℕ) (w : W) {b : Bool} {v : W}
      → TokenRepository.revoke prisma id w ≡ ok b v
      → (n : ℕ) × (prisma.tokens v ≡ revoke_matching (by_id id) n (prisma.tokens w))
  unfolding TokenRepository.revoke TokenDao.revoke
  revoke-ok id w h =
      let (t, s, done, last) = >>=-eq-ok (prisma.token_revoke id) (λ _ s. ok true s) w h in
      let (n, rows) = lawful.revoked id w done in
      (n, ap prisma.tokens (sym (ok_injective last).1) ∙ rows)

  pub generate-ok :
      (user : User) (w : W) {pair : TokenPair} {v : W}
      → generate_token_pair prisma platform user w ≡ ok pair v
      → prisma.tokens v ≡ prisma.tokens w
  unfolding generate_token_pair
  generate-ok user w h = rw (← (ok_injective h).1) (quiet.uuid_quiet w)

  pub save_tokens-ok :
      (id : ℕ) (pair : TokenPair) (ip agent : Option String) (w : W) {t : OAuthToken} {v : W}
      → save_tokens prisma platform id pair ip agent w ≡ ok t v
      → (prisma.tokens v ≡ prisma.tokens w ++ t ∷ [])
        × (t.access_token ≡ pair.access_token)
        × (t.refresh_token ≡ pair.refresh_token)
        × (t.user_id ≡ id)
        × (t.is_revoked ≡ false)
  unfolding save_tokens TokenRepository.save TokenDao.create
  save_tokens-ok id pair ip agent w h = lawful.created _ w h

  Refreshed-Spent :
      (token : String) (w : W) {pair : TokenPair} {v : W}
      → Refreshed prisma platform token w pair v
      → All (Spent token) (prisma.tokens w)
      → true ≡ false
  Refreshed-Spent token w r spent =
      let (found, same) = find_by_refresh_token-ok token w r.finds in
      sym (
        All-Found (Spent token) found (subst (All (Spent token)) (sym same) spent)
          (sym (matches-refresh token r.stored) ∙ Found-matches found))
      ∙ r.is_fresh

  -- A refresh token all of whose rows are revoked is refused.
  pub refresh_token-Spent :
      (token : String) (w : W)
      → All (Spent token) (prisma.tokens w)
      → (e : Throwable) × (v : W) × (refresh_token prisma platform token w ≡ err e v)
  refresh_token-Spent token w spent = ending (refresh_token prisma platform token w) refl
    where
      ending :
          (o : Outcome W TokenPair)
          → refresh_token prisma platform token w ≡ o
          → (e : Throwable) × (v : W) × (o ≡ err e v)
      ending (err e v) h = (e, v, refl)
      ending (ok pair v) h =
          let clash =
            Refreshed-Spent token w (refresh_token-Refreshed prisma platform token w h) spent in
          cc

  -- After a refresh that returned, the token is spent, unless the new pair repeats it.
  Spent-Refreshed :
      (token : String) (i : ℕ) (w : W) {pair : TokenPair} {v : W}
      → Refreshed prisma platform token w pair v
      → All (OnlyAt token i) (prisma.tokens w)
      → pair.refresh_token ≢ token
      → All (Spent token) (prisma.tokens v)
  Spent-Refreshed token i w {pair} {v} r only differs =
      let (found, same) = find_by_refresh_token-ok token w r.finds in
      let searched : All (OnlyAt token i) (prisma.tokens r.searched) =
        subst (All (OnlyAt token i)) (sym same) only in
      let here : r.stored.id ≡ i =
        All-Found (OnlyAt token i) found searched
          (sym (matches-refresh token r.stored) ∙ Found-matches found) in
      let loaded : All (OnlyAt token i) (prisma.tokens r.loaded) =
        subst (All (OnlyAt token i)) (sym (find_by_id-ok r.payload.user_id r.searched r.loads))
          searched in
      let (n, rows) = revoke-ok r.stored.id r.loaded r.marks in
      let marked : All (Spent token) (prisma.tokens r.marked) =
        subst (All (Spent token)) (sym rows) (
          revoke_matching-All (OnlyAt token i) (Spent token) (by_id r.stored.id) n
            (prisma.tokens r.loaded) (λ t p h q. refl)
            (λ t p h q. by_id-miss i r.stored.id t (p q) here h) loaded) in
      let signed : All (Spent token) (prisma.tokens r.signed) =
        subst (All (Spent token)) (sym (generate-ok r.user r.marked r.signs)) marked in
      let (more, a, b, c, d) =
        save_tokens-ok r.user.id pair r.stored.ip_address r.stored.user_agent r.signed r.saves in
      subst (All (Spent token)) (sym more) (
        All-append (Spent token) (prisma.tokens r.signed) (r.row ∷ []) signed
          ((λ q. new_row token pair.refresh_token r.row differs b q), tt))

  -- On a database that meets `IsPrisma`, with a platform that leaves the token table alone: a
  -- refresh that returned has spent its token: if the rows with the token were one row before, and
  -- the new pair has another refresh token, then a second refresh with the same token is an error,
  -- also where the database or the signing fails on the way.
  pub refresh_token-twice :
      (token : String) (i : ℕ) (w : W) {pair : TokenPair} {v : W}
      → All (OnlyAt token i) (prisma.tokens w)
      → refresh_token prisma platform token w ≡ ok pair v
      → pair.refresh_token ≢ token
      → (e : Throwable) × (u : W) × (refresh_token prisma platform token v ≡ err e u)
  refresh_token-twice token i w {pair} {v} only h differs =
      refresh_token-Spent token v
        (Spent-Refreshed token i w (refresh_token-Refreshed prisma platform token w h) only differs)
