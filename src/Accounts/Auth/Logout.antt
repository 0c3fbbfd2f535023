-- ===== src/Accounts/Auth/Logout.antt =====
-- `logout` ends the session of an access token.
use arcana_cloud_nodejs.Base.{
  ℕ, String, ◌≡◌, refl, sym, ◌∙◌, ap, subst, Bool, true, false, not, ◌||◌, Option, none, some, List,
  [], ◌∷◌, All, inl, inr, Bool-cases, str_eq, arith,
}
use arcana_cloud_nodejs.Base.Exec.{Outcome, ok, err, after, ◌>>=◌, >>=-eq-ok, ok_injective}
use arcana_cloud_nodejs.Errors.{Throwable, authentication_error}
use arcana_cloud_nodejs.Events.Domain.{logged_out, single}
use arcana_cloud_nodejs.Accounts.Models.{OAuthToken, UserPublic}
use arcana_cloud_nodejs.Accounts.Prisma.{
  Prisma, IsPrisma, Found, missing, TokenFilter, any_token, by_id, matches, revoke_matching,
}
use arcana_cloud_nodejs.Accounts.TokenDao
use arcana_cloud_nodejs.Accounts.TokenRepository
use arcana_cloud_nodejs.Accounts.Platform.{Platform, IsQuiet, emit}
use arcana_cloud_nodejs.Accounts.Auth.{
  is_access, is_revoked_token, logout, logout_found, validate_token, validate_verified,
  validate_stored,
}
use arcana_cloud_nodejs.Accounts.Auth.Steps.{
  All-Found, Found-matches, revoke_matching-All, throw_if-then, required-then, emit-quiet,
}
use arcana_cloud_nodejs.Accounts.Auth.Rotation.{revoke-ok, by_id-miss}

-- The rows with the access token are revoked.
abbrev pub Ended : String → OAuthToken → Type 0
Ended token t = str_eq t.access_token token ≡ true → t.is_revoked ≡ true

-- The rows with the access token are the row `i`.
abbrev pub AccessAt : String → ℕ → OAuthToken → Type 0
AccessAt token i t = str_eq t.access_token token ≡ true → t.id ≡ i

abbrev pub has_access : String → List OAuthToken → Bool
has_access token [] = false
has_access token (t ∷ ts) = str_eq t.access_token token || has_access token ts

abbrev by_access : String → TokenFilter
by_access token = record any_token { access_token = some token }

matches-access :
    (token : String) (t : OAuthToken) → matches (by_access token) t ≡ str_eq t.access_token token
unfolding matches
matches-access token t = ground arith

has_access-revoke_matching :
    (token : String) (q : TokenFilter) (n : ℕ) (ts : List OAuthToken)
    → has_access token (revoke_matching q n ts) ≡ has_access token ts
has_access-revoke_matching token q n [] = refl
has_access-revoke_matching token q n (t ∷ ts) = elim (Bool-cases (matches q t)) [
  | inl fits ↦
      rw fits (ap (λ b. str_eq t.access_token token || b) (has_access-revoke_matching token q n ts))
  | inr differs ↦
      rw differs
        (ap (λ b. str_eq t.access_token token || b) (has_access-revoke_matching token q n ts))
]

has_access-missing :
    (token : String) (ts : List OAuthToken)
    → All (λ t. matches (by_access token) t ≡ false) ts
    → has_access token ts ≡ false
has_access-missing token [] h = refl
has_access-missing token (t ∷ ts) (h, hs) =
    ground (arith, matches-access token t, has_access-missing token ts hs)

-- a row that is there is found
Found-has_access :
    (token : String) (ts : List OAuthToken) (o : Option OAuthToken)
    → has_access token ts ≡ true
    → Found (by_access token) ts o
    → (t : OAuthToken) × (o ≡ some t) × Found (by_access token) ts (some t)
Found-has_access token ts none there (missing all) =
    let clash = sym there ∙ has_access-missing token ts all in cc
Found-has_access token ts (some t) there found = (t, refl, found)

module _ {W : Type 0} (prisma : Prisma W) (platform : Platform W) (lawful : IsPrisma prisma)
    (quiet : IsQuiet prisma platform) where
  find_by_access_token-ok :
      (token : String) (w : W) {o : Option OAuthToken} {v : W}
      → TokenRepository.find_by_access_token prisma token w ≡ ok o v
      → Found (by_access token) (prisma.tokens v) o × (prisma.tokens v ≡ prisma.tokens w)
  unfolding TokenRepository.find_by_access_token TokenDao.get_by_access_token
  find_by_access_token-ok token w h = lawful.found _ w h

  Ended-rejects :
      (token : String) (w : W) {u : UserPublic} {v : W}
      → has_access token (prisma.tokens w) ≡ true
      → All (Ended token) (prisma.tokens w)
      → validate_token prisma platform token w ≡ ok u v
      → true ≡ false
  unfolding validate_token
  Ended-rejects token w there ended h =
      let (payload, valid, h1) =
        required-then (platform.verify token w) (authentication_error "Invalid access token")
          (validate_verified prisma platform token) w h in
      let (kind, h2) = throw_if-then (not (is_access payload.token_type)) _ _ w h1 in
      let (o, searched, finds, h3) =
        >>=-eq-ok (TokenRepository.find_by_access_token prisma token)
          (validate_stored prisma platform payload.user_id) w h2 in
      let (valid_row, h4) = throw_if-then (is_revoked_token o) _ _ searched h3 in
      let (found, same) = find_by_access_token-ok token w finds in
      let (t, known, here) =
        Found-has_access token (prisma.tokens searched) o (ap (has_access token) same ∙ there)
          found in
      sym (
        All-Found (Ended token) here (subst (All (Ended token)) (sym same) ended)
          (sym (matches-access token t) ∙ Found-matches here))
      ∙ ap is_revoked_token (sym known)
      ∙ valid_row

  -- An access token that has a row, all of whose rows are revoked, is refused.
  pub validate_token-Ended :
      (token : String) (w : W)
      → has_access token (prisma.tokens w) ≡ true
      → All (Ended token) (prisma.tokens w)
      → (e : Throwable) × (v : W) × (validate_token prisma platform token w ≡ err e v)
  validate_token-Ended token w there ended = ending (validate_token prisma platform token w) refl
    where
      ending :
          (o : Outcome W UserPublic)
          → validate_token prisma platform token w ≡ o
          → (e : Throwable) × (v : W) × (o ≡ err e v)
      ending (err e v) h = (e, v, refl)
      ending (ok u v) h = let clash = Ended-rejects token w there ended h in cc

  -- What a logout that returned has done to the rows.
  logout-rows :
      (token : String) (w : W) {b : Bool} {v : W}
      → has_access token (prisma.tokens w) ≡ true
      → logout prisma platform token w ≡ ok b v
      → (t : OAuthToken) × (n : ℕ) × Found (by_access token) (prisma.tokens w) (some t)
        × (prisma.tokens v ≡ revoke_matching (by_id t.id) n (prisma.tokens w))
  unfolding logout
  logout-rows token w {b} {v} there h =
      let (o, searched, finds, h1) =
        >>=-eq-ok (TokenRepository.find_by_access_token prisma token) (logout_found prisma platform)
          w h in
      let (found, same) = find_by_access_token-ok token w finds in
      let (t, known, here) =
        Found-has_access token (prisma.tokens searched) o (ap (has_access token) same ∙ there)
          found in
      let (n, rows) =
        revoked t searched (ap (λ o. logout_found prisma platform o searched) (sym known) ∙ h1) in
      (
        t,
        n,
        subst (λ ts. Found (by_access token) ts (some t)) same here,
        rows ∙ ap (revoke_matching (by_id t.id) n) same,
      )
    where
      revoked :
          (t : OAuthToken) (s : W)
          → logout_found prisma platform (some t) s ≡ ok b v
          → (n : ℕ) × (prisma.tokens v ≡ revoke_matching (by_id t.id) n (prisma.tokens s))
      revoked t s h1 =
          let event =
            logged_out
              (record { user_id = t.user_id; token_id = some t.id; logout_type = single }) in
          let (done, marked, marks, h2) =
            >>=-eq-ok (TokenRepository.revoke prisma t.id)
              (λ _. ◌>>=◌ (emit prisma platform event) (λ _ s. ok true s)) s h1 in
          let (sent, last, sends, h3) =
            >>=-eq-ok (emit prisma platform event) (λ _ s. ok true s) marked h2 in
          let (n, rows) = revoke-ok prisma platform lawful quiet t.id s marks in
          (
            n,
            ap prisma.tokens (sym (ok_injective h3).1 ∙ ap after (sym sends))
                ∙ emit-quiet prisma platform quiet event marked
                ∙ rows,
          )

  -- On a database that meets `IsPrisma`, with a platform that leaves the token table alone: after a
  -- logout that returned, the access token is refused, if it had a row and no two: whoever
  -- validates it gets an error, also while the token has not expired.
  pub validate_token-logout :
      (token : String) (i : ℕ) (w : W) {b : Bool} {v : W}
      → has_access token (prisma.tokens w) ≡ true
      → All (AccessAt token i) (prisma.tokens w)
      → logout prisma platform token w ≡ ok b v
      → (e : Throwable) × (u : W) × (validate_token prisma platform token v ≡ err e u)
  validate_token-logout token i w {b} {v} there only h =
      let (t, n, found, rows) = logout-rows token w there h in
      let here : t.id ≡ i =
        All-Found (AccessAt token i) found only
          (sym (matches-access token t) ∙ Found-matches found) in
      validate_token-Ended token v
        (ap (has_access token) rows
          ∙ has_access-revoke_matching token (by_id t.id) n (prisma.tokens w)
          ∙ there)
        (subst (All (Ended token)) (sym rows) (
          revoke_matching-All (AccessAt token i) (Ended token) (by_id t.id) n (prisma.tokens w)
            (λ x p fits q. refl) (λ x p differs q. by_id-miss i t.id x (p q) here differs) only))
