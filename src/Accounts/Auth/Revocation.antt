-- ===== src/Accounts/Auth/Revocation.antt =====
-- `revokeAllTokens` ends every session of a user.
use arcana_cloud_nodejs.Base.{
  if-false, ℕ, ◌≡◌, refl, sym, ◌∙◌, ap, Bool, true, false, not, ◌&&◌, some, List, [], ◌∷◌, ◌==◌,
  length, keep, ltb, inl, inr, Bool-cases, arith,
}
use arcana_cloud_nodejs.Base.Exec.{ok, after, ◌>>=◌, >>=-eq-ok, ok_injective}
use arcana_cloud_nodejs.Accounts.Models.{OAuthToken}
use arcana_cloud_nodejs.Accounts.Prisma.{
  Prisma, IsPrisma, TokenFilter, any_token, matches, revoked_at, revoke_matching,
}
use arcana_cloud_nodejs.Accounts.TokenDao
use arcana_cloud_nodejs.Accounts.TokenRepository
use arcana_cloud_nodejs.Accounts.Platform.{Platform, IsQuiet}
use arcana_cloud_nodejs.Accounts.Auth.{announce_revoked, revoke_all_tokens}
use arcana_cloud_nodejs.Accounts.Auth.Steps.{emit-quiet}

-- An open session of the user.
abbrev pub is_open : ℕ → OAuthToken → Bool
is_open user_id t = (t.user_id == user_id) && not t.is_revoked

abbrev open_rows : ℕ → TokenFilter
open_rows i = record any_token { user_id = some i; is_revoked = some false }

matches-open : (i : ℕ) (t : OAuthToken) → matches (open_rows i) t ≡ is_open i t
unfolding matches
matches-open i t = ground arith

keep-open : (i : ℕ) (ts : List OAuthToken) → keep (matches (open_rows i)) ts ≡ keep (is_open i) ts
keep-open i [] = refl
keep-open i (t ∷ ts) = elim (Bool-cases (is_open i t)) [
  | inl yes' ↦ rw (matches-open i t, yes') (ap (λ xs. t ∷ xs) (keep-open i ts))
  | inr no' ↦ rw (matches-open i t, no') (keep-open i ts)
]

-- a revocation of the open rows leaves none open
keep-revoked :
    (i n : ℕ) (ts : List OAuthToken) → keep (is_open i) (revoke_matching (open_rows i) n ts) ≡ []
keep-revoked i n [] = refl
keep-revoked i n (t ∷ ts) = elim (Bool-cases (is_open i t)) [
  | inl open' ↦
      rw (matches-open i t, open')
        (if-false _ _ (closed i (revoked_at n t) refl) ∙ keep-revoked i n ts)
  | inr shut ↦ rw (matches-open i t, shut) (if-false _ _ shut ∙ keep-revoked i n ts)
]
  where
    closed : (i : ℕ) (t : OAuthToken) → t.is_revoked ≡ true → is_open i t ≡ false
    closed i t h = ground arith

module _ {W : Type 0} (prisma : Prisma W) (platform : Platform W) (lawful : IsPrisma prisma)
    (quiet : IsQuiet prisma platform) where
  announce-quiet :
      (i k : ℕ) (w : W)
      → prisma.tokens (after (announce_revoked prisma platform i k w)) ≡ prisma.tokens w
  announce-quiet i k w = elim (Bool-cases (ltb 0 k)) [
    | inl some' ↦ rw some' (emit-quiet prisma platform quiet _ w)
    | inr none' ↦ rw none' refl
  ]

  revoke_all-ok :
      (i : ℕ) (w : W) {k : ℕ} {v : W}
      → TokenRepository.revoke_all_by_user_id prisma i w ≡ ok k v
      → (n : ℕ) × (prisma.tokens v ≡ revoke_matching (open_rows i) n (prisma.tokens w))
        × (k ≡ length (keep (matches (open_rows i)) (prisma.tokens w)))
  unfolding TokenRepository.revoke_all_by_user_id TokenDao.revoke_all_for_user
  revoke_all-ok i w h = lawful.revoked_many _ w h

  -- On a database that meets `IsPrisma`, with a platform that leaves the token table alone: if
  -- `revokeAllTokens` returns, it answers the number of the rows of the user that were not revoked
  -- before, and afterwards no row of the user is left that is not revoked.
  pub revoke_all_tokens_lem :
      (i : ℕ) (w : W) {k : ℕ} {v : W}
      → revoke_all_tokens prisma platform i w ≡ ok k v
      → (k ≡ length (keep (is_open i) (prisma.tokens w)))
        × (keep (is_open i) (prisma.tokens v) ≡ [])
  unfolding revoke_all_tokens
  revoke_all_tokens_lem i w {k} {v} h =
      let (count, marked, marks, h1) =
        >>=-eq-ok (TokenRepository.revoke_all_by_user_id prisma i)
          (λ count. ◌>>=◌ (announce_revoked prisma platform i count) (λ _ s. ok count s)) w h in
      let (sent, last, sends, h2) =
        >>=-eq-ok (announce_revoked prisma platform i count) (λ _ s. ok count s) marked h1 in
      let (n, rows, counted) = revoke_all-ok i w marks in
      let final : prisma.tokens v ≡ revoke_matching (open_rows i) n (prisma.tokens w) =
        ap prisma.tokens (sym (ok_injective h2).1 ∙ ap after (sym sends))
        ∙ announce-quiet i count marked
        ∙ rows in
      (
        sym (ok_injective h2).0 ∙ counted ∙ ap length (keep-open i (prisma.tokens w)),
        ap (keep (is_open i)) final ∙ keep-revoked i n (prisma.tokens w),
      )
