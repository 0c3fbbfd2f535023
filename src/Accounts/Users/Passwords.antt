-- ===== src/Accounts/Users/Passwords.antt =====
-- Who changes a password, and which sessions that leaves.
use arcana_cloud_nodejs.Base.{ℕ, String, ◌≡◌, sym, ◌∙◌, ap, Bool, true, not, Option, none, some}
use arcana_cloud_nodejs.Base.Exec.{ok, err, Exec, after, ◌>>=◌, >>=-eq-ok, ok_injective}
use arcana_cloud_nodejs.Events.Domain.{Payload, password_replaced}
use arcana_cloud_nodejs.Accounts.Models.{User}
use arcana_cloud_nodejs.Accounts.Prisma.{Prisma, IsPrisma, no_change}
use arcana_cloud_nodejs.Accounts.UserDao
use arcana_cloud_nodejs.Accounts.UserRepository
use arcana_cloud_nodejs.Accounts.Platform.{Platform, emit}
use arcana_cloud_nodejs.Accounts.Auth.{salt_rounds, required}
use arcana_cloud_nodejs.Accounts.Auth.Steps.{throw_if-then, required-ok}
use arcana_cloud_nodejs.Accounts.Auth.Refreshed.{not-false}
use arcana_cloud_nodejs.Accounts.Users.{
  user_not_found, found_user, change_password, check_password, replace_password, store_password,
}

module _ {W : Type 0} (prisma : Prisma W) (platform : Platform W) where
  found_user-ok :
      (find : Exec W (Option User)) (w : W) {u : User} {v : W}
      → found_user prisma platform find w ≡ ok u v
      → find w ≡ ok (some u) v
  found_user-ok find w {u} {v} h =
      let (o, s, finds, h1) = >>=-eq-ok find (λ o. required o (λ t. err user_not_found t)) w h in
      let (known, last) = required-ok o user_not_found s h1 in
      finds ∙ ap (λ o'. ok o' s) known ∙ ap (ok (some u)) last

  abbrev changed : ℕ → Payload
  changed id = password_replaced (record { user_id = id; changed_by = id; ip_address = none })

  store_password-ok :
      (id : ℕ) (hash : String) (w : W) {b : Bool} {v : W}
      → store_password prisma platform id hash w ≡ ok b v
      → (row : User) × (stored : W) × (prisma.user_update id
            (record no_change { password_hash = some hash })
            w
          ≡ ok row stored)
        × (emit prisma platform (changed id) stored ≡ ok tt v)
        × (b ≡ true)
  unfolding UserRepository.update UserDao.update
  store_password-ok id hash w {b} {v} h =
      let (u, stored, stores, h1) =
        >>=-eq-ok (UserRepository.update prisma id (record no_change { password_hash = some hash }))
          (λ _. ◌>>=◌ (emit prisma platform (changed id)) (λ _ s. ok true s)) w h in
      let (t, sent, sends, h2) =
        >>=-eq-ok (emit prisma platform (changed id)) (λ _ s. ok true s) stored h1 in
      (u, stored, stores, sends ∙ ap (ok tt) (ok_injective h2).1, sym (ok_injective h2).0)

  -- On a database that meets `IsPrisma`, where bcrypt leaves the token table alone: if a change of password
  -- returns, the answer is true, the user existed, bcrypt accepted the old password for its hash, and the
  -- hash that bcrypt made of the new one has been written to the row of the user; until then the token table
  -- is as it was, so every session is open. Last comes the publication of the event, whose handlers
  -- may do anything, and the change ends with what they leave.
  pub change_password_lem :
      (lawful : IsPrisma prisma)
      (compare_quiet : (p : String) (h : Option String) (w : W)
        → prisma.tokens (after (platform.compare p h w)) ≡ prisma.tokens w)
      (hash_quiet : (p : String) (n : ℕ) (w : W)
        → prisma.tokens (after (platform.hash p n w)) ≡ prisma.tokens w)
      (id : ℕ) (old new : String) (w : W) {b : Bool} {v : W}
      → change_password prisma platform id old new w ≡ ok b v
      → (user : User) × (found : W) × (compared : W) × (hash : String) × (hashed : W) × (row : User)
        × (stored : W) × (UserRepository.find_by_id prisma id w ≡ ok (some user) found)
        × (platform.compare old user.password_hash found ≡ ok true compared)
        × (platform.hash new 12 compared ≡ ok hash hashed)
        × (prisma.user_update id (record no_change { password_hash = some hash }) hashed
            ≡ ok row stored)
        × (prisma.tokens stored ≡ prisma.tokens w)
        × (emit prisma platform (changed id) stored ≡ ok tt v)
        × (b ≡ true)
  unfolding change_password UserRepository.find_by_id UserDao.get_by_id
  change_password_lem lawful compare_quiet hash_quiet id old new w {b} {v} h =
      let (user, found, finds, h1) =
        >>=-eq-ok (found_user prisma platform (UserRepository.find_by_id prisma id))
          (check_password prisma platform id old new) w h in
      let (valid, compared, compares, h2) =
        >>=-eq-ok (platform.compare old user.password_hash)
          (replace_password prisma platform id new) found h1 in
      let (accepted, h3) =
        throw_if-then (not valid) _
          (◌>>=◌ (platform.hash new salt_rounds) (store_password prisma platform id)) compared h2 in
      let (hash, hashed, hashes, h4) =
        >>=-eq-ok (platform.hash new salt_rounds) (store_password prisma platform id) compared h3 in
      let (row, stored, stores, sends, answer) = store_password-ok id hash hashed h4 in
      let known = found_user-ok (UserRepository.find_by_id prisma id) w finds in
      (
        user,
        found,
        compared,
        hash,
        hashed,
        row,
        stored,
        known,
        compares ∙ ap (λ q. ok q compared) (not-false valid accepted),
        hashes,
        stores,
        lawful.users_updated id _ hashed stores
            ∙ ap prisma.tokens (ap after (sym hashes))
            ∙ hash_quiet new salt_rounds compared
            ∙ ap prisma.tokens (ap after (sym compares))
            ∙ compare_quiet old user.password_hash found
            ∙ lawful.users_found _ w known,
        sends,
        answer,
      )
