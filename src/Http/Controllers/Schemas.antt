-- ===== src/Http/Controllers/Schemas.antt =====
-- src/schemas/auth.schema.ts and src/schemas/user.schema.ts: whether a schema accepts a body whose fields are
-- texts, and what `validateSchema` of src/middleware/validation.middleware.ts does with the answer. What
-- zod knows of an address or an URL is a parameter.
use arcana_cloud_nodejs.Base.{
  ℕ, String, Bool, true, false, not, ◌&&◌, ◌||◌, ◌==◌, Option, none, some, List, [], ◌∷◌, leb,
  str_eq, if◌then◌else◌,
}
use arcana_cloud_nodejs.Base.Text.{codes, utf16_length}
use arcana_cloud_nodejs.Base.Exec.{Exec, ok, err}
use arcana_cloud_nodejs.Errors.{Details, validation_error}
use arcana_cloud_nodejs.Accounts.Models.{CreateUserData, UpdateUserData}
use arcana_cloud_nodejs.Communication.Interfaces.{ChangePasswordData}

-- a code of a regular expression's range
abbrev between : ℕ → ℕ → ℕ → Bool
between low high c = leb low c && leb c high

abbrev is_upper : ℕ → Bool
is_upper = between 65 90

abbrev is_lower : ℕ → Bool
is_lower = between 97 122

abbrev is_digit : ℕ → Bool
is_digit = between 48 57

abbrev is_special : ℕ → Bool
is_special c = not (is_upper c || is_lower c || is_digit c)

-- `\w`
abbrev is_word : ℕ → Bool
is_word c = is_upper c || is_lower c || is_digit c || c == 95

abbrev some_code : (ℕ → Bool) → List ℕ → Bool
some_code test [] = false
some_code test (c ∷ cs) = test c || some_code test cs

abbrev every_code : (ℕ → Bool) → List ℕ → Bool
every_code test [] = true
every_code test (c ∷ cs) = test c && every_code test cs

-- `z.string().min(least).max(most)`
abbrev has_length : ℕ → ℕ → String → Bool
has_length least most s = leb least (utf16_length s) && leb (utf16_length s) most

abbrev if_given : (String → Bool) → Option String → Bool
if_given test none = true
if_given test (some s) = test s

unfoldable pub password_is_valid : String → Bool
password_is_valid s =
    leb 8 (utf16_length s)
    && some_code is_upper (codes s)
    && some_code is_lower (codes s)
    && some_code is_digit (codes s)
    && some_code is_special (codes s)

-- `.min(3).max(50).regex(/^\w+$/)`
unfoldable pub username_is_valid : String → Bool
username_is_valid s = has_length 3 50 s && every_code is_word (codes s)

module _ (is_email : String → Bool) (is_url : String → Bool) where
  -- The schema of a registration has no role and no telephone number, and accepts a body that has more
  -- properties than it names.
  unfoldable pub register_is_valid : CreateUserData → Bool
  unfolding password_is_valid username_is_valid
  register_is_valid body =
      username_is_valid body.username
      && is_email body.email
      && password_is_valid body.password
      && if_given (has_length 1 50) body.first_name
      && if_given (has_length 1 50) body.last_name

  unfoldable pub login_is_valid : String → String → Bool
  login_is_valid username_or_email password =
      leb 1 (utf16_length username_or_email) && leb 1 (utf16_length password)

  unfoldable pub refresh_token_is_valid : String → Bool
  refresh_token_is_valid token = leb 1 (utf16_length token)

  unfoldable pub create_user_is_valid : CreateUserData → Bool
  unfolding password_is_valid username_is_valid
  create_user_is_valid body =
      username_is_valid body.username
      && is_email body.email
      && password_is_valid body.password
      && if_given (has_length 1 50) body.first_name
      && if_given (has_length 1 50) body.last_name
      && if_given (λ s. leb (utf16_length s) 20) body.phone

  unfoldable pub update_user_is_valid : UpdateUserData → Bool
  update_user_is_valid body =
      if_given is_email body.email
      && if_given (has_length 1 50) body.first_name
      && if_given (has_length 1 50) body.last_name
      && if_given (λ s. leb (utf16_length s) 20) body.phone
      && if_given is_url body.avatar_url

  unfoldable pub change_password_is_valid : ChangePasswordData → Bool
  unfolding password_is_valid
  change_password_is_valid body =
      leb 1 (utf16_length body.old_password) && password_is_valid body.new_password

-- `details[path] = message`
abbrev set_detail : String → String → Details → Details
set_detail path message [] = (path, message) ∷ []
set_detail path message ((p, m) ∷ rest) =
    let others = set_detail path message rest in
    if str_eq p path then (path, message) ∷ rest else (p, m) ∷ others

-- the loop over the issues of the error, each with its path joined by points
unfoldable pub details_of : List (String × String) → Details → Details
details_of [] details = details
details_of ((path, message) ∷ issues) details = details_of issues (set_detail path message details)

-- `issues` are those of zod's error for a body that is not accepted.
unfoldable pub validate_schema : {W : Type 0} → Bool → List (String × String) → Exec W (Unit {0})
unfolding details_of
validate_schema true issues w = ok tt w
validate_schema false issues w =
    err (validation_error "Validation failed" (some (details_of issues []))) w
