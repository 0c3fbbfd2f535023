-- ===== src/Base/Exec.antt =====
-- Asynchronous methods as actions on a state: an `await` runs the action, a rejected promise is a
-- throw. What was written before a throw stays written, so the state comes back beside the error.
use mathlib.Core.Path.{◌≡◌, refl}
use mathlib.Core.Bool.{Bool, true, false}
use mathlib.Core.Option.{Option, none, some}
use arcana_cloud_nodejs.Errors.{Throwable}

pub data Outcome {ℓ κ} (S : Type ℓ) (A : Type κ) : Type (ℓ ⊔ κ) where
  ok : A → S → Outcome S A
  err : Throwable → S → Outcome S A

abbrev pub Exec {ℓ κ} : Type ℓ → Type κ → Type (ℓ ⊔ κ)
Exec S A = S → Outcome S A

module _ {ℓ κ} {S : Type ℓ} {A : Type κ} where
  abbrev pub pure : A → Exec S A
  pure a s = ok a s

  abbrev pub throw : Throwable → Exec S A
  throw e s = err e s

  abbrev pub gets : (S → A) → Exec S A
  gets f s = ok (f s) s

  -- the state that an action leaves, whether it returns or throws
  abbrev pub after : Outcome S A → S
  after (ok a s) = s
  after (err e s) = s

  -- `try { await m } catch { … }`; `none` says that it was caught
  abbrev pub attempt : Exec S A → Exec S (Option A)
  attempt m s = elim (m s) [ ok a s' ↦ ok (some a) s' | err e s' ↦ ok none s' ]

  -- the same, with what was caught
  abbrev pub catching : Exec S A → Exec S (Option Throwable)
  catching m s = elim (m s) [ ok a s' ↦ ok none s' | err e s' ↦ ok (some e) s' ]

pub ok_injective {ℓ κ} :
    {S : Type ℓ} {A : Type κ} {a b : A} {s t : S} → ok a s ≡ ok b t → (a ≡ b) × (s ≡ t)
ok_injective h = (cc h, cc h)

module _ {ℓ} {S : Type ℓ} where
  -- `if (test) throw e`
  abbrev pub throw_if : Bool → Throwable → Exec S (Unit {0})
  throw_if true e s = err e s
  throw_if false e s = ok tt s

module _ {ℓ κ ι} {S : Type ℓ} {A : Type κ} {B : Type ι} where
  infixl 5 ◌>>=◌
  abbrev pub ◌>>=◌ : Exec S A → (A → Exec S B) → Exec S B
  ◌>>=◌ m f s = elim (m s) [ ok a s' ↦ f a s' | err e s' ↦ err e s' ]

  -- A block whose first action returns goes on with the rest.
  pub >>=-ok :
      (m : Exec S A) (f : A → Exec S B) (s : S) {s' : S} {a : A}
      → m s ≡ ok a s'
      → (m >>= f) s ≡ f a s'
  >>=-ok m f s e = rw (e, ◌>>=◌) refl

  -- Inversion of a block that returned.
  pub >>=-eq-ok :
      (m : Exec S A) (f : A → Exec S B) (s : S) {b : B} {t : S}
      → (m >>= f) s ≡ ok b t
      → (a : A) × (s' : S) × (m s ≡ ok a s') × (f a s' ≡ ok b t)
  >>=-eq-ok m f s {b = b} {t = t} h = split (m s) refl h
    where
      split :
          (o : Outcome S A)
          → m s ≡ o
          → elim o as (λ x. Outcome S B) [ ok a s' ↦ f a s' | err e s' ↦ err e s' ] ≡ ok b t
          → (a : A) × (s' : S) × (m s ≡ ok a s') × (f a s' ≡ ok b t)
      split (ok a s') e k = (a, s', e, k)
      split (err x s') e k = cc

module _ {ℓ κ} {S : Type ℓ} {B : Type κ} where
  infixl 5 ◌>>◌
  abbrev pub ◌>>◌ : Exec S (Unit {0}) → Exec S B → Exec S B
  m >> k = m >>= λ _. k

  pub >>-ok :
      (m : Exec S (Unit {0})) (k : Exec S B) (s : S) {s' : S} → m s ≡ ok tt s' → (m >> k) s ≡ k s'
  >>-ok m k s e = rw (e, ◌>>◌, ◌>>=◌) refl
