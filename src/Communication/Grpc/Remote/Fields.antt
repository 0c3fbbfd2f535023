-- ===== src/Communication/Grpc/Remote/Fields.antt =====
-- What arrives in the fields of a message for the properties of an object.
use mathlib.Core.Option
use arcana_cloud_nodejs.Base.{
  String, str_eq, Bool-cases, inl, inr, if◌then◌else◌, ◌≡◌, refl, Option, none, some, List, [], ◌∷◌,
}
use arcana_cloud_nodejs.Accounts.Models.{
  UserRole, UserStatus, admin, user, guest, active, inactive, suspended, deleted, role_name,
  status_name,
}
use arcana_cloud_nodejs.Communication.Grpc.Messages.{givens, property, role_members, status_members}
use arcana_cloud_nodejs.Communication.Grpc.Channel.{Channel, sent_member, text_of, number_of}

pub sent_role-none :
    (o : Option UserRole) → sent_member role_members (Option.map role_name o) ≡ none
unfolding role_members
sent_role-none none = refl
sent_role-none (some admin) = refl
sent_role-none (some user) = refl
sent_role-none (some guest) = refl

pub sent_status-none :
    (o : Option UserStatus) → sent_member status_members (Option.map status_name o) ≡ none
unfolding status_members
sent_status-none none = refl
sent_status-none (some active) = refl
sent_status-none (some inactive) = refl
sent_status-none (some suspended) = refl
sent_status-none (some deleted) = refl

-- the first of two texts that is there
abbrev pub first_of : Option String → Option String → Option String
first_of none b = b
first_of (some s) b = some s

pub first_of-none : (o : Option String) → first_of o none ≡ o
first_of-none none = refl
first_of-none (some s) = refl

abbrev pub looked_up : String → List (String × Option String) → Option String
looked_up name [] = none
looked_up name ((k, o) ∷ l) =
    let rest = looked_up name l in if str_eq k name then first_of o rest else rest

-- What arrives in a field of the properties that may be undefined.
pub text_of-givens :
    (channel : Channel) (name : String) (l : List (String × Option String))
    → text_of channel (property name (givens l)) ≡ looked_up name l
text_of-givens channel name [] = refl
text_of-givens channel name ((k, none) ∷ l) = elim (Bool-cases (str_eq k name)) [
  | inl same ↦ rw same (text_of-givens channel name l)
  | inr other ↦ rw other (text_of-givens channel name l)
]
text_of-givens channel name ((k, some s) ∷ l) = elim (Bool-cases (str_eq k name)) [
  | inl same ↦ rw same refl
  | inr other ↦ rw other (text_of-givens channel name l)
]

pub number_of-givens :
    (channel : Channel) (name : String) (l : List (String × Option String))
    → number_of channel (property name (givens l)) ≡ 0
number_of-givens channel name [] = refl
number_of-givens channel name ((k, none) ∷ l) = number_of-givens channel name l
number_of-givens channel name ((k, some s) ∷ l) = elim (Bool-cases (str_eq k name)) [
  | inl same ↦ rw same refl
  | inr other ↦ rw other (number_of-givens channel name l)
]
