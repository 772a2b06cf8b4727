-- ===== src/Auth/Removal/Orphans.antt =====
-- That a deleted user stays listed in his groups, of mcvirt/auth/user_types/user_base.py and
-- mcvirt/auth/group/group.py.
use mcvirt.Base.{
  String, true, false, ◌==◌, Option, none, some, List, [], ◌∷◌, ◌≡◌, refl, sym, subst, ◌∙◌, arith,
  eq_iff, inl, inr, ◌⊎◌, Bool-cases,
}
use mcvirt.Base.Lists.{contains}
use mcvirt.Base.Dict.{Dict, delete}
use mcvirt.Base.Exec.{ok, err, Result-cases}
use mcvirt.Exceptions.{user_does_not_exist}
use mcvirt.Auth.Users.{
  User, UserType, UserConfig, Config, ldap_user, same_user, mem_user, get_all_usernames,
  usernames_of_type, get_user_types, search_types, get_user_by_username,
}
use mcvirt.Auth.Groups.{get_users, user_objects, get_config, item, get_vm_config}
use mcvirt.Auth.Permission.{Request}
use mcvirt.Auth.Removal.{delete_user}
use mcvirt.Auth.Removal.Members.{config_without, delete_user_config}

-- A lookup finds a user of that name, or raises UserDoesNotExistException.
search_types-cases :
    (types : List UserType) (username : String) (config : Config)
    → ((u : User) × ((search_types types username config ≡ ok u) × (u.username ≡ username)))
      ⊎ (search_types types username config ≡ err user_does_not_exist)
unfolding search_types
search_types-cases [] username config = inr refl
search_types-cases (t ∷ types) username config =
    elim (Bool-cases (contains (get_all_usernames t config) username)) [
      | inl listed ↦ inl (record { user_type = t; username = username }, (simp listed, refl))
      | inr absent ↦ simp absent (search_types-cases types username config)
    ]

user-cases :
    (username : String) (config : Config)
    → ((u : User) × ((get_user_by_username username config ≡ ok u) × (u.username ≡ username)))
      ⊎ (get_user_by_username username config ≡ err user_does_not_exist)
unfolding get_user_by_username
user-cases username config = search_types-cases get_user_types username config

mem_listed :
    (user u : User) (us : List User) (names : List String)
    → (mem_user user us ≡ true → contains names user.username ≡ true)
    → mem_user user (u ∷ us) ≡ true
    → contains (u.username ∷ names) user.username ≡ true
unfolding mem_user same_user contains
mem_listed user u us names rest member = elim (Bool-cases (u.username == user.username)) [
  | inl same ↦ simp same
  | inr other ↦ ground (arith, same_user)
]

-- The name of a member is among the names that his group lists.
user_objects-listed :
    (user : User) (names : List String) (config : Config) (users : List User)
    → user_objects names config ≡ ok users
    → mem_user user users ≡ true
    → contains names user.username ≡ true
unfolding user_objects mem_user same_user contains
user_objects-listed user [] config users found member = ground arith
user_objects-listed user (name ∷ names) config users found member = elim (user-cases name config) [
  | inl (u, (known, named)) ↦ elim (Result-cases (user_objects names config)) [
    | inl (us, rest) ↦
        let both : ok (u ∷ us) ≡ ok users = sym (simp (known, rest)) ∙ found in
        let same : u ∷ us ≡ users = cc in
        let member_of : mem_user user (u ∷ us) ≡ true =
          subst (λ l. mem_user user l ≡ true) (sym same) member in
        subst (λ n. contains (n ∷ names) user.username ≡ true) named
          (mem_listed user u us names (user_objects-listed user names config us rest) member_of)
    | inr (e, failed) ↦ let both : err e ≡ ok users = sym (simp (known, failed)) ∙ found in cc
  ]
  | inr unknown ↦ let both : err user_does_not_exist ≡ ok users = sym (simp unknown) ∙ found in cc
]

-- One name without a user makes the list of the objects raise.
user_objects-unknown :
    (username : String) (names : List String) (config : Config)
    → get_user_by_username username config ≡ err user_does_not_exist
    → contains names username ≡ true
    → user_objects names config ≡ err user_does_not_exist
unfolding user_objects contains
user_objects-unknown username [] config unknown listed = ground arith
user_objects-unknown username (name ∷ names) config unknown listed = elim (user-cases name config) [
  | inl (u, (known, named)) ↦ elim (Bool-cases (name == username)) [
    | inl same ↦
        let here : name ≡ username = ground (arith, eq_iff name username) in
        simp
          (subst (λ n. get_user_by_username n config ≡ err user_does_not_exist) (sym here) unknown)
    | inr other ↦
        simp (known, user_objects-unknown username names config unknown (sym (simp other) ∙ listed))
  ]
  | inr missing ↦ simp missing
]

usernames_of_type-delete :
    (t : UserType) (username : String) (users : Dict UserConfig)
    → contains (usernames_of_type t (delete username users)) username ≡ false
unfolding usernames_of_type delete contains
usernames_of_type-delete t username [] = refl
usernames_of_type-delete t username ((name, config) ∷ users) =
    ground (arith, usernames_of_type-delete t username users)

get_all_usernames-without :
    (t : UserType) (user : User) (config : Config)
    → contains config.ldap_usernames user.username ≡ false
    → contains (get_all_usernames t (config_without user config)) user.username ≡ false
unfolding get_all_usernames
get_all_usernames-without ldap_user user config not_ldap = not_ldap
get_all_usernames-without t user config not_ldap =
    usernames_of_type-delete t user.username config.users

search_types-without :
    (types : List UserType) (user : User) (config : Config)
    → contains config.ldap_usernames user.username ≡ false
    → search_types types user.username (config_without user config) ≡ err user_does_not_exist
unfolding search_types
search_types-without [] user config not_ldap = refl
search_types-without (t ∷ types) user config not_ldap =
    simp (get_all_usernames-without t user config not_ldap)
      (search_types-without types user config not_ldap)

-- Deleting a user does not change the names that a group lists.
names_kept :
    (id : String) (vm : Option String) (user : User) (config : Config) (users : List User)
    → get_users id vm config ≡ ok users
    → (names : List String) × ((user_objects names config ≡ ok users)
        × (get_users id vm (config_without user config)
            ≡ user_objects names (config_without user config)))
unfolding get_users get_config
names_kept id none user config users found = elim (Result-cases (item config.groups id)) [
  | inl (group, e) ↦ (group.users, (sym (simp e) ∙ found, simp e))
  | inr (x, e) ↦ let both : err x ≡ ok users = sym (simp e) ∙ found in cc
]
names_kept id (some vm) user config users found =
    elim (Result-cases (item config.virtual_machines vm)) [
      | inl (permissions, e) ↦ (get_vm_config id permissions, (sym (simp e) ∙ found, simp e))
      | inr (x, e) ↦ let both : err x ≡ ok users = sym (simp e) ∙ found in cc
    ]

-- If a user whom the LDAP server does not know is a member of a group, globally or on a virtual
-- machine, and `delete` of the user returns, then asking the group for these members raises
-- UserDoesNotExistException afterwards: the group still lists the user.
pub deleted_member_orphaned :
    (user : User) (id : String) (vm : Option String) (users : List User) (r : Request)
    → get_users id vm r.config ≡ ok users
    → mem_user user users ≡ true
    → contains r.config.ldap_usernames user.username ≡ false
    → (delete_user user r).0 ≡ ok tt
    → get_users id vm (delete_user user r).1.config ≡ err user_does_not_exist
unfolding get_user_by_username
deleted_member_orphaned user id vm users r found member not_ldap deleted =
    let (names, (before, after)) = names_kept id vm user r.config users found in
    let gone = search_types-without get_user_types user r.config not_ldap in
    rw (delete_user_config user r deleted) (
      after
      ∙ user_objects-unknown user.username names (config_without user r.config) gone
          (user_objects-listed user names r.config users before member))
