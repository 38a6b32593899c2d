-- ===== src/Security.antt =====
-- kernel/src/security/mod.rs: the access matrix. Rights are the bits of a `u32`; an operation with
-- `&mut self` returns the new state beside its result. `BTreeMap` is `Base.Map`.
pub mod Acl
pub mod Rights
pub mod Delegation
pub mod Confinement
mod Tests
use Prim.Native.Nat.{bit_and, bit_or}
use alaphi_os.Base.{
  ℕ, ◌^◌, Bool, ◌||◌, Option, none, some, List, [], ◌∷◌, ◌++◌, Result, ok, err, ◌==◌, if◌then◌else◌,
  is_some,
}
use alaphi_os.Base.Map.{Map, get, insert, nat_key}
use alaphi_os.Base.Bits.{bit_not}

-- `Rights(u32)` and its associated constants.
abbrev pub none_rights : ℕ
none_rights = 0

abbrev pub copy_bit : ℕ
copy_bit = 2 ^ 3

abbrev pub owner_bit : ℕ
owner_bit = 2 ^ 4

abbrev pub control_bit : ℕ
control_bit = 2 ^ 5

unfoldable pub contains : ℕ → ℕ → Bool
contains rights bits = bit_and rights bits == bits

pub record AccessEntry : Type 0 where
  pub domain : ℕ
  pub rights : ℕ

pub record AccessList : Type 0 where
  pub objects : Map ℕ (List AccessEntry)

-- `entries.iter().find(|e| e.domain == domain)`
unfoldable pub find_entry : ℕ → List AccessEntry → Option AccessEntry
find_entry domain [] = none
find_entry domain (e ∷ es) = if e.domain == domain then some e else find_entry domain es

-- `entries.retain(|e| e.domain != domain)`
unfoldable pub retain_others : ℕ → List AccessEntry → List AccessEntry
retain_others domain [] = []
retain_others domain (e ∷ es) =
    let rest = retain_others domain es in if e.domain == domain then rest else e ∷ rest

-- the write through `iter_mut().find(…)`
unfoldable pub write_entry : ℕ → ℕ → List AccessEntry → List AccessEntry
write_entry domain rights [] = []
write_entry domain rights (e ∷ es) =
    if e.domain == domain
    then record e { rights = rights } ∷ es
    else e ∷ write_entry domain rights es

unfoldable pub rights_of : Option AccessEntry → ℕ
rights_of none = none_rights
rights_of (some e) = e.rights

unfoldable pub find_in : ℕ → Option (List AccessEntry) → Option AccessEntry
unfolding find_entry
find_in domain none = none
find_in domain (some entries) = find_entry domain entries

unfoldable pub lookup : AccessList → ℕ → ℕ → ℕ
unfolding find_in rights_of
lookup acl domain object = rights_of (find_in domain (get object acl.objects))

-- `entry(object).or_insert_with(Vec::new)`
unfoldable pub entries_or_new : Option (List AccessEntry) → List AccessEntry
entries_or_new none = []
entries_or_new (some entries) = entries

unfoldable pub set_entries : ℕ → ℕ → List AccessEntry → List AccessEntry
unfolding retain_others write_entry find_entry
set_entries domain rights entries =
    if rights == 0
    then retain_others domain entries
    else (if is_some (find_entry domain entries)
        then write_entry domain rights entries
        else entries ++ (record { domain = domain; rights = rights } ∷ []))

unfoldable pub set : AccessList → ℕ → ℕ → ℕ → AccessList
unfolding set_entries entries_or_new
set acl domain object rights = record {
  objects =
      insert object (set_entries domain rights (entries_or_new (get object acl.objects)))
        acl.objects;
}

pub record RbacAccessControl : Type 0 where
  pub acl : AccessList
  pub roles : Map ℕ ℕ
  pub user_roles : Map ℕ ℕ

unfoldable pub new : RbacAccessControl
new = record { acl = record { objects = [] }; roles = []; user_roles = [] }

unfoldable pub define_role : RbacAccessControl → ℕ → ℕ → RbacAccessControl
define_role s role rights = record s { roles = insert role rights s.roles }

unfoldable pub assign_role : RbacAccessControl → ℕ → ℕ → RbacAccessControl
assign_role s domain role = record s { user_roles = insert domain role s.user_roles }

unfoldable pub set_rights : RbacAccessControl → ℕ → ℕ → ℕ → RbacAccessControl
set_rights s domain object rights = record s { acl = set s.acl domain object rights }

unfoldable pub role_rights_of : Map ℕ ℕ → Option ℕ → ℕ
role_rights_of roles none = none_rights
role_rights_of roles (some role) = elim (get role roles) [ none ↦ none_rights | some r ↦ r ]

unfoldable pub role_rights : RbacAccessControl → ℕ → ℕ
unfolding role_rights_of
role_rights s domain = role_rights_of s.roles (get domain s.user_roles)

unfoldable pub access : RbacAccessControl → ℕ → ℕ → ℕ
access s domain object = bit_or (lookup s.acl domain object) (role_rights s domain)

-- `self.acl.set(target, object, Rights(current.0 | rights.0))`
unfoldable pub add_rights : RbacAccessControl → ℕ → ℕ → ℕ → RbacAccessControl
add_rights s target object rights = record s {
  acl = set s.acl target object (bit_or (lookup s.acl target object) rights);
}

unfoldable pub grant :
    RbacAccessControl → ℕ → ℕ → ℕ → ℕ → RbacAccessControl × Result (Unit {0}) (Unit {0})
grant s grantor target object rights =
    let g = access s grantor object in
    let copyable = bit_and g rights in
    if contains g owner_bit || contains g control_bit
    then (add_rights s target object rights, ok tt)
    else (if contains g copy_bit
        then (if copyable == rights
            then (add_rights s target object rights, ok tt)
            else (s, err tt))
        else (s, err tt))

-- `self.acl.set(target, object, Rights(current.0 & !rights.0))`
unfoldable pub drop_rights : RbacAccessControl → ℕ → ℕ → ℕ → RbacAccessControl
drop_rights s target object rights = record s {
  acl = set s.acl target object (bit_and (lookup s.acl target object) (bit_not 32 rights));
}

unfoldable pub revoke :
    RbacAccessControl → ℕ → ℕ → ℕ → ℕ → RbacAccessControl × Result (Unit {0}) (Unit {0})
revoke s revoker target object rights =
    let r = access s revoker object in
    if contains r owner_bit || contains r control_bit
    then (drop_rights s target object rights, ok tt)
    else (s, err tt)
