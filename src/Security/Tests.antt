-- ===== src/Security/Tests.antt =====
-- kernel/src/security/mod.rs at concrete inputs.
use alaphi_os.Base.{
  ℕ, ◌≡◌, ◌≤◌, ◌≢◌, refl, [], ◌∷◌, ok, err, arith, max, inl, inr, ◌==◌, Bool-cases,
}
use alaphi_os.Base.Map.{nat_key}
use alaphi_os.Base.Bits.{bit}
use alaphi_os.Security.{
  RbacAccessControl, new, define_role, assign_role, set_rights, role_rights, role_rights_of, access,
  lookup, set, set_entries, entries_or_new, find_in, find_entry, rights_of, contains, grant, revoke,
}
use alaphi_os.Security.Delegation.{grant_no_amplification, grant_exact, revoke_exact}
use alaphi_os.Security.Confinement.{granting, run, Absent, run-Absent}

-- Domain 1 owns object 7; domain 2 may read, write and copy it; role 5 gives domain 3 READ.
abbrev matrix : RbacAccessControl
matrix = record {
  acl = record {
    objects =
        (7, record { domain = 1; rights = 16 } ∷ record { domain = 2; rights = 11 } ∷ []) ∷ [];
  };
  roles = (5, 1) ∷ [];
  user_roles = (3, 5) ∷ [];
}

built : set_rights (set_rights (assign_role (define_role new 5 1) 3 5) 1 7 16) 2 7 11 ≡ matrix
unfolding set_rights assign_role define_role new set set_entries entries_or_new find_entry
built = refl

-- Domain 2 passes READ on to 4 and cannot pass on EXECUTE; the owner can.
grants :
    ((grant matrix 2 4 7 1).1 ≡ ok tt)
    × ((grant matrix 2 4 7 4).1 ≡ err tt)
    × ((grant matrix 1 4 7 4).1 ≡ ok tt)
    × ((grant matrix 3 4 7 1).1 ≡ err tt)
unfolding grant access lookup role_rights role_rights_of find_in find_entry rights_of contains
grants = (refl, refl, refl, refl)

grant_no_amplification_example :
    let after = bit 0 (access (grant matrix 2 4 7 1).0 4 7) in
    (after ≤ max (bit 0 (access matrix 4 7)) (bit 0 (access matrix 2 7)))
    × (◌≢◌ {A = ℕ} 7 7 → after ≡ bit 0 (access matrix 4 7))
unfolding access lookup role_rights role_rights_of find_in find_entry rights_of
grant_no_amplification_example = grant_no_amplification matrix 2 4 7 1 4 7 0 refl refl

grant_exact_example :
    bit 2 (access (grant matrix 1 4 7 4).0 4 7) ≡ max (bit 2 4) (bit 2 (access matrix 4 7))
unfolding grant access lookup role_rights role_rights_of find_in find_entry rights_of contains
grant_exact_example = (grant_exact matrix 1 4 7 4 4 7 2).1 refl

revoke_exact_example : bit 1 (access (revoke matrix 1 2 7 2).0 2 7) ≡ bit 1 (role_rights matrix 2)
unfolding revoke access lookup role_rights role_rights_of find_in find_entry rights_of contains
revoke_exact_example =
    ((revoke_exact matrix 1 2 7 2 2 7 1 (omega arith) (omega arith)).1 refl).0 refl

-- Nobody holds anything on object 9, whatever is asked for.
absent : Absent 9 2 matrix
unfolding access lookup role_rights role_rights_of find_in rights_of
absent d = elim (Bool-cases (d == 3)) [
  | inl e ↦ rw e (refl, refl, refl)
  | inr e ↦ rw e (refl, refl, refl)
]

run-Absent_example : Absent 9 2 (run matrix (granting 1 2 7 4 ∷ granting 2 3 9 4 ∷ []))
run-Absent_example = run-Absent 9 2 matrix (granting 1 2 7 4 ∷ granting 2 3 9 4 ∷ []) absent
