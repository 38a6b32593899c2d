-- ===== src/Security/Rights.antt =====
-- kernel/src/security/mod.rs, `Rights::contains` and `access`, bit by bit.
use native.Mathlib.Nat.{pow-suc}
use Prim.Native.Nat.{bit_and, bit_or}
use alaphi_os.Base.{
  ℕ, zero, suc, ◌≡◌, ◌≤◌, ◌↔◌, true, ◌&&◌, ◌==◌, ==_iff, if◌then◌else◌, arith, max, ◌^◌, ◌-◌, ◌<◌,
  ◌/◌, min,
}
use alaphi_os.Base.Bits.{
  bit, bit-zero, bit-bit_or, bit-bit_and, bit-bit_not, bit_of_mask, mask_of_bit, bit-le-one,
  bit_not,
}
use alaphi_os.Security.{
  RbacAccessControl, contains, lookup, role_rights, access, add_rights, drop_rights, owner_bit,
  control_bit, copy_bit,
}
use alaphi_os.Security.Acl.{lookup-set}

pub contains_iff :
    (rights bits : ℕ) → (contains rights bits ≡ true) ↔ ((i : ℕ) → bit i bits ≤ bit i rights)
unfolding contains
contains_iff rights bits = (
  λ h i. bit_of_mask i rights bits ((==_iff _ bits).0 h),
  λ h. (==_iff _ bits).1 (mask_of_bit rights bits h),
)

pub contains_owner : (r : ℕ) → contains r owner_bit ≡ true → bit 4 r ≡ 1
contains_owner r h = omega (arith, (contains_iff r owner_bit).0 h 4, bit-le-one 4 r)

pub contains_control : (r : ℕ) → contains r control_bit ≡ true → bit 5 r ≡ 1
contains_control r h = omega (arith, (contains_iff r control_bit).0 h 5, bit-le-one 5 r)

pub contains_copy : (r : ℕ) → contains r copy_bit ≡ true → bit 3 r ≡ 1
contains_copy r h = omega (arith, (contains_iff r copy_bit).0 h 3, bit-le-one 3 r)

pub bit-access :
    (s : RbacAccessControl) (d o i : ℕ)
    → bit i (access s d o) ≡ max (bit i (lookup s.acl d o)) (bit i (role_rights s d))
unfolding access
bit-access s d o i = bit-bit_or i (lookup s.acl d o) (role_rights s d)

-- What `access` answers after rights are added to one entry.
pub access-add_rights :
    (s : RbacAccessControl) (target object rights d o i : ℕ)
    → bit i (access (add_rights s target object rights) d o) ≡ (
        if d == target && o == object
        then max (bit i rights) (bit i (access s d o))
        else bit i (access s d o))
unfolding add_rights role_rights
access-add_rights s target object rights d o i = ground (
  arith,
  bit-access s d o i,
  bit-access (add_rights s target object rights) d o i,
  bit-bit_or i (lookup s.acl target object) rights,
  lookup-set s.acl target object (bit_or (lookup s.acl target object) rights) d o,
)

-- What `access` answers after rights are taken from one entry: what the role gives stays.
pub access-drop_rights :
    (s : RbacAccessControl) (target object rights d o i : ℕ)
    → rights < 2 ^ 32
    → i < 32
    → bit i (access (drop_rights s target object rights) d o) ≡ (
        if d == target && o == object
        then max (min (bit i (lookup s.acl d o)) (1 - bit i rights)) (bit i (role_rights s d))
        else bit i (access s d o))
unfolding drop_rights role_rights
access-drop_rights s target object rights d o i fits h = ground (
  arith,
  bit-access s d o i,
  bit-access (drop_rights s target object rights) d o i,
  bit-bit_and i (lookup s.acl target object) (bit_not 32 rights),
  bit-bit_not 32 i rights h fits,
  lookup-set s.acl target object (bit_and (lookup s.acl target object) (bit_not 32 rights)) d o,
)

-- A right held as one bit is contained.
single_bit : (k i r : ℕ) → bit k r ≡ 1 → bit i (2 ^ k) ≤ bit i r
single_bit zero zero r h = omega arith
single_bit zero (suc i) r h = omega (arith, bit-zero i)
single_bit (suc k) zero r h = omega (arith, pow-suc 2 k)
single_bit (suc k) (suc i) r h =
    let half : 2 ^ suc k / 2 ≡ 2 ^ k = omega (arith, pow-suc 2 k) in
    rw half (single_bit k i (r / 2) h)

pub contains-bit : (k r : ℕ) → bit k r ≡ 1 → contains r (2 ^ k) ≡ true
contains-bit k r h = (contains_iff r (2 ^ k)).1 (λ i. single_bit k i r h)

-- Dropping rights raises no bit anywhere, at any width.
pub access-drop_rights-le :
    (s : RbacAccessControl) (target object rights d o i : ℕ)
    → bit i (access (drop_rights s target object rights) d o) ≤ bit i (access s d o)
unfolding drop_rights role_rights
access-drop_rights-le s target object rights d o i = ground (
  arith,
  bit-access s d o i,
  bit-access (drop_rights s target object rights) d o i,
  bit-bit_and i (lookup s.acl target object) (bit_not 32 rights),
  lookup-set s.acl target object (bit_and (lookup s.acl target object) (bit_not 32 rights)) d o,
)
