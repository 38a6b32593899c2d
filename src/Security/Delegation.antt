-- ===== src/Security/Delegation.antt =====
-- kernel/src/security/mod.rs, `grant` and `revoke`: who may change the matrix, and by how much.
use Prim.Native.Nat.{bit_and}
use alaphi_os.Base.{
  ℕ, ◌≡◌, ◌≤◌, ◌<◌, ◌≢◌, ◌⊎◌, ◌↔◌, inl, inr, refl, ap, ◌&&◌, ◌==◌, ==_iff, if◌then◌else◌, arith,
  max, ◌^◌, Result, ok, err, Bool-cases,
}
use alaphi_os.Base.Bits.{bit, bit_of_mask, mask_of_bit, bit-le-one}
use alaphi_os.Security.{
  RbacAccessControl, contains, lookup, role_rights, access, add_rights, drop_rights, grant, revoke,
  owner_bit, control_bit, copy_bit,
}
use alaphi_os.Security.Rights.{
  contains_owner, contains_control, contains_copy, contains-bit, access-add_rights,
  access-drop_rights, bit-access,
}

-- The three ways in which a grantor may have authority over an object.
abbrev pub MayGrant : ℕ → ℕ → Type 0
MayGrant g rights =
    (bit 4 g ≡ 1) ⊎ (bit 5 g ≡ 1) ⊎ ((bit 3 g ≡ 1) × ((i : ℕ) → bit i rights ≤ bit i g))

-- `grant` succeeds with authority and adds the rights, or fails, lacking it, and changes nothing.
pub grant_cases :
    (s : RbacAccessControl) (grantor target object rights : ℕ)
    → (MayGrant (access s grantor object) rights
        × (grant s grantor target object rights ≡ (add_rights s target object rights, ok tt)))
      ⊎ (grant s grantor target object rights ≡ (s, err tt))
unfolding grant
grant_cases s grantor target object rights = elim (Bool-cases (contains g owner_bit)) [
  | inl own ↦ inl (inl (contains_owner g own), rw own)
  | inr no_own ↦ elim (Bool-cases (contains g control_bit)) [
    | inl ctl ↦ inl (inr (inl (contains_control g ctl)), rw (no_own, ctl))
    | inr no_ctl ↦ elim (Bool-cases (contains g copy_bit)) [
      | inl cpy ↦ elim (Bool-cases (bit_and g rights == rights)) [
        | inl all ↦ inl (
          inr (inr (contains_copy g cpy, λ i. bit_of_mask i g rights ((==_iff _ rights).0 all))),
          rw (no_own, no_ctl, cpy, all),
        )
        | inr part ↦ inr (rw (no_own, no_ctl, cpy, part))
      ]
      | inr no_cpy ↦ inr (rw (no_own, no_ctl, no_cpy))
    ]
  ]
]
  where
    g : ℕ
    g = access s grantor object

-- `revoke` succeeds with authority and drops the rights, or fails and changes nothing.
pub revoke_cases :
    (s : RbacAccessControl) (revoker target object rights : ℕ)
    → (((bit 4 (access s revoker object) ≡ 1) ⊎ (bit 5 (access s revoker object) ≡ 1))
        × (revoke s revoker target object rights ≡ (drop_rights s target object rights, ok tt)))
      ⊎ (revoke s revoker target object rights ≡ (s, err tt))
unfolding revoke
revoke_cases s revoker target object rights = elim (Bool-cases (contains r owner_bit)) [
  | inl own ↦ inl (inl (contains_owner r own), rw own)
  | inr no_own ↦ elim (Bool-cases (contains r control_bit)) [
    | inl ctl ↦ inl (inr (contains_control r ctl), rw (no_own, ctl))
    | inr no_ctl ↦ inr (rw (no_own, no_ctl))
  ]
]
  where
    r : ℕ
    r = access s revoker object

-- A grant never amplifies: a grantor with neither OWNER nor CONTROL passes on only bits that it
-- holds itself on that object, whoever the target, and no other object's rights change at all.
pub grant_no_amplification :
    (s : RbacAccessControl) (grantor target object rights d o i : ℕ)
    → bit 4 (access s grantor object) ≡ 0
    → bit 5 (access s grantor object) ≡ 0
    → let after = bit i (access (grant s grantor target object rights).0 d o) in
      (after ≤ max (bit i (access s d o)) (bit i (access s grantor object)))
      × (o ≢ object → after ≡ bit i (access s d o))
grant_no_amplification s grantor target object rights d o i no_owner no_control =
    elim (grant_cases s grantor target object rights) [
      | inl (inl own, e) ↦ absurd (omega arith)
      | inl (inr (inl ctl), e) ↦ absurd (omega arith)
      | inl (inr (inr (_, within)), e) ↦
          rw e (ground (arith, within i, access-add_rights s target object rights d o i))
      | inr e ↦ rw e (ground arith)
    ]

differ : {r : Result (Unit {0}) (Unit {0})} → r ≡ err tt → r ≡ ok tt → ⊥
differ p q = cc

may-ok :
    (s : RbacAccessControl) (grantor target object rights : ℕ)
    → MayGrant (access s grantor object) rights
    → (grant s grantor target object rights).1 ≡ ok tt
unfolding grant
may-ok s grantor target object rights (inl own) = rw (contains-bit 4 (access s grantor object) own)
may-ok s grantor target object rights (inr (inl ctl)) =
    ground (arith, contains-bit 5 (access s grantor object) ctl)
may-ok s grantor target object rights (inr (inr (cpy, within))) = ground (
  arith,
  contains-bit 3 (access s grantor object) cpy,
  mask_of_bit (access s grantor object) rights within,
)

-- `grant` succeeds exactly if the grantor holds OWNER, or CONTROL, or COPY and every bit that it
-- passes on; then the target has those bits besides its own and no other entry changes, and a
-- refused grant leaves the state as it was.
pub grant_exact :
    (s : RbacAccessControl) (grantor target object rights d o i : ℕ)
    → let (t, result) = grant s grantor target object rights in
      ((result ≡ ok tt) ↔ MayGrant (access s grantor object) rights)
      × (result ≡ ok tt
          → bit i (access t d o) ≡ (
              if d == target && o == object
              then max (bit i rights) (bit i (access s d o))
              else bit i (access s d o)))
      × (result ≡ err tt → t ≡ s)
grant_exact s grantor target object rights d o i =
    elim (grant_cases s grantor target object rights) [
      | inl (may, e) ↦
          rw e ((λ _. may, λ _. refl), λ _. access-add_rights s target object rights d o i, λ h. cc)
      | inr e ↦ (
        (λ h. absurd (differ (ap (λ p. p.1) e) h), may-ok s grantor target object rights),
        λ h. absurd (differ (ap (λ p. p.1) e) h),
        λ h. ap (λ p. p.0) e,
      )
    ]

-- The two ways in which a revoker may have authority over an object.
abbrev pub MayRevoke : ℕ → Type 0
MayRevoke r = (bit 4 r ≡ 1) ⊎ (bit 5 r ≡ 1)

revoke-ok :
    (s : RbacAccessControl) (revoker target object rights : ℕ)
    → MayRevoke (access s revoker object)
    → (revoke s revoker target object rights).1 ≡ ok tt
unfolding revoke
revoke-ok s revoker target object rights (inl own) =
    rw (contains-bit 4 (access s revoker object) own)
revoke-ok s revoker target object rights (inr ctl) =
    ground (arith, contains-bit 5 (access s revoker object) ctl)

-- `revoke` succeeds exactly if the revoker holds OWNER or CONTROL on the object. Then it takes the
-- bits (of a `u32`) out of the target's own entry, so that the target keeps of them what its role
-- gives and nothing else, and no other entry changes; a refused one leaves the state as it was.
pub revoke_exact :
    (s : RbacAccessControl) (revoker target object rights d o i : ℕ)
    → rights < 2 ^ 32
    → i < 32
    → let (t, result) = revoke s revoker target object rights in
      ((result ≡ ok tt) ↔ MayRevoke (access s revoker object))
      × (result ≡ ok tt
          → (bit i rights ≡ 1 → bit i (access t target object) ≡ bit i (role_rights s target))
            × (bit i rights ≡ 0 → bit i (access t target object) ≡ bit i (access s target object))
            × ((d ≢ target) ⊎ (o ≢ object) → bit i (access t d o) ≡ bit i (access s d o)))
      × (result ≡ err tt → t ≡ s)
revoke_exact s revoker target object rights d o i fits h =
    elim (revoke_cases s revoker target object rights) [
      | inl (may, e) ↦ rw e (
        (λ _. may, λ _. refl),
        λ _. (
          λ set. ground (
            arith,
            access-drop_rights s target object rights target object i fits h,
            bit-access s target object i,
          ),
          λ clear. ground (
            arith,
            access-drop_rights s target object rights target object i fits h,
            bit-access s target object i,
            bit-le-one i (lookup s.acl target object),
          ),
          λ apart. ground (arith, access-drop_rights s target object rights d o i fits h),
        ),
        λ p. cc,
      )
      | inr e ↦ (
        (λ p. absurd (differ (ap (λ p. p.1) e) p), revoke-ok s revoker target object rights),
        λ p. absurd (differ (ap (λ p. p.1) e) p),
        λ p. ap (λ p. p.0) e,
      )
    ]
