-- ===== src/Security/Confinement.antt =====
-- kernel/src/security/mod.rs: what a sequence of `SYS_GRANT` and `SYS_REVOKE` calls can reach.
use alaphi_os.Base.{ℕ, ◌≡◌, inl, inr, List, [], ◌∷◌, arith}
use alaphi_os.Base.Bits.{bit}
use alaphi_os.Security.{RbacAccessControl, access, grant, revoke}
use alaphi_os.Security.Rights.{access-add_rights, access-drop_rights-le}
use alaphi_os.Security.Delegation.{grant_cases, revoke_cases}

-- A call by some domain, the first argument: target, object and rights follow.
pub data Request : Type 0 where
  granting revoking : ℕ → ℕ → ℕ → ℕ → Request

unfoldable pub step : RbacAccessControl → Request → RbacAccessControl
step s (granting by target object rights) = (grant s by target object rights).0
step s (revoking by target object rights) = (revoke s by target object rights).0

unfoldable pub run : RbacAccessControl → List Request → RbacAccessControl
run s [] = s
run s (r ∷ rs) = run (step s r) rs

-- Nobody owns or controls the object, and nobody holds bit `k` of it.
abbrev pub Absent : ℕ → ℕ → RbacAccessControl → Type 0
Absent o k s =
    (d : ℕ) → (bit 4 (access s d o) ≡ 0) × (bit 5 (access s d o) ≡ 0) × (bit k (access s d o) ≡ 0)

granted_bit :
    (o : ℕ) (s : RbacAccessControl) (by target object rights d j : ℕ)
    → bit 4 (access s by o) ≡ 0
    → bit 5 (access s by o) ≡ 0
    → bit j (access s by o) ≡ 0
    → bit j (access s d o) ≡ 0
    → bit j (access (grant s by target object rights).0 d o) ≡ 0
granted_bit o s by target object rights d j p q r z = elim (grant_cases s by target object rights) [
  | inl (inl own, e) ↦ rw e (ground (arith, access-add_rights s target object rights d o j))
  | inl (inr (inl ctl), e) ↦ rw e (ground (arith, access-add_rights s target object rights d o j))
  | inl (inr (inr (_, within)), e) ↦
      rw e (ground (arith, within j, access-add_rights s target object rights d o j))
  | inr e ↦ rw e z
]

revoked_bit :
    (o : ℕ) (s : RbacAccessControl) (by target object rights d j : ℕ)
    → bit j (access s d o) ≡ 0
    → bit j (access (revoke s by target object rights).0 d o) ≡ 0
revoked_bit o s by target object rights d j z = elim (revoke_cases s by target object rights) [
  | inl (_, e) ↦ rw e (omega (arith, access-drop_rights-le s target object rights d o j))
  | inr e ↦ rw e z
]

step-Absent : (o k : ℕ) (s : RbacAccessControl) (r : Request) → Absent o k s → Absent o k (step s r)
unfolding step
step-Absent o k s (granting by target object rights) h d =
    (keep 4 (h d).0 (h by).0, keep 5 (h d).1 (h by).1, keep k (h d).2 (h by).2)
  where
    keep :
        (j : ℕ)
        → bit j (access s d o) ≡ 0
        → bit j (access s by o) ≡ 0
        → bit j (access (grant s by target object rights).0 d o) ≡ 0
    keep j z r = granted_bit o s by target object rights d j (h by).0 (h by).1 r z
step-Absent o k s (revoking by target object rights) h d = (
  revoked_bit o s by target object rights d 4 (h d).0,
  revoked_bit o s by target object rights d 5 (h d).1,
  revoked_bit o s by target object rights d k (h d).2,
)

-- A right on an object that nobody holds, nobody owns and nobody controls is never held again,
-- whatever sequence of grants and revocations the domains ask for, on this object and on others.
pub run-Absent :
    (o k : ℕ) (s : RbacAccessControl) (rs : List Request) → Absent o k s → Absent o k (run s rs)
unfolding run
run-Absent o k s [] h = h
run-Absent o k s (r ∷ rs) h = run-Absent o k (step s r) rs (step-Absent o k s r h)
